-- ===== src/Socket.antt =====
-- libsponge/util/socket.hh and socket.cc: sockets over the calls of the kernel. An `Address` of IPv4
-- is its number and its port. A call returns `none` for an exception.
pub mod Calls
use tcp_impliment.Common.{
  ℕ, ◌==◌, Bool, true, false, ◌&&◌, ◌||◌, not, Option, none, some, List, length, take, ltb,
  if◌then◌else◌, ◌>>=◌,
}
use tcp_impliment.Buffer.BufferViewList
use tcp_impliment.FileDescriptor
use tcp_impliment.FileDescriptor.{Returned, checked, FdWrapper, register_read, register_write}
use tcp_impliment.TcpOverIp.{Address}

-- The calls on sockets. An option is its value and the value's length; a datagram its source, what
-- of it fits, and its own length, which `MSG_TRUNC` asks for.
pub record SocketCalls {ℓ} (K : Type ℓ) : Type ℓ where
  pub socket : K → ℕ → ℕ → Returned ℕ × K
  pub get_domain : K → ℕ → Returned (ℕ × ℕ) × K
  pub get_type : K → ℕ → Returned (ℕ × ℕ) × K
  pub getsockname : K → ℕ → Returned Address × K
  pub getpeername : K → ℕ → Returned Address × K
  pub bind : K → ℕ → Address → Returned (Unit {0}) × K
  pub connect : K → ℕ → Address → Returned (Unit {0}) × K
  pub shutdown : K → ℕ → ℕ → Returned (Unit {0}) × K
  pub recvfrom : K → ℕ → ℕ → Returned (Address × List ℕ × ℕ) × K
  pub sendmsg : K → ℕ → Option Address → List (List ℕ) → Returned ℕ × K
  pub listen : K → ℕ → ℕ → Returned (Unit {0}) × K
  pub accept : K → ℕ → Returned ℕ × K
  pub set_reuseaddr : K → ℕ → Bool → Returned (Unit {0}) × K

-- The values of <sys/socket.h>.
abbrev pub shut_rd : ℕ
shut_rd = 0

abbrev pub shut_wr : ℕ
shut_wr = 1

abbrev pub shut_rdwr : ℕ
shut_rdwr = 2

abbrev pub af_inet : ℕ
af_inet = 2

abbrev pub sock_stream : ℕ
sock_stream = 1

abbrev pub sizeof_int : ℕ
sizeof_int = 4

-- `received_datagram`
pub record ReceivedDatagram : Type 0 where
  pub source_address : Address
  pub payload : List ℕ

-- What a shutdown counts as, by its argument.
abbrev pub registered : FdWrapper → ℕ → Option FdWrapper
registered f how =
    if how == shut_rd
    then some (register_read f)
    else if how == shut_wr
    then some (register_write f)
    else if how == shut_rdwr
    then some (register_write (register_read f))
    else none

-- An option that is not what was expected throws.
abbrev pub is_option : ℕ → ℕ × ℕ → Bool
is_option expected (actual_value, len) = len == sizeof_int && actual_value == expected

module _ {ℓ} {K : Type ℓ} (calls : SocketCalls K) where
  unfoldable pub new : K → ℕ → ℕ → Option (FdWrapper × K)
  new k domain type =
      let (ret, k') = calls.socket k domain type in
      checked ret >>= λ fd. some (FileDescriptor.new fd, k')

  unfoldable pub from_descriptor : FdWrapper × K → ℕ → ℕ → Option (FdWrapper × K)
  from_descriptor (f, k) domain type =
      let (ret, k') = calls.get_domain k f.fd in
      checked ret >>= λ actual_domain.
      if not (is_option domain actual_domain)
      then none
      else (let (ret', k'') = calls.get_type k' f.fd in
          checked ret' >>= λ actual_type.
          if not (is_option type actual_type) then none else some (f, k''))

  unfoldable pub local_address : FdWrapper × K → Option (Address × K)
  local_address (f, k) =
      let (ret, k') = calls.getsockname k f.fd in checked ret >>= λ address. some (address, k')

  unfoldable pub peer_address : FdWrapper × K → Option (Address × K)
  peer_address (f, k) =
      let (ret, k') = calls.getpeername k f.fd in checked ret >>= λ address. some (address, k')

  unfoldable pub bind : FdWrapper × K → Address → Option (FdWrapper × K)
  bind (f, k) address =
      let (ret, k') = calls.bind k f.fd address in checked ret >>= λ _. some (f, k')

  unfoldable pub connect : FdWrapper × K → Address → Option (FdWrapper × K)
  connect (f, k) address =
      let (ret, k') = calls.connect k f.fd address in checked ret >>= λ _. some (f, k')

  unfoldable pub shutdown : FdWrapper × K → ℕ → Option (FdWrapper × K)
  shutdown (f, k) how =
      let (ret, k') = calls.shutdown k f.fd how in
      checked ret >>= λ _. registered f how >>= λ f'. some (f', k')

  -- `UDPSocket::recv`: a datagram that is longer than `mtu` throws.
  unfoldable pub recv : FdWrapper × K → ℕ → Option (ReceivedDatagram × FdWrapper × K)
  recv (f, k) mtu =
      let (ret, k') = calls.recvfrom k f.fd mtu in
      checked ret >>= λ (source_address, payload, recv_len).
      if ltb mtu recv_len
      then none
      else some (
        record { source_address = source_address; payload = take recv_len payload },
        register_read f,
        k',
      )

  -- `sendmsg_helper`: the whole payload goes out, or the call throws.
  unfoldable pub send_message :
      FdWrapper × K → Option Address → List (List ℕ) → Option (FdWrapper × K)
  send_message (f, k) destination payload =
      let (ret, k') = calls.sendmsg k f.fd destination payload in
      checked ret >>= λ bytes_sent.
      if not (bytes_sent == BufferViewList.size payload) then none else some (register_write f, k')

  abbrev pub sendto : FdWrapper × K → Address → List (List ℕ) → Option (FdWrapper × K)
  sendto o destination payload = send_message o (some destination) payload

  abbrev pub send : FdWrapper × K → List (List ℕ) → Option (FdWrapper × K)
  send o payload = send_message o none payload

  unfoldable pub listen : FdWrapper × K → ℕ → Option (FdWrapper × K)
  listen (f, k) backlog =
      let (ret, k') = calls.listen k f.fd backlog in checked ret >>= λ _. some (f, k')

  -- `TCPSocket::accept`: the listening socket, the new one, and the kernel.
  unfoldable pub accept : FdWrapper × K → Option (FdWrapper × FdWrapper × K)
  accept (f, k) =
      let (ret, k') = calls.accept k f.fd in
      checked ret >>= λ fd.
      from_descriptor (FileDescriptor.new fd, k') af_inet sock_stream >>= λ (peer, k'').
      some (register_read f, peer, k'')

  unfoldable pub set_reuseaddr : FdWrapper × K → Option (FdWrapper × K)
  set_reuseaddr (f, k) =
      let (ret, k') = calls.set_reuseaddr k f.fd true in checked ret >>= λ _. some (f, k')
