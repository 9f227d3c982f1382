-- ===== src/StreamCopy/Logs.antt =====
-- What the kernel documents of its calls, in terms of the bytes that were read from a descriptor and
-- the bytes that it has taken.
use tcp_impliment.Common.{ℕ, ◌≡◌, ◌≢◌, List, ◌++◌, take}
use tcp_impliment.Buffer.{joined}
use tcp_impliment.EventLoop.{PollFd, Polled}
use tcp_impliment.FileDescriptor.{Kernel, value}
use tcp_impliment.Socket.{SocketCalls}

-- The bytes that were read from each descriptor, and those that it has taken.
pub record Logs {ℓ} (K : Type ℓ) : Type ℓ where
  pub handed : K → ℕ → List ℕ
  pub sent : K → ℕ → List ℕ

module _ {ℓ} {K : Type ℓ} (logs : Logs K) where
  -- Nothing was read or taken between the two states.
  abbrev pub IsStill : K → K → Type 0
  IsStill k k' =
      ((fd : ℕ) → logs.handed k' fd ≡ logs.handed k fd)
      × ((fd : ℕ) → logs.sent k' fd ≡ logs.sent k fd)

  -- A read returns the next bytes of its descriptor, and a write takes the first ones that it is
  -- offered, as many as it returns; they leave the other descriptors alone, as every other call does
  -- with all.
  pub record Documented (kernel : Kernel K) (calls : SocketCalls K)
      (poll : K → List PollFd → Polled × K) : Type ℓ where
    pub reads :
        (k k' : K) (fd n : ℕ) (bytes : List ℕ)
        → kernel.read k fd n ≡ (value bytes, k')
        → (logs.handed k' fd ≡ logs.handed k fd ++ bytes)
          × ((other : ℕ) → other ≢ fd → logs.handed k' other ≡ logs.handed k other)
          × ((other : ℕ) → logs.sent k' other ≡ logs.sent k other)
    pub writes :
        (k k' : K) (fd n : ℕ) (views : List (List ℕ))
        → kernel.writev k fd views ≡ (value n, k')
        → (logs.sent k' fd ≡ logs.sent k fd ++ take n (joined views))
          × ((other : ℕ) → other ≢ fd → logs.sent k' other ≡ logs.sent k other)
          × ((other : ℕ) → logs.handed k' other ≡ logs.handed k other)
    pub closes : (k : K) (fd : ℕ) → IsStill k (kernel.close k fd).1
    pub gets_flags : (k : K) (fd : ℕ) → IsStill k (kernel.get_flags k fd).1
    pub sets_flags : (k : K) (fd flags : ℕ) → IsStill k (kernel.set_flags k fd flags).1
    pub shuts_down : (k : K) (fd how : ℕ) → IsStill k (calls.shutdown k fd how).1
    pub polls : (k : K) (fds : List PollFd) → IsStill k (poll k fds).1
