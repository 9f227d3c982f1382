-- ===== src/SpongeSocket/Receiving.antt =====
-- Each rule of the thread, and what the application has been handed.
use tcp_impliment.Common.{
  some_back, bind_back, guard_back, subst, ℕ, ◌<◌, ◌==◌, ◌≡◌, refl, sym, ap, ◌∙◌, Bool, true, false,
  not, Option, none, some, List, ◌++◌, length, take, min, All, if◌then◌else◌,
}
use tcp_impliment.Common.Words.{u32_mod}
use tcp_impliment.WrappingInt.{WrappingInt32}
use tcp_impliment.ByteStream
use tcp_impliment.ByteStream.{ByteStream}
use tcp_impliment.ByteStream.Pieces.{take-peek_output}
use tcp_impliment.Segment.{TcpSegment}
use tcp_impliment.Receiver.Following.{IsFollowing, IsPart}
use tcp_impliment.Receiver.Reading.{pop_output-IsFollowing}
use tcp_impliment.Connection
use tcp_impliment.Connection.{TcpConnection, inbound_stream, remaining_outbound_capacity}
use tcp_impliment.Connection.Incoming.{
  receiver-write, receiver-end_input_stream, segment_received-Follows,
}
use tcp_impliment.EventLoop.Keeping.{Keeps}
use tcp_impliment.SpongeSocket.{
  Adapter, Stream, TcpThread, give, set_inbound, finished, receive_datagram, end_outbound,
  read_outbound, end_inbound, write_inbound, send_all, send_segments, rules,
}
use tcp_impliment.SpongeSocket.Piping.{IsPipe}

module _ {ℓ} {A D : Type ℓ} (adapter : Adapter A) (stream : Stream D)
    (received available : D → List ℕ) (pipe : IsPipe stream received available)
    (peer : WrappingInt32) (T : ℕ → ℕ) where
  -- Every segment that the adapter hands up is a part of the peer's stream.
  pub record HandsUp : Type ℓ where
    pub parts :
        (a a' : A) (seg : TcpSegment) → adapter.read a ≡ some (a', some seg) → IsPart peer T seg

  -- The receiver follows the peer, and the application has been handed what was taken from it.
  pub record IsServed (t : TcpThread A D) : Type ℓ where
    pub following : IsFollowing peer T t.tcp.receiver (received t.thread_data)

  pub same-IsServed :
      (t t' : TcpThread A D)
      → IsServed t
      → t'.tcp.receiver ≡ t.tcp.receiver
      → received t'.thread_data ≡ received t.thread_data
      → IsServed t'
  same-IsServed t t' h r d = record {
    following =
        subst (λ x. IsFollowing peer T x (received t'.thread_data)) (sym r)
          (subst (λ x. IsFollowing peer T t.tcp.receiver x) (sym d) h.following);
  }

  module _ (up : HandsUp) (small : peer < u32_mod) where
    give-IsFollowing :
        (tcp : TcpConnection) (a a' : A) (seg : Option TcpSegment) (got : List ℕ)
        → adapter.read a ≡ some (a', seg)
        → IsFollowing peer T tcp.receiver got
        → IsFollowing peer T (give tcp seg).receiver got
    give-IsFollowing tcp a a' none got e f = f
    give-IsFollowing tcp a a' (some seg) got e f =
        segment_received-Follows peer T small tcp seg got f (up.parts a a' seg e)

    noted-IsServed :
        (b : Bool) (t : TcpThread A D)
        → IsServed t
        → IsServed (if b then record t { fully_acked = true } else t)
    noted-IsServed true t h = record { following = h.following }
    noted-IsServed false t h = h

    receive_datagram-IsServed :
        (t t' : TcpThread A D)
        → IsServed t
        → receive_datagram adapter stream t ≡ some t'
        → IsServed t'
    unfolding receive_datagram
    receive_datagram-IsServed t t' h e =
        let ((a, seg), read, done) = bind_back (adapter.read t.datagram_adapter) _ t' e in
        let t1 : TcpThread A D = record t { datagram_adapter = a; tcp = give t.tcp seg } in
        subst IsServed (some_back _ _ done) (
          noted-IsServed _ t1 (record {
            following =
                give-IsFollowing t.tcp t.datagram_adapter a seg (received t.thread_data) read
                  h.following;
          }))

    end_outbound-IsServed :
        (t : TcpThread A D) → IsServed t → IsServed (end_outbound adapter stream t)
    end_outbound-IsServed t h =
        same-IsServed t (end_outbound adapter stream t) h (receiver-end_input_stream t.tcp) refl

    ended-IsServed :
        (b : Bool) (t : TcpThread A D)
        → IsServed t
        → IsServed (if b then end_outbound adapter stream t else t)
    ended-IsServed true t h = end_outbound-IsServed t h
    ended-IsServed false t h = h

    read_outbound-IsServed :
        (t t' : TcpThread A D) → IsServed t → read_outbound adapter stream t ≡ some t' → IsServed t'
    unfolding read_outbound
    read_outbound-IsServed t t' h e =
        let limit = remaining_outbound_capacity t.tcp in
        let ((bytes, d), read, after) = bind_back (stream.read t.thread_data limit) _ t' e in
        let t1 : TcpThread A D = record t {
          tcp = (Connection.write t.tcp bytes).1;
          thread_data = d;
        } in
        let (_, done) =
          guard_back (not ((Connection.write t.tcp bytes).0 == length bytes))
            (some (if stream.eof d then end_outbound adapter stream t1 else t1)) t' after in
        subst IsServed (some_back _ _ done) (
          ended-IsServed (stream.eof d) t1 (
            same-IsServed t t1 h (receiver-write t.tcp bytes)
              (pipe.reads_apart t.thread_data d limit bytes read)))

    ended_inbound-IsServed :
        (b : Bool) (t t' : TcpThread A D)
        → IsServed t
        → (if b then end_inbound adapter stream t else some t) ≡ some t'
        → IsServed t'
    ended_inbound-IsServed false t t' h e = subst IsServed (some_back _ _ e) h
    ended_inbound-IsServed true t t' h e =
        let (d, shut, done) = bind_back (stream.shutdown_write t.thread_data) _ t' e in
        subst IsServed (some_back _ _ done) (
          same-IsServed t (record t { thread_data = d; inbound_shutdown = true }) h refl
            (pipe.shutdowns t.thread_data d shut))

    write_inbound-IsServed :
        (t t' : TcpThread A D) → IsServed t → write_inbound adapter stream t ≡ some t' → IsServed t'
    unfolding write_inbound
    write_inbound-IsServed t t' h e =
        let s = inbound_stream t.tcp in
        let amount = min 65536 (ByteStream.buffer_size s) in
        let ((n, d), wrote, after) =
          bind_back (stream.write t.thread_data (ByteStream.peek_output s amount)) _ t' e in
        let (within, got) = pipe.writes t.thread_data d n (ByteStream.peek_output s amount) wrote in
        let popped = ByteStream.pop_output s n in
        let handed : received d ≡ received t.thread_data ++ take (min s.size n) s.buffer =
          got ∙ ap (λ l. received t.thread_data ++ l) (take-peek_output s n amount within) in
        ended_inbound-IsServed (finished popped)
          (record t { tcp = set_inbound t.tcp popped; thread_data = d }) t'
          (record {
            following =
                subst (λ x. IsFollowing peer T (set_inbound t.tcp popped).receiver x) (sym handed)
                  (pop_output-IsFollowing peer T t.tcp.receiver (received t.thread_data) n
                    h.following);
          })
          after

    send_segments-IsServed :
        (t t' : TcpThread A D) → IsServed t → send_segments adapter stream t ≡ some t' → IsServed t'
    unfolding send_segments
    send_segments-IsServed t t' h e =
        let (a, _, done) =
          bind_back (send_all adapter stream t.datagram_adapter t.tcp.segments_out) _ t' e in
        subst IsServed (some_back _ _ done) (record { following = h.following })

    pub rules-Keep : All (Keeps IsServed) (rules adapter stream)
    rules-Keep = (
      record { by_callback = receive_datagram-IsServed; by_cancel = λ t h. h },
      (
        record { by_callback = read_outbound-IsServed; by_cancel = end_outbound-IsServed },
        (
          record { by_callback = write_inbound-IsServed; by_cancel = λ t h. h },
          (record { by_callback = send_segments-IsServed; by_cancel = λ t h. h }, tt),
        ),
      ),
    )
