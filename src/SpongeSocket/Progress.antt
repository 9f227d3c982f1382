-- ===== src/SpongeSocket/Progress.antt =====
-- The rules of the thread and the event loop's test for a busy wait.
use tcp_impliment.Common.{
  length, guard_back, not, subst, bind_back, get_or, ℕ, ◌==◌, ◌≡◌, ◌≢◌, refl, sym, ap, ◌∙◌, arith,
  Bool, true, false, ◌⊎◌, inl, inr, Option, some, List, [], All, if◌then◌else◌,
}
use tcp_impliment.Common.Words.{add32}
use tcp_impliment.Segment.{TcpSegment}
use tcp_impliment.Connection
use tcp_impliment.Connection.{inbound_stream, remaining_outbound_capacity}
use tcp_impliment.EventLoop.Serving.{Serves-serve, next_count}
use tcp_impliment.EventLoop.{PollFd, Polled, serve}
use tcp_impliment.SpongeSocket.{
  Adapter, Stream, TcpThread, receive_datagram, end_outbound, read_outbound, end_inbound,
  write_inbound, send_all, send_segments, is_empty, rules, system, datagram_rule, outbound_rule,
  inbound_rule, segment_rule,
}

-- A read of the adapter is seen in the count of its descriptor.
pub record CountsReads {ℓ} {A : Type ℓ} (adapter : Adapter A) : Type ℓ where
  pub adapter_reads :
      (a a' : A) (seg : Option TcpSegment)
      → adapter.read a ≡ some (a', seg)
      → adapter.read_count a ≢ adapter.read_count a'

-- The stream's descriptor counts each read, and each write and shutdown of its writing end.
pub record Counts {ℓ} {D : Type ℓ} (stream : Stream D) : Type ℓ where
  pub stream_reads :
      (d d' : D) (n : ℕ) (bytes : List ℕ)
      → stream.read d n ≡ some (bytes, d')
      → stream.read_count d' ≡ add32 (stream.read_count d) 1
  pub stream_writes :
      (d d' : D) (n : ℕ) (bytes : List ℕ)
      → stream.write d bytes ≡ some (n, d')
      → stream.write_count d' ≡ add32 (stream.write_count d) 1
  pub shutdowns :
      (d d' : D)
      → stream.shutdown_write d ≡ some d'
      → stream.write_count d' ≡ add32 (stream.write_count d) 1

module _ {ℓ} {A D : Type ℓ} (adapter : Adapter A) (stream : Stream D) (reads : CountsReads adapter)
    (counts : Counts stream) where
  abbrev set_acked : Bool → TcpThread A D → TcpThread A D
  set_acked b t = if b then record t { fully_acked = true } else t

  adapter-set_acked :
      (b : Bool) (t : TcpThread A D) → (set_acked b t).datagram_adapter ≡ t.datagram_adapter
  adapter-set_acked true t = refl
  adapter-set_acked false t = refl

  receive_datagram_counts :
      (t t' : TcpThread A D)
      → receive_datagram adapter stream t ≡ some t'
      → adapter.read_count t.datagram_adapter ≢ adapter.read_count t'.datagram_adapter
  unfolding receive_datagram
  receive_datagram_counts t t' e =
      let ((a, seg), read, done) = bind_back (adapter.read t.datagram_adapter) _ t' e in
      let same : t'.datagram_adapter ≡ a =
        ap (λ o. (get_or o t).datagram_adapter) (sym done) ∙ adapter-set_acked _ _ in
      subst (λ x. adapter.read_count t.datagram_adapter ≢ adapter.read_count x) (sym same)
        (reads.adapter_reads t.datagram_adapter a seg read)

  data-ended :
      (b : Bool) (t : TcpThread A D)
      → (if b then end_outbound adapter stream t else t).thread_data ≡ t.thread_data
  data-ended true t = refl
  data-ended false t = refl

  read_outbound_counts :
      (t t' : TcpThread A D)
      → read_outbound adapter stream t ≡ some t'
      → stream.read_count t'.thread_data ≡ add32 (stream.read_count t.thread_data) 1
  unfolding read_outbound
  read_outbound_counts t t' e =
      let ((bytes, d), read, after) =
        bind_back (stream.read t.thread_data (remaining_outbound_capacity t.tcp)) _ t' e in
      let t1 : TcpThread A D = record t {
        tcp = (Connection.write t.tcp bytes).1;
        thread_data = d;
      } in
      let (_, done) =
        guard_back (not ((Connection.write t.tcp bytes).0 == length bytes))
          (some (if stream.eof d then end_outbound adapter stream t1 else t1)) t' after in
      let same : t'.thread_data ≡ d =
        ap (λ o. (get_or o t).thread_data) (sym done) ∙ data-ended (stream.eof d) t1 in
      ap stream.read_count same
      ∙ counts.stream_reads t.thread_data d (remaining_outbound_capacity t.tcp) bytes read

  ended_inbound_counts :
      (b : Bool) (t t' : TcpThread A D)
      → (if b then end_inbound adapter stream t else some t) ≡ some t'
      → (stream.write_count t'.thread_data ≡ stream.write_count t.thread_data)
        ⊎ (stream.write_count t'.thread_data ≡ add32 (stream.write_count t.thread_data) 1)
  ended_inbound_counts true t t' e =
      let (d, shut, done) = bind_back (stream.shutdown_write t.thread_data) _ t' e in
      inr (
        ap (λ o. stream.write_count (get_or o t).thread_data) (sym done)
        ∙ counts.shutdowns t.thread_data d shut)
  ended_inbound_counts false t t' e =
      inl (ap (λ o. stream.write_count (get_or o t).thread_data) (sym e))

  write_inbound_counts :
      (t t' : TcpThread A D)
      → write_inbound adapter stream t ≡ some t'
      → stream.write_count t.thread_data ≢ stream.write_count t'.thread_data
  unfolding write_inbound
  write_inbound_counts t t' e =
      let ((n, d), wrote, after) = bind_back (stream.write t.thread_data _) _ t' e in
      let once = counts.stream_writes t.thread_data d n _ wrote in
      elim (ended_inbound_counts _ _ t' after) [
        | inl stays ↦ λ h. omega (arith, once, stays, h)
        | inr again ↦ λ h. omega (arith, once, again, h)
      ]

  emptied_queue :
      (t t' : TcpThread A D) → send_segments adapter stream t ≡ some t' → t'.tcp.segments_out ≡ []
  unfolding send_segments
  emptied_queue t t' e =
      let (a, sent, done) =
        bind_back (send_all adapter stream t.datagram_adapter t.tcp.segments_out) _ t' e in
      ap (λ o. (get_or o t).tcp.segments_out) (sym done)

  -- Whatever a descriptor of the loop does, the event loop never takes a rule of the thread for a
  -- busy wait: each callback reads or writes its descriptor, or leaves no interest.
  pub rules-Serve :
      (poll : TcpThread A D → List PollFd → Polled × TcpThread A D)
      → All
          (λ r. (t : TcpThread A D) → serve (system adapter stream poll) t r ≡ r.callback t)
          (rules adapter stream)
  rules-Serve poll =
      let sys = system adapter stream poll in
      (
        λ t.
            Serves-serve sys (datagram_rule adapter stream) t
              (λ t' e. inl (receive_datagram_counts t t' e)),
        (
          λ t.
              Serves-serve sys (outbound_rule adapter stream) t
                (λ t' e. inl (next_count _ _ (read_outbound_counts t t' e))),
          (
            λ t.
                Serves-serve sys (inbound_rule adapter stream) t
                  (λ t' e. inl (write_inbound_counts t t' e)),
            (
              λ t.
                  Serves-serve sys (segment_rule adapter stream) t (λ t' e.
                    inr (ap (λ q. not (is_empty adapter stream q)) (emptied_queue t t' e))),
              tt,
            ),
          ),
        ),
      )
