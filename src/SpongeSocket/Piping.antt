-- ===== src/SpongeSocket/Piping.antt =====
-- The bytes between the application's stream and the connection.
use tcp_impliment.Common.{
  take-all, ==_iff, bind_back, ℕ, ◌+◌, ◌≤◌, ◌<◌, ◌^◌, ◌==◌, ◌≡◌, refl, sym, ap, subst, ◌∙◌, arith,
  Bool, true, false, ◌||◌, not, Option, none, some, List, ◌++◌, length, take, min, if◌then◌else◌,
  ◌>>=◌, append_assoc, if_false, get_or,
}
use tcp_impliment.ByteStream
use tcp_impliment.ByteStream.{ByteStream}
use tcp_impliment.ByteStream.Invariant
use tcp_impliment.ByteStream.Pieces.{taken-dropped}
use tcp_impliment.Sender.Flight.{IsValid, HasRoom}
use tcp_impliment.Connection
use tcp_impliment.Connection.{TcpConnection, inbound_stream, remaining_outbound_capacity}
use tcp_impliment.Connection.Outgoing.{
  outbound, write-outbound, write-Sender, write_all_fitting, end_input_stream-outbound,
}
use tcp_impliment.SpongeSocket.{
  Adapter, Stream, TcpThread, set_inbound, finished, end_outbound, read_outbound, end_inbound,
  write_inbound,
}

-- What the stream socket documents: the bytes that the application has still to be handed, and
-- those that it has written and that have still to be read. A write takes a part from the front, a
-- read returns a part within its limit.
pub record IsPipe {ℓ} {D : Type ℓ} (stream : Stream D) (received available : D → List ℕ)
    : Type ℓ where
  pub writes :
      (d d' : D) (n : ℕ) (bytes : List ℕ)
      → stream.write d bytes ≡ some (n, d')
      → (n ≤ length bytes) × (received d' ≡ received d ++ take n bytes)
  pub reads :
      (d d' : D) (n : ℕ) (bytes : List ℕ)
      → stream.read d n ≡ some (bytes, d')
      → (length bytes ≤ n) × (available d ≡ bytes ++ available d')
  pub reads_apart :
      (d d' : D) (n : ℕ) (bytes : List ℕ)
      → stream.read d n ≡ some (bytes, d')
      → received d' ≡ received d
  pub shutdowns : (d d' : D) → stream.shutdown_write d ≡ some d' → received d' ≡ received d

-- Whether the writing end of the stream socket has been shut down: a write leaves that alone, and
-- `shutdown` makes it so.
pub record ShutsDown {ℓ} {D : Type ℓ} (stream : Stream D) (shut : D → Bool) : Type ℓ where
  pub by_write :
      (d d' : D) (n : ℕ) (bytes : List ℕ) → stream.write d bytes ≡ some (n, d') → shut d' ≡ shut d
  pub by_shutdown : (d d' : D) → stream.shutdown_write d ≡ some d' → shut d' ≡ true

is_equal_self : (n : ℕ) → not (n == n) ≡ false
is_equal_self n = ap not ((==_iff n n).1 refl)

module _ {ℓ} {A D : Type ℓ} (adapter : Adapter A) (stream : Stream D)
    (received available : D → List ℕ) (pipe : IsPipe stream received available) where
  ended_inbound :
      (shut : D → Bool) (shuts : ShutsDown stream shut) (b : Bool) (t t' : TcpThread A D)
      → (if b then end_inbound adapter stream t else some t) ≡ some t'
      → (received t'.thread_data ≡ received t.thread_data)
        × (inbound_stream t'.tcp ≡ inbound_stream t.tcp)
        × (t'.inbound_shutdown ≡ (b || t.inbound_shutdown))
        × (shut t'.thread_data ≡ (b || shut t.thread_data))
  ended_inbound shut shuts true t t' e =
      let (d, ended, done) = bind_back (stream.shutdown_write t.thread_data) _ t' e in
      let same : record t { thread_data = d; inbound_shutdown = true } ≡ t' =
        ap (λ o. get_or o t) done in
      (
        ap (λ (x : TcpThread A D). received x.thread_data) (sym same)
            ∙ pipe.shutdowns t.thread_data d ended,
        ap (λ (x : TcpThread A D). inbound_stream x.tcp) (sym same),
        ap (λ (x : TcpThread A D). x.inbound_shutdown) (sym same),
        ap (λ (x : TcpThread A D). shut x.thread_data) (sym same)
            ∙ shuts.by_shutdown t.thread_data d ended,
      )
  ended_inbound shut shuts false t t' e =
      let same : t ≡ t' = ap (λ o. get_or o t) e in
      (
        ap (λ (x : TcpThread A D). received x.thread_data) (sym same),
        ap (λ (x : TcpThread A D). inbound_stream x.tcp) (sym same),
        ap (λ (x : TcpThread A D). x.inbound_shutdown) (sym same),
        ap (λ (x : TcpThread A D). shut x.thread_data) (sym same),
      )

  -- Rule 3 neither loses nor repeats a byte: what the application has been handed and what is
  -- buffered for it are the same bytes in the same order as before, the stream stays valid, and
  -- the writing end of the application's stream is shut down afterwards, and noted as shut down,
  -- exactly if the inbound stream has then ended or failed, or it was before.
  pub write_inbound-Carries :
      (shut : D → Bool) (shuts : ShutsDown stream shut) (t t' : TcpThread A D)
      → Invariant.IsValid (inbound_stream t.tcp)
      → write_inbound adapter stream t ≡ some t'
      → (received t'.thread_data ++ (inbound_stream t'.tcp).buffer
          ≡ received t.thread_data ++ (inbound_stream t.tcp).buffer)
        × Invariant.IsValid (inbound_stream t'.tcp)
        × (t'.inbound_shutdown ≡ (finished (inbound_stream t'.tcp) || t.inbound_shutdown))
        × (shut t'.thread_data ≡ (finished (inbound_stream t'.tcp) || shut t.thread_data))
  unfolding write_inbound
  write_inbound-Carries shut shuts t t' v e =
      let s = inbound_stream t.tcp in
      let amount = min 65536 (ByteStream.buffer_size s) in
      let ((n, d), wrote, after) =
        bind_back (stream.write t.thread_data (ByteStream.peek_output s amount)) _ t' e in
      let (within, got) = pipe.writes t.thread_data d n (ByteStream.peek_output s amount) wrote in
      let popped = ByteStream.pop_output s n in
      let t1 : TcpThread A D = record t { tcp = set_inbound t.tcp popped; thread_data = d } in
      let (handed, same, flag, closed) = ended_inbound shut shuts (finished popped) t1 t' after in
      (
        ap (λ (x : ByteStream). received t'.thread_data ++ x.buffer) same
            ∙ ap (λ l. l ++ popped.buffer) (handed ∙ got)
            ∙ append_assoc (received t.thread_data) (take n (ByteStream.peek_output s amount))
                popped.buffer
            ∙ ap (λ l. received t.thread_data ++ l) (taken-dropped s n amount within),
        subst Invariant.IsValid (sym same) (Invariant.pop_output-IsValid s n v),
        flag ∙ ap (λ x. finished x || t.inbound_shutdown) (sym same),
        closed
            ∙ ap (λ b. finished popped || b)
                (shuts.by_write t.thread_data d n (ByteStream.peek_output s amount) wrote)
            ∙ ap (λ x. finished x || shut t.thread_data) (sym same),
      )

  -- Rule 2: the thread with what was read.
  abbrev with_written : TcpThread A D → List ℕ → D → TcpThread A D
  with_written t bytes d = record t { tcp = (Connection.write t.tcp bytes).1; thread_data = d }

  ended_outbound :
      (b : Bool) (t : TcpThread A D)
      → IsValid t.tcp.sender
      → HasRoom t.tcp.sender
      → let t' = if b then end_outbound adapter stream t else t in
        (outbound t'.tcp ≡ outbound t.tcp)
        × (t'.thread_data ≡ t.thread_data)
        × (t'.outbound_shutdown ≡ (b || t.outbound_shutdown))
  ended_outbound true t v h = (end_input_stream-outbound t.tcp v h, refl, refl)
  ended_outbound false t v h = (refl, refl, refl)

  abbrev accepted : TcpThread A D → List ℕ × D → Option (TcpThread A D)
  accepted t r =
      if not ((Connection.write t.tcp r.0).0 == length r.0)
      then none
      else some (
          if stream.eof r.1
          then end_outbound adapter stream (with_written t r.0 r.1)
          else with_written t r.0 r.1)

  -- Rule 2 never finds that the connection took less than it had room for: whenever the stream
  -- can be read the callback returns. On a valid sender far from the end of the 64-bit numbers it
  -- moves bytes from the application's side to those on their way out, in order and none lost or
  -- repeated, and notes the end exactly if the stream is at its end then, or it was noted before.
  pub read_outbound-Carries :
      (t : TcpThread A D) (d : D) (bytes : List ℕ)
      → IsValid t.tcp.sender
      → t.tcp.sender.next_seqno + 2 ^ 18 < 2 ^ 64
      → stream.read t.thread_data (remaining_outbound_capacity t.tcp) ≡ some (bytes, d)
      → (t' : TcpThread A D) × (read_outbound adapter stream t ≡ some t')
        × (outbound t'.tcp ++ available t'.thread_data ≡ outbound t.tcp ++ available t.thread_data)
        × (t'.outbound_shutdown ≡ (stream.eof d || t.outbound_shutdown))
  unfolding read_outbound
  read_outbound-Carries t d bytes v room read =
      let (within, rest) =
        pipe.reads t.thread_data d (remaining_outbound_capacity t.tcp) bytes read in
      let taken = write_all_fitting t.tcp bytes within in
      let h : HasRoom t.tcp.sender = omega (arith, room) in
      let (v', moved) = write-Sender t.tcp bytes v h in
      let t1 = with_written t bytes d in
      let (kept, same, flag) = ended_outbound (stream.eof d) t1 v' (omega (arith, room, moved)) in
      (
        (if stream.eof d then end_outbound adapter stream t1 else t1),
        ap (λ o. o >>= λ r. accepted t r) read
            ∙ if_false _ _ (ap (λ n. not (n == length bytes)) taken ∙ is_equal_self (length bytes)),
        ap
              (λ x.
                outbound (if stream.eof d then end_outbound adapter stream t1 else t1).tcp
                ++ available x)
              same
            ∙ ap (λ l. l ++ available d)
                (kept
                  ∙ write-outbound t.tcp bytes v h
                  ∙ ap (λ n. outbound t.tcp ++ take n bytes) taken
                  ∙ ap (λ l. outbound t.tcp ++ l) (take-all (length bytes) bytes (omega arith)))
            ∙ append_assoc (outbound t.tcp) bytes (available d)
            ∙ ap (λ l. outbound t.tcp ++ l) (sym rest),
        flag,
      )
