-- ===== src/SpongeSocket/Delivering.antt =====
-- The whole loop: the application is handed the peer's stream.
use tcp_impliment.Common.{
  some_back, bind_back, subst, ℕ, zero, suc, ◌<◌, ◌≤◌, ◌^◌, ◌≡◌, sym, ap, Bool, true, false, ◌||◌,
  Option, some, List, [], length, All, if◌then◌else◌, ◌>>=◌,
}
use tcp_impliment.Common.Words.{u32_mod, sub64}
use tcp_impliment.WrappingInt.{WrappingInt32}
use tcp_impliment.Reassembler.Bytes.{Agrees, Agrees-at}
use tcp_impliment.Receiver
use tcp_impliment.Receiver.Following.{IsFollowing}
use tcp_impliment.Receiver.Reading.{new-IsFollowing}
use tcp_impliment.Connection
use tcp_impliment.Connection.{active}
use tcp_impliment.Connection.Incoming.{tick-IsFollowing}
use tcp_impliment.EventLoop.{Rule, is_exit, PollFd, wait_next_event}
use tcp_impliment.EventLoop.Keeping.{Keeps, wait_next_event-Keeps}
use tcp_impliment.SpongeSocket.{Adapter, Stream, TcpThread, rules, system}
use tcp_impliment.SpongeSocket.Piping.{IsPipe}
use tcp_impliment.SpongeSocket.Receiving.{HandsUp, IsServed, same-IsServed, rules-Keep}
use tcp_impliment.SpongeSocket.Running.{Looping, Surroundings, tick, tcp_round, tcp_loop}

-- What goes on between two rounds changes neither the connection nor what the application has been
-- handed.
pub record IsApart {ℓ} {A D : Type ℓ} (around : Surroundings A D) (received : D → List ℕ)
    : Type ℓ where
  pub polls :
      (t : TcpThread A D) (fds : List PollFd)
      → ((around.poll t fds).1.tcp ≡ t.tcp)
        × (received (around.poll t fds).1.thread_data ≡ received t.thread_data)

module _ {ℓ} {A D : Type ℓ} (adapter : Adapter A) (stream : Stream D)
    (received available : D → List ℕ) (pipe : IsPipe stream received available)
    (peer : WrappingInt32) (T : ℕ → ℕ) (up : HandsUp adapter stream received available pipe peer T)
    (small : peer < u32_mod) (around : Surroundings A D) (apart : IsApart around received) where
  abbrev Served : TcpThread A D → Type ℓ
  Served t = IsServed adapter stream received available pipe peer T t

  -- The thread is served, and what is left of the rules keeps it so.
  abbrev Goes : Looping A D → Type ℓ
  Goes l = Served l.thread × All (Keeps Served) l.eventloop

  ticked :
      (t : TcpThread A D) (left : List (Rule (TcpThread A D))) (base_time : ℕ) (l : Looping A D)
      → Served t
      → All (Keeps Served) left
      → tick adapter stream around t left base_time ≡ some l
      → Goes l
  ticked t left base_time l h ks e =
      let ms = sub64 (around.timestamp_ms t) base_time in
      let (a, _, done) = bind_back (adapter.tick t.datagram_adapter ms) _ l e in
      let t1 : TcpThread A D = record t { tcp = Connection.tick t.tcp ms; datagram_adapter = a } in
      subst Goes (some_back _ _ done) (
        record {
          following = tick-IsFollowing peer T t.tcp ms (received t.thread_data) h.following;
        },
        ks,
      )

  abbrev ticked_on :
      Looping A D → TcpThread A D → List (Rule (TcpThread A D)) → Option (Bool × Looping A D)
  ticked_on l t left = tick adapter stream around t left l.base_time >>= λ l'. some (true, l')

  abbrev without_tick :
      Bool → Looping A D → TcpThread A D → List (Rule (TcpThread A D)) → Option (Bool × Looping A D)
  without_tick goes_on l t left = some (goes_on, record l { thread = t; eventloop = left })

  module _ (l l' : Looping A D) (t : TcpThread A D) (left : List (Rule (TcpThread A D)))
      (result : Bool) (h : Served t) (ks : All (Keeps Served) left) where
    round_on :
        (b : Bool)
        → (if b then ticked_on l t left else without_tick true l t left) ≡ some (result, l')
        → Goes l'
    round_on true e =
        let (l1, ran, done) =
          bind_back (tick adapter stream around t left l.base_time) _ (result, l') e in
        subst Goes (ap (λ x. x.1) (some_back _ _ done)) (ticked t left l.base_time l1 h ks ran)
    round_on false e = subst Goes (ap (λ x. x.1) (some_back _ _ e)) (h, ks)

    round_ends :
        (b : Bool)
        → (if b
            then without_tick false l t left
            else if active t.tcp
            then ticked_on l t left
            else without_tick true l t left)
          ≡ some (result, l')
        → Goes l'
    round_ends true e = subst Goes (ap (λ x. x.1) (some_back _ _ e)) (h, ks)
    round_ends false e = round_on (active t.tcp) e

  round-Goes :
      (l l' : Looping A D) (goes_on : Bool)
      → Goes l
      → tcp_round adapter stream around l ≡ some (goes_on, l')
      → Goes l'
  unfolding tcp_round
  round-Goes l l' goes_on g e =
      let sys = system adapter stream around.poll in
      let ((ret, left, t), waited, after) =
        bind_back (wait_next_event sys l.thread l.eventloop) _ (goes_on, l') e in
      let (h, ks) =
        wait_next_event-Keeps Served sys
          (λ w fds v.
            same-IsServed adapter stream received available pipe peer T w (around.poll w fds).1 v
              (ap (λ (c : Connection.TcpConnection). c.receiver) (apart.polls w fds).0)
              (apart.polls w fds).1)
          l.thread t l.eventloop left ret g.0 g.1 waited in
      round_ends l l' t left goes_on h ks (is_exit ret || around.abort t) after

  abbrev over : Looping A D → Option (Bool × Looping A D)
  over l = some (true, l)

  -- One turn of the loop, with `rest` for the turns behind it.
  module _ (rest : Looping A D → Option (Bool × Looping A D)) (l' : Looping A D) (ended : Bool)
      (goes : (l1 : Looping A D) → Goes l1 → rest l1 ≡ some (ended, l') → Goes l') where
    next-Goes :
        (b : Bool) (l1 : Looping A D)
        → Goes l1
        → elim b [ true ↦ rest l1 | false ↦ over l1 ] ≡ some (ended, l')
        → Goes l'
    next-Goes true l1 g e = goes l1 g e
    next-Goes false l1 g e = subst Goes (ap (λ x. x.1) (some_back _ _ e)) g

    turn-Goes :
        (b : Bool) (l : Looping A D)
        → Goes l
        → elim b [
          | false ↦ over l
          | true ↦
              (tcp_round adapter stream around l >>= λ (goes_on, l1). elim goes_on [
                | true ↦ rest l1
                | false ↦ over l1
              ])
        ]
          ≡ some (ended, l')
        → Goes l'
    turn-Goes false l g e = subst Goes (ap (λ x. x.1) (some_back _ _ e)) g
    turn-Goes true l g e =
        let ((goes_on, l1), ran, after) =
          bind_back (tcp_round adapter stream around l) _ (ended, l') e in
        next-Goes goes_on l1 (round-Goes l l1 goes_on g ran) after

  loop-Goes :
      (rounds : ℕ) (condition : TcpThread A D → Bool) (l l' : Looping A D) (ended : Bool)
      → Goes l
      → tcp_loop adapter stream around rounds condition l ≡ some (ended, l')
      → Goes l'
  unfolding tcp_loop
  loop-Goes zero condition l l' ended g e = subst Goes (ap (λ x. x.1) (some_back _ _ e)) g
  loop-Goes (suc rounds) condition l l' ended g e =
      turn-Goes (λ l1. tcp_loop adapter stream around rounds condition l1) l' ended
        (λ l1 g1 e1. loop-Goes rounds condition l1 l' ended g1 e1) (condition l.thread) l g e

  -- Let the segments that the adapter hands up, in any order and however often, be parts of a peer's
  -- stream of at most 2 ^ 30 bytes, the receiver be new, with at most that capacity, and the
  -- application's stream do what it documents; `poll` leaves connection and stream alone. After any
  -- number of rounds of the thread's loop that returns, whatever the descriptors are ready for and
  -- whatever the application writes, what it has been handed is the beginning of the peer's stream,
  -- and what is buffered is what comes next.
  pub tcp_loop-Delivers :
      (rounds capacity : ℕ) (condition : TcpThread A D → Bool) (l l' : Looping A D) (ended : Bool)
      → 0 < capacity
      → capacity ≤ 2 ^ 30
      → l.thread.tcp.receiver ≡ Receiver.new capacity
      → received l.thread.thread_data ≡ []
      → l.eventloop ≡ rules adapter stream
      → tcp_loop adapter stream around rounds condition l ≡ some (ended, l')
      → Agrees T 0 (received l'.thread.thread_data)
        × Agrees T
            (length (received l'.thread.thread_data))
            (Connection.inbound_stream l'.thread.tcp).buffer
  tcp_loop-Delivers rounds capacity condition l l' ended positive bounded fresh empty added e =
      let started : Served l.thread = record {
        following =
            subst (λ r. IsFollowing peer T r (received l.thread.thread_data)) (sym fresh)
              (subst (λ got. IsFollowing peer T (Receiver.new capacity) got) (sym empty)
                (new-IsFollowing peer T capacity positive bounded));
      } in
      let kept =
        subst (λ rs. All (Keeps Served) rs) (sym added)
          (rules-Keep adapter stream received available pipe peer T up small) in
      let f = (loop-Goes rounds condition l l' ended (started, kept) e).0.following in
      (
        f.genuine,
        Agrees-at T (Receiver.stream_out l'.thread.tcp.receiver).total_read
            (length (received l'.thread.thread_data)) _ f.counted f.step.delivers.ready,
      )
