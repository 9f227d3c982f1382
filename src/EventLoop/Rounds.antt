-- ===== src/EventLoop/Rounds.antt =====
-- What one call of `wait_next_event` does, against the rules' contract.
use tcp_impliment.Common.{
  bind_back, ==_iff, subst, get_or, ℕ, ◌==◌, ◌≡◌, ◌≢◌, refl, sym, ap, ◌∙◌, arith, Bool, true, false,
  not, ◌&&◌, ◌⊎◌, inl, inr, Option, none, some, List, [], ◌∷◌, if◌then◌else◌, ◌>>=◌, if_true,
  if_false, Bool-cases,
}
use tcp_impliment.EventLoop.Openings.{Opening, set_up-Opening}
use tcp_impliment.EventLoop.{
  Direction, is_in, System, service_count, dispatch, kept, serve, finish, set_up, something,
  poll_fds, rules_of, after_poll, wait_next_event, Rule, PollFd, Revents, Polled, Result,
  poll_ready,
}

-- What was asked for can be done, and the count of what the rule's direction has done so far.
abbrev pub is_ready : Direction → Bool → Revents → Bool
is_ready Direction.in_ asked e = asked && e.readable
is_ready Direction.out asked e = asked && e.writable

abbrev pub counter {ℓ} : {W : Type ℓ} → System W → Direction → W → ℕ → ℕ
counter s Direction.in_ w fd = s.read_count w fd
counter s Direction.out w fd = s.write_count w fd

ready_lem :
    (d : Direction) (asked : Bool) (e : Revents)
    → (asked && (if is_in d then e.readable else e.writable)) ≡ is_ready d asked e
ready_lem Direction.in_ asked e = refl
ready_lem Direction.out asked e = refl

counter_lem {ℓ} :
    {W : Type ℓ} (s : System W) (d : Direction) (w : W) (fd : ℕ)
    → (if is_in d then s.read_count w fd else s.write_count w fd) ≡ counter s d w fd
counter_lem s Direction.in_ w fd = refl
counter_lem s Direction.out w fd = refl

-- Through the results of `poll`, entry by entry: a rule whose descriptor has only been hung up is
-- cancelled, and only such a one; a ready one is called, and has read or written or lost its
-- interest behind that; any other stays as it is. No entry has an error.
pub data Round {ℓ} {W : Type ℓ} (s : System W)
    : W → List (Rule W × PollFd) → List Revents → List (Rule W) → W → Type ℓ where
  over : {w : W} {es : List Revents} → Round s w [] es [] w
  unseen :
      {w w' : W} {r : Rule W} {p : PollFd} {rs : List (Rule W × PollFd)} {left : List (Rule W)}
      → Round s w rs [] left w'
      → Round s w ((r, p) ∷ rs) [] (r ∷ left) w'
  hung_up :
      {w w' : W} {r : Rule W} {p : PollFd} {rs : List (Rule W × PollFd)} {left : List (Rule W)}
      {e : Revents} {es : List Revents}
      → e.error ≡ false
      → (e.hup && p.asked && not (is_ready p.direction p.asked e)) ≡ true
      → Round s (r.cancel w) rs es left w'
      → Round s w ((r, p) ∷ rs) (e ∷ es) left w'
  called :
      {w w' w'' : W} {r : Rule W} {p : PollFd} {rs : List (Rule W × PollFd)} {left : List (Rule W)}
      {e : Revents} {es : List Revents}
      → e.error ≡ false
      → (e.hup && p.asked && not (is_ready p.direction p.asked e)) ≡ false
      → is_ready p.direction p.asked e ≡ true
      → r.callback w ≡ some w'
      → (counter s r.direction w r.fd ≢ counter s r.direction w' r.fd) ⊎ (r.interest w' ≡ false)
      → Round s w' rs es left w''
      → Round s w ((r, p) ∷ rs) (e ∷ es) (r ∷ left) w''
  idle :
      {w w' : W} {r : Rule W} {p : PollFd} {rs : List (Rule W × PollFd)} {left : List (Rule W)}
      {e : Revents} {es : List Revents}
      → e.error ≡ false
      → (e.hup && p.asked && not (is_ready p.direction p.asked e)) ≡ false
      → is_ready p.direction p.asked e ≡ false
      → Round s w rs es left w'
      → Round s w ((r, p) ∷ rs) (e ∷ es) (r ∷ left) w'

as_hung :
    (h : Bool) (p : PollFd) (e : Revents) (b : Bool)
    → (h && not (poll_ready p e)) ≡ b
    → (h && not (is_ready p.direction p.asked e)) ≡ b
as_hung h p e b k = sym (ap (λ x. h && not x) (ready_lem p.direction p.asked e)) ∙ k

no_result {κ} : {A : Type κ} (v : A) → none ≡ some v → ⊥
no_result v e = cc

not_busy : (m n : ℕ) (b : Bool) → (m == n && b) ≡ false → (m ≢ n) ⊎ (b ≡ false)
not_busy m n false e = inr refl
not_busy m n true e = inl (λ h. ground (arith, ==_iff m n))

module _ {ℓ} {W : Type ℓ} (s : System W) where
  kept_back :
      (r : Rule W) (o : Option (List (Rule W) × W)) (left : List (Rule W)) (w : W)
      → kept r o ≡ some (left, w)
      → (rest : List (Rule W)) × (r ∷ rest ≡ left) × (o ≡ some (rest, w))
  kept_back r none left w e = cc
  kept_back r (some (rest, v)) left w e =
      let q = ap (λ o. get_or o (r ∷ rest, v)) e in
      (rest, ap (λ x. x.0) q, ap (λ x. some (rest, x.1)) q)

  module _ (w : W) (r : Rule W) (p : PollFd) (rs : List (Rule W × PollFd)) (e : Revents)
      (es : List Revents) where
    stops : e.error ≡ true → dispatch s w ((r, p) ∷ rs) (e ∷ es) ≡ none
    unfolding dispatch
    stops h = rw h refl

    cancels :
        e.error ≡ false
        → (e.hup && p.asked && not (poll_ready p e)) ≡ true
        → dispatch s w ((r, p) ∷ rs) (e ∷ es) ≡ dispatch s (r.cancel w) rs es
    unfolding dispatch
    cancels h k = rw (h, k) refl

    calls :
        e.error ≡ false
        → (e.hup && p.asked && not (poll_ready p e)) ≡ false
        → poll_ready p e ≡ true
        → dispatch s w ((r, p) ∷ rs) (e ∷ es) ≡ (serve s w r >>= λ w'. kept r (dispatch s w' rs es))
    unfolding dispatch
    calls h k l = rw (h, k, l) refl

    passes :
        e.error ≡ false
        → (e.hup && p.asked && not (poll_ready p e)) ≡ false
        → poll_ready p e ≡ false
        → dispatch s w ((r, p) ∷ rs) (e ∷ es) ≡ kept r (dispatch s w rs es)
    unfolding dispatch
    passes h k l = rw (h, k, l) refl

  served_back :
      (w : W) (r : Rule W) (o : Option W) (v : W)
      → (o >>= λ u.
          if service_count s w r == service_count s u r && r.interest u then none else some u)
        ≡ some v
      → (o ≡ some v) × ((service_count s w r ≢ service_count s v r) ⊎ (r.interest v ≡ false))
  served_back w r none v e = cc
  served_back w r (some u) v e =
      elim (Bool-cases (service_count s w r == service_count s u r && r.interest u)) [
        | inl busy ↦ absurd (no_result v (sym (if_true _ _ busy) ∙ e))
        | inr done ↦
            let q : some u ≡ some v = sym (if_false _ _ done) ∙ e in
            (
              q,
              subst (λ x. (service_count s w r ≢ service_count s x r) ⊎ (r.interest x ≡ false))
                  (ap (λ o. get_or o u) q)
                  (not_busy (service_count s w r) (service_count s u r) (r.interest u) done),
            )
      ]

  as_counted :
      (w w' : W) (r : Rule W)
      → (service_count s w r ≢ service_count s w' r) ⊎ (r.interest w' ≡ false)
      → (counter s r.direction w r.fd ≢ counter s r.direction w' r.fd) ⊎ (r.interest w' ≡ false)
  as_counted w w' r (inr gone) = inr gone
  as_counted w w' r (inl moved) =
      inl (λ e.
        moved (counter_lem s r.direction w r.fd ∙ e ∙ sym (counter_lem s r.direction w' r.fd)))

  pub dispatch-Round :
      (w : W) (ready : List (Rule W × PollFd)) (es : List Revents) (left : List (Rule W)) (w' : W)
      → dispatch s w ready es ≡ some (left, w')
      → Round s w ready es left w'
  unfolding dispatch
  dispatch-Round w [] es left w' e =
      subst (λ x. Round s w [] es x.0 x.1) (ap (λ o. get_or o ([], w)) e) over
  dispatch-Round w ((r, p) ∷ rs) [] left w' e =
      let (rest, a, b) = kept_back r (dispatch s w rs []) left w' e in
      subst (λ l. Round s w ((r, p) ∷ rs) [] l w') a (unseen (dispatch-Round w rs [] rest w' b))
  dispatch-Round w ((r, p) ∷ rs) (e ∷ es) left w' h = elim (Bool-cases e.error) [
    | inl bad ↦ absurd (no_result (left, w') (sym (stops w r p rs e es bad) ∙ h))
    | inr good ↦ elim (Bool-cases (e.hup && p.asked && not (poll_ready p e))) [
      | inl gone ↦
          hung_up good (as_hung (e.hup && p.asked) p e true gone)
            (dispatch-Round (r.cancel w) rs es left w' (sym (cancels w r p rs e es good gone) ∙ h))
      | inr there ↦ elim (Bool-cases (poll_ready p e)) [
        | inl ready ↦
            let (u, run, rest_run) =
              bind_back (serve s w r) (λ u. kept r (dispatch s u rs es)) (left, w')
                (sym (calls w r p rs e es good there ready) ∙ h) in
            let (ran, moved) = served_back w r (r.callback w) u run in
            let (rest, a, b) = kept_back r (dispatch s u rs es) left w' rest_run in
            subst (λ l. Round s w ((r, p) ∷ rs) (e ∷ es) l w') a
              (called good (as_hung (e.hup && p.asked) p e false there)
                (sym (ready_lem p.direction p.asked e) ∙ ready) ran (as_counted w u r moved)
                (dispatch-Round u rs es rest w' b))
        | inr waits ↦
            let (rest, a, b) =
              kept_back r (dispatch s w rs es) left w'
                (sym (passes w r p rs e es good there waits) ∙ h) in
            subst (λ l. Round s w ((r, p) ∷ rs) (e ∷ es) l w') a
              (idle good (as_hung (e.hup && p.asked) p e false there)
                (sym (ready_lem p.direction p.asked e) ∙ waits) (dispatch-Round w rs es rest w' b))
      ]
    ]
  ]

  pub finish_back :
      (o : Option (List (Rule W) × W)) (result : Result) (left : List (Rule W)) (w' : W)
      → finish o ≡ some (result, left, w')
      → (result ≡ Result.success) × (o ≡ some (left, w'))
  finish_back none result left w' e = cc
  finish_back (some (rs, w)) result left w' e =
      let q = ap (λ o. get_or o (Result.success, rs, w)) e in
      (sym (ap (λ x. x.0) q), ap (λ x. some (x.1, x.2)) q)

  no_events :
      (w : W) (ready : List (Rule W × PollFd)) → dispatch s w ready [] ≡ some (rules_of ready, w)
  unfolding dispatch
  no_events w [] = refl
  no_events w ((r, p) ∷ rs) = ap (kept r) (no_events w rs)

  -- When something is asked for and `poll` finds events, a call that returns is a success. It has
  -- cancelled the rules whose descriptors were at their end or closed and asked `poll` for the
  -- others, and its rules and world are those that one round through the events leaves, in which
  -- exactly the rules that have only been hung up are cancelled and the other ready ones called.
  pub wait_next_event-Round :
      (w : W) (rules : List (Rule W)) (v : W) (es : List Revents) (result : Result)
      (left : List (Rule W)) (w' : W)
      → let (ready, started) = set_up s w rules in
        something ready ≡ true
        → s.poll started (poll_fds ready) ≡ (Polled.events es, v)
        → wait_next_event s w rules ≡ some (result, left, w')
        → (result ≡ Result.success) × Opening s w rules ready started × Round s v ready es left w'
  unfolding wait_next_event
  wait_next_event-Round w rules v es result left w' asked polled h =
      let ready = (set_up s w rules).0 in
      let q =
        finish_back (dispatch s v ready es) result left w'
          (sym (if_false _ _ (ap not asked) ∙ ap (after_poll s ready) polled) ∙ h) in
      (q.0, set_up-Opening s w rules, dispatch-Round v ready es left w' q.1)

  -- When something is asked for and `poll` fails without a signal, the call is a success all the
  -- same: no callback is called, and the rules stay that the first loop kept.
  pub wait_next_event_goes_on :
      (w : W) (rules : List (Rule W)) (v : W)
      → let (ready, started) = set_up s w rules in
        something ready ≡ true
        → s.poll started (poll_fds ready) ≡ (Polled.failed, v)
        → wait_next_event s w rules ≡ some (Result.success, rules_of ready, v)
  unfolding wait_next_event
  wait_next_event_goes_on w rules v asked polled =
      if_false _ _ (ap not asked)
      ∙ ap (after_poll s (set_up s w rules).0) polled
      ∙ ap finish (no_events v (set_up s w rules).0)
