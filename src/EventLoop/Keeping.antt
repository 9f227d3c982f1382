-- ===== src/EventLoop/Keeping.antt =====
-- What the event loop keeps, whatever its descriptors are ready for.
use tcp_impliment.Common.{
  subst, get_or, ◌≡◌, sym, ap, ◌∙◌, Bool, true, false, not, Option, some, List, [], ◌∷◌, All,
  if_true, if_false, Bool-cases, inl, inr,
}
use tcp_impliment.EventLoop.{
  System, set_up, is_defunct, poll_fd, something, poll_fds, rules_of, dispatch, after_poll,
  wait_next_event, Rule, PollFd, Revents, Polled, Result,
}
use tcp_impliment.EventLoop.Rounds.{
  Round, over, unseen, hung_up, called, idle, dispatch-Round, finish_back,
}

module _ {ℓ} {W : Type ℓ} (P : W → Type ℓ) where
  -- A rule whose callback keeps `P` when it returns, and whose cancellation keeps it.
  pub record Keeps (r : Rule W) : Type ℓ where
    pub by_callback : (w w' : W) → P w → r.callback w ≡ some w' → P w'
    pub by_cancel : (w : W) → P w → P (r.cancel w)

  module _ (s : System W) where
    set_up-Keeps :
        (w : W) (rules : List (Rule W))
        → P w
        → All Keeps rules
        → P (set_up s w rules).1 × All Keeps (rules_of (set_up s w rules).0)
    unfolding set_up
    set_up-Keeps w [] h ks = (h, tt)
    set_up-Keeps w (r ∷ rs) h ks =
        split (is_defunct s w r) (set_up-Keeps (r.cancel w) rs (ks.0.by_cancel w h) ks.1)
          (set_up-Keeps w rs h ks.1)
      where
        split :
            (b : Bool)
            → P (set_up s (r.cancel w) rs).1 × All Keeps (rules_of (set_up s (r.cancel w) rs).0)
            → P (set_up s w rs).1 × All Keeps (rules_of (set_up s w rs).0)
            → let both : List (Rule W × PollFd) × W = elim b [
              | true ↦ set_up s (r.cancel w) rs
              | false ↦ (let rest = set_up s w rs in ((r, poll_fd s w r) ∷ rest.0, rest.1))
            ] in
              P both.1 × All Keeps (rules_of both.0)
        split true gone there = gone
        split false gone there = (there.0, (ks.0, there.1))

    Round-Keeps :
        {w w' : W} {ready : List (Rule W × PollFd)} {es : List Revents} {left : List (Rule W)}
        → Round s w ready es left w'
        → P w
        → All Keeps (rules_of ready)
        → P w' × All Keeps left
    Round-Keeps over h ks = (h, ks)
    Round-Keeps (unseen rest) h ks =
        let (kept, left) = Round-Keeps rest h ks.1 in (kept, (ks.0, left))
    Round-Keeps (hung_up {w = w} good gone rest) h ks = Round-Keeps rest (ks.0.by_cancel w h) ks.1
    Round-Keeps (called {w = w} {w' = u} good there ready ran moved rest) h ks =
        let (kept, left) = Round-Keeps rest (ks.0.by_callback w u h ran) ks.1 in
        (kept, (ks.0, left))
    Round-Keeps (idle good there waits rest) h ks =
        let (kept, left) = Round-Keeps rest h ks.1 in (kept, (ks.0, left))

    same_result :
        (result result' : Result) (left left' : List (Rule W)) (w w' : W)
        → P w × All Keeps left
        → ◌≡◌ {A = Option (Result × List (Rule W) × W)}
            (some (result, left, w))
            (some (result', left', w'))
        → P w' × All Keeps left'
    same_result result result' left left' w w' h e =
        let q = ap (λ o. get_or o (result, left, w)) e in
        (subst P (ap (λ x. x.2) q) h.0, subst (All Keeps) (ap (λ x. x.1) q) h.1)

    after_poll-Keeps :
        (ready : List (Rule W × PollFd)) (polled : Polled) (w w' : W) (result : Result)
        (left : List (Rule W))
        → P w
        → All Keeps (rules_of ready)
        → after_poll s ready (polled, w) ≡ some (result, left, w')
        → P w' × All Keeps left
    after_poll-Keeps ready Polled.no_event w w' result left h ks e =
        same_result Result.timeout result (rules_of ready) left w w' (h, ks) e
    after_poll-Keeps ready Polled.interrupted w w' result left h ks e =
        same_result Result.exit result (rules_of ready) left w w' (h, ks) e
    after_poll-Keeps ready Polled.failed w w' result left h ks e =
        let (_, run) = finish_back s (dispatch s w ready []) result left w' e in
        Round-Keeps (dispatch-Round s w ready [] left w' run) h ks
    after_poll-Keeps ready (Polled.events es) w w' result left h ks e =
        let (_, run) = finish_back s (dispatch s w ready es) result left w' e in
        Round-Keeps (dispatch-Round s w ready es left w' run) h ks

    -- What `poll` and every rule's callback and cancellation keep, a call of `wait_next_event` that
    -- returns keeps, whichever rules it calls, cancels or drops; the rules that are left keep it
    -- too.
    pub wait_next_event-Keeps :
        ((w : W) (fds : List PollFd) → P w → P (s.poll w fds).1)
        → (w w' : W) (rules left : List (Rule W)) (result : Result) → P w
        → All Keeps rules
        → wait_next_event s w rules ≡ some (result, left, w')
        → P w' × All Keeps left
    unfolding wait_next_event
    wait_next_event-Keeps polls w w' rules left result h ks e =
        let (ready, started) = set_up s w rules in
        let (h', ks') = set_up-Keeps w rules h ks in
        elim (Bool-cases (not (something ready))) [
          | inl nothing ↦
              same_result Result.exit result (rules_of ready) left started w' (h', ks')
                (sym (if_true _ _ nothing) ∙ e)
          | inr asked ↦
              let polled = s.poll started (poll_fds ready) in
              after_poll-Keeps ready polled.0 polled.1 w' result left
                (polls started (poll_fds ready) h') ks' (sym (if_false _ _ asked) ∙ e)
        ]
