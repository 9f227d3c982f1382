-- ===== src/Tests/Loops.antt =====
-- The event loop on a world that counts the reads of one descriptor.
use tcp_impliment.Common.{ℕ, suc, ◌≡◌, refl, ◌==◌, true, false, some, List, [], ◌∷◌}
use tcp_impliment.EventLoop.{
  Direction, Rule, Polled, Result, System, no_revents, set_up, dispatch, wait_next_event, something,
  rules_of,
}
use tcp_impliment.EventLoop.Openings.{Opening}
use tcp_impliment.EventLoop.Rounds.{Round, wait_next_event-Round, wait_next_event_goes_on}

-- Descriptor 9 is closed, the others stay open.
abbrev ready_system : System ℕ
ready_system = record {
  eof = λ w fd. false;
  closed = λ w fd. fd == 9;
  read_count = λ w fd. w;
  write_count = λ w fd. 0;
  poll = λ w fds. (Polled.events (record no_revents { readable = true } ∷ no_revents ∷ []), w);
}

abbrev failing_system : System ℕ
failing_system = record ready_system { poll = λ w fds. (Polled.failed, w) }

abbrev reader : Rule ℕ
reader = record {
  fd = 3;
  direction = Direction.in_;
  callback = λ w. some (suc w);
  interest = λ w. true;
  cancel = λ w. w;
}

abbrev idle_writer : Rule ℕ
idle_writer = record reader { fd = 4; direction = Direction.out; interest = λ w. false }

abbrev closed_writer : Rule ℕ
closed_writer = record idle_writer { fd = 9 }

abbrev rules : List (Rule ℕ)
rules = reader ∷ closed_writer ∷ idle_writer ∷ []

wait_next_event_run :
    wait_next_event ready_system 0 rules ≡ some (Result.success, reader ∷ idle_writer ∷ [], 1)
unfolding wait_next_event set_up dispatch
wait_next_event_run = refl

asked : something (set_up ready_system 0 rules).0 ≡ true
unfolding set_up
asked = refl

wait_next_event-Round_example :
    (Result.success ≡ Result.success)
    × Opening ready_system 0 rules (set_up ready_system 0 rules).0 0
    × Round ready_system 0
        (set_up ready_system 0 rules).0
        (record no_revents { readable = true } ∷ no_revents ∷ [])
        (reader ∷ idle_writer ∷ [])
        1
unfolding set_up
wait_next_event-Round_example =
    wait_next_event-Round ready_system 0 rules 0
      (record no_revents { readable = true } ∷ no_revents ∷ []) Result.success
      (reader ∷ idle_writer ∷ []) 1 asked refl wait_next_event_run

wait_next_event_goes_on_run :
    wait_next_event failing_system 0 rules
    ≡ some (Result.success, rules_of (set_up failing_system 0 rules).0, 0)
unfolding set_up
wait_next_event_goes_on_run = wait_next_event_goes_on failing_system 0 rules 0 refl refl
