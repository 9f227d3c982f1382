-- ===== src/EventLoop.antt =====
-- libsponge/util/eventloop.hh and eventloop.cc: rules whose callbacks are called when their file
-- descriptor is ready. The world `W` is all that callbacks and file descriptors change; what is
-- known of a descriptor and the call of poll(2), with its timeout, are parameters. Callbacks do not add rules.
pub mod Openings
pub mod Rounds
pub mod Keeping
pub mod Serving
use tcp_impliment.Common.{
  ℕ, ◌==◌, Bool, true, false, not, ◌&&◌, ◌||◌, Option, none, some, List, [], ◌∷◌, if◌then◌else◌,
  ◌>>=◌,
}

pub data Direction : Type 0 where
  in_ : Direction
  out : Direction

abbrev pub is_in : Direction → Bool
is_in Direction.in_ = true
is_in Direction.out = false

-- A callback may throw, which is `none`; `interest` only looks at the world.
pub record Rule {ℓ} (W : Type ℓ) : Type ℓ where
  pub fd : ℕ
  pub direction : Direction
  pub callback : W → Option W
  pub interest : W → Bool
  pub cancel : W → W

pub data Result : Type 0 where
  success : Result
  timeout : Result
  exit : Result

-- `EventLoop::Result::Exit ==`
abbrev pub is_exit : Result → Bool
is_exit Result.success = false
is_exit Result.timeout = false
is_exit Result.exit = true

-- What is asked of a descriptor; without interest only errors.
pub record PollFd : Type 0 where
  pub fd : ℕ
  pub direction : Direction
  pub asked : Bool

-- What poll says of it: POLLIN, POLLOUT, POLLHUP, and POLLERR or POLLNVAL.
pub record Revents : Type 0 where
  pub readable : Bool
  pub writable : Bool
  pub hup : Bool
  pub error : Bool

-- Nothing was ready in time; a signal came; another error; or the events, in order.
pub data Polled : Type 0 where
  no_event : Polled
  interrupted : Polled
  failed : Polled
  events : List Revents → Polled

abbrev pub add_rule {ℓ} : {W : Type ℓ} → List (Rule W) → Rule W → List (Rule W)
add_rule [] rule = rule ∷ []
add_rule (r ∷ rs) rule = r ∷ add_rule rs rule

-- `revents` as `poll` finds them.
abbrev pub no_revents : Revents
no_revents = record { readable = false; writable = false; hup = false; error = false }

abbrev pub poll_ready : PollFd → Revents → Bool
poll_ready p e = p.asked && (if is_in p.direction then e.readable else e.writable)

-- What is asked of the operating system.
pub record System {ℓ} (W : Type ℓ) : Type ℓ where
  pub eof : W → ℕ → Bool
  pub closed : W → ℕ → Bool
  pub read_count : W → ℕ → ℕ
  pub write_count : W → ℕ → ℕ
  pub poll : W → List PollFd → Polled × W

module _ {ℓ} {W : Type ℓ} where
  -- `something_to_poll`
  abbrev pub something : List (Rule W × PollFd) → Bool
  something [] = false
  something ((r, p) ∷ rs) = p.asked || something rs

  abbrev pub rules_of : List (Rule W × PollFd) → List (Rule W)
  rules_of [] = []
  rules_of ((r, p) ∷ rs) = r ∷ rules_of rs

  abbrev pub poll_fds : List (Rule W × PollFd) → List PollFd
  poll_fds [] = []
  poll_fds ((r, p) ∷ rs) = p ∷ poll_fds rs

  abbrev pub kept : Rule W → Option (List (Rule W) × W) → Option (List (Rule W) × W)
  kept r none = none
  kept r (some (rs, w)) = some (r ∷ rs, w)

  abbrev pub finish : Option (List (Rule W) × W) → Option (Result × List (Rule W) × W)
  finish none = none
  finish (some (rs, w)) = some (Result.success, rs, w)

module _ {ℓ} {W : Type ℓ} (s : System W) where
  abbrev pub service_count : W → Rule W → ℕ
  service_count w r = if is_in r.direction then s.read_count w r.fd else s.write_count w r.fd

  abbrev pub is_defunct : W → Rule W → Bool
  is_defunct w r = is_in r.direction && s.eof w r.fd || s.closed w r.fd

  abbrev pub poll_fd : W → Rule W → PollFd
  poll_fd w r = record { fd = r.fd; direction = r.direction; asked = r.interest w }

  -- The first loop: the rules that stay, each with its entry, and the world.
  unfoldable pub set_up : W → List (Rule W) → List (Rule W × PollFd) × W
  set_up w [] = ([], w)
  set_up w (r ∷ rs) = elim (is_defunct w r) [
    | true ↦ set_up (r.cancel w) rs
    | false ↦ (let rest = set_up w rs in ((r, poll_fd w r) ∷ rest.0, rest.1))
  ]

  -- The callback of a ready rule, and the test for a busy wait.
  abbrev pub serve : W → Rule W → Option W
  serve w r = r.callback w >>= λ w'.
      if service_count w r == service_count w' r && r.interest w' then none else some w'

  -- The second loop, over the results; entries for which there is none are as `poll` found them.
  unfoldable pub dispatch : W → List (Rule W × PollFd) → List Revents → Option (List (Rule W) × W)
  dispatch w [] es = some ([], w)
  dispatch w ((r, p) ∷ rs) [] = kept r (dispatch w rs [])
  dispatch w ((r, p) ∷ rs) (e ∷ es) = elim e.error [
    | true ↦ none
    | false ↦ elim (e.hup && p.asked && not (poll_ready p e)) [
      | true ↦ dispatch (r.cancel w) rs es
      | false ↦ elim (poll_ready p e) [
        | true ↦ (serve w r >>= λ w'. kept r (dispatch w' rs es))
        | false ↦ kept r (dispatch w rs es)
      ]
    ]
  ]

  -- An error of `poll` that is not a signal is caught, and the entries are gone through all the same.
  abbrev pub after_poll : List (Rule W × PollFd) → Polled × W → Option (Result × List (Rule W) × W)
  after_poll ready (Polled.no_event, w) = some (Result.timeout, rules_of ready, w)
  after_poll ready (Polled.interrupted, w) = some (Result.exit, rules_of ready, w)
  after_poll ready (Polled.failed, w) = finish (dispatch w ready [])
  after_poll ready (Polled.events es, w) = finish (dispatch w ready es)

  -- The result, the rules that are left, and the world; `none` for an exception.
  unfoldable pub wait_next_event : W → List (Rule W) → Option (Result × List (Rule W) × W)
  wait_next_event w rules =
      let (ready, w') = set_up w rules in
      if not (something ready)
      then some (Result.exit, rules_of ready, w')
      else after_poll ready (s.poll w' (poll_fds ready))
