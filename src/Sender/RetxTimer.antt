-- ===== src/Sender/RetxTimer.antt =====
-- libsponge/tcp_sender.hh, `class Timer`: the time since the last restart.
use tcp_impliment.Common.{ℕ, Bool, leb}
use tcp_impliment.Common.Words.{add64, sub64}

pub record Timer : Type 0 where
  pub last_flash_time : ℕ
  pub now_time : ℕ

abbrev pub stopped : Timer
stopped = record { last_flash_time = 0; now_time = 0 }

abbrev pub flash : Timer → Timer
flash t = record t { last_flash_time = t.now_time }

abbrev pub tick : Timer → ℕ → Timer
tick t pass_time = record t { now_time = add64 t.now_time pass_time }

abbrev pub time_out : Timer → ℕ → Bool
time_out t rto = leb rto (sub64 t.now_time t.last_flash_time)
