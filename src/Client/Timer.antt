-- ===== src/Client/Timer.antt =====
-- Timer (client/src/app/Timer.cpp). A time point is a number of nanoseconds; the clock may be set back.
use net_pixeld.Prelude.{ℕ, ◌-◌, ◌/◌, Bool, ◌&&◌, leb, eqb, if◌then◌else◌}

pub record Timer : Type 0 where
  pub start_time : ℕ
  pub end_time : ℕ

-- The constructor and `refresh` take the current time; m_endTime has no initializer of its own.
unfoldable pub new_timer : ℕ → Timer
new_timer now = record { start_time = now; end_time = 0 }

unfoldable pub refresh : ℕ → Timer → Timer
refresh now t = record t { start_time = now }

-- The difference is cut to whole milliseconds, towards zero.
unfoldable pub has_time_passed_ms : ℕ → ℕ → Timer → Bool × Timer
has_time_passed_ms now milliseconds t =
    let passed =
      (if leb t.start_time now
        then leb milliseconds ((now - t.start_time) / 1000000)
        else eqb ((t.start_time - now) / 1000000) 0 && eqb milliseconds 0) in
    (passed, record t { end_time = now })
