-- ===== src/Pkg/Action.antt =====
-- pkg/domain/action.go and pkg/domain/interval.go. A time is a number of ticks; the time and the
-- identifier that a call draws from the outside (`time.Now()`, `id.New`) are arguments.
use seelf.Prelude.{ℕ, String, ltb, if◌then◌else◌, Result, ok, err, invalid_time_interval}

abbrev pub Time : Type 0
Time = ℕ

pub record Action : Type 0 where
  pub by : String
  pub at : Time

-- `NewAction`; `now` is `time.Now().UTC()`.
abbrev pub new_action : String → Time → Action
new_action by now = record { by = by; at = now }

pub record TimeInterval : Type 0 where
  pub from : Time
  pub to : Time

unfoldable pub new_time_interval : Time → Time → Result TimeInterval
new_time_interval from to =
    if ltb to from then err invalid_time_interval else ok (record { from = from; to = to })
