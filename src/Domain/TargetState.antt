-- ===== src/Domain/TargetState.antt =====
-- internal/deployment/domain/state.go, its second half: the state of a target's configuration.
use seelf.Prelude.{
  String, Bool, true, false, Option, none, some, if◌then◌else◌, ◌||◌, ◌!=◌, Eq, Error, message,
  ℕ_eq,
}
use seelf.Pkg.Action.{Time}

pub data TargetStatus : Type 0 where
  configuring failed ready : TargetStatus

unfoldable pub TargetStatus-discrete : Discrete TargetStatus
TargetStatus-discrete = hlevel

instance abbrev pub target_status_eq : Eq TargetStatus
target_status_eq = record { dec = TargetStatus-discrete }

pub record TargetState : Type 0 where
  pub status : TargetStatus
  pub version : Time
  pub errcode : Option String
  pub last_ready_version : Option Time

-- The zero value of the struct, which is not a state that a target is ever in.
abbrev pub zero_target_state : TargetState
zero_target_state = record {
  status = configuring;
  version = 0;
  errcode = none;
  last_ready_version = none;
}

-- `TargetState.Reconfigure`
unfoldable pub reconfigure_state : TargetState → Time → TargetState
reconfigure_state t now = record t { status = configuring; version = now; errcode = none }

unfoldable pub new_target_state : Time → TargetState
unfolding reconfigure_state
new_target_state now = reconfigure_state zero_target_state now

-- `TargetState.IsOutdated`
unfoldable pub is_outdated : TargetState → Time → Bool
is_outdated t version = version != t.version || t.status != configuring

-- `TargetState.Configured`; `none` is a nil error.
unfoldable pub state_configured : TargetState → Time → Option Error → TargetState × Bool
unfolding is_outdated
state_configured t version e = if is_outdated t version then (t, false) else elim e [
  | some cause ↦ (record t { status = failed; errcode = some (message cause) }, true)
  | none ↦ (record t { status = ready; last_ready_version = some version; errcode = none }, true)
]
