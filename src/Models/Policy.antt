-- ===== src/Models/Policy.antt =====
-- models/policy.py: the heartbeat window of a policy.
pub mod Strategies
pub mod CheckIn
mod Tests
pub mod Parsing
use tamga_python.Prelude.{Option, none, some, if◌then◌else◌}
use tamga_python.Python.Int.{ℤ, pos, leb_ℤ}

-- The field of a policy that a heartbeat is sized by, as a number or None.
pub record HeartbeatPolicy : Type 0 where
  pub heartbeat_duration : Option ℤ

abbrev pub default_heartbeat_duration_seconds : ℤ
default_heartbeat_duration_seconds = pos 600

unfoldable pub window_of : Option ℤ → ℤ
window_of none = default_heartbeat_duration_seconds
window_of (some duration) =
    if leb_ℤ duration (pos 0) then default_heartbeat_duration_seconds else duration

unfoldable pub effective_heartbeat_window_seconds : HeartbeatPolicy → ℤ
unfolding window_of
effective_heartbeat_window_seconds policy = window_of policy.heartbeat_duration
