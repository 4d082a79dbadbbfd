-- ===== src/Client/Heartbeat.antt =====
-- The heartbeats of client.py: how an interval is chosen, and the loops of both schedulers.
-- Intervals are in microseconds, as Python's `timedelta` counts.
pub mod Interval
pub mod Loop
mod Tests
use tamga_python.Prelude.{
  ◌≡◌, refl, ℕ, zero, suc, ◌*◌, ◌-◌, Bool, true, false, not, Option, none, some, if◌then◌else◌,
}
use tamga_python.Python.Int.{ℤ, pos, negsuc, leb_ℤ, max_ℤ, floor_div}
use tamga_python.Models.Machine.{HeartbeatStatus}
use tamga_python.Models.Policy.{HeartbeatPolicy, effective_heartbeat_window_seconds}
use tamga_python.Transport.{Raised, Outcome, returned, raised}
use tamga_python.Client.Machines.{is_not_found}

abbrev pub min_heartbeat_interval : ℤ
min_heartbeat_interval = pos 1000000

abbrev pub heartbeat_pings_per_window : ℕ
heartbeat_pings_per_window = 3

-- The defaults of the machine scheduler and of the process scheduler.
abbrev pub machine_heartbeat_recommended_interval : ℤ
machine_heartbeat_recommended_interval = pos 200000000

abbrev pub process_heartbeat_recommended_interval : ℤ
process_heartbeat_recommended_interval = pos 10000000

-- timedelta(seconds=n)
abbrev pub of_seconds : ℤ → ℤ
of_seconds (pos n) = pos (n * 1000000)
of_seconds (negsuc n) = negsuc (suc n * 1000000 - 1)

unfoldable pub heartbeat_interval_for_policy : HeartbeatPolicy → ℤ
unfolding max_ℤ floor_div
heartbeat_interval_for_policy policy =
    max_ℤ min_heartbeat_interval (
      of_seconds (floor_div (effective_heartbeat_window_seconds policy) heartbeat_pings_per_window))

-- `__post_init__` of both schedulers, each with its own default
unfoldable pub clamped_heartbeat_interval : ℤ → ℤ → ℤ
unfolding max_ℤ
clamped_heartbeat_interval interval default =
    if leb_ℤ interval (pos 0) then default else max_ℤ interval min_heartbeat_interval

-- HeartbeatScheduler.for_policy: the interval of the scheduler that is built
pub interval_for_policy : HeartbeatPolicy → ℤ
unfolding heartbeat_interval_for_policy clamped_heartbeat_interval
interval_for_policy policy =
    clamped_heartbeat_interval (heartbeat_interval_for_policy policy)
      machine_heartbeat_recommended_interval

-- How a loop stands: still running, stopped, or ended by what a ping raised; with the pings that
-- were sent. Each ping that returned was followed by a wait.
pub data Standing : Type 0 where
  running : ℕ → Standing
  stopped : ℕ → Standing
  failed : ℕ → Raised → Standing

-- `run_forever` of both schedulers for `fuel` turns, from ping number `n` on: `stop_set n` is the
-- flag before that ping, which another thread may set, and `ping n` is what it answers.
pub run_forever : (ℕ → Bool) → (ℕ → Outcome HeartbeatStatus) → ℕ → ℕ → Standing
run_forever stop_set ping zero n = running n
run_forever stop_set ping (suc fuel) n =
    let rest = run_forever stop_set ping fuel (suc n) in
    if stop_set n
    then stopped n
    else (elim (ping n) [ raised r ↦ failed (suc n) r | returned status ↦ rest ])

-- A scheduler of either kind, with its flag.
pub record Scheduler : Type 0 where
  pub interval : ℤ
  pub stop_flag : Bool

-- HeartbeatScheduler(...) and ProcessHeartbeatScheduler(...), after `__post_init__`
unfoldable pub heartbeat_scheduler : ℤ → Scheduler
unfolding clamped_heartbeat_interval
heartbeat_scheduler interval = record {
  interval = clamped_heartbeat_interval interval machine_heartbeat_recommended_interval;
  stop_flag = false;
}

unfoldable pub process_heartbeat_scheduler : ℤ → Scheduler
unfolding clamped_heartbeat_interval
process_heartbeat_scheduler interval = record {
  interval = clamped_heartbeat_interval interval process_heartbeat_recommended_interval;
  stop_flag = false;
}

-- `stop` of both schedulers
abbrev pub stop : Scheduler → Scheduler
stop scheduler = record scheduler { stop_flag = true }

-- contextlib.suppress(NotFoundError)
unfoldable pub suppress_not_found : Outcome (Unit {0}) → Outcome (Unit {0})
suppress_not_found (returned u) = returned u
suppress_not_found (raised r) = if is_not_found r then returned tt else raised r

-- `dispose`, which is also `__exit__`: the scheduler after it and what it raises, where `delete`
-- is the outcome of deleting the process row
pub dispose : Scheduler → Outcome (Unit {0}) → Scheduler × Outcome (Unit {0})
unfolding suppress_not_found
dispose scheduler delete = (stop scheduler, suppress_not_found delete)
