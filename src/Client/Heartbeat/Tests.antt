-- ===== src/Client/Heartbeat/Tests.antt =====
-- Heartbeats of small policies.
use tamga_python.Prelude.{ℕ, suc, ◌*◌, ◌≤◌, ◌<◌, ◌≡◌, refl, ◌⊎◌, Bool, some, ◌==◌}
use tamga_python.Python.Int.{pos}
use tamga_python.Models.Machine.{HeartbeatStatus, dead}
use tamga_python.Models.Policy.{HeartbeatPolicy, effective_heartbeat_window_seconds}
use tamga_python.Transport.{Outcome, returned}
use tamga_python.Client.Heartbeat.{interval_for_policy, stopped, run_forever}
use tamga_python.Client.Heartbeat.Interval.{interval_for_policy-fits}
use tamga_python.Client.Heartbeat.Loop.{Stands, run_forever-Stands}

abbrev two_minutes : HeartbeatPolicy
two_minutes = record { heartbeat_duration = some (pos 120) }

fits_two_minutes : interval_for_policy two_minutes ≡ pos 40000000
unfolding interval_for_policy effective_heartbeat_window_seconds
fits_two_minutes = refl

interval_for_policy-fits_example :
    (seconds : ℕ) × (i : ℕ) × (effective_heartbeat_window_seconds two_minutes ≡ pos (suc seconds))
    × (interval_for_policy two_minutes ≡ pos i)
    × (1000000 ≤ i)
    × ((i * 3 ≤ suc seconds * 1000000) ⊎ ((suc seconds < 3) × (i ≡ 1000000)))
interval_for_policy-fits_example = interval_for_policy-fits two_minutes

-- Every ping answers DEAD, and the flag is set before the third.
abbrev always_dead : ℕ → Outcome HeartbeatStatus
always_dead n = returned dead

abbrev third : ℕ → Bool
third n = n == 2

stops : run_forever third always_dead 9 0 ≡ stopped 2
unfolding run_forever
stops = refl

run_forever-Stands_example : Stands third always_dead 9 0 (run_forever third always_dead 9 0)
run_forever-Stands_example = run_forever-Stands third always_dead 9
