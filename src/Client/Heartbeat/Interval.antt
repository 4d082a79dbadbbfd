-- ===== src/Client/Heartbeat/Interval.antt =====
-- No scheduler pings more often than once a second.
use tamga_python.Prelude.{
  ◌≡◌, refl, ℕ, zero, suc, ◌*◌, ◌/◌, ◌≤◌, ◌<◌, Option, none, some, arith, inl, inr, ◌⊎◌,
}
use tamga_python.Python.Int.{ℤ, pos, negsuc, ◌≤ℤ◌, max_ℤ, floor_div}
use tamga_python.Models.Policy.{HeartbeatPolicy, window_of, effective_heartbeat_window_seconds}
use tamga_python.Client.Heartbeat.{
  min_heartbeat_interval, heartbeat_pings_per_window, machine_heartbeat_recommended_interval,
  of_seconds, heartbeat_interval_for_policy, clamped_heartbeat_interval, interval_for_policy,
}

-- A scheduler's interval is at least a second, whatever was asked for, where its default is.
pub clamped_heartbeat_interval-ge :
    (interval default : ℤ)
    → min_heartbeat_interval ≤ℤ default
    → min_heartbeat_interval ≤ℤ clamped_heartbeat_interval interval default
unfolding clamped_heartbeat_interval max_ℤ
clamped_heartbeat_interval-ge (pos n) default h = ground arith
clamped_heartbeat_interval-ge (negsuc n) default h = ground arith

window_of-positive :
    (duration : Option ℤ) → (seconds : ℕ) × (window_of duration ≡ pos (suc seconds))
unfolding window_of
window_of-positive none = (599, refl)
window_of-positive (some (pos zero)) = (599, refl)
window_of-positive (some (pos (suc n))) = (n, ground arith)
window_of-positive (some (negsuc n)) = (599, ground arith)

interval_of :
    (seconds : ℕ)
    → (i : ℕ) × (clamped_heartbeat_interval
          (max_ℤ min_heartbeat_interval
            (of_seconds (floor_div (pos seconds) heartbeat_pings_per_window)))
          machine_heartbeat_recommended_interval
        ≡ pos i)
      × (1000000 ≤ i)
      × ((i * 3 ≤ seconds * 1000000) ⊎ ((seconds < 3) × (i ≡ 1000000)))
unfolding clamped_heartbeat_interval max_ℤ floor_div
interval_of seconds = elim (lt-or-ge seconds) [
  | inl short ↦ (1000000, ground arith, ground arith, inr (short, refl))
  | inr long ↦ (seconds / 3 * 1000000, ground arith, ground arith, inl (ground arith))
]
  where
    lt-or-ge : (n : ℕ) → (n < 3) ⊎ (3 ≤ n)
    lt-or-ge n = ground arith

-- The scheduler of a policy waits at least a second, and three of its pings fit into the policy's
-- window, which is positive. Only a window below three seconds is too short for that, and then it
-- waits exactly a second.
pub interval_for_policy-fits :
    (policy : HeartbeatPolicy)
    → (seconds : ℕ) × (i : ℕ) × (effective_heartbeat_window_seconds policy ≡ pos (suc seconds))
      × (interval_for_policy policy ≡ pos i)
      × (1000000 ≤ i)
      × ((i * 3 ≤ suc seconds * 1000000) ⊎ ((suc seconds < 3) × (i ≡ 1000000)))
unfolding effective_heartbeat_window_seconds interval_for_policy heartbeat_interval_for_policy
interval_for_policy-fits policy =
    let (seconds, e) = window_of-positive policy.heartbeat_duration in
    let (i, computed, low, fit) = interval_of (suc seconds) in
    (seconds, i, e, rw (effective_heartbeat_window_seconds, e) computed, low, fit)
