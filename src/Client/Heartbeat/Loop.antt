-- ===== src/Client/Heartbeat/Loop.antt =====
-- What ends a heartbeat loop.
use tamga_python.Prelude.{
  ◌≡◌, ℕ, zero, suc, ◌+◌, ◌≤◌, ◌<◌, Bool, true, false, arith, Bool-cases, inl, inr, ◌⊎◌,
}
use tamga_python.Models.Machine.{HeartbeatStatus}
use tamga_python.Transport.{Raised, Outcome, returned, raised}
use tamga_python.Client.Machines.Activation.{Outcome-cases}
use tamga_python.Client.Heartbeat.{Standing, running, stopped, failed, run_forever}

module _ (stop_set : ℕ → Bool) (ping : ℕ → Outcome HeartbeatStatus) where
  -- Ping number `k` was sent, since nothing had set the flag, and it returned some status.
  abbrev pub IsTurn : ℕ → Type 0
  IsTurn k = (stop_set k ≡ false) × ((status : HeartbeatStatus) × (ping k ≡ returned status))

  -- How the loop from ping `n` on stands after at most `fuel` turns.
  pub data Stands (fuel n : ℕ) : Standing → Type 0 where
    still_running :
        (total : ℕ)
        → total ≡ n + fuel
        → ((k : ℕ) → n ≤ k → k < total → IsTurn k)
        → Stands fuel n (running total)
    was_stopped :
        (last : ℕ)
        → n ≤ last
        → last < n + fuel
        → stop_set last ≡ true
        → ((k : ℕ) → n ≤ k → k < last → IsTurn k)
        → Stands fuel n (stopped last)
    has_failed :
        (last : ℕ) (r : Raised)
        → n ≤ last
        → last < n + fuel
        → stop_set last ≡ false
        → ping last ≡ raised r
        → ((k : ℕ) → n ≤ k → k < last → IsTurn k)
        → Stands fuel n (failed (suc last) r)

  first_or_later : (n k : ℕ) → n ≤ k → (k ≡ n) ⊎ (suc n ≤ k)
  first_or_later n k h = ground arith

  one_more :
      (fuel n : ℕ) (standing : Standing)
      → IsTurn n
      → Stands fuel (suc n) standing
      → Stands (suc fuel) n standing
  one_more fuel n _ turn (still_running total same turns) =
      still_running total (omega arith)
        λ k a b. elim (first_or_later n k a) [ inl e ↦ rw e turn | inr later ↦ turns k later b ]
  one_more fuel n _ turn (was_stopped last lo hi flag turns) =
      was_stopped last (omega arith) (omega arith) flag
        λ k a b. elim (first_or_later n k a) [ inl e ↦ rw e turn | inr later ↦ turns k later b ]
  one_more fuel n _ turn (has_failed last r lo hi flag e turns) =
      has_failed last r (omega arith) (omega arith) flag e
        λ k a b. elim (first_or_later n k a) [ inl e ↦ rw e turn | inr later ↦ turns k later b ]

  run_forever-Stands-from : (fuel n : ℕ) → Stands fuel n (run_forever stop_set ping fuel n)
  unfolding run_forever
  run_forever-Stands-from zero n = still_running n (omega arith) λ k a b. absurd (omega arith)
  run_forever-Stands-from (suc fuel) n = elim (Bool-cases (stop_set n)) [
    | inl flag ↦
        rw (run_forever, flag)
          (was_stopped n (omega arith) (omega arith) flag λ k a b. absurd (omega arith))
    | inr flag ↦ elim (Outcome-cases (ping n)) [
      | inl (r, e) ↦
          rw (run_forever, flag, e)
            (has_failed n r (omega arith) (omega arith) flag e λ k a b. absurd (omega arith))
      | inr (status, e) ↦
          rw (run_forever, flag, e)
            (one_more fuel n _ (flag, (status, e)) (run_forever-Stands-from fuel (suc n)))
    ]
  ]

  -- After any number of turns the loop is still running, and every ping so far has returned,
  -- whatever its status; or the flag was set before some ping, or a ping raised, and it ended there,
  -- with all pings before it sent and returned. Nothing else ends it, no status least of all.
  pub run_forever-Stands : (fuel : ℕ) → Stands fuel 0 (run_forever stop_set ping fuel 0)
  run_forever-Stands fuel = run_forever-Stands-from fuel 0
