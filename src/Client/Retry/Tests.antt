-- ===== src/Client/Retry/Tests.antt =====
-- Requests that are repeated, and one that is not.
use tamga_python.Prelude.{ℕ, zero, suc, ◌≡◌, refl, none, some, [], ◌∷◌}
use tamga_python.Python.Int.{pos}
use tamga_python.Python.Str.{codes}
use tamga_python.Python.Exc.{Result, ok}
use tamga_python.Transport.{Response, returned}
use tamga_python.Client.Retry.{Run, jittered, is_retryable, request_with_retry}
use tamga_python.Client.Retry.Bounds.{IsRun, request_with_retry-IsRun}

abbrev answer : ℕ → Response
answer status = record { status_code = status; content = []; header = λ name. none }

-- Two answers of 429, and then one of 200.
abbrev throttled_twice : ℕ → Result Response
throttled_twice zero = ok (answer 429)
throttled_twice (suc zero) = ok (answer 429)
throttled_twice (suc (suc n)) = ok (answer 200)

repeats :
    request_with_retry throttled_twice (pos 2) (codes "GET") (codes "/machines")
    ≡ some
        (record { outcome = returned (answer 200); sent = 3; waits = jittered 1 ∷ jittered 2 ∷ [] })
unfolding request_with_retry
repeats = refl

-- A creation is sent once.
creates_once :
    request_with_retry throttled_twice (pos 2) (codes "POST") (codes "/machines")
    ≡ some (record { outcome = returned (answer 429); sent = 1; waits = [] })
unfolding request_with_retry
creates_once = refl

request_with_retry-IsRun_example :
    (run : Run) × (request_with_retry throttled_twice
        (pos 2)
        (codes "post")
        (codes "/machines/1/actions/ping-heartbeat")
      ≡ some run)
    × IsRun throttled_twice
        (pos 2)
        (is_retryable (codes "post") (codes "/machines/1/actions/ping-heartbeat"))
        0
        run
request_with_retry-IsRun_example =
    request_with_retry-IsRun throttled_twice (pos 2) (codes "post")
      (codes "/machines/1/actions/ping-heartbeat")
