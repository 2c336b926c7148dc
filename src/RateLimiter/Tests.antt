-- ===== src/RateLimiter/Tests.antt =====
-- The limiters at concrete calls, and the theorems at inputs that meet their hypotheses.
use site_foundry.RateLimiter.{Limits, get, set, recent, allow, Call, run}
use site_foundry.RateLimiter.Window.{admitted, run-admitted-le}
use site_foundry.RateLimiter.Keys.{answers_to, log_run, calls_of, run-refines}
use site_foundry.RateLimiter.Bounds.{after, IsBounded, after-IsBounded}
use site_foundry.Prelude.{ℕ, ◌≤◌, ◌≡◌, refl, Bool, true, false, List, [], ◌∷◌, arith}
use site_foundry.Text.{Text, txt, text_eq}

limiter : Unit {0}
unfolding run allow recent get set text_eq txt
limiter = tt

abbrev one : Text
one = txt "10.0.0.1"

-- Two hits a second, in a window of one second.
abbrev small : Limits
small = record { limit = 2; window_ms = 1000; max_keys = 3 }

abbrev calls_at : List ℕ → List Call
calls_at [] = []
calls_at (t ∷ ts) = record { key = one; at = t } ∷ calls_at ts

abbrev answers : List (Call × Bool) → List Bool
answers [] = []
answers ((call, ok) ∷ rest) = ok ∷ answers rest

abbrev burst : List Call
burst = calls_at (10 ∷ 20 ∷ 30 ∷ 1010 ∷ 1011 ∷ [])

burst-answers : answers (run small [] burst) ≡ true ∷ true ∷ false ∷ true ∷ false ∷ []
unfolding limiter
burst-answers = refl

run-admitted-le_example : admitted 1000 one 1010 (run small [] burst) ≤ 2
unfolding limiter
run-admitted-le_example = run-admitted-le small one 1010 burst (omega arith) (omega arith)

after-IsBounded_example : IsBounded small (after small [] burst)
after-IsBounded_example = after-IsBounded small burst (omega arith)

run-refines_example : answers_to one (run small [] burst) ≡ log_run small [] (calls_of one burst)
unfolding limiter
run-refines_example = run-refines small one burst (omega arith) (omega arith)
