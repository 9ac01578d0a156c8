-- ===== src/Clients/Breaker/Interleaving.antt =====
-- Calls that overlap: any order of the steps of any number of `Execute` calls.
use fin_base.Base.{ℕ, suc, ◌≤◌, ◌<◌, ◌≡◌, ◌≢◌, String, List, [], ◌∷◌, Option, none, some}
use fin_base.Clients.Breaker.{closed, CircuitBreaker, admit, settle, fail}

-- A call asks to be made, or one that was made ends with or without an error.
pub data CallStep : Type 0 where
  asks : ℕ → CallStep
  ends : ℕ → Option String → CallStep

pub step : CallStep → CircuitBreaker → CircuitBreaker
unfolding admit settle fail
step (asks now) cb = (admit now cb).0
step (ends now e) cb = settle now e cb

pub run : CircuitBreaker → List CallStep → CircuitBreaker
unfolding step
run cb [] = cb
run cb (s ∷ ss) = run (step s cb) ss

-- How many calls have ended with an error since the last one that ended without, `n` of them before.
abbrev pub streak : ℕ → List CallStep → ℕ
streak n [] = n
streak n (asks now ∷ ss) = streak n ss
streak n (ends now none ∷ ss) = streak 0 ss
streak n (ends now (some e) ∷ ss) = streak (suc n) ss

-- The state follows the count: the circuit is closed while fewer than `k` calls in a row failed.
abbrev pub Follows : ℕ → ℕ → CircuitBreaker → Type 0
Follows k n cb =
    (cb.threshold ≡ k)
    × (cb.failure_count ≡ n)
    × (cb.state ≡ closed → n < k)
    × (cb.state ≢ closed → k ≤ n)
