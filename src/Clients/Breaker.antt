-- ===== src/Clients/Breaker.antt =====
-- The circuit breaker of clients/clients.go. `Execute` holds the mutex before and after the call that
-- it guards, not during it: so it is the two steps `admit` and `settle`, between which the steps of
-- other calls may come. Times are instants of one clock; `int` counters do not reach 2 ^ 63 here.
pub mod Laws
pub mod Interleaving
use fin_base.Base.{
  ℕ, suc, ◌+◌, String, Bool, true, false, ◌&&◌, ◌||◌, Option, none, some, if◌then◌else◌, leb,
}

pub data CircuitState : Type 0 where
  closed opened half_open : CircuitState

pub record CircuitBreaker : Type 0 where
  pub state : CircuitState
  pub failure_count : ℕ
  pub threshold : ℕ
  pub cooldown : ℕ
  pub last_state_change : ℕ

unfoldable pub new_circuit_breaker : ℕ → ℕ → CircuitBreaker
new_circuit_breaker threshold cooldown = record {
  state = closed;
  failure_count = 0;
  threshold = threshold;
  cooldown = cooldown;
  last_state_change = 0;
}

-- `CircuitBreaker.Status`
unfoldable pub status : CircuitBreaker → String × ℕ
status cb = (
  elim cb.state [ opened ↦ "open" | half_open ↦ "half-open" | closed ↦ "closed" ],
  cb.failure_count,
)

abbrev pub is_half_open : CircuitState → Bool
is_half_open half_open = true
is_half_open closed = false
is_half_open opened = false

-- The first part of `Execute`, at time `now`: whether the call is made.
unfoldable pub admit : ℕ → CircuitBreaker → CircuitBreaker × Bool
admit now cb = elim cb.state [
  | opened ↦
      if leb (cb.last_state_change + cb.cooldown) now
      then (record cb { state = half_open; last_state_change = now }, true)
      else (cb, false)
  | closed ↦ (cb, true)
  | half_open ↦ (cb, true)
]

-- `cb.failureCount++`, and the opening of the circuit, at time `now`.
unfoldable pub fail : ℕ → CircuitBreaker → CircuitBreaker
fail now cb =
    let counted : CircuitBreaker = record cb { failure_count = suc cb.failure_count } in
    if leb cb.threshold (suc cb.failure_count) || is_half_open cb.state
    then record counted { state = opened; last_state_change = now }
    else counted

-- The second part of `Execute`, at time `now`, behind the call's error.
unfoldable pub settle : ℕ → Option String → CircuitBreaker → CircuitBreaker
unfolding fail
settle now none cb = record cb { failure_count = 0; state = closed }
settle now (some e) cb = fail now cb

-- `CircuitBreaker.Execute` with no other call between: `fn` is a call that changes a state `S`, begun
-- at `start` and over at `finish`.
unfoldable pub execute :
    {S : Type 0}
    → ℕ
    → ℕ
    → (S → Option String × S)
    → CircuitBreaker
    → S
    → Option String × CircuitBreaker × S
unfolding admit settle
execute start finish fn cb s =
    let (cb', admitted) = admit start cb in
    let (e, s') = fn s in
    if admitted then (e, settle finish e cb', s') else (some "circuit breaker open", cb', s)
