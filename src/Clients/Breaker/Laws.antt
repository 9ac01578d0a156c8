-- ===== src/Clients/Breaker/Laws.antt =====
-- What one call through the breaker does, by its state.
use fin_base.Base.{ℕ, ◌+◌, ◌≤◌, ◌<◌, ◌≡◌, String, Option, none, some, arith}
use fin_base.Clients.Breaker.{closed, opened, CircuitBreaker, execute}

-- While the circuit is open and the cooldown runs, the guarded call is not made: its state is as it
-- was, and so is the breaker.
pub execute_open :
    {S : Type 0} (start finish : ℕ) (fn : S → Option String × S) (cb : CircuitBreaker) (s : S)
    → cb.state ≡ opened
    → start < cb.last_state_change + cb.cooldown
    → execute start finish fn cb s ≡ (some "circuit breaker open", cb, s)
unfolding execute
execute_open start finish fn cb s o early = ground arith

-- Once the cooldown is over the call is made as a probe: with its success the circuit is closed with
-- no failure counted; with its error the circuit is open again and the cooldown starts anew at the
-- end of the call.
pub execute_probe :
    {S : Type 0} (start finish : ℕ) (fn : S → Option String × S) (cb : CircuitBreaker) (s : S)
    → cb.state ≡ opened
    → cb.last_state_change + cb.cooldown ≤ start
    → let (e, cb', s') = execute start finish fn cb s in
      (e ≡ (fn s).0)
      × (s' ≡ (fn s).1)
      × ((fn s).0 ≡ none → (cb'.state ≡ closed) × (cb'.failure_count ≡ 0))
      × ((x : String) → (fn s).0 ≡ some x → (cb'.state ≡ opened) × (cb'.last_state_change ≡ finish))
unfolding execute
execute_probe start finish fn cb s o late =
    (ground arith, ground arith, λ q. ground arith, λ x q. ground arith)

-- A call without an error was made, and it leaves the circuit closed and the count at nothing.
pub execute_success :
    {S : Type 0} (start finish : ℕ) (fn : S → Option String × S) (cb : CircuitBreaker) (s : S)
    → (execute start finish fn cb s).0 ≡ none
    → ((execute start finish fn cb s).1.state ≡ closed)
      × ((execute start finish fn cb s).1.failure_count ≡ 0)
unfolding execute
execute_success start finish fn cb s h = ground arith
