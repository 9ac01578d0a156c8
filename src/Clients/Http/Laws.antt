-- ===== src/Clients/Http/Laws.antt =====
-- Calls of the services: what an open circuit spares the network, and what a call sends.
use fin_base.Base.{◌+◌, ◌<◌, ◌≡◌, refl, ap, ◌∙◌, String, Option, some, none, Result, sym, subst}
use fin_base.Clients.Breaker.{CircuitBreaker, opened, closed, execute}
use fin_base.Clients.Breaker.Laws.{execute_open, execute_success}
use fin_base.Clients.Redact.{redact_error}
use fin_base.Clients.Manager.{ClientManager, redact}
use fin_base.Clients.Http.{
  Request, Wire, Client, Labels, Provider, open_figi, sec, finnhub, tiingo, twelve_data, fmp, fred,
  breaker_of, put_breaker, run_call, fetch_raw, fetch, next_reply, transact, Fetched, redacted,
}

put_same : (p : Provider) (cm : ClientManager) → put_breaker p (breaker_of p cm) cm ≡ cm
unfolding breaker_of put_breaker
put_same open_figi cm = refl
put_same sec cm = refl
put_same finnhub cm = refl
put_same tiingo cm = refl
put_same twelve_data cm = refl
put_same fmp cm = refl
put_same fred cm = refl

behind : {A : Type 0} → Provider → Client → Option String × CircuitBreaker × (A × Wire) → Fetched A
behind p c (e, cb, s) = ((s.0, e), record { manager = put_breaker p cb c.manager; wire = s.1 })

redacted-behind :
    {A : Type 0} (p : Provider) (c : Client) (zero : A) (e : String)
    → redacted (behind p c (some e, breaker_of p c.manager, (zero, c.wire)))
      ≡ ((zero, redact c.manager (some e)), c)
unfolding redacted behind
redacted-behind p c zero e =
    ap (λ cm. ((zero, redact cm (some e)), record { manager = cm; wire = c.wire }))
      (put_same p c.manager)

module _ {A : Type 0} where
  run_call-behind :
      (p : Provider) (call : ClientManager → A × Wire → Option String × (A × Wire)) (zero : A)
      (c : Client)
      → run_call p call zero c
        ≡ behind p c (
            execute c.wire.clock
              (next_reply c.wire.clock c.wire.replies).finish
              (call c.manager)
              (breaker_of p c.manager)
              (zero, c.wire))
  unfolding run_call behind
  run_call-behind p call zero c = refl

  pub run_call_open :
      (p : Provider) (call : ClientManager → A × Wire → Option String × (A × Wire)) (zero : A)
      (c : Client)
      → (breaker_of p c.manager).state ≡ opened
      → c.wire.clock
        < (breaker_of p c.manager).last_state_change + (breaker_of p c.manager).cooldown
      → redacted (run_call p call zero c)
        ≡ ((zero, redact c.manager (some "circuit breaker open")), c)
  run_call_open p call zero c o early =
      let e =
        execute_open c.wire.clock (next_reply c.wire.clock c.wire.replies).finish (call c.manager)
          (breaker_of p c.manager) (zero, c.wire) o early in
      ap redacted (run_call-behind p call zero c ∙ ap (behind p c) e)
      ∙ redacted-behind p c zero "circuit breaker open"

module _ {A B : Type 0} where
  -- While a service's circuit is open and its cooldown runs, a fetch returns the nil value and the
  -- breaker's error; nothing is sent, no reply is used up, and the keys and breakers stay as they are.
  pub fetch_open :
      (p : Provider) (l : Labels) (q : ClientManager → Request) (decode : String → Result B)
      (process : B → Result A) (zero : A) (c : Client)
      → (breaker_of p c.manager).state ≡ opened
      → c.wire.clock
        < (breaker_of p c.manager).last_state_change + (breaker_of p c.manager).cooldown
      → fetch p l q decode process zero c
        ≡ ((zero, redact c.manager (some "circuit breaker open")), c)
  unfolding fetch fetch_raw
  fetch_open p l q decode process = run_call_open p (λ cm. transact l (q cm) decode process)

breaker-put :
    (p : Provider) (cb : CircuitBreaker) (cm : ClientManager)
    → breaker_of p (put_breaker p cb cm) ≡ cb
unfolding breaker_of put_breaker
breaker-put open_figi cb cm = refl
breaker-put sec cb cm = refl
breaker-put finnhub cb cm = refl
breaker-put tiingo cb cm = refl
breaker-put twelve_data cb cm = refl
breaker-put fmp cb cm = refl
breaker-put fred cb cm = refl

-- The breaker of a service behind a success.
abbrev pub IsRested : CircuitBreaker → Type 0
IsRested cb = (cb.state ≡ closed) × (cb.failure_count ≡ 0)

-- A fetch without an error leaves the breaker of its service closed and its count at nothing.
abbrev pub RestsOnSuccess : {A : Type 0} → Provider → Fetched A → Type 0
RestsOnSuccess p ((a, e), c) = e ≡ none → IsRested (breaker_of p c.manager)

module _ {A : Type 0} where
  behind-RestsOnSuccess :
      (p : Provider) (c : Client) (r : Option String × CircuitBreaker × (A × Wire))
      → (r.0 ≡ none → IsRested r.1)
      → RestsOnSuccess p (behind p c r)
  unfolding behind
  behind-RestsOnSuccess p c (e, cb, s) h q = subst IsRested (sym (breaker-put p cb c.manager)) (h q)

  pub run_call-RestsOnSuccess :
      (p : Provider) (call : ClientManager → A × Wire → Option String × (A × Wire)) (zero : A)
      (c : Client)
      → RestsOnSuccess p (run_call p call zero c)
  run_call-RestsOnSuccess p call zero c =
      subst (RestsOnSuccess p) (sym (run_call-behind p call zero c)) (
        behind-RestsOnSuccess p c _
          (execute_success c.wire.clock _ (call c.manager) (breaker_of p c.manager) (zero, c.wire)))

  pub redacted-RestsOnSuccess :
      (p : Provider) (f : Fetched A) → RestsOnSuccess p f → RestsOnSuccess p (redacted f)
  unfolding redacted redact redact_error
  redacted-RestsOnSuccess p ((a, none), c) h q = h refl
  redacted-RestsOnSuccess p ((a, some e), c) h q = cc
