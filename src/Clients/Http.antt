-- ===== src/Clients/Http.antt =====
-- A call of a data service in clients/clients.go: the limiter, the request, the reply's status and
-- body, all within the service's circuit breaker. The network, the limiters and the clock are outside
-- the program: a `Wire` has what they answer to the next calls. A Go result pair is a pair of the value,
-- which is nil or empty with an error, and the error.
pub mod Laws
use fin_base.Base.{
  ℕ, String, Bool, false, str_eq, List, [], ◌∷◌, ◌++◌, Option, none, some, if◌then◌else◌, ◌==◌,
  Result, ok, err,
}
use fin_base.Base.Text.{concat, show_nat}
use fin_base.Clients.Breaker.{CircuitBreaker, execute}
use fin_base.Clients.Manager.{ClientManager, redact}

pub record Request : Type 0 where
  pub method : String
  pub url : String
  pub headers : List (String × String)
  pub body : String

-- What the next call meets: errors of the limiter's wait, of making the request, of sending it and of
-- reading the body, the reply's status, body and Content-Encoding, whether the transport has
-- decompressed it, and the time when the call is over.
pub record Reply : Type 0 where
  pub waited : Option String
  pub created : Option String
  pub sent : Option String
  pub status_code : ℕ
  pub body : String
  pub broken : Option String
  pub content_encoding : String
  pub uncompressed : Bool
  pub finish : ℕ

-- The time, the next replies, and the requests sent, the latest first.
pub record Wire : Type 0 where
  pub clock : ℕ
  pub replies : List Reply
  pub requests : List Request

pub record Client : Type 0 where
  pub manager : ClientManager
  pub wire : Wire

-- Beyond the replies there is no network.
abbrev pub no_network : ℕ → Reply
no_network now = record {
  waited = none;
  created = none;
  sent = some "no such host";
  status_code = 0;
  body = "";
  broken = none;
  content_encoding = "";
  uncompressed = false;
  finish = now;
}

abbrev pub next_reply : ℕ → List Reply → Reply
next_reply now [] = no_network now
next_reply now (r ∷ rs) = r

abbrev pub later_replies : List Reply → List Reply
later_replies [] = []
later_replies (r ∷ rs) = rs

-- The texts before the errors of one function; `wait` is missing where the limiter has `Take`.
pub record Labels : Type 0 where
  pub wait : Option String
  pub create : String
  pub http : String
  pub status : String
  pub read : String
  pub decode : String

-- `fmt.Errorf("…: %w", err)`
abbrev pub prefixed : String → String → String
prefixed s e = concat (s ∷ ": " ∷ e ∷ [])

module _ {A : Type 0} where
  -- `if err != nil { return fmt.Errorf("…: %w", err) }`
  abbrev pub checked : String → Option String → Result A → Result A
  checked s none r = r
  checked s (some e) r = err (prefixed s e)

  abbrev pub waited_for : Option String → Option String → Result A → Result A
  waited_for none e r = r
  waited_for (some s) e r = checked s e r

  abbrev pub decoded : {B : Type 0} → String → Result B → (B → Result A) → Result A
  decoded s (ok b) f = f b
  decoded s (err e) f = err (prefixed s e)

  -- The body of the call: what it makes of a reply, with `read` for a reply of status 200.
  unfoldable pub receive_by : Labels → (Reply → Result A) → Reply → Result A
  receive_by l read r = waited_for l.wait r.waited (
      checked l.create r.created (
        checked l.http r.sent (
          if r.status_code == 200
          then read r
          else err
              (concat (l.status ∷ " HTTP status " ∷ show_nat r.status_code ∷ ": " ∷ r.body ∷ [])))))

  -- The same where the body is read and decoded as it is.
  unfoldable pub receive :
      {B : Type 0} → Labels → (String → Result B) → (B → Result A) → Reply → Result A
  unfolding receive_by
  receive l decode process =
      receive_by l (λ r. checked l.read r.broken (decoded l.decode (decode r.body) process))

  -- The captured variable, assigned on success only, and the error.
  abbrev pub assign : Result A → A → Wire → Option String × (A × Wire)
  assign (ok a) zero w = (none, (a, w))
  assign (err e) zero w = (some e, (zero, w))

-- The requests sent, with that of this call unless it fails before `Do`.
abbrev pub sent_with : Labels → Request → Reply → List Request → List Request
sent_with l q r qs = elim r.created [
  | some _ ↦ qs
  | none ↦ elim l.wait [ none ↦ q ∷ qs | some _ ↦ elim r.waited [ some _ ↦ qs | none ↦ q ∷ qs ] ]
]

module _ {A : Type 0} where
  -- The call, with `outcome` for what its body makes of the reply.
  unfoldable pub transact_by :
      Labels → Request → (Reply → Result A) → A × Wire → Option String × (A × Wire)
  transact_by l q outcome (zero, w) =
      let r = next_reply w.clock w.replies in
      assign (outcome r) zero (record {
        clock = r.finish;
        replies = later_replies w.replies;
        requests = sent_with l q r w.requests;
      })

  unfoldable pub transact :
      {B : Type 0}
      → Labels
      → Request
      → (String → Result B)
      → (B → Result A)
      → A × Wire
      → Option String × (A × Wire)
  unfolding receive transact_by
  transact l q decode process = transact_by l q (receive l decode process)

pub data Provider : Type 0 where
  open_figi sec finnhub tiingo twelve_data fmp fred : Provider

unfoldable pub breaker_of : Provider → ClientManager → CircuitBreaker
breaker_of open_figi cm = cm.open_figi_cb
breaker_of sec cm = cm.sec_cb
breaker_of finnhub cm = cm.finnhub_cb
breaker_of tiingo cm = cm.tiingo_cb
breaker_of twelve_data cm = cm.twelve_data_cb
breaker_of fmp cm = cm.fmp_cb
breaker_of fred cm = cm.fred_cb

unfoldable pub put_breaker : Provider → CircuitBreaker → ClientManager → ClientManager
put_breaker open_figi cb cm = record cm { open_figi_cb = cb }
put_breaker sec cb cm = record cm { sec_cb = cb }
put_breaker finnhub cb cm = record cm { finnhub_cb = cb }
put_breaker tiingo cb cm = record cm { tiingo_cb = cb }
put_breaker twelve_data cb cm = record cm { twelve_data_cb = cb }
put_breaker fmp cb cm = record cm { fmp_cb = cb }
put_breaker fred cb cm = record cm { fred_cb = cb }

-- A result of a fetch function, and the manager and the wire behind it.
abbrev pub Fetched : Type 0 → Type 0
Fetched A = (A × Option String) × Client

-- `return value, cm.redact(err)`
unfoldable pub redacted : {A : Type 0} → Fetched A → Fetched A
unfolding redact
redacted ((a, e), c) = ((a, redact c.manager e), c)

module _ {A : Type 0} where
  -- `err := cm.xxxCB.Execute(func() error { … })`, and `return value, err`
  unfoldable pub run_call :
      Provider → (ClientManager → A × Wire → Option String × (A × Wire)) → A → Client → Fetched A
  unfolding execute breaker_of put_breaker
  run_call p call zero c =
      let (e, cb, s) =
        execute c.wire.clock (next_reply c.wire.clock c.wire.replies).finish (call c.manager)
          (breaker_of p c.manager) (zero, c.wire) in
      ((s.0, e), record { manager = put_breaker p cb c.manager; wire = s.1 })

module _ {A B : Type 0} (p : Provider) (l : Labels) (request : ClientManager → Request) where
  unfoldable pub fetch_raw : (String → Result B) → (B → Result A) → A → Client → Fetched A
  unfolding transact run_call
  fetch_raw decode process = run_call p (λ cm. transact l (request cm) decode process)

  -- The same, redacted.
  unfoldable pub fetch : (String → Result B) → (B → Result A) → A → Client → Fetched A
  unfolding fetch_raw redacted
  fetch decode process zero c = redacted (fetch_raw decode process zero c)
