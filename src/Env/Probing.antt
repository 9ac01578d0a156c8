-- ===== src/Env/Probing.antt =====
-- Testing a key changes breakers only, and reading the keys' statuses changes nothing.
use fin_base.Base.{◌≡◌, refl, inl, inr, String, str_eq, Option, none, some, arith, Bool-cases}
use fin_base.Base.Text.{to_lower, normalize}
use fin_base.Db.Tx.{Result, ok, err, World, committed}
use fin_base.Db.Keys.{KeyMap, get_api_keys_map}
use fin_base.Db.Quiet.{get_api_keys_map-IsQuiet}
use fin_base.Clients.Breaker.{CircuitBreaker}
use fin_base.Clients.Manager.{ClientManager}
use fin_base.Clients.Http.{
  Wire, Client, Fetched, Provider, open_figi, sec, finnhub, tiingo, twelve_data, fmp, fred,
  put_breaker, run_call, fetch, fetch_raw,
}
use fin_base.Clients.Payloads.{Codec}
use fin_base.Clients.Quotes.{
  fetch_finnhub_quote, fetch_tiingo_market_data, fetch_twelve_data_market_data,
}
use fin_base.Clients.Facts.{fetch_fmp_income_statement, fetch_fred_series}
use fin_base.Clients.Sec.{Inflate, fetch_sec_facts, fetch_open_figi}
use fin_base.Clients.Probe.{
  judged, try_service, probe, probe_named, service_of, key_of, test_key_functionality,
}
use fin_base.Env.{Environment, EnvService, get_key_statuses, listed}
use fin_base.Env.TestKey.{test_key}

-- The keys of two managers are the same.
pub record SameKeys (cm cm' : ClientManager) : Type 0 where
  pub same : (p : Provider) → key_of p cm' ≡ key_of p cm

put-key_of :
    (p q : Provider) (cb : CircuitBreaker) (cm : ClientManager)
    → key_of q (put_breaker p cb cm) ≡ key_of q cm
unfolding key_of put_breaker
put-key_of p q cb cm = ground arith

module _ {A : Type 0} where
  pub run_call-SameKeys :
      (p : Provider) (call : ClientManager → A × Wire → Option String × (A × Wire)) (zero : A)
      (c : Client)
      → SameKeys c.manager (run_call p call zero c).1.manager
  unfolding run_call
  run_call-SameKeys p call zero c = record { same = λ q. put-key_of p q _ c.manager }

  judged-SameKeys :
      (cm : ClientManager) (text : String) (f : Fetched A)
      → SameKeys cm f.1.manager
      → SameKeys cm (judged text f).1.manager
  judged-SameKeys cm text ((a, none), c) h = h
  judged-SameKeys cm text ((a, some e), c) h = h

-- A test leaves the database, the system's key and the clients' keys.
abbrev pub Untouched : EnvService → EnvService → Type 0
Untouched s s' = (s'.db ≡ s.db) × (s'.api_key ≡ s.api_key) × SameKeys s.client_mgr s'.client_mgr

ruleset same_keys = (judged-SameKeys, run_call-SameKeys)

module _ (json : Codec) (z : Inflate) where
  try_service-SameKeys :
      (p : Provider) (c : Client) → SameKeys c.manager (try_service json z p c).1.manager
  unfolding try_service fetch_open_figi fetch_sec_facts fetch_finnhub_quote fetch_tiingo_market_data
      fetch_twelve_data_market_data fetch_fmp_income_statement fetch_fred_series fetch fetch_raw
  try_service-SameKeys open_figi c = search same_keys
  try_service-SameKeys sec c = search same_keys
  try_service-SameKeys finnhub c = search same_keys
  try_service-SameKeys tiingo c = search same_keys
  try_service-SameKeys twelve_data c = search same_keys
  try_service-SameKeys fmp c = search same_keys
  try_service-SameKeys fred c = search same_keys

  probe-SameKeys : (p : Provider) (c : Client) → SameKeys c.manager (probe json z p c).1.manager
  unfolding probe
  probe-SameKeys p c = elim (Bool-cases (str_eq (key_of p c.manager) "")) [
    | inl unset ↦ rw unset (record { same = λ q. refl })
    | inr set ↦ rw set (try_service-SameKeys p c)
  ]

  named-SameKeys :
      (name : String) (o : Option Provider) (c : Client)
      → SameKeys c.manager (probe_named json z name o c).1.manager
  named-SameKeys name none c = record { same = λ q. refl }
  named-SameKeys name (some p) c = probe-SameKeys p c

  test_key_functionality-SameKeys :
      (name : String) (c : Client)
      → SameKeys c.manager (test_key_functionality json z name c).1.manager
  unfolding test_key_functionality
  test_key_functionality-SameKeys name c = named-SameKeys name (service_of (to_lower name)) c

  pub test_key-Untouched :
      (name : String) (s : EnvService) (w : Wire) → Untouched s (test_key json z name s w).1.0
  unfolding test_key
  test_key-Untouched name s w = elim (Bool-cases (str_eq (normalize name) "API_KEY")) [
    | inl system ↦ elim (Bool-cases (str_eq s.api_key "")) [
      | inl unset ↦ rw (system, unset) (refl, refl, record { same = λ q. refl })
      | inr set ↦ rw (system, set) (refl, refl, record { same = λ q. refl })
    ]
    | inr client ↦ rw client (
      refl,
      refl,
      test_key_functionality-SameKeys (normalize name)
          (record { manager = s.client_mgr; wire = w }),
    )
  ]

-- Whatever the keys, `GetKeyStatuses` leaves the keys in use and what is committed.
abbrev pub OnlyReads : EnvService → EnvService → Type 0
OnlyReads s s' = (committed s'.db ≡ committed s.db) × (s' ≡ record s { db = s'.db })

listed-OnlyReads :
    (getenv : Environment) (s : EnvService) (x : Result KeyMap × World)
    → committed x.1 ≡ committed s.db
    → OnlyReads s (listed getenv s x).1
unfolding listed
listed-OnlyReads getenv s (ok keys, w) h = (h, refl)
listed-OnlyReads getenv s (err e, w) h = (h, refl)

pub get_key_statuses-OnlyReads :
    (getenv : Environment) (s : EnvService) → OnlyReads s (get_key_statuses getenv s).1
unfolding get_key_statuses
get_key_statuses-OnlyReads getenv s =
    listed-OnlyReads getenv s (get_api_keys_map s.db) (get_api_keys_map-IsQuiet s.db)
