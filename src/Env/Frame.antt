-- ===== src/Env/Frame.antt =====
-- The operations on keys leave the watchlist alone; and what keeps the keys in the table, or the keys
-- in use, keeps their agreement.
use fin_base.Base.{
  ℕ, ◌≡◌, refl, sym, ap, ◌∙◌, inl, inr, String, str_eq, ◌||◌, any, find, arith, Bool-cases,
}
use fin_base.Base.Text.{normalize, trim_space}
use fin_base.Db.Models.{Tables}
use fin_base.Db.Tx.{Result, ok, err, World, committed}
use fin_base.Db.Tx.Laws.{of_stmt, Ended, Effect, exec-Commits}
use fin_base.Db.Keys.{
  value_of, has_name, key_in, upsert_key, delete_key as delete_row, set_api_key, delete_api_key,
}
use fin_base.Clients.Manager.{ClientManager}
use fin_base.Clients.Http.{Provider, open_figi, sec, finnhub, tiingo, twelve_data, fmp, fred}
use fin_base.Clients.Probe.{key_of}
use fin_base.Env.{
  Environment, EnvService, known_keys, saved_key, store_key, set_key, deleted_key, delete_key,
}
use fin_base.Env.Laws.{
  ClientKey, sec_key, finnhub_key, open_figi_key, tiingo_key, twelve_data_key, fmp_key, fred_key,
  held, intended, name_of, Agrees, override-eq,
}
use fin_base.Env.Probing.{Untouched}

-- The watchlist and its sequence stay.
abbrev pub SameWatchlist : Tables → Tables → Type 0
SameWatchlist t u = (u.watchlist ≡ t.watchlist) × (u.watch_seq ≡ t.watch_seq)

ended_watchlist :
    (R : Effect (Unit {0})) (w : World) (x : Result (Unit {0}) × World)
    → ((n : ℕ) (t : Tables) (a : Unit {0}) (u : Tables) → R n t a u → SameWatchlist t u)
    → Ended R w x
    → SameWatchlist (committed w) (committed x.1)
ended_watchlist R w (ok a, w') k h = k _ _ _ _ h.0
ended_watchlist R w (err e, w') k h =
    (ap (λ (t : Tables). t.watchlist) h.0, ap (λ (t : Tables). t.watch_seq) h.0)

set_api_key-SameWatchlist :
    (name value : String) (w : World)
    → SameWatchlist (committed w) (committed (set_api_key name value w).1)
unfolding set_api_key upsert_key
set_api_key-SameWatchlist name value w =
    ended_watchlist (of_stmt (upsert_key (trim_space name) value)) w (set_api_key name value w)
      (λ n t a u h. (ground arith, ground arith))
      (exec-Commits (upsert_key (trim_space name) value) w)

delete_api_key-SameWatchlist :
    (name : String) (w : World) → SameWatchlist (committed w) (committed (delete_api_key name w).1)
unfolding delete_api_key delete_row
delete_api_key-SameWatchlist name w =
    ended_watchlist (of_stmt (delete_row (trim_space name))) w (delete_api_key name w)
      (λ n t a u h. (ground arith, ground arith)) (exec-Commits (delete_row (trim_space name)) w)

saved_db :
    (name value : String) (s : EnvService) (x : Result (Unit {0}) × World)
    → (saved_key name value s x).1.db ≡ x.1
unfolding saved_key
saved_db name value s (ok a, w) = refl
saved_db name value s (err e, w) = refl

deleted_db :
    (getenv : Environment) (name : String) (s : EnvService) (x : Result (Unit {0}) × World)
    → (deleted_key getenv name s x).1.db ≡ x.1
unfolding deleted_key
deleted_db getenv name s (ok a, w) = refl
deleted_db getenv name s (err e, w) = refl

-- Setting or deleting a key leaves the rows of the watchlist and its sequence, whatever SQLite answers.
pub set_key-SameWatchlist :
    (name value : String) (s : EnvService)
    → SameWatchlist (committed s.db) (committed (set_key name value s).1.db)
unfolding set_key store_key
set_key-SameWatchlist name value s =
    elim (Bool-cases (str_eq (normalize name) "" || str_eq (trim_space value) "")) [
      | inl q ↦ rw q (refl, refl)
      | inr q ↦ elim (Bool-cases (any (λ k. str_eq k (normalize name)) known_keys)) [
        | inr u ↦ rw (q, u) (refl, refl)
        | inl u ↦
            rw
              (
                q,
                u,
                saved_db (normalize name) (trim_space value) s
                    (set_api_key (normalize name) (trim_space value) s.db),
              )
              (set_api_key-SameWatchlist (normalize name) (trim_space value) s.db)
      ]
    ]

pub delete_key-SameWatchlist :
    (getenv : Environment) (name : String) (s : EnvService)
    → SameWatchlist (committed s.db) (committed (delete_key getenv name s).1.db)
unfolding delete_key
delete_key-SameWatchlist getenv name s =
    rw (deleted_db getenv (normalize name) s (delete_api_key (normalize name) s.db))
      (delete_api_key-SameWatchlist (normalize name) s.db)

provider_of : ClientKey → Provider
provider_of sec_key = sec
provider_of finnhub_key = finnhub
provider_of open_figi_key = open_figi
provider_of tiingo_key = tiingo
provider_of twelve_data_key = twelve_data
provider_of fmp_key = fmp
provider_of fred_key = fred

held-key_of : (k : ClientKey) (cm : ClientManager) → held k cm ≡ key_of (provider_of k) cm
unfolding provider_of key_of
held-key_of sec_key cm = refl
held-key_of finnhub_key cm = refl
held-key_of open_figi_key cm = refl
held-key_of tiingo_key cm = refl
held-key_of twelve_data_key cm = refl
held-key_of fmp_key cm = refl
held-key_of fred_key cm = refl

-- The same table of keys keeps the agreement, and so does a test.
pub keys-Agrees :
    (getenv : Environment) (s : EnvService) (w : World)
    → Agrees getenv s
    → (committed w).api_keys ≡ (committed s.db).api_keys
    → Agrees getenv (record s { db = w })
unfolding Agrees
keys-Agrees getenv s w g h = (
  λ k. g.0 k ∙ sym (same (name_of k)),
  λ ne. g.1 (λ z. ne (same "API_KEY" ∙ z)) ∙ sym (same "API_KEY"),
)
  where
    same : (n : String) → intended getenv (committed w) n ≡ intended getenv (committed s.db) n
    same n =
        override-eq getenv (λ m. key_in m (committed w)) (λ m. key_in m (committed s.db)) n
          (ap (λ rows. value_of (find (has_name n) rows)) h)

pub test-Agrees :
    (getenv : Environment) (s s' : EnvService) → Untouched s s' → Agrees getenv s → Agrees getenv s'
unfolding Agrees
test-Agrees getenv s s' u g = (
  λ k.
      held-key_of k s'.client_mgr
      ∙ u.2.same (provider_of k)
      ∙ sym (held-key_of k s.client_mgr)
      ∙ g.0 k
      ∙ ap (λ w. intended getenv (committed w) (name_of k)) (sym u.0),
  λ ne.
      let q = ap (λ w. intended getenv (committed w) "API_KEY") u.0 in
      u.1 ∙ g.1 (λ z. ne (q ∙ z)) ∙ sym q,
)
