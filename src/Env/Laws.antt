-- ===== src/Env/Laws.antt =====
-- The clients' keys agree with the table of keys and the process environment: `LoadAndApplyKeys` makes
-- them agree, and the operations keep them so.
use fin_base.Base.{
  ◌≡◌, refl, sym, ap, ◌∙◌, subst, ◌≢◌, inl, inr, String, str_eq, str_eq_iff, Bool, true, false, not,
  ◌||◌, [], ◌∷◌, none, some, if◌then◌else◌, any, arith, Bool-cases,
}
use fin_base.Base.Text.{normalize, trim_space, concat}
use fin_base.Base.Text.Laws.{trim-normalize}
use fin_base.Db.Models.{Tables}
use fin_base.Db.Tx.{Result, ok, err, World, committed}
use fin_base.Db.Tx.Laws.{Ended}
use fin_base.Db.Keys.{KeyMap, key_in, set_api_key, delete_api_key}
use fin_base.Db.Keys.Laws.{Assigns, keys-Assigns}
use fin_base.Clients.Manager.{ClientManager}
use fin_base.Env.{
  Environment, EnvService, apply_key, apply_all, override, assign_key, saved_key, store_key,
  set_key, deleted_key, delete_key, known_keys,
}

-- The keys that the clients hold.
pub data ClientKey : Type 0 where
  sec_key finnhub_key open_figi_key tiingo_key twelve_data_key fmp_key fred_key : ClientKey

abbrev pub name_of : ClientKey → String
name_of sec_key = "SEC_USER_AGENT"
name_of finnhub_key = "FINNHUB_API_KEY"
name_of open_figi_key = "OPENFIGI_API_KEY"
name_of tiingo_key = "TIINGO_API_KEY"
name_of twelve_data_key = "TWELVE_DATA_API_KEY"
name_of fmp_key = "FMP_API_KEY"
name_of fred_key = "FRED_API_KEY"

abbrev pub held : ClientKey → ClientManager → String
held sec_key cm = cm.sec_user_agent
held finnhub_key cm = cm.finnhub_api_key
held open_figi_key cm = cm.open_figi_api_key
held tiingo_key cm = cm.tiingo_api_key
held twelve_data_key cm = cm.twelve_data_api_key
held fmp_key cm = cm.fmp_api_key
held fred_key cm = cm.fred_api_key

held-apply_self :
    (k : ClientKey) (v : String) (cm : ClientManager) → held k (apply_key (name_of k) v cm) ≡ v
unfolding apply_key
held-apply_self sec_key v cm = refl
held-apply_self finnhub_key v cm = refl
held-apply_self open_figi_key v cm = refl
held-apply_self tiingo_key v cm = refl
held-apply_self twelve_data_key v cm = refl
held-apply_self fmp_key v cm = refl
held-apply_self fred_key v cm = refl

held-apply_ne :
    (k : ClientKey) (n v : String) (cm : ClientManager)
    → str_eq n (name_of k) ≡ false
    → held k (apply_key n v cm) ≡ held k cm
unfolding apply_key
held-apply_ne sec_key n v cm h = ground arith
held-apply_ne finnhub_key n v cm h = ground arith
held-apply_ne open_figi_key n v cm h = ground arith
held-apply_ne tiingo_key n v cm h = ground arith
held-apply_ne twelve_data_key n v cm h = ground arith
held-apply_ne fmp_key n v cm h = ground arith
held-apply_ne fred_key n v cm h = ground arith

pub held-apply_all :
    (k : ClientKey) (f : String → String) (cm : ClientManager)
    → held k (apply_all f cm) ≡ f (name_of k)
unfolding apply_all
held-apply_all sec_key f cm = refl
held-apply_all finnhub_key f cm = refl
held-apply_all open_figi_key f cm = refl
held-apply_all tiingo_key f cm = refl
held-apply_all twelve_data_key f cm = refl
held-apply_all fmp_key f cm = refl
held-apply_all fred_key f cm = refl

-- The value that a key is meant to have: the stored one unless it is missing or empty, else the
-- variable's.
abbrev pub intended : Environment → Tables → String → String
intended getenv t name = override getenv (λ n. key_in n t) name

-- Each key of the clients has its intended value, and so has the system key where that is not empty.
unfoldable pub Agrees : Environment → EnvService → Type 0
Agrees getenv s =
    ((k : ClientKey) → held k s.client_mgr ≡ intended getenv (committed s.db) (name_of k))
    × (intended getenv (committed s.db) "API_KEY" ≢ ""
        → s.api_key ≡ intended getenv (committed s.db) "API_KEY")

pub override-eq :
    (getenv : Environment) (f g : KeyMap) (n : String)
    → f n ≡ g n
    → override getenv f n ≡ override getenv g n
unfolding override
override-eq getenv f g n h = rw (h, override)

override-some :
    (getenv : Environment) (f : KeyMap) (n v : String)
    → f n ≡ some v
    → str_eq v "" ≡ false
    → override getenv f n ≡ v
unfolding override
override-some getenv f n v h e = rw (h, override, e)

override-none :
    (getenv : Environment) (f : KeyMap) (n : String) → f n ≡ none → override getenv f n ≡ getenv n
unfolding override
override-none getenv f n h = rw (h, override)

-- An assignment of a name in the service and in the table keeps the agreement.
assign-Agrees :
    (getenv : Environment) (n v : String) (s : EnvService) (w : World)
    → Agrees getenv s
    → intended getenv (committed w) n ≡ v
    → ((other : String) → other ≢ n → key_in other (committed w) ≡ key_in other (committed s.db))
    → Agrees getenv (assign_key n v (record s { db = w }))
unfolding assign_key Agrees
assign-Agrees getenv n v s w h i o = (clients, system)
  where
    kept :
        (m : String)
        → str_eq n m ≡ false
        → intended getenv (committed w) m ≡ intended getenv (committed s.db) m
    kept m d =
        override-eq getenv (λ x. key_in x (committed w)) (λ x. key_in x (committed s.db)) m
          (o m (λ q. ground (arith, str_eq_iff n m)))

    clients :
        (k : ClientKey)
        → held k (apply_key n v s.client_mgr) ≡ intended getenv (committed w) (name_of k)
    clients k = elim (Bool-cases (str_eq n (name_of k))) [
      | inl q ↦
          let e = (str_eq_iff n (name_of k)).0 q in
          ap (λ m. held k (apply_key m v s.client_mgr)) e
          ∙ held-apply_self k v s.client_mgr
          ∙ sym i
          ∙ ap (intended getenv (committed w)) e
      | inr q ↦ held-apply_ne k n v s.client_mgr q ∙ h.0 k ∙ sym (kept (name_of k) q)
    ]

    system :
        intended getenv (committed w) "API_KEY" ≢ ""
        → (if str_eq n "API_KEY" then v else s.api_key) ≡ intended getenv (committed w) "API_KEY"
    system ne = elim (Bool-cases (str_eq n "API_KEY")) [
      | inl q ↦ rw q (sym i ∙ ap (intended getenv (committed w)) ((str_eq_iff n "API_KEY").0 q))
      | inr q ↦ let e = kept "API_KEY" q in rw q (h.1 (λ z. ne (e ∙ z)) ∙ sym e)
    ]

-- A database that has changed nothing keeps the agreement.
pub same-Agrees :
    (getenv : Environment) (s : EnvService) (w : World)
    → Agrees getenv s
    → committed w ≡ committed s.db
    → Agrees getenv (record s { db = w })
unfolding Agrees
same-Agrees getenv s w h e = (
  λ k. h.0 k ∙ ap (λ t. intended getenv t (name_of k)) (sym e),
  λ ne. let q = ap (λ t. intended getenv t "API_KEY") e in h.1 (λ z. ne (q ∙ z)) ∙ sym q,
)

saved-Agrees :
    (getenv : Environment) (n v : String) (s : EnvService) (r : Result (Unit {0}) × World)
    → Ended (Assigns n (some v)) s.db r
    → str_eq v "" ≡ false
    → Agrees getenv s
    → Agrees getenv (saved_key n v s r).1
unfolding saved_key
saved-Agrees getenv n v s (ok a, w) h e g =
    assign-Agrees getenv n v s w g (override-some getenv (λ m. key_in m (committed w)) n v h.0.0 e)
      h.0.1
saved-Agrees getenv n v s (err x, w) h e g = same-Agrees getenv s w g h.0

deleted-Agrees :
    (getenv : Environment) (n : String) (s : EnvService) (r : Result (Unit {0}) × World)
    → Ended (Assigns n none) s.db r
    → Agrees getenv s
    → Agrees getenv (deleted_key getenv n s r).1
unfolding deleted_key
deleted-Agrees getenv n s (ok a, w) h g =
    assign-Agrees getenv n (getenv n) s w g
      (override-none getenv (λ m. key_in m (committed w)) n h.0.0) h.0.1
deleted-Agrees getenv n s (err x, w) h g = same-Agrees getenv s w g h.0

set_api_key-Ended :
    (name value : String) (w : World)
    → Ended (Assigns (normalize name) (some value)) w (set_api_key (normalize name) value w)
set_api_key-Ended name value w =
    subst (λ m. Ended (Assigns m (some value)) w (set_api_key (normalize name) value w))
      (trim-normalize name) ((keys-Assigns (normalize name) value).0 w)

delete_api_key-Ended :
    (name : String) (w : World)
    → Ended (Assigns (normalize name) none) w (delete_api_key (normalize name) w)
delete_api_key-Ended name w =
    subst (λ m. Ended (Assigns m none) w (delete_api_key (normalize name) w)) (trim-normalize name)
      ((keys-Assigns (normalize name) "").1 w)

pub env_operations-Agrees :
    (getenv : Environment) (s : EnvService) (name value : String)
    → Agrees getenv s
    → Agrees getenv (set_key name value s).1 × Agrees getenv (delete_key getenv name s).1
unfolding set_key store_key delete_key
env_operations-Agrees getenv s name value g = (
  stored (str_eq (normalize name) "") (str_eq (trim_space value) "")
      (any (λ k. str_eq k (normalize name)) known_keys) refl,
  deleted-Agrees getenv (normalize name) s (delete_api_key (normalize name) s.db)
      (delete_api_key-Ended name s.db) g,
)
  where
    stored :
        (a b c : Bool)
        → str_eq (trim_space value) "" ≡ b
        → Agrees getenv
            ((if a || b
              then (err "key name and value must not be empty", s)
              else (if not c
                  then (err (concat ("unsupported key name: " ∷ normalize name ∷ [])), s)
                  else saved_key
                      (normalize name)
                      (trim_space value)
                      s
                      (set_api_key (normalize name) (trim_space value) s.db)))).1
    stored true b c e = g
    stored false true c e = g
    stored false false false e = g
    stored false false true e =
        saved-Agrees getenv (normalize name) (trim_space value) s
          (set_api_key (normalize name) (trim_space value) s.db)
          (set_api_key-Ended name (trim_space value) s.db) e g
