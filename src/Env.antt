-- ===== src/Env.antt =====
-- Package env (env/env.go): the keys in the process environment, in the table of keys and in the
-- clients. The environment is a function of a variable's name, and the service holds a client manager,
-- as main.go makes it. Each method's use of the mutex is one step.
pub mod Laws
pub mod Load
pub mod TestKey
pub mod Probing
pub mod Frame
pub mod Loading
mod Tests
use fin_base.Base.{
  ℕ, String, str_eq, Bool, true, false, not, ◌&&◌, ◌||◌, List, [], ◌∷◌, map, Option, none, some,
  if◌then◌else◌, any,
}
use fin_base.Base.Text.{concat, normalize, trim_space}
use fin_base.Db.Tx.{Result, ok, err, World}
use fin_base.Db.Keys.{KeyMap, set_api_key, get_api_keys_map, delete_api_key}
use fin_base.Clients.Manager.{
  ClientManager, set_sec_user_agent, set_finnhub_api_key, set_open_figi_api_key, set_tiingo_api_key,
  set_twelve_data_api_key, set_fmp_api_key, set_fred_api_key,
}

abbrev pub Environment : Type 0
Environment = String → String

abbrev pub known_keys : List String
known_keys =
    "API_KEY" ∷ "SEC_USER_AGENT" ∷ "FINNHUB_API_KEY" ∷ "OPENFIGI_API_KEY" ∷ "TIINGO_API_KEY"
    ∷ "TWELVE_DATA_API_KEY" ∷ "FMP_API_KEY" ∷ "FRED_API_KEY" ∷ []

pub record KeyInfo : Type 0 where
  pub name : String
  pub configured : Bool
  pub source : String

-- `EnvService`, with the world of its database.
pub record EnvService : Type 0 where
  pub db : World
  pub client_mgr : ClientManager
  pub api_key : String

unfoldable pub new_env_service : World → ClientManager → String → EnvService
new_env_service db mgr initial = record { db = db; client_mgr = mgr; api_key = initial }

-- The switch on a key's name that sets it in the clients.
unfoldable pub apply_key : String → String → ClientManager → ClientManager
unfolding set_sec_user_agent set_finnhub_api_key set_open_figi_api_key set_tiingo_api_key
    set_twelve_data_api_key set_fmp_api_key set_fred_api_key
apply_key name value cm =
    if str_eq name "SEC_USER_AGENT"
    then set_sec_user_agent value cm
    else (if str_eq name "FINNHUB_API_KEY"
        then set_finnhub_api_key value cm
        else (if str_eq name "OPENFIGI_API_KEY"
            then set_open_figi_api_key value cm
            else (if str_eq name "TIINGO_API_KEY"
                then set_tiingo_api_key value cm
                else (if str_eq name "TWELVE_DATA_API_KEY"
                    then set_twelve_data_api_key value cm
                    else (if str_eq name "FMP_API_KEY"
                        then set_fmp_api_key value cm
                        else (if str_eq name "FRED_API_KEY"
                            then set_fred_api_key value cm
                            else cm))))))

-- A value of `envMap` behind the loop over the keys of the table.
unfoldable pub override : Environment → KeyMap → String → String
override getenv keys name = elim (keys name) [
  | none ↦ getenv name
  | some v ↦ if str_eq v "" then getenv name else v
]

abbrev pub or_keep : String → String → String
or_keep value old = if str_eq value "" then old else value

-- All seven keys of the clients.
unfoldable pub apply_all : (String → String) → ClientManager → ClientManager
unfolding set_sec_user_agent set_finnhub_api_key set_open_figi_api_key set_tiingo_api_key
    set_twelve_data_api_key set_fmp_api_key set_fred_api_key
apply_all value cm = set_fred_api_key (value "FRED_API_KEY") (
    set_fmp_api_key (value "FMP_API_KEY") (
      set_twelve_data_api_key (value "TWELVE_DATA_API_KEY") (
        set_tiingo_api_key (value "TIINGO_API_KEY") (
          set_open_figi_api_key (value "OPENFIGI_API_KEY") (
            set_finnhub_api_key (value "FINNHUB_API_KEY")
              (set_sec_user_agent (value "SEC_USER_AGENT") cm))))))

loaded : Environment → EnvService → Result KeyMap × World → Result (Unit {0}) × EnvService
unfolding override apply_all
loaded getenv s (ok keys, w) = (
  ok tt,
  record {
    db = w;
    client_mgr = apply_all (override getenv keys) s.client_mgr;
    api_key = or_keep (override getenv keys "API_KEY") (or_keep (getenv "API_KEY") s.api_key);
  },
)
loaded getenv s (err e, w) = (
  err (concat ("failed to load API keys from DB: " ∷ e ∷ [])),
  record s { db = w; api_key = or_keep (getenv "API_KEY") s.api_key },
)

-- `LoadAndApplyKeys`
unfoldable pub load_and_apply_keys : Environment → EnvService → Result (Unit {0}) × EnvService
unfolding get_api_keys_map loaded
load_and_apply_keys getenv s = loaded getenv s (get_api_keys_map s.db)

-- The new value of a key in the service, and in the clients.
unfoldable pub assign_key : String → String → EnvService → EnvService
unfolding apply_key
assign_key name value s = record s {
  api_key = if str_eq name "API_KEY" then value else s.api_key;
  client_mgr = apply_key name value s.client_mgr;
}

saved_key :
    String → String → EnvService → Result (Unit {0}) × World → Result (Unit {0}) × EnvService
unfolding assign_key
saved_key name value s (ok _, w) = (ok tt, assign_key name value (record s { db = w }))
saved_key name value s (err e, w) =
    (err (concat ("failed to save key in DB: " ∷ e ∷ [])), record s { db = w })

store_key : String → String → EnvService → Result (Unit {0}) × EnvService
unfolding set_api_key saved_key
store_key name value s =
    if str_eq name "" || str_eq value ""
    then (err "key name and value must not be empty", s)
    else (if not (any (λ k. str_eq k name) known_keys)
        then (err (concat ("unsupported key name: " ∷ name ∷ [])), s)
        else saved_key name value s (set_api_key name value s.db))

-- `EnvService.SetAPIKey`
unfoldable pub set_key : String → String → EnvService → Result (Unit {0}) × EnvService
unfolding normalize trim_space store_key
set_key name value s = store_key (normalize name) (trim_space value) s

deleted_key :
    Environment → String → EnvService → Result (Unit {0}) × World → Result (Unit {0}) × EnvService
unfolding assign_key
deleted_key getenv name s (ok _, w) = (ok tt, assign_key name (getenv name) (record s { db = w }))
deleted_key getenv name s (err e, w) =
    (err (concat ("failed to delete key from DB: " ∷ e ∷ [])), record s { db = w })

-- `EnvService.DeleteAPIKey`
unfoldable pub delete_key : Environment → String → EnvService → Result (Unit {0}) × EnvService
unfolding normalize delete_api_key deleted_key
delete_key getenv name s =
    deleted_key getenv (normalize name) s (delete_api_key (normalize name) s.db)

abbrev pub stored_value : Option String → Bool
stored_value none = false
stored_value (some v) = not (str_eq v "")

-- What is told of one key: never its value.
unfoldable pub key_info : Environment → KeyMap → String → String → KeyInfo
key_info getenv keys api_key name =
    if stored_value (keys name)
    then record { name = name; configured = true; source = "db" }
    else (if not (str_eq (getenv name) "")
        then record { name = name; configured = true; source = "env" }
        else (if str_eq name "API_KEY" && not (str_eq api_key "")
            then record { name = name; configured = true; source = "runtime" }
            else record { name = name; configured = false; source = "" }))

listed : Environment → EnvService → Result KeyMap × World → Result (List KeyInfo) × EnvService
unfolding key_info
listed getenv s (ok keys, w) =
    (ok (map (key_info getenv keys s.api_key) known_keys), record s { db = w })
listed getenv s (err e, w) =
    (err (concat ("failed to get keys from DB: " ∷ e ∷ [])), record s { db = w })

-- `EnvService.GetKeyStatuses`
unfoldable pub get_key_statuses : Environment → EnvService → Result (List KeyInfo) × EnvService
unfolding get_api_keys_map listed
get_key_statuses getenv s = listed getenv s (get_api_keys_map s.db)
