-- ===== src/Main.antt =====
-- `main` of main.go: the settings from the process environment, and how the parts are put together. The
-- running of the goroutines and of the listener, the signals and the shutdown are outside the model.
pub mod Laws
mod Tests
use fin_base.Base.{
  ℕ, String, str_eq, Bool, true, false, Option, none, some, [], ◌∷◌, if◌then◌else◌, ◌==◌,
}
use fin_base.Base.Text.{concat}
use fin_base.Db.Tx.{Result, ok, err, World}
use fin_base.Clients.Manager.{ClientManager, new_client_manager, set_fred_api_key}
use fin_base.Clients.Http.{Wire}
use fin_base.Env.{Environment, EnvService, new_env_service, load_and_apply_keys}
use fin_base.Worker.Pool.{new_worker_pool, get_status}
use fin_base.Api.Broker.{new_sse_broker}
use fin_base.Api.Messages.{Server, Outside}

-- `x := os.Getenv(name); if x == "" { x = d }`
unfoldable pub setting : Environment → String → String → String
setting getenv name d = if str_eq (getenv name) "" then d else getenv name

unfoldable pub port : Environment → String
unfolding setting
port getenv = setting getenv "PORT" "8080"

unfoldable pub db_path : Environment → String
unfolding setting
db_path getenv = setting getenv "DB_PATH" "/app/data/finbase.db"

unfoldable pub jwt_secret_of : Environment → String
unfolding setting
jwt_secret_of getenv = setting getenv "JWT_SECRET" "finbase-default-jwt-secret-change-in-production"

-- With `-healthcheck`: the address asked, and the exit code by the answer's status.
unfoldable pub health_url : Environment → String
unfolding port
health_url getenv = concat ("http://localhost:" ∷ port getenv ∷ "/api/health" ∷ [])

unfoldable pub health_exit : Result ℕ → ℕ
health_exit (err e) = 1
health_exit (ok status) = if status == 200 then 0 else 1

unfoldable pub make_clients : Environment → ClientManager
unfolding new_client_manager set_fred_api_key
make_clients getenv = set_fred_api_key (getenv "FRED_API_KEY") (
    new_client_manager (getenv "SEC_USER_AGENT") (getenv "FINNHUB_API_KEY")
      (getenv "OPENFIGI_API_KEY") (getenv "TIINGO_API_KEY") (getenv "TWELVE_DATA_API_KEY")
      (getenv "FMP_API_KEY"))

unfoldable pub make_env : Environment → World → EnvService
unfolding new_env_service make_clients
make_env getenv db = new_env_service db (make_clients getenv) (getenv "API_KEY")

-- The server over the database `db`; an error of `LoadAndApplyKeys` is only logged. `cpus` is
-- `runtime.NumCPU()`.
unfoldable pub start : Outside → World → Wire → ℕ → Server
unfolding make_env load_and_apply_keys jwt_secret_of new_sse_broker new_worker_pool get_status
start o db wire cpus = record {
  env_svc = (load_and_apply_keys o.go.getenv (make_env o.go.getenv db)).1;
  wire = wire;
  broker = new_sse_broker;
  next_client = 1;
  pool_status = some (get_status (new_worker_pool db cpus 0));
  api_key = o.go.getenv "API_KEY";
  jwt_secret = jwt_secret_of o.go.getenv;
  has_env = true;
  has_clients = true;
}
