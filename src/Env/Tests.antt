-- ===== src/Env/Tests.antt =====
-- Witnesses of the theorems on keys in use.
use fin_base.Base.{◌≡◌, refl, str_eq, [], if◌then◌else◌}
use fin_base.Db.Samples.{world}
use fin_base.Clients.Manager.{new_client_manager}
use fin_base.Env.{Environment, EnvService, new_env_service, load_and_apply_keys}

abbrev getenv : Environment
getenv name = if str_eq name "TIINGO_API_KEY" then "tiingo-env" else ""

abbrev fresh : EnvService
fresh = new_env_service (world []) (new_client_manager "" "f" "" "" "" "") "start"

abbrev loaded_service : EnvService
loaded_service = (load_and_apply_keys getenv fresh).1

fmp_from_db : loaded_service.client_mgr.fmp_api_key ≡ "fmp-1"
unfolding load_and_apply_keys new_env_service new_client_manager
fmp_from_db = refl
