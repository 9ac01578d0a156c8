-- ===== src/Clients/Manager.antt =====
-- `ClientManager` of clients/clients.go: the keys of the services and a circuit breaker for each. Its
-- rate limiters and its HTTP client are outside the program; `Http` has what they answer. The mutex
-- `keysMu` makes each operation on the keys one step.
use fin_base.Base.{ℕ, String, str_eq, Bool, not, List, [], ◌∷◌, Option, if◌then◌else◌}
use fin_base.Clients.Breaker.{CircuitBreaker, new_circuit_breaker, status}
use fin_base.Clients.Redact.{redact_error}

pub record ClientManager : Type 0 where
  pub open_figi_cb : CircuitBreaker
  pub sec_cb : CircuitBreaker
  pub finnhub_cb : CircuitBreaker
  pub tiingo_cb : CircuitBreaker
  pub twelve_data_cb : CircuitBreaker
  pub fmp_cb : CircuitBreaker
  pub fred_cb : CircuitBreaker
  pub sec_user_agent : String
  pub finnhub_api_key : String
  pub open_figi_api_key : String
  pub tiingo_api_key : String
  pub twelve_data_api_key : String
  pub fmp_api_key : String
  pub fred_api_key : String

unfoldable pub new_breaker : CircuitBreaker
unfolding new_circuit_breaker
new_breaker = new_circuit_breaker 5 30_000_000_000

unfoldable pub new_client_manager :
    String → String → String → String → String → String → ClientManager
unfolding new_breaker
new_client_manager sec_user_agent finnhub open_figi tiingo twelve_data fmp = record {
  open_figi_cb = new_breaker;
  sec_cb = new_breaker;
  finnhub_cb = new_breaker;
  tiingo_cb = new_breaker;
  twelve_data_cb = new_breaker;
  fmp_cb = new_breaker;
  fred_cb = new_breaker;
  sec_user_agent =
      if str_eq sec_user_agent "" then "FinBaseApp user@example.com" else sec_user_agent;
  finnhub_api_key = finnhub;
  open_figi_api_key = open_figi;
  tiingo_api_key = tiingo;
  twelve_data_api_key = twelve_data;
  fmp_api_key = fmp;
  fred_api_key = "";
}

-- `ClientManager.redact`: the SEC user agent is no secret.
unfoldable pub redact : ClientManager → Option String → Option String
unfolding redact_error
redact cm e = redact_error e (
    cm.finnhub_api_key ∷ cm.open_figi_api_key ∷ cm.tiingo_api_key ∷ cm.twelve_data_api_key
    ∷ cm.fmp_api_key ∷ cm.fred_api_key ∷ [])

unfoldable pub set_sec_user_agent : String → ClientManager → ClientManager
set_sec_user_agent ua cm = record cm { sec_user_agent = ua }

unfoldable pub set_finnhub_api_key : String → ClientManager → ClientManager
set_finnhub_api_key key cm = record cm { finnhub_api_key = key }

unfoldable pub set_open_figi_api_key : String → ClientManager → ClientManager
set_open_figi_api_key key cm = record cm { open_figi_api_key = key }

unfoldable pub set_tiingo_api_key : String → ClientManager → ClientManager
set_tiingo_api_key key cm = record cm { tiingo_api_key = key }

unfoldable pub set_twelve_data_api_key : String → ClientManager → ClientManager
set_twelve_data_api_key key cm = record cm { twelve_data_api_key = key }

unfoldable pub set_fmp_api_key : String → ClientManager → ClientManager
set_fmp_api_key key cm = record cm { fmp_api_key = key }

unfoldable pub set_fred_api_key : String → ClientManager → ClientManager
set_fred_api_key key cm = record cm { fred_api_key = key }

pub record ApiProviderStatus : Type 0 where
  pub name : String
  pub key_configured : Bool
  pub circuit_state : String
  pub failure_count : ℕ

abbrev pub provider_status : String → String → CircuitBreaker → ApiProviderStatus
provider_status name key cb =
    let (state, failures) = status cb in
    record {
      name = name;
      key_configured = not (str_eq key "");
      circuit_state = state;
      failure_count = failures;
    }

unfoldable pub get_provider_statuses : ClientManager → List ApiProviderStatus
unfolding status
get_provider_statuses cm =
    provider_status "SEC EDGAR" cm.sec_user_agent cm.sec_cb
    ∷ provider_status "Finnhub" cm.finnhub_api_key cm.finnhub_cb
    ∷ provider_status "OpenFIGI" cm.open_figi_api_key cm.open_figi_cb
    ∷ provider_status "Tiingo" cm.tiingo_api_key cm.tiingo_cb
    ∷ provider_status "Twelve Data" cm.twelve_data_api_key cm.twelve_data_cb
    ∷ provider_status "Financial Modeling Prep (FMP)" cm.fmp_api_key cm.fmp_cb
    ∷ provider_status "FRED Macro" cm.fred_api_key cm.fred_cb
    ∷ []
