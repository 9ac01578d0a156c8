-- ===== src/Api/Messages.antt =====
-- What the server of api/api.go works on: a request, a response as its status and the value that is encoded
-- as JSON, the state of `Server`, and what is outside the program: the decoding of bodies, the path cleaning
-- of http.ServeMux and what the parts of the server take from elsewhere.
use fin_base.Base.{ℕ, String, Bool, List, Option}
use fin_base.Base.Int.{ℤ}
use fin_base.Db.Models.{Watchitem, JobStatusSummary, ActionHistory}
use fin_base.Db.Tx.{Result, ok, err, M}
use fin_base.Db.Consolidated.{ConsolidatedCompanyData}
use fin_base.Clients.Manager.{ApiProviderStatus}
use fin_base.Clients.Http.{Wire}
use fin_base.Clients.Payloads
use fin_base.Clients.Sec.{Inflate}
use fin_base.Env.{EnvService, KeyInfo}
use fin_base.Worker.Pool.{WorkerPoolStatus}
use fin_base.Worker.Site.{Runtime}
use fin_base.Api.Auth.{Codec}
use fin_base.Api.Broker.{SseBroker}

-- `query` is `r.URL.Query().Get`, `header` is `r.Header.Get`.
pub record HttpRequest : Type 0 where
  pub method : String
  pub path : String
  pub query : String → String
  pub header : String → String
  pub body : String

pub record WatchlistBody : Type 0 where
  pub ticker : String
  pub priority : ℤ

pub record KeyBody : Type 0 where
  pub name : String
  pub value : String

-- What the server and its jobs take from the Go runtime and the environment. `refresh_body` is the ticker behind a
-- `Decode` whose error is dropped.
pub record Outside : Type 0 where
  pub tokens : Codec
  pub json : Payloads.Codec
  pub inflate : Inflate
  pub go : Runtime
  pub clean_path : String → String
  pub watchlist_body : String → Result WatchlistBody
  pub refresh_body : String → String
  pub key_body : String → Result KeyBody
  pub name_body : String → Result String
  pub company_json : ConsolidatedCompanyData → String
  -- The status that http.FileServer answers with for a path of the web page.
  pub file_status : String → ℕ

pub record StatusPage : Type 0 where
  pub providers : List ApiProviderStatus
  pub worker_pool : WorkerPoolStatus
  pub job_summary : JobStatusSummary
  pub recent_activity : List ActionHistory
  pub server_time : ℕ

pub data Payload : Type 0 where
  failure : String → Payload
  fields : List (String × String) → Payload
  token : String → ℕ → Payload
  watchlist : List Watchitem → Payload
  watch_item : Watchitem → Payload
  company : ConsolidatedCompanyData → Payload
  status_page : StatusPage → Payload
  key_infos : List KeyInfo → Payload
  key_test : String → Bool → String → Payload
  stream : ℕ → Payload
  web_file : String → Payload
  redirect : Payload

pub record Response : Type 0 where
  pub status : ℕ
  pub payload : Payload

-- `Server`. The database and the clients are those of the environment service, and `has_env` and
-- `has_clients` say whether `SetEnvService` and `SetClientManager` were called; `pool_status` is what
-- the worker pool's `GetStatus` answers, if there is one. `next_client` numbers the next channel.
pub record Server : Type 0 where
  pub env_svc : EnvService
  pub wire : Wire
  pub broker : SseBroker
  pub next_client : ℕ
  pub pool_status : Option WorkerPoolStatus
  pub api_key : String
  pub jwt_secret : String
  pub has_env : Bool
  pub has_clients : Bool

abbrev pub Handler : Type 0
Handler = HttpRequest → Server → Response × Server

abbrev pub replied : ℕ → Payload → Server → Response × Server
replied code p s = (record { status = code; payload = p }, s)

-- `http.Error(w, …)`
abbrev pub failed : ℕ → String → Server → Response × Server
failed code e = replied code (failure e)

abbrev pub not_allowed : Server → Response × Server
not_allowed = failed 405 "method not allowed"

abbrev pub success : List (String × String) → Server → Response × Server
success fs = replied 200 (fields fs)

-- A method of the database.
unfoldable pub on_db : {A : Type 0} → M A → Server → Result A × Server
on_db m s = let (r, w) = m s.env_svc.db in (r, record s { env_svc = record s.env_svc { db = w } })

-- A method of the environment service.
unfoldable pub on_env :
    {A : Type 0} → (EnvService → Result A × EnvService) → Server → Result A × Server
on_env m s = let (r, e) = m s.env_svc in (r, record s { env_svc = e })

-- `if err != nil { http.Error(w, err.Error(), code); return }`, and `f` else.
abbrev pub or_fail :
    {A : Type 0} → ℕ → (A → Server → Response × Server) → Result A × Server → Response × Server
or_fail code f (ok a, s) = f a s
or_fail code f (err e, s) = failed code e s
