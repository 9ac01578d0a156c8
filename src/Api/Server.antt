-- ===== src/Api/Server.antt =====
-- The handlers of api/api.go.
pub mod Routes
pub mod Laws
pub mod Refresh
pub mod Changes
pub mod Invariant
mod Tests
use fin_base.Base.{
  ℕ, suc, String, str_eq, Bool, true, false, not, ◌&&◌, ◌||◌, List, [], ◌∷◌, Option, none, some,
  if◌then◌else◌,
}
use fin_base.Base.Int.{ℤ, pos}
use fin_base.Db.Models.{Watchitem, JobStatusSummary, ActionHistory}
use fin_base.Db.Tx.{Result, ok, err, World, M}
use fin_base.Db.Consolidated.{ConsolidatedCompanyData, get_consolidated_data}
use fin_base.Db.Watchlist.{
  add_watchitem, update_watchitem_priority, delete_watchitem, set_watchitem_force_refresh,
  set_watchitem_force_refresh_all, update_watchitem_status,
}
use fin_base.Db.Watchlist.Reads.{
  get_watchlist, get_job_status_summary, no_jobs, get_recent_action_history,
}
use fin_base.Clients.Manager.{ApiProviderStatus, get_provider_statuses}
use fin_base.Clients.Http.{Wire}
use fin_base.Clients.Payloads
use fin_base.Clients.Sec.{Inflate}
use fin_base.Env.{Environment, EnvService, KeyInfo, set_key, delete_key, get_key_statuses}
use fin_base.Env.TestKey.{test_key}
use fin_base.Worker.Pool.{WorkerPoolStatus}
use fin_base.Worker.Site.{Runtime}
use fin_base.Api.Auth.{Codec, generate_jwt}
use fin_base.Api.Broker.{SseBroker}
use fin_base.Api.Messages.{
  Handler, HttpRequest, KeyBody, Outside, Payload, Response, Server, StatusPage, WatchlistBody,
  company, failed, failure, fields, key_infos, key_test, not_allowed, on_db, on_env, or_fail,
  redirect, replied, status_page, stream, success, token, watch_item, watchlist, web_file,
}

unfoldable pub handle_health : Handler
handle_health r s =
    if not (str_eq r.method "GET") then not_allowed s else success (("status", "ok") ∷ []) s

unfoldable pub system_api_key : Server → String
system_api_key s = if s.has_env then s.env_svc.api_key else s.api_key

-- `GenerateJWT` cannot fail: the two texts that it encodes have no value that JSON lacks.
unfoldable pub handle_auth_token : Outside → Handler
unfolding generate_jwt
handle_auth_token o r s =
    if not (str_eq r.method "POST") && not (str_eq r.method "GET")
    then not_allowed s
    else replied 200 (token (generate_jwt o.tokens s.jwt_secret s.env_svc.db.now 900) 900) s

unfoldable pub get_list : Handler
unfolding on_db get_watchlist
get_list r s = or_fail 500 (λ l. replied 200 (watchlist l)) (on_db get_watchlist s)

-- A body that decodes and has a ticker.
abbrev pub with_ticker :
    (WatchlistBody → Server → Response × Server) → Result WatchlistBody → Server → Response × Server
with_ticker f (err e) s = failed 400 "invalid request payload" s
with_ticker f (ok b) s =
    if str_eq b.ticker "" then failed 400 "invalid request payload" s else f b s

-- `last_id` is what SQLite's LastInsertId answers where no row is inserted.
unfoldable pub post_item : ℕ → WatchlistBody → Server → Response × Server
unfolding on_db add_watchitem
post_item last_id b s =
    or_fail 500 (λ i. replied 201 (watch_item i))
      (on_db (add_watchitem last_id b.ticker b.priority) s)

unfoldable pub put_priority : WatchlistBody → Server → Response × Server
unfolding on_db update_watchitem_priority
put_priority b s =
    or_fail 500 (λ _. success (("status", "success") ∷ []))
      (on_db (update_watchitem_priority b.ticker b.priority) s)

unfoldable pub delete_item : Handler
unfolding on_db delete_watchitem
delete_item r s =
    if str_eq (r.query "ticker") ""
    then failed 400 "ticker parameter required" s
    else or_fail 500 (λ _. success (("status", "deleted") ∷ []))
        (on_db (delete_watchitem (r.query "ticker")) s)

unfoldable pub handle_watchlist : Outside → ℕ → Handler
unfolding get_list post_item put_priority delete_item
handle_watchlist o last_id r s =
    if str_eq r.method "GET"
    then get_list r s
    else (if str_eq r.method "POST"
        then with_ticker (post_item last_id) (o.watchlist_body r.body) s
        else (if str_eq r.method "PUT"
            then with_ticker put_priority (o.watchlist_body r.body) s
            else (if str_eq r.method "DELETE" then delete_item r s else not_allowed s)))

-- The ticker of the body, or of the query.
unfoldable pub refresh_ticker : Outside → HttpRequest → String
refresh_ticker o r =
    if str_eq (o.refresh_body r.body) "" then r.query "ticker" else o.refresh_body r.body

-- Two transactions: the flag, and then the status.
unfoldable pub refresh_one : String → Server → Response × Server
unfolding on_db set_watchitem_force_refresh update_watchitem_status
refresh_one ticker s =
    or_fail 500
      (λ _ s'.
        or_fail 500 (λ _. success (("status", "queued") ∷ ("ticker", ticker) ∷ []))
          (on_db (update_watchitem_status ticker "pending") s'))
      (on_db (set_watchitem_force_refresh ticker true) s)

unfoldable pub refresh_all : Server → Response × Server
unfolding on_db set_watchitem_force_refresh_all
refresh_all s =
    or_fail 500
      (λ _.
        success
          (("status", "queued") ∷ ("message", "all watchlist items marked for force refresh") ∷ []))
      (on_db (set_watchitem_force_refresh_all true) s)

unfoldable pub handle_watchlist_refresh : Outside → Handler
unfolding refresh_ticker refresh_one refresh_all
handle_watchlist_refresh o r s =
    if not (str_eq r.method "POST")
    then not_allowed s
    else (if not (str_eq (refresh_ticker o r) "")
        then refresh_one (refresh_ticker o r) s
        else refresh_all s)

-- `ticker` is the path behind "/api/data/company/".
unfoldable pub handle_company_data : String → Handler
unfolding on_db get_consolidated_data
handle_company_data ticker r s =
    if not (str_eq r.method "GET")
    then not_allowed s
    else (if str_eq ticker ""
        then failed 400 "ticker required" s
        else or_fail 500 (λ d. replied 200 (company d)) (on_db (get_consolidated_data ticker) s))

abbrev pub no_pool : WorkerPoolStatus
no_pool = record { total_workers = 0; active_workers = 0; queue_depth = 0; current_jobs = [] }

abbrev pub or_default : {A : Type 0} → A → Result A × Server → A × Server
or_default d (ok a, s) = (a, s)
or_default d (err e, s) = (d, s)

unfoldable pub handle_status : Handler
unfolding on_db get_job_status_summary get_recent_action_history get_provider_statuses
handle_status r s =
    if not (str_eq r.method "GET")
    then not_allowed s
    else (let (summary, s₁) = or_default no_jobs (on_db get_job_status_summary s) in
        let (history, s₂) = or_default [] (on_db (get_recent_action_history (pos 50)) s₁) in
        replied 200
          (status_page (record {
            providers = if s.has_clients then get_provider_statuses s.env_svc.client_mgr else [];
            worker_pool = elim s.pool_status [ none ↦ no_pool | some p ↦ p ];
            job_summary = summary;
            recent_activity = history;
            server_time = s.env_svc.db.now;
          }))
          s₂)

-- A body that decodes and has a name and a value.
unfoldable pub post_key : Result KeyBody → Server → Response × Server
unfolding on_env set_key
post_key (err e) s = failed 400 "invalid request payload, 'name' and 'value' required" s
post_key (ok b) s =
    if str_eq b.name "" || str_eq b.value ""
    then failed 400 "invalid request payload, 'name' and 'value' required" s
    else or_fail 400 (λ _. success (("status", "success") ∷ ("name", b.name) ∷ []))
        (on_env (set_key b.name b.value) s)

unfoldable pub remove_key : Environment → String → Server → Response × Server
unfolding on_env delete_key
remove_key getenv name s =
    if str_eq name ""
    then failed 400 "name parameter required" s
    else or_fail 500 (λ _. success (("status", "deleted") ∷ ("name", name) ∷ []))
        (on_env (delete_key getenv name) s)

unfoldable pub handle_env_keys : Outside → Handler
unfolding on_env get_key_statuses post_key remove_key
handle_env_keys o r s =
    if not s.has_env
    then failed 500 "env service not available" s
    else (if str_eq r.method "GET"
        then or_fail 500 (λ ks. replied 200 (key_infos ks))
            (on_env (get_key_statuses o.go.getenv) s)
        else (if str_eq r.method "POST"
            then post_key (o.key_body r.body) s
            else (if str_eq r.method "DELETE"
                then remove_key o.go.getenv (r.query "name") s
                else not_allowed s)))

-- The answer to a test of the key `name`.
unfoldable pub tested : Outside → String → Server → Response × Server
unfolding test_key
tested o name s =
    let ((functional, text), (e, w)) = test_key o.json o.inflate name s.env_svc s.wire in
    replied 200 (key_test name functional text) (record s { env_svc = e; wire = w })

unfoldable pub post_test : Outside → Result String → Server → Response × Server
unfolding tested
post_test o (err e) s = failed 400 "invalid request payload, 'name' required" s
post_test o (ok name) s =
    if str_eq name ""
    then failed 400 "invalid request payload, 'name' required" s
    else tested o name s

unfoldable pub handle_env_keys_test : Outside → Handler
unfolding post_test
handle_env_keys_test o r s =
    if not (str_eq r.method "POST")
    then not_allowed s
    else (if not s.has_env
        then failed 500 "env service not available" s
        else post_test o (o.name_body r.body) s)
