-- ===== src/Api/Server/Routes.antt =====
-- The routes of the server: `routes`, `ServeHTTP` and `AuthMiddleware` of package api. http.ServeMux
-- redirects a path that is not clean, or that lacks the slash at the end of a subtree.
pub mod Guarded
use fin_base.Base.{
  ℕ, suc, String, str_eq, Bool, true, false, not, List, [], ◌∷◌, Option, none, some, if◌then◌else◌,
}
use fin_base.Base.Text.{has_prefix}
use fin_base.Api.Auth.{AuthRequest, after_prefix, authorized}
use fin_base.Api.Broker.{subscribe}
use fin_base.Api.Messages.{
  HttpRequest, Outside, Payload, web_file, redirect, stream, Response, Server, Handler, replied,
  failed,
}
use fin_base.Api.Server.{
  handle_health, handle_auth_token, handle_watchlist, handle_watchlist_refresh, handle_company_data,
  handle_status, handle_env_keys, handle_env_keys_test, system_api_key,
}

-- The handlers behind the middleware.
pub data Endpoint : Type 0 where
  watchlist watchlist_refresh status env_keys env_keys_test sse : Endpoint
  company_data : String → Endpoint
  moved not_found : Endpoint

pub data Route : Type 0 where
  health auth_token : Route
  guarded : Endpoint → Route
  files moved_path : Route

-- The patterns of `apiMux`; a company's ticker is the path behind its pattern.
unfoldable pub company_route : Option String → String → Endpoint
company_route (some ticker) path = company_data ticker
company_route none path = if str_eq path "/api/data/company" then moved else not_found

unfoldable pub endpoint_of : String → Endpoint
unfolding company_route after_prefix
endpoint_of path =
    if str_eq path "/api/watchlist"
    then watchlist
    else (if str_eq path "/api/watchlist/refresh"
        then watchlist_refresh
        else (if str_eq path "/api/status"
            then status
            else (if str_eq path "/api/env/keys"
                then env_keys
                else (if str_eq path "/api/env/keys/test"
                    then env_keys_test
                    else (if str_eq path "/api/sse"
                        then sse
                        else company_route (after_prefix "/api/data/company/" path) path)))))

-- The patterns of the outer mux.
unfoldable pub route_of : (String → String) → String → Route
unfolding endpoint_of has_prefix
route_of clean path =
    if not (str_eq (clean path) path)
    then moved_path
    else (if str_eq path "/api/health"
        then health
        else (if str_eq path "/api/auth/token"
            then auth_token
            else (if has_prefix path "/api/"
                then guarded (endpoint_of path)
                else (if str_eq path "/api" then moved_path else files))))

-- `SSEBroker.ServeHTTP`: a channel of its own, until the client goes.
unfoldable pub handle_sse : Handler
unfolding subscribe
handle_sse r s =
    replied 200 (stream s.next_client)
      (record s { broker = subscribe s.next_client s.broker; next_client = suc s.next_client })

unfoldable pub serve_endpoint : Outside → ℕ → Endpoint → Handler
unfolding handle_watchlist handle_watchlist_refresh handle_status handle_env_keys
    handle_env_keys_test handle_company_data handle_sse
serve_endpoint o last_id watchlist r s = handle_watchlist o last_id r s
serve_endpoint o last_id watchlist_refresh r s = handle_watchlist_refresh o r s
serve_endpoint o last_id status r s = handle_status r s
serve_endpoint o last_id env_keys r s = handle_env_keys o r s
serve_endpoint o last_id env_keys_test r s = handle_env_keys_test o r s
serve_endpoint o last_id sse r s = handle_sse r s
serve_endpoint o last_id (company_data ticker) r s = handle_company_data ticker r s
serve_endpoint o last_id moved r s = replied 301 redirect s
serve_endpoint o last_id not_found r s = failed 404 "404 page not found" s

abbrev pub credentials : HttpRequest → AuthRequest
credentials r = record {
  token_query = r.query "token";
  api_key_query = r.query "api_key";
  api_key_header = r.header "X-API-Key";
  authorization = r.header "Authorization";
}

unfoldable pub admitted : Outside → HttpRequest → Server → Bool
unfolding authorized system_api_key
admitted o r s =
    authorized o.tokens (system_api_key s) s.jwt_secret s.env_svc.db.now (credentials r)

-- `AuthMiddleware` around `apiMux`.
unfoldable pub serve_guarded : Outside → ℕ → Endpoint → Handler
unfolding admitted serve_endpoint
serve_guarded o last_id e r s =
    if admitted o r s then serve_endpoint o last_id e r s else failed 401 "unauthorized" s

unfoldable pub serve_route : Outside → ℕ → Route → Handler
unfolding serve_guarded handle_health handle_auth_token
serve_route o last_id health r s = handle_health r s
serve_route o last_id auth_token r s = handle_auth_token o r s
serve_route o last_id (guarded e) r s = serve_guarded o last_id e r s
serve_route o last_id files r s = replied (o.file_status r.path) (web_file r.path) s
serve_route o last_id moved_path r s = replied 301 redirect s

-- `Server.ServeHTTP`
unfoldable pub serve : Outside → ℕ → Handler
unfolding route_of serve_route
serve o last_id r s = serve_route o last_id (route_of o.clean_path r.path) r s
