-- ===== src/Api/Server/Tests.antt =====
-- Tests of the server and witnesses of its theorems.
use fin_base.Base.{◌≡◌, ◌≢◌, refl, ap, ◌⊎◌, String, true, false, [], ◌∷◌, some, none, arith}
use fin_base.Base.Text.{has_prefix}
use fin_base.Env.{new_env_service}
use fin_base.Api.Auth.Middleware.{ShowsToken, Shows}
use fin_base.Api.Samples.{
  tokens, header_encodes, claims_encode, secret_encodes, claims_decode, claims_parse, outside,
  server, asking,
}
use fin_base.Api.Auth.{generate_jwt, header_json}
use fin_base.Api.Messages.{HttpRequest, Server, failed, token}
use fin_base.Api.Server.{system_api_key, handle_auth_token, refresh_one}
use fin_base.Api.Server.Routes.{credentials, admitted, status, serve_endpoint, serve_guarded, serve}
use fin_base.Api.Server.Routes.Guarded.{serve_unauthorized, serve_changes, Reads, token-opens}
use fin_base.Api.Server.Refresh.{Refreshed, refresh_one-Refreshed}

abbrev stranger : HttpRequest
stranger = asking "guess" "DELETE" "/api/watchlist" ""

stranger_refused : admitted outside stranger (server []) ≡ false
unfolding admitted new_env_service
stranger_refused = refl

path_guarded : has_prefix stranger.path "/api/" ≡ true
unfolding has_prefix
path_guarded = refl

serve_unauthorized_example :
    serve outside 0 stranger (server []) ≡ failed 401 "unauthorized" (server [])
serve_unauthorized_example =
    serve_unauthorized outside 0 stranger (server []) refl path_guarded (λ e. cc) (λ e. cc)
      stranger_refused

abbrev adding : HttpRequest
adding = asking "key-1" "POST" "/api/watchlist" "ge"

starts_at : (server []).env_svc.db.tables.watch_seq ≡ 3
unfolding new_env_service
starts_at = refl

-- A ticker is added, and the id counter goes on.
adding_counts : (serve outside 0 adding (server [])).1.env_svc.db.tables.watch_seq ≡ 4
unfolding serve new_env_service
adding_counts = refl

adding_changes : (serve outside 0 adding (server [])).1 ≢ server []
adding_changes e =
    ground (arith, adding_counts, starts_at, ap (λ (s : Server). s.env_svc.db.tables.watch_seq) e)

serve_changes_example :
    ShowsToken outside.tokens (server []).jwt_secret (server []).env_svc.db.now (credentials adding)
    ⊎ ((system_api_key (server []) ≢ "") × Shows (system_api_key (server [])) (credentials adding))
serve_changes_example = serve_changes outside 0 adding (server []) adding_changes

-- The flag is stored, and the second transaction does not begin.
abbrev failing : Server
failing = server (none ∷ none ∷ none ∷ some "busy" ∷ [])

refresh_one-Refreshed_example : Refreshed "aapl" failing (refresh_one "aapl" failing)
refresh_one-Refreshed_example = refresh_one-Refreshed "aapl" failing

token-Reads : Reads outside.tokens "hunter2" 100
token-Reads = record {
  header = header_json;
  claims = "exp:1000";
  sig = "hunter2";
  header_fill = 1;
  claims_fill = 0;
  sig_fill = 1;
  header_encodes = header_encodes;
  claims_encode = claims_encode;
  sig_encodes = secret_encodes;
  decodes = claims_decode;
  parses = claims_parse;
}

abbrev issued : String
issued = generate_jwt tokens "hunter2" 100 900

abbrev login : HttpRequest
login = asking "" "GET" "/api/auth/token" ""

login_gives : (handle_auth_token outside login (server [])).0.payload ≡ token issued 900
unfolding handle_auth_token new_env_service
login_gives = refl

abbrev showing : HttpRequest
showing = record (asking "" "GET" "/api/status" "") { query = λ name. issued }

token-opens_example :
    serve_guarded outside 0 status showing (server [])
    ≡ serve_endpoint outside 0 status showing (server [])
unfolding new_env_service
token-opens_example =
    token-opens outside 0 login showing (server []) (server []) issued status token-Reads refl
      login_gives refl refl (omega arith)
