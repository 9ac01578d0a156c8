-- ===== src/Api/Server/Changes/Serving.antt =====
-- The handlers of api/api.go on keys, and every request, as changes.
use fin_base.Base.{ℕ, sym, subst, inl, inr, String, str_eq, ◌||◌, [], ◌∷◌, Bool-cases}
use fin_base.Db.Tx.{Result, ok, err}
use fin_base.Env.{EnvService, set_key, delete_key, get_key_statuses}
use fin_base.Env.Probing.{test_key-Untouched, get_key_statuses-OnlyReads}
use fin_base.Api.Messages.{
  HttpRequest, replied, key_infos, fields, KeyBody, Outside, Response, Server, or_fail, on_env,
}
use fin_base.Api.Server.{
  handle_health, handle_auth_token, post_key, remove_key, handle_env_keys, tested, post_test,
  handle_env_keys_test,
}
use fin_base.Api.Server.Changes.{Change, reads, sets, deletes, tests, Changes, nothing, then_change}
use fin_base.Api.Server.Changes.Methods.{after, fail_after, branch_after}
use fin_base.Api.Server.Changes.Handlers.{
  handle_watchlist-Changes, handle_watchlist_refresh-Changes, handle_company_data-Changes,
  handle_status-Changes,
}
use fin_base.Api.Server.Routes.{
  Endpoint, watchlist, watchlist_refresh, status, env_keys, env_keys_test, sse, company_data, moved,
  not_found, Route, health, auth_token, guarded, files, moved_path, route_of, handle_sse, admitted,
  serve_endpoint, serve_guarded, serve_route, serve,
}

module _ (o : Outside) where
  abbrev Steps : Server → Response × Server → Type 0
  Steps s x = Changes o.go.getenv s.env_svc (after x)

  key_statuses-Change : (s : EnvService) → Change o.go.getenv s (get_key_statuses o.go.getenv s).1
  key_statuses-Change s =
      let h = get_key_statuses-OnlyReads o.go.getenv s in
      subst (Change o.go.getenv s) (sym h.1) (reads (get_key_statuses o.go.getenv s).1.db h.0)

  env_after :
      {A : Type 0} (code : ℕ) (good : A → Response) (m : EnvService → Result A × EnvService)
      (s : Server)
      → Change o.go.getenv s.env_svc (m s.env_svc).1
      → Steps s (or_fail code (λ a s'. (good a, s')) (on_env m s))
  unfolding on_env
  env_after code good m s h =
      fail_after o.go.getenv s.env_svc code good (on_env m s) (then_change nothing h)

  post_key-Changes : (x : Result KeyBody) (s : Server) → Steps s (post_key x s)
  unfolding post_key
  post_key-Changes (err e) s = nothing
  post_key-Changes (ok b) s = elim (Bool-cases (str_eq b.name "" || str_eq b.value "")) [
    | inl q ↦ rw q nothing
    | inr q ↦ rw q (
        env_after 400
          (λ _. record {
            status = 200;
            payload = fields (("status", "success") ∷ ("name", b.name) ∷ []);
          })
          (set_key b.name b.value) s (sets b.name b.value))
  ]

  remove_key-Changes : (name : String) (s : Server) → Steps s (remove_key o.go.getenv name s)
  unfolding remove_key
  remove_key-Changes name s = elim (Bool-cases (str_eq name "")) [
    | inl q ↦ rw q nothing
    | inr q ↦ rw q (
        env_after 500
          (λ _. record {
            status = 200;
            payload = fields (("status", "deleted") ∷ ("name", name) ∷ []);
          })
          (delete_key o.go.getenv name) s (deletes name))
  ]

  list_keys-Changes :
      (s : Server)
      → Steps s
          (or_fail 500 (λ ks. replied 200 (key_infos ks)) (on_env (get_key_statuses o.go.getenv) s))
  list_keys-Changes s =
      env_after 500 (λ ks. record { status = 200; payload = key_infos ks })
        (get_key_statuses o.go.getenv) s (key_statuses-Change s.env_svc)

  handle_env_keys-Changes : (r : HttpRequest) (s : Server) → Steps s (handle_env_keys o r s)
  unfolding handle_env_keys
  handle_env_keys-Changes r s =
      search (branch_after, list_keys-Changes, post_key-Changes, remove_key-Changes, nothing)

  tested-Changes : (name : String) (s : Server) → Steps s (tested o name s)
  unfolding tested
  tested-Changes name s =
      then_change nothing (tests (test_key-Untouched o.json o.inflate name s.env_svc s.wire))

  post_test-Changes : (x : Result String) (s : Server) → Steps s (post_test o x s)
  unfolding post_test
  post_test-Changes (err e) s = nothing
  post_test-Changes (ok name) s = elim (Bool-cases (str_eq name "")) [
    | inl q ↦ rw q nothing
    | inr q ↦ rw q (tested-Changes name s)
  ]

  handle_env_keys_test-Changes :
      (r : HttpRequest) (s : Server) → Steps s (handle_env_keys_test o r s)
  unfolding handle_env_keys_test
  handle_env_keys_test-Changes r s = search (branch_after, post_test-Changes, nothing)

  endpoint-Changes :
      (last_id : ℕ) (e : Endpoint) (r : HttpRequest) (s : Server)
      → Steps s (serve_endpoint o last_id e r s)
  unfolding serve_endpoint handle_sse
  endpoint-Changes last_id watchlist r s = handle_watchlist-Changes o.go.getenv o last_id r s
  endpoint-Changes last_id watchlist_refresh r s =
      handle_watchlist_refresh-Changes o.go.getenv o r s
  endpoint-Changes last_id status r s = handle_status-Changes o.go.getenv r s
  endpoint-Changes last_id env_keys r s = handle_env_keys-Changes r s
  endpoint-Changes last_id env_keys_test r s = handle_env_keys_test-Changes r s
  endpoint-Changes last_id sse r s = nothing
  endpoint-Changes last_id (company_data ticker) r s =
      handle_company_data-Changes o.go.getenv ticker r s
  endpoint-Changes last_id moved r s = nothing
  endpoint-Changes last_id not_found r s = nothing

  health-Changes : (r : HttpRequest) (s : Server) → Steps s (handle_health r s)
  unfolding handle_health
  health-Changes r s = search (branch_after, nothing)

  auth_token-Changes : (r : HttpRequest) (s : Server) → Steps s (handle_auth_token o r s)
  unfolding handle_auth_token
  auth_token-Changes r s = search (branch_after, nothing)

  route-Changes :
      (last_id : ℕ) (x : Route) (r : HttpRequest) (s : Server)
      → Steps s (serve_route o last_id x r s)
  unfolding serve_route serve_guarded
  route-Changes last_id health r s = health-Changes r s
  route-Changes last_id auth_token r s = auth_token-Changes r s
  route-Changes last_id files r s = nothing
  route-Changes last_id moved_path r s = nothing
  route-Changes last_id (guarded e) r s = elim (Bool-cases (admitted o r s)) [
    | inl a ↦ rw a (endpoint-Changes last_id e r s)
    | inr a ↦ rw a nothing
  ]

  -- Every request, on every path and method, does to the database and the keys in use nothing but
  -- operations of the watchlist and of the keys, one after another.
  pub serve-Changes : (last_id : ℕ) (r : HttpRequest) (s : Server) → Steps s (serve o last_id r s)
  unfolding serve
  serve-Changes last_id r s = route-Changes last_id (route_of o.clean_path r.path) r s
