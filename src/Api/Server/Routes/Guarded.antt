-- ===== src/Api/Server/Routes/Guarded.antt =====
-- What the middleware guards: a request without a credential changes nothing, and a token that the
-- server gives out opens its routes.
use Prim.Native.Char.{Char}
use fin_base.Base.{
  ℕ, ◌+◌, ◌≤◌, ◌≡◌, ◌≢◌, refl, sym, ap, subst, ◌∙◌, ◌⊎◌, inl, inr, String, str_eq, str_eq_iff, ok,
  true, false, arith, Bool-cases,
}
use fin_base.Base.Text.{has_prefix}
use fin_base.Api.Auth.{
  Codec, header_json, claims_at, dotted, unsigned, signature, generate_jwt, validate_jwt,
  by_token_query,
}
use fin_base.Api.Auth.Laws.{IsEncoding, generated_token-valid}
use fin_base.Api.Auth.Middleware.{ShowsToken, Shows, authorized_sound}
use fin_base.Api.Messages.{HttpRequest, Outside, Server, token, failed}
use fin_base.Api.Server.{handle_health, handle_auth_token, system_api_key}
use fin_base.Api.Server.Routes.{
  Endpoint, Route, health, auth_token, guarded, files, moved_path, endpoint_of, route_of,
  serve_endpoint, credentials, admitted, serve_guarded, serve_route, serve,
}

module _ (o : Outside) (last_id : ℕ) where
  guarded_refused :
      (e : Endpoint) (r : HttpRequest) (s : Server)
      → admitted o r s ≡ false
      → serve_guarded o last_id e r s ≡ failed 401 "unauthorized" s
  unfolding serve_guarded
  guarded_refused e r s h = rw h refl

  guarded_passed :
      (e : Endpoint) (r : HttpRequest) (s : Server)
      → admitted o r s ≡ true
      → serve_guarded o last_id e r s ≡ serve_endpoint o last_id e r s
  unfolding serve_guarded
  guarded_passed e r s h = rw h refl

  route_guarded :
      (path : String)
      → o.clean_path path ≡ path
      → has_prefix path "/api/" ≡ true
      → path ≢ "/api/health"
      → path ≢ "/api/auth/token"
      → route_of o.clean_path path ≡ guarded (endpoint_of path)
  unfolding route_of
  route_guarded path c p h t = ground (
    arith,
    c,
    p,
    h,
    t,
    str_eq_iff (o.clean_path path) path,
    str_eq_iff path "/api/health",
    str_eq_iff path "/api/auth/token",
  )

  -- A request to any clean path below /api/ but the two public ones gets status 401, and the server
  -- stays as it is, where the middleware does not admit it.
  pub serve_unauthorized :
      (r : HttpRequest) (s : Server)
      → o.clean_path r.path ≡ r.path
      → has_prefix r.path "/api/" ≡ true
      → r.path ≢ "/api/health"
      → r.path ≢ "/api/auth/token"
      → admitted o r s ≡ false
      → serve o last_id r s ≡ failed 401 "unauthorized" s
  unfolding serve serve_route
  serve_unauthorized r s c p h t a =
      ap (λ x. serve_route o last_id x r s) (route_guarded r.path c p h t)
      ∙ guarded_refused (endpoint_of r.path) r s a

  route_changes :
      (x : Route) (r : HttpRequest) (s : Server)
      → (serve_route o last_id x r s).1 ≢ s
      → admitted o r s ≡ true
  unfolding serve_route handle_health handle_auth_token
  route_changes health r s ne = absurd (ne (ground arith))
  route_changes auth_token r s ne = absurd (ne (ground arith))
  route_changes files r s ne = absurd (ne refl)
  route_changes moved_path r s ne = absurd (ne refl)
  route_changes (guarded e) r s ne = elim (Bool-cases (admitted o r s)) [
    | inl a ↦ a
    | inr a ↦ absurd (ne (ap (λ x. x.1) (guarded_refused e r s a)))
  ]

  -- Whatever the path and the method: a request that changes anything of the server, its database,
  -- keys and clients included, shows a valid token or the API key, which is then not empty.
  pub serve_changes :
      (r : HttpRequest) (s : Server)
      → (serve o last_id r s).1 ≢ s
      → ShowsToken o.tokens s.jwt_secret s.env_svc.db.now (credentials r)
        ⊎ ((system_api_key s ≢ "") × Shows (system_api_key s) (credentials r))
  unfolding serve admitted
  serve_changes r s ne =
      authorized_sound o.tokens (system_api_key s) s.jwt_secret s.env_svc.db.now (credentials r)
        (route_changes (route_of o.clean_path r.path) r s ne)

-- base64 and JSON read back what they write of a token's parts.
pub record Reads (c : Codec) (secret : String) (now : ℕ) : Type 0 where
  pub header : String
  pub claims : String
  pub sig : String
  pub header_fill : ℕ
  pub claims_fill : ℕ
  pub sig_fill : ℕ
  pub header_encodes : IsEncoding c header_json header header_fill
  pub claims_encode : IsEncoding c (c.marshal (claims_at now 900)) claims claims_fill
  pub sig_encodes : IsEncoding c (c.mac secret (unsigned c now 900)) sig sig_fill
  pub decodes :
      c.decode (c.encode (c.marshal (claims_at now 900))) ≡ ok (c.marshal (claims_at now 900))
  pub parses : c.unmarshal (c.marshal (claims_at now 900)) ≡ ok (claims_at now 900)

cons_nonempty : (c : Char) (s : String) → str_eq (String.◌∷◌ c s) "" ≡ false
cons_nonempty c s = elim (Bool-cases (str_eq (String.◌∷◌ c s) "")) [
  | inr n ↦ n
  | inl e ↦ let q = (str_eq_iff (String.◌∷◌ c s) "").0 e in cc
]

dotted_nonempty : (s t : String) → str_eq (dotted s t) "" ≡ false
unfolding dotted
dotted_nonempty String.[] t = cons_nonempty "." t
dotted_nonempty (String.◌∷◌ c s) t = cons_nonempty c (dotted s t)

module _ (c : Codec) where
  generated_nonempty :
      (secret : String) (now : ℕ) → str_eq (generate_jwt c secret now 900) "" ≡ false
  unfolding generate_jwt
  generated_nonempty secret now =
      dotted_nonempty (unsigned c now 900) (signature c secret (unsigned c now 900))

  generated_valid :
      (secret : String) (now later : ℕ)
      → Reads c secret now
      → later ≤ now + 900
      → validate_jwt c (generate_jwt c secret now 900) secret later ≡ true
  generated_valid secret now later p w =
      generated_token-valid c secret now 900 later p.header p.claims p.sig p.header_fill
        p.claims_fill p.sig_fill p.header_encodes p.claims_encode p.sig_encodes p.decodes p.parses
      ∙ ground arith

module _ (o : Outside) (last_id : ℕ) where
  token_query-admitted :
      (r : HttpRequest) (s : Server)
      → str_eq (r.query "token") "" ≡ false
      → validate_jwt o.tokens (r.query "token") s.jwt_secret s.env_svc.db.now ≡ true
      → admitted o r s ≡ true
  unfolding admitted by_token_query
  token_query-admitted r s ne v = ground (arith, ne, v)

  token_given :
      (r : HttpRequest) (s : Server) (t : String)
      → r.method ≡ "GET"
      → (handle_auth_token o r s).0.payload ≡ token t 900
      → t ≡ generate_jwt o.tokens s.jwt_secret s.env_svc.db.now 900
  unfolding handle_auth_token
  token_given r s t m h = ground (arith, h, m, str_eq_iff r.method "GET")

  -- The token that `/api/auth/token` answers anyone with opens every guarded route: shown in the query
  -- within 900 seconds, to a server of the same secret, whatever keys are set by then, the request is
  -- passed on to its handler.
  pub token-opens :
      (r r' : HttpRequest) (s s' : Server) (t : String) (e : Endpoint)
      → Reads o.tokens s.jwt_secret s.env_svc.db.now
      → r.method ≡ "GET"
      → (handle_auth_token o r s).0.payload ≡ token t 900
      → r'.query "token" ≡ t
      → s'.jwt_secret ≡ s.jwt_secret
      → s'.env_svc.db.now ≤ s.env_svc.db.now + 900
      → serve_guarded o last_id e r' s' ≡ serve_endpoint o last_id e r' s'
  token-opens r r' s s' t e c m h q k w =
      let shown = q ∙ token_given r s t m h in
      guarded_passed o last_id e r' s' (
        token_query-admitted r' s'
          (subst (λ x. str_eq x "" ≡ false) (sym shown)
            (generated_nonempty o.tokens s.jwt_secret s.env_svc.db.now))
          (subst (λ x. validate_jwt o.tokens x s'.jwt_secret s'.env_svc.db.now ≡ true) (sym shown)
            (subst
              (λ x.
                validate_jwt o.tokens (generate_jwt o.tokens s.jwt_secret s.env_svc.db.now 900) x
                  s'.env_svc.db.now
                ≡ true)
              (sym k)
              (generated_valid o.tokens s.jwt_secret s.env_svc.db.now s'.env_svc.db.now c w))))
