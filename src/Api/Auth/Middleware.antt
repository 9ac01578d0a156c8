-- ===== src/Api/Auth/Middleware.antt =====
-- Which requests the middleware passes on.
use fin_base.Base.{
  ℕ, ◌≡◌, refl, ap, ◌∙◌, ◌⊎◌, inl, inr, String, str_eq, str_eq_iff, ◌≢◌, Bool, true, false, not,
  ◌&&◌, ◌||◌, Option, none, some, arith,
}
use fin_base.Api.Auth.{
  Codec, AuthRequest, is_key, after_prefix, validate_jwt, by_token_query, by_key, by_bearer,
  authorized,
}

-- The text behind "Bearer ", or "".
abbrev bearer : Option String → String
bearer none = ""
bearer (some t) = t

-- A credential stands in one of two places for a token, or of four for the API key.
unfoldable pub Shows : String → AuthRequest → Type 0
Shows text r =
    (r.token_query ≡ text)
    ⊎ (r.api_key_query ≡ text)
    ⊎ (r.api_key_header ≡ text)
    ⊎ (after_prefix "Bearer " r.authorization ≡ some text)

-- A valid token stands in the query or behind "Bearer ".
unfoldable pub ShowsToken : Codec → String → ℕ → AuthRequest → Type 0
ShowsToken codec secret now r =
    ((r.token_query ≢ "") × (validate_jwt codec r.token_query secret now ≡ true))
    ⊎ ((t : String) × (after_prefix "Bearer " r.authorization ≡ some t)
        × (validate_jwt codec t secret now ≡ true))

or_cases : (a b : Bool) → a || b ≡ true → (a ≡ true) ⊎ (b ≡ true)
or_cases true b h = inl refl
or_cases false b h = inr h

and_cases : (a b : Bool) → a && b ≡ true → (a ≡ true) × (b ≡ true)
and_cases true b h = (refl, h)
and_cases false b h = absurd (ground arith)

not_empty : (s : String) → not (str_eq s "") ≡ true → s ≢ ""
not_empty s h e = ground (arith, str_eq_iff s "")

is_key_sound : (key text : String) → is_key key text ≡ true → (key ≢ "") × (text ≡ key)
is_key_sound key text h =
    let (a, b) = and_cases (not (str_eq key "")) (str_eq text key) h in
    (not_empty key a, (str_eq_iff text key).0 b)

module _ (codec : Codec) (key secret : String) (now : ℕ) (r : AuthRequest) where
  token_query_sound :
      by_token_query codec key secret now r ≡ true
      → ShowsToken codec secret now r ⊎ ((key ≢ "") × Shows key r)
  unfolding by_token_query ShowsToken Shows
  token_query_sound h =
      let (a, b) =
        and_cases (not (str_eq r.token_query ""))
          (validate_jwt codec r.token_query secret now || is_key key r.token_query) h in
      elim (or_cases (validate_jwt codec r.token_query secret now) (is_key key r.token_query) b) [
        | inl v ↦ inl (inl (not_empty r.token_query a, v))
        | inr k ↦ let (ne, e) = is_key_sound key r.token_query k in inr (ne, inl e)
      ]

  key_sound :
      (text : String) → by_key codec key secret now r text ≡ true → (key ≢ "") × (text ≡ key)
  unfolding by_key
  key_sound text h = is_key_sound key text (and_cases (not (str_eq text "")) (is_key key text) h).1

  bearer_sound :
      (o : Option String)
      → after_prefix "Bearer " r.authorization ≡ o
      → by_bearer codec key secret now r o ≡ true
      → ShowsToken codec secret now r ⊎ ((key ≢ "") × Shows key r)
  unfolding by_bearer ShowsToken Shows
  bearer_sound none e h = absurd (ground arith)
  bearer_sound (some t) e h = elim (or_cases (is_key key t) (validate_jwt codec t secret now) h) [
    | inl k ↦ let (ne, e') = is_key_sound key t k in inr (ne, inr (inr (inr (e ∙ ap some e'))))
    | inr v ↦ inl (inr (t, e, v))
  ]

  -- A request that is passed on shows a valid token, or the API key, which is then not empty: without
  -- an API key, only a token opens the routes.
  pub authorized_sound :
      authorized codec key secret now r ≡ true
      → ShowsToken codec secret now r ⊎ ((key ≢ "") × Shows key r)
  unfolding authorized Shows
  authorized_sound h =
      let q = by_token_query codec key secret now r in
      let kq = by_key codec key secret now r r.api_key_query in
      let kh = by_key codec key secret now r r.api_key_header in
      let b = by_bearer codec key secret now r (after_prefix "Bearer " r.authorization) in
      elim (or_cases (q || kq || kh) b h) [
        | inr h₁ ↦ bearer_sound (after_prefix "Bearer " r.authorization) refl h₁
        | inl h₁ ↦ elim (or_cases (q || kq) kh h₁) [
          | inr h₂ ↦ let (ne, e) = key_sound r.api_key_header h₂ in inr (ne, inr (inr (inl e)))
          | inl h₂ ↦ elim (or_cases q kq h₂) [
            | inl h₃ ↦ token_query_sound h₃
            | inr h₃ ↦ let (ne, e) = key_sound r.api_key_query h₃ in inr (ne, inr (inl e))
          ]
        ]
      ]
