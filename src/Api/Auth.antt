-- ===== src/Api/Auth.antt =====
-- Tokens and the authorization of requests (api/auth.go). Bytes are the characters of a text. Package
-- encoding/base64, encoding/json on the claims and HMAC-SHA256 are the functions of a `Codec`; what
-- the program adds to them, the padding, the dots and the checks, is defined here.
pub mod Laws
pub mod Middleware
use Prim.Native.Char.{Char, code}
use Prim.Native.String
use fin_base.Base.{
  ℕ, zero, suc, ◌+◌, ◌-◌, ◌%◌, String, str_eq, Bool, true, false, not, ◌&&◌, ◌||◌, List, [], ◌∷◌,
  Option, none, some, if◌then◌else◌, ltb, ◌==◌, Result, ok, err,
}
use fin_base.Base.Text.{concat}

pub record JwtClaims : Type 0 where
  pub sub : String
  pub exp : ℕ
  pub iat : ℕ

pub record Codec : Type 0 where
  -- `base64.URLEncoding`, with padding
  pub encode : String → String
  pub decode : String → Result String
  pub marshal : JwtClaims → String
  pub unmarshal : String → Result JwtClaims
  -- The HMAC-SHA256 of a text under a secret.
  pub mac : String → String → String

-- A character before what is left of a text whose padding is trimmed.
unfoldable pub hold_padding : Char → String → String
hold_padding c String.[] = if code c == b'=' then "" else String.◌∷◌ c ""
hold_padding c (String.◌∷◌ d t) = String.◌∷◌ c (String.◌∷◌ d t)

-- `strings.TrimRight(s, "=")`
unfoldable pub trim_padding : String → String
unfolding hold_padding
trim_padding String.[] = ""
trim_padding (String.◌∷◌ c s) = hold_padding c (trim_padding s)

-- `len(s)` of a text whose characters are bytes.
unfoldable pub byte_len : String → ℕ
byte_len String.[] = 0
byte_len (String.◌∷◌ c s) = suc (byte_len s)

-- `s + strings.Repeat("=", n)`
unfoldable pub with_padding : String → ℕ → String
with_padding String.[] zero = ""
with_padding String.[] (suc n) = String.◌∷◌ "=" (with_padding "" n)
with_padding (String.◌∷◌ c s) n = String.◌∷◌ c (with_padding s n)

-- `s + "." + t`
unfoldable pub dotted : String → String → String
dotted String.[] t = String.◌∷◌ "." t
dotted (String.◌∷◌ c s) t = String.◌∷◌ c (dotted s t)

-- A character before the first part of a text split.
abbrev pub extend : Char → List String → List String
extend c [] = String.◌∷◌ c "" ∷ []
extend c (p ∷ ps) = String.◌∷◌ c p ∷ ps

-- `strings.Split(s, ".")`
unfoldable pub split_dots : String → List String
split_dots String.[] = "" ∷ []
split_dots (String.◌∷◌ c s) =
    let rest = split_dots s in if code c == b'.' then "" ∷ rest else extend c rest

-- `json.Marshal` of the header, whose keys it sorts.
abbrev pub header_json : String
header_json = "{\"alg\":\"HS256\",\"typ\":\"JWT\"}"

abbrev pub claims_at : ℕ → ℕ → JwtClaims
claims_at now duration = record { sub = "dashboard"; exp = now + duration; iat = now }

module _ (codec : Codec) where
  unfoldable pub base64_url_encode : String → String
  unfolding trim_padding
  base64_url_encode data' = trim_padding (codec.encode data')

  unfoldable pub base64_url_decode : String → Result String
  unfolding byte_len with_padding
  base64_url_decode s =
      let l = byte_len s % 4 in codec.decode (if ltb 0 l then with_padding s (4 - l) else s)

  unfoldable pub unsigned : ℕ → ℕ → String
  unfolding base64_url_encode dotted
  unsigned now duration =
      dotted (base64_url_encode header_json)
        (base64_url_encode (codec.marshal (claims_at now duration)))

  unfoldable pub signature : String → String → String
  unfolding base64_url_encode
  signature secret text = base64_url_encode (codec.mac secret text)

  -- `GenerateJWT` at time `now`, in seconds.
  unfoldable pub generate_jwt : String → ℕ → ℕ → String
  unfolding unsigned signature dotted
  generate_jwt secret now duration =
      dotted (unsigned now duration) (signature secret (unsigned now duration))

  -- The claims' expiry: `time.Now().Unix() > claims.Exp`.
  unfoldable pub unexpired : ℕ → Result JwtClaims → Bool
  unexpired now (ok claims) = not (ltb claims.exp now)
  unexpired now (err e) = false

  unfoldable pub check_claims : ℕ → Result String → Bool
  unfolding unexpired
  check_claims now (ok bytes) = unexpired now (codec.unmarshal bytes)
  check_claims now (err e) = false

  unfoldable pub validate_parts : String → ℕ → List String → Bool
  unfolding signature dotted base64_url_decode check_claims
  validate_parts secret now (header ∷ claims ∷ sig ∷ []) =
      str_eq sig (signature secret (dotted header claims))
      && check_claims now (base64_url_decode claims)
  validate_parts secret now [] = false
  validate_parts secret now (a ∷ []) = false
  validate_parts secret now (a ∷ b ∷ []) = false
  validate_parts secret now (a ∷ b ∷ c ∷ d ∷ ps) = false

  -- `ValidateJWT` at time `now`.
  unfoldable pub validate_jwt : String → String → ℕ → Bool
  unfolding split_dots validate_parts
  validate_jwt token secret now = validate_parts secret now (split_dots token)

-- What `AuthMiddleware` reads of a request: the query parameters and the headers, "" where missing.
pub record AuthRequest : Type 0 where
  pub token_query : String
  pub api_key_query : String
  pub api_key_header : String
  pub authorization : String

-- `strings.HasPrefix(s, p)`, and the rest of `s`.
unfoldable pub after_prefix : String → String → Option String
after_prefix String.[] s = some s
after_prefix (String.◌∷◌ p ps) String.[] = none
after_prefix (String.◌∷◌ p ps) (String.◌∷◌ c s) =
    if code p == code c then after_prefix ps s else none

-- `text == key`, where there is a key.
abbrev pub is_key : String → String → Bool
is_key key text = not (str_eq key "") && str_eq text key

module _ (codec : Codec) (key secret : String) (now : ℕ) (r : AuthRequest) where
  -- The query parameter `token`: a token or the API key.
  unfoldable pub by_token_query : Bool
  unfolding validate_jwt
  by_token_query =
      not (str_eq r.token_query "")
      && (validate_jwt codec r.token_query secret now || is_key key r.token_query)

  -- A place for the API key alone.
  unfoldable pub by_key : String → Bool
  by_key text = not (str_eq text "") && is_key key text

  -- "Authorization: Bearer …": a token or the API key.
  unfoldable pub by_bearer : Option String → Bool
  unfolding validate_jwt
  by_bearer none = false
  by_bearer (some token) = is_key key token || validate_jwt codec token secret now

  -- `AuthMiddleware` at time `now`: whether the request is passed on to the handler. The others are
  -- answered with status 401.
  unfoldable pub authorized : Bool
  unfolding by_token_query by_key by_bearer after_prefix
  authorized =
      by_token_query
      || by_key r.api_key_query
      || by_key r.api_key_header
      || by_bearer (after_prefix "Bearer " r.authorization)
