-- ===== src/Api/Samples.antt =====
-- Samples for the tests: an encoding of tokens with what the theorems ask of it, what a server takes from
-- elsewhere, a server and requests to it.
use Prim.Native.Char.{code}
use fin_base.Base.{
  ℕ, ◌-◌, ◌%◌, ◌≡◌, refl, String, str_eq, Bool, true, not, List, [], ◌∷◌, Option, none, arith, ok,
  err, if◌then◌else◌, ◌==◌, ◌&&◌,
}
use fin_base.Base.Int.{pos}
use fin_base.Base.Text.{concat, show_nat}
use fin_base.Db.Samples.{world}
use fin_base.Clients.Manager.{new_client_manager}
use fin_base.Clients.Samples
use fin_base.Worker.Samples.{go}
use fin_base.Env.{Environment, new_env_service}
use fin_base.Api.Auth.{Codec, header_json, claims_at, with_padding, trim_padding, byte_len}
use fin_base.Api.Auth.Laws.{IsEncoding, Lacks}
use fin_base.Api.Broker.{new_sse_broker}
use fin_base.Api.Messages.{HttpRequest, Outside, Server}

-- An encoding that only fills up to a multiple of four, and a code that is the secret itself.
abbrev pub tokens : Codec
tokens = record {
  encode = λ s. with_padding s ((4 - byte_len s % 4) % 4);
  decode = λ s. ok (trim_padding s);
  marshal = λ c. concat ("exp:" ∷ show_nat c.exp ∷ []);
  unmarshal = λ s. if str_eq s "exp:1000" then ok (claims_at 100 900) else err "unknown claims";
  mac = λ secret text. secret;
}

lacks : ℕ → String → Bool
lacks b String.[] = true
lacks b (String.◌∷◌ c s) = not (code c == b) && lacks b s

lacks_sound : (b : ℕ) (s : String) → lacks b s ≡ true → Lacks b s
unfolding lacks Lacks
lacks_sound b String.[] h = tt
lacks_sound b (String.◌∷◌ c s) h = (ground arith, lacks_sound b s (ground arith))

pub header_encodes : IsEncoding tokens header_json header_json 1
unfolding with_padding byte_len lacks
header_encodes = record {
  encodes = refl;
  no_padding = lacks_sound b'=' header_json refl;
  no_dot = lacks_sound b'.' header_json refl;
  fill_bound = omega arith;
  fills = refl;
}

pub claims_encode : IsEncoding tokens (tokens.marshal (claims_at 100 900)) "exp:1000" 0
unfolding with_padding byte_len lacks show_nat
claims_encode = record {
  encodes = refl;
  no_padding = lacks_sound b'=' "exp:1000" refl;
  no_dot = lacks_sound b'.' "exp:1000" refl;
  fill_bound = omega arith;
  fills = refl;
}

pub secret_encodes : IsEncoding tokens "hunter2" "hunter2" 1
unfolding with_padding byte_len lacks
secret_encodes = record {
  encodes = refl;
  no_padding = lacks_sound b'=' "hunter2" refl;
  no_dot = lacks_sound b'.' "hunter2" refl;
  fill_bound = omega arith;
  fills = refl;
}

pub claims_decode :
    tokens.decode (tokens.encode (tokens.marshal (claims_at 100 900)))
    ≡ ok (tokens.marshal (claims_at 100 900))
unfolding with_padding byte_len show_nat trim_padding
claims_decode = refl

pub claims_parse : tokens.unmarshal (tokens.marshal (claims_at 100 900)) ≡ ok (claims_at 100 900)
unfolding show_nat
claims_parse = refl

abbrev pub getenv : Environment
getenv name = if str_eq name "TIINGO_API_KEY" then "tiingo-env" else ""

-- A body of the watchlist is a ticker, one of the keys a value for FMP.
abbrev pub outside : Outside
outside = record {
  tokens = tokens;
  json = Samples.codec;
  inflate = Samples.inflate;
  go = record go { getenv = getenv };
  clean_path = λ p. p;
  watchlist_body = λ b. ok (record { ticker = b; priority = pos 2 });
  refresh_body = λ b. b;
  key_body = λ b. ok (record { name = "FMP_API_KEY"; value = b });
  name_body = λ b. ok b;
  company_json = λ d. d.company.ticker;
  file_status = λ p. 200;
}

-- A server whose next calls of SQLite answer as listed.
abbrev pub server : List (Option String) → Server
server outcomes = record {
  env_svc =
      new_env_service (record (world outcomes) { now = 100 }) (new_client_manager "" "" "" "" "" "")
        "key-1";
  wire = record { clock = 100; replies = []; requests = [] };
  broker = new_sse_broker;
  next_client = 1;
  pool_status = none;
  api_key = "key-1";
  jwt_secret = "hunter2";
  has_env = true;
  has_clients = true;
}

-- A request that shows a key in its header.
abbrev pub asking : String → String → String → String → HttpRequest
asking key method path body = record {
  method = method;
  path = path;
  query = λ name. "";
  header = λ name. if str_eq name "X-API-Key" then key else "";
  body = body;
}
