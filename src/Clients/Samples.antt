-- ===== src/Clients/Samples.antt =====
-- Samples for the tests: a reading of JSON, replies of the services, clients, and a compression.
use Prim.Native.Char.{code}
use fin_base.Base.{ℕ, refl, String, List, [], none, false, ok, err, if◌then◌else◌, ◌==◌, Result}
use fin_base.Base.Float.{Float}
use fin_base.Base.Int.{pos}
use fin_base.Clients.Manager.{new_client_manager}
use fin_base.Clients.Http.{Client, Reply}
use fin_base.Clients.Payloads.{Codec, FinnhubQuote}
use fin_base.Clients.Sec.{Inflate}
use fin_base.Clients.Sec.Laws.{Compression}

abbrev pub quote_at : Float → FinnhubQuote
quote_at price = record {
  current_price = price;
  change = 0;
  percent_change = 0;
  high_price_of_day = price;
  low_price_of_day = price;
  open_price_of_day = price;
  previous_close_price = price;
  timestamp = pos 0;
}

-- Every answer is a quote at one price, or is not JSON.
abbrev pub codec : Codec
codec = record {
  quote = λ _. ok (quote_at 0x4059000000000000);
  profile = λ _. err "invalid character";
  tiingo_prices = λ _. err "invalid character";
  twelve_data_quote = λ _. err "invalid character";
  income_statements = λ _. ok [];
  dividends = λ _. ok [];
  splits = λ _. ok [];
  estimates = λ _. ok [];
  earnings = λ _. ok [];
  insiders = λ _. ok [];
  ownership = λ _. ok [];
  observations = λ _. ok [];
  tickers = λ _. ok [];
  mapping_body = λ _. ok "[]";
  figi_results = λ _. ok [];
  facts = λ _. err "invalid character";
  news = λ _. ok [];
  metrics = λ _. ok (λ _. none);
  parse_float = λ _. 0;
  parse_int = λ _. pos 0;
}

abbrev pub reply : ℕ → ℕ → Reply
reply code time = record {
  waited = none;
  created = none;
  sent = none;
  status_code = code;
  body = "{}";
  broken = none;
  content_encoding = "";
  uncompressed = false;
  finish = time;
}

abbrev pub client : List Reply → Client
client replies = record {
  manager = new_client_manager "" "f" "" "t" "d" "m";
  wire = record { clock = 100; replies = replies; requests = [] };
}

-- Streams that start with a letter for their format.
abbrev pub behind : ℕ → String → Result String
behind b String.[] = err "unexpected EOF"
behind b (String.◌∷◌ c s) = if code c == b then ok s else err "invalid header"

abbrev pub readable : Result String → Result (Result String)
readable (ok s) = ok (ok s)
readable (err e) = err e

abbrev pub inflate : Inflate
inflate = record {
  gzip_reader = λ s e. readable (behind b'g' s);
  zlib_reader = λ s. readable (behind b'z' s);
  flate_reader = behind b'd';
}

abbrev pub compression : Compression inflate
compression = record {
  gzip = String.◌∷◌ "g";
  zlib = String.◌∷◌ "z";
  raw = String.◌∷◌ "d";
  gunzips = λ s. refl;
  unzips = λ s. refl;
  inflates = λ s. refl;
  no_header = λ s. ("invalid header", refl);
}
