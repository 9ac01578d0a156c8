-- ===== src/Clients/Quotes.antt =====
-- The market data fetchers of clients/clients.go: Finnhub's, Tiingo's and Twelve Data's quotes, and
-- `FetchMarketDataWaterfall`, which takes the first that has a price.
pub mod Laws
use fin_base.Base.{
  String, str_eq, Bool, true, false, not, ◌&&◌, ◌||◌, List, [], ◌∷◌, ◌++◌, Option, none, some,
  if◌then◌else◌, Result, ok, err,
}
use fin_base.Base.Text.{concat, join, trim_space}
use fin_base.Base.Float.{Float, is_positive, is_zero}
use fin_base.Base.Int.{ℤ, pos}
use fin_base.Clients.Manager.{ClientManager, redact}
use fin_base.Clients.Http.{
  Request, Labels, Client, Fetched, finnhub, tiingo, twelve_data, fetch, fetch_raw,
}
use fin_base.Clients.Payloads.{MarketQuote, FinnhubQuote, TiingoPrice, TwelveDataQuote, Codec}

abbrev pub get_from : String → List (String × String) → Request
get_from url headers = record { method = "GET"; url = url; headers = headers; body = "" }

-- `if key != "" { req.Header.Set(name, prefix + key) }`
abbrev pub key_header : String → String → String → List (String × String)
key_header name prefix key = if str_eq key "" then [] else (name, concat (prefix ∷ key ∷ [])) ∷ []

-- A request of Finnhub with the token.
unfoldable pub finnhub_request : String → ClientManager → Request
finnhub_request path cm =
    get_from (concat ("https://finnhub.io/api/v1/" ∷ path ∷ []))
      (key_header "X-Finnhub-Token" "" cm.finnhub_api_key)

-- The labels of a function of the limiter `limiter` whose other errors begin with `name`.
abbrev pub labels : Option String → String → Labels
labels limiter name = record {
  wait = elim limiter [ none ↦ none | some l ↦ some (concat (l ∷ " rate limit wait error" ∷ [])) ];
  create = concat (name ∷ " create request error" ∷ []);
  http = concat (name ∷ " http error" ∷ []);
  status = name;
  read = concat (name ∷ " read body error" ∷ []);
  decode = concat (name ∷ " decode error" ∷ []);
}

abbrev pub quote_labels : Labels
quote_labels = record (labels (some "finnhub") "finnhub") { status = "finnhub quote" }

abbrev pub zero_float : Float
zero_float = 0

-- `&q`
abbrev pub address {ℓ} : {A : Type ℓ} → A → Result (Option A)
address a = ok (some a)

unfoldable pub quote_of : FinnhubQuote → MarketQuote
quote_of q = record {
  current_price = q.current_price;
  open_price = q.open_price_of_day;
  high_price = q.high_price_of_day;
  low_price = q.low_price_of_day;
  previous_close = q.previous_close_price;
  volume = pos 0;
  fifty_two_week_high = zero_float;
  fifty_two_week_low = zero_float;
  source = "Finnhub";
}

-- What `FetchFinnhubMarketData` makes of the quote and its error.
unfoldable pub from_quote : String → Fetched (Option FinnhubQuote) → Fetched (Option MarketQuote)
unfolding quote_of redact
from_quote ticker ((q, some e), c) = ((none, redact c.manager (some e)), c)
from_quote ticker ((none, none), c) = (
  (
    none,
    redact c.manager
        (some (concat ("finnhub returned empty market data for ticker " ∷ ticker ∷ []))),
  ),
  c,
)
from_quote ticker ((some q, none), c) =
    if is_zero q.current_price
    then (
      (
        none,
        redact c.manager
            (some (concat ("finnhub returned empty market data for ticker " ∷ ticker ∷ []))),
      ),
      c,
    )
    else ((some (quote_of q), none), c)

-- The latest price of Tiingo.
unfoldable pub quote_of_prices : String → List TiingoPrice → Result (Option MarketQuote)
quote_of_prices ticker [] = err (concat ("tiingo returned empty prices for ticker " ∷ ticker ∷ []))
quote_of_prices ticker (latest ∷ prices) = address (record {
  current_price = latest.close_price;
  open_price = latest.open_price;
  high_price = latest.high;
  low_price = latest.low;
  previous_close = zero_float;
  volume = latest.volume;
  fifty_two_week_high = zero_float;
  fifty_two_week_low = zero_float;
  source = "Tiingo";
})

unfoldable pub tiingo_request : String → ClientManager → Request
tiingo_request ticker cm =
    let url = concat ("https://api.tiingo.com/tiingo/daily/" ∷ ticker ∷ "/prices" ∷ []) in
    get_from
      (if str_eq cm.tiingo_api_key ""
        then url
        else concat (url ∷ "?token=" ∷ cm.tiingo_api_key ∷ []))
      (key_header "Authorization" "Token " cm.tiingo_api_key)

unfoldable pub twelve_data_request : String → ClientManager → Request
twelve_data_request ticker cm =
    let url = concat ("https://api.twelvedata.com/quote?symbol=" ∷ ticker ∷ []) in
    get_from
      (if str_eq cm.twelve_data_api_key ""
        then url
        else concat (url ∷ "&apikey=" ∷ cm.twelve_data_api_key ∷ []))
      []

-- `err == nil && quote != nil && quote.CurrentPrice > 0`
unfoldable pub priced : Option MarketQuote × Option String → Option MarketQuote
priced (q, some e) = none
priced (none, none) = none
priced (some q, none) = if is_positive q.current_price then some q else none

-- The line for a fetcher that has no price.
unfoldable pub reason : String → Option String → String
reason name (some e) = concat (name ∷ ": " ∷ e ∷ [])
reason name none = concat (name ∷ ": zero current price" ∷ [])

-- The fetchers in turn, with the lines of those before.
unfoldable pub first_priced :
    String
    → List (String × (Client → Fetched (Option MarketQuote)))
    → List String
    → Client
    → Fetched (Option MarketQuote)
unfolding redact priced reason
first_priced ticker [] errs c = (
  (
    none,
    redact c.manager (
        some (
          concat
            ("all market data fetchers failed for " ∷ ticker ∷ ": [" ∷ join "; " errs ∷ "]" ∷ []))),
  ),
  c,
)
first_priced ticker (f ∷ fs) errs c =
    let (r, c') = f.1 c in
    let rest = first_priced ticker fs (errs ++ reason f.0 r.1 ∷ []) c' in
    elim (priced r) [ some q ↦ ((some q, none), c') | none ↦ rest ]

module _ (json : Codec) where
  unfoldable pub fetch_finnhub_quote : String → Client → Fetched (Option FinnhubQuote)
  unfolding fetch finnhub_request
  fetch_finnhub_quote ticker =
      fetch finnhub quote_labels (finnhub_request (concat ("quote?symbol=" ∷ ticker ∷ [])))
        json.quote address none

  unfoldable pub fetch_finnhub_market_data : String → Client → Fetched (Option MarketQuote)
  unfolding fetch_finnhub_quote from_quote
  fetch_finnhub_market_data ticker c = from_quote ticker (fetch_finnhub_quote ticker c)

  unfoldable pub fetch_tiingo_market_data : String → Client → Fetched (Option MarketQuote)
  unfolding fetch tiingo_request quote_of_prices
  fetch_tiingo_market_data ticker =
      fetch tiingo (labels (some "tiingo") "tiingo") (tiingo_request ticker) json.tiingo_prices
        (quote_of_prices ticker) none

  -- `parseStringToFloat`
  unfoldable pub parse_string_to_float : String → Float
  unfolding trim_space
  parse_string_to_float s = json.parse_float (trim_space s)

  -- `parseStringToInt64`
  unfoldable pub parse_string_to_int64 : String → ℤ
  unfolding trim_space
  parse_string_to_int64 s = json.parse_int (trim_space s)

  unfoldable pub quote_of_texts : String → TwelveDataQuote → Result (Option MarketQuote)
  unfolding parse_string_to_float parse_string_to_int64
  quote_of_texts ticker q =
      if str_eq q.status "error" || (str_eq q.close_price "" && str_eq q.open_price "")
      then err (concat ("twelve data returned invalid quote for ticker " ∷ ticker ∷ []))
      else address (record {
        current_price = parse_string_to_float q.close_price;
        open_price = parse_string_to_float q.open_price;
        high_price = parse_string_to_float q.high;
        low_price = parse_string_to_float q.low;
        previous_close = parse_string_to_float q.previous_close;
        volume = parse_string_to_int64 q.volume;
        fifty_two_week_high = parse_string_to_float q.fifty_two_week_high;
        fifty_two_week_low = parse_string_to_float q.fifty_two_week_low;
        source = "Twelve Data";
      })

  -- Its error is returned as it is, without `redact`.
  unfoldable pub fetch_twelve_data_market_data : String → Client → Fetched (Option MarketQuote)
  unfolding fetch_raw twelve_data_request quote_of_texts
  fetch_twelve_data_market_data ticker =
      fetch_raw twelve_data (labels none "twelve data") (twelve_data_request ticker)
        json.twelve_data_quote (quote_of_texts ticker) none

  unfoldable pub fetch_market_data_waterfall : String → Client → Fetched (Option MarketQuote)
  unfolding fetch_finnhub_market_data fetch_tiingo_market_data fetch_twelve_data_market_data
      first_priced
  fetch_market_data_waterfall ticker =
      first_priced ticker
        (("Finnhub", fetch_finnhub_market_data ticker)
          ∷ ("Tiingo", fetch_tiingo_market_data ticker)
          ∷ ("Twelve Data", fetch_twelve_data_market_data ticker)
          ∷ [])
        []
