-- ===== src/Clients/Facts.antt =====
-- The fetchers of clients/clients.go for a company's profile, dividends, splits, estimates, earnings,
-- holders, insiders, prices and income statements, and for FRED's series.
use Prim.Native.String
use fin_base.Base.{
  ℕ, zero, suc, ◌+◌, ◌-◌, String, str_eq, not, ◌&&◌, List, [], ◌∷◌, ◌++◌, map, Option, none, some,
  if◌then◌else◌, ok, leb,
}
use fin_base.Base.Text.{concat, join}
use fin_base.Base.Float.{Float, is_positive}
use fin_base.Base.Int.{ℤ, pos, negsuc}
use fin_base.Clients.Manager.{ClientManager}
use fin_base.Clients.Http.{Request, Client, Fetched, finnhub, tiingo, fmp, fred, fetch}
use fin_base.Clients.Quotes.{
  get_from, key_header, finnhub_request, labels, address, parse_string_to_float,
}
use fin_base.Clients.Payloads.{
  FinnhubProfile, TiingoPrice, FmpIncomeStatement, DividendItem, StockSplitItem,
  HistoricalPriceItem, AnalystEstimateItem, EarningsCalendarItem, InsiderTransactionItem,
  InstitutionalOwnershipItem, MacroIndicatorItem, Observation, NewsEntry, CompanyNewsItem,
  FinnhubValuationRatios, Codec,
}

-- `curr := item.Currency; if curr == "" { curr = "USD" }`
unfoldable pub in_currency : DividendItem → DividendItem
in_currency d = record d { currency = if str_eq d.currency "" then "USD" else d.currency }

-- The loop of `FetchFinnhubDividends`: dividends of no amount are left out.
unfoldable pub paid : List DividendItem → List DividendItem
unfolding in_currency
paid [] = []
paid (d ∷ ds) = if is_positive d.amount then in_currency d ∷ paid ds else paid ds

-- The number of bytes is taken as that of the characters, which a date has one each.
unfoldable pub first_chars : ℕ → String → String
first_chars zero s = ""
first_chars (suc n) String.[] = ""
first_chars (suc n) (String.◌∷◌ c s) = String.◌∷◌ c (first_chars n s)

unfoldable pub historical_price : TiingoPrice → HistoricalPriceItem
unfolding first_chars
historical_price p = record {
  date = if leb 10 (String.len p.date) then first_chars 10 p.date else p.date;
  open_price = p.open_price;
  high_price = p.high;
  low_price = p.low;
  close_price = p.close_price;
  adj_close_price = p.adj_close;
  volume = p.volume;
}

-- `if startDate != "" { params = append(params, "startDate="+startDate) }`
abbrev pub parameter : String → String → List String
parameter name value = if str_eq value "" then [] else concat (name ∷ "=" ∷ value ∷ []) ∷ []

abbrev pub with_parameters : String → List String → String
with_parameters url [] = url
with_parameters url (p ∷ ps) = concat (url ∷ "?" ∷ join "&" (p ∷ ps) ∷ [])

-- `time.Unix(sec, 0)`, in seconds of Go's zero time.
unfoldable pub unix_time : ℤ → ℕ
unix_time (pos n) = 62_135_596_800 + n
unix_time (negsuc n) = 62_135_596_800 - suc n

unfoldable pub news_item : NewsEntry → CompanyNewsItem
unfolding unix_time
news_item n = record {
  news_id = n.id;
  headline = n.headline;
  summary = n.summary;
  source = n.source;
  url = n.url;
  published_at = unix_time n.datetime;
  sentiment_score = n.sentiment_score;
}

-- `getFloat`: the first of the keys that has a number.
unfoldable pub get_float : (String → Option Float) → List String → Float
get_float m [] = 0
get_float m (k ∷ ks) = let rest = get_float m ks in elim (m k) [ some f ↦ f | none ↦ rest ]

unfoldable pub ratios_of : (String → Option Float) → FinnhubValuationRatios
unfolding get_float
ratios_of m = record {
  pe_ratio = get_float m ("peNormalizedAnnual" ∷ "peBasicExclExtraTTM" ∷ "peTTM" ∷ []);
  pb_ratio = get_float m ("pbAnnual" ∷ "pbQuarterly" ∷ []);
  ps_ratio = get_float m ("psAnnual" ∷ "psTTM" ∷ []);
  gross_margin = get_float m ("grossMarginAnnual" ∷ "grossMarginTTM" ∷ []);
  operating_margin = get_float m ("operatingMarginAnnual" ∷ "operatingMarginTTM" ∷ []);
  net_margin = get_float m ("netProfitMarginAnnual" ∷ "netProfitMarginTTM" ∷ []);
  roe = get_float m ("roeTTM" ∷ "roeRpt" ∷ []);
  roa = get_float m ("roaTTM" ∷ "roaRpt" ∷ []);
  debt_to_equity =
      get_float m ("totalDebt/totalEquityAnnual" ∷ "totalDebt/totalEquityQuarterly" ∷ []);
}

unfoldable pub history_request : String → String → String → ClientManager → Request
history_request ticker start_date end_date cm =
    get_from
      (with_parameters (concat ("https://api.tiingo.com/tiingo/daily/" ∷ ticker ∷ "/prices" ∷ [])) (
        parameter "startDate" start_date
        ++ parameter "endDate" end_date
        ++ parameter "token" cm.tiingo_api_key))
      (key_header "Authorization" "Token " cm.tiingo_api_key)

unfoldable pub fmp_request : String → ClientManager → Request
fmp_request ticker cm =
    let url = concat ("https://financialmodelingprep.com/api/v3/income-statement/" ∷ ticker ∷ []) in
    get_from
      (if str_eq cm.fmp_api_key "" then url else concat (url ∷ "?apikey=" ∷ cm.fmp_api_key ∷ [])) []

unfoldable pub fred_request : String → ClientManager → Request
fred_request series_id cm =
    let url = concat (
      "https://api.stlouisfed.org/fred/series/observations?series_id=" ∷ series_id
      ∷ "&file_type=json" ∷ []) in
    get_from
      (if str_eq cm.fred_api_key "" then url else concat (url ∷ "&api_key=" ∷ cm.fred_api_key ∷ []))
      []

module _ (json : Codec) where
  -- The loop of `FetchFREDSeries`: "." is a missing value.
  unfoldable pub observed : String → String → List Observation → List MacroIndicatorItem
  unfolding parse_string_to_float
  observed series_id indicator_name [] = []
  observed series_id indicator_name (obs ∷ rest) =
      if not (str_eq obs.date "") && not (str_eq obs.value ".")
      then record {
        series_id = series_id;
        indicator_name = indicator_name;
        date = obs.date;
        value = parse_string_to_float json obs.value;
      }
        ∷ observed series_id indicator_name rest
      else observed series_id indicator_name rest

  unfoldable pub fetch_finnhub_profile : String → Client → Fetched (Option FinnhubProfile)
  unfolding fetch finnhub_request
  fetch_finnhub_profile ticker =
      fetch finnhub (labels (some "finnhub") "finnhub profile")
        (finnhub_request (concat ("stock/profile2?symbol=" ∷ ticker ∷ []))) json.profile address
        none

  unfoldable pub fetch_finnhub_dividends : String → Client → Fetched (List DividendItem)
  unfolding fetch finnhub_request paid
  fetch_finnhub_dividends ticker =
      fetch finnhub (labels (some "finnhub") "finnhub dividend")
        (finnhub_request (concat ("stock/dividend?symbol=" ∷ ticker ∷ []))) json.dividends
        (λ ds. ok (paid ds)) []

  unfoldable pub fetch_finnhub_analyst_estimates :
      String → Client → Fetched (List AnalystEstimateItem)
  unfolding fetch finnhub_request
  fetch_finnhub_analyst_estimates ticker =
      fetch finnhub (labels (some "finnhub") "finnhub recommendation")
        (finnhub_request (concat ("stock/recommendation?symbol=" ∷ ticker ∷ []))) json.estimates ok
        []

  unfoldable pub fetch_finnhub_earnings_calendar :
      String → Client → Fetched (List EarningsCalendarItem)
  unfolding fetch finnhub_request
  fetch_finnhub_earnings_calendar ticker =
      fetch finnhub (labels (some "finnhub") "finnhub earnings")
        (finnhub_request (concat ("calendar/earnings?symbol=" ∷ ticker ∷ []))) json.earnings ok []

  unfoldable pub fetch_finnhub_institutional_ownership :
      String → Client → Fetched (List InstitutionalOwnershipItem)
  unfolding fetch finnhub_request
  fetch_finnhub_institutional_ownership ticker =
      fetch finnhub (labels (some "finnhub") "finnhub ownership")
        (finnhub_request (concat ("stock/ownership?symbol=" ∷ ticker ∷ []))) json.ownership ok []

  unfoldable pub fetch_finnhub_insider_transactions :
      String → Client → Fetched (List InsiderTransactionItem)
  unfolding fetch finnhub_request
  fetch_finnhub_insider_transactions ticker =
      fetch finnhub (labels (some "finnhub") "finnhub insider")
        (finnhub_request (concat ("stock/insider-transactions?symbol=" ∷ ticker ∷ [])))
        json.insiders ok []

  unfoldable pub fetch_finnhub_splits : String → Client → Fetched (List StockSplitItem)
  unfolding fetch finnhub_request
  fetch_finnhub_splits ticker =
      fetch finnhub (labels (some "finnhub") "finnhub split")
        (finnhub_request (concat ("stock/split?symbol=" ∷ ticker ∷ []))) json.splits ok []

  unfoldable pub fetch_fred_series : String → String → Client → Fetched (List MacroIndicatorItem)
  unfolding fetch fred_request observed
  fetch_fred_series series_id indicator_name =
      fetch fred (labels (some "fred") "fred") (fred_request series_id) json.observations
        (λ obs. ok (observed series_id indicator_name obs)) []

  unfoldable pub fetch_tiingo_historical_prices :
      String → String → String → Client → Fetched (List HistoricalPriceItem)
  unfolding fetch history_request historical_price
  fetch_tiingo_historical_prices ticker start_date end_date =
      fetch tiingo (labels (some "tiingo") "tiingo historical")
        (history_request ticker start_date end_date) json.tiingo_prices
        (λ prices. ok (map historical_price prices)) []

  unfoldable pub fetch_fmp_income_statement : String → Client → Fetched (List FmpIncomeStatement)
  unfolding fetch fmp_request
  fetch_fmp_income_statement ticker =
      fetch fmp (labels (some "fmp") "fmp") (fmp_request ticker) json.income_statements ok []

  unfoldable pub fetch_finnhub_company_news :
      String → String → String → Client → Fetched (List CompanyNewsItem)
  unfolding fetch finnhub_request news_item
  fetch_finnhub_company_news ticker from to =
      fetch finnhub (labels (some "finnhub") "finnhub news")
        (finnhub_request
          (concat ("company-news?symbol=" ∷ ticker ∷ "&from=" ∷ from ∷ "&to=" ∷ to ∷ [])))
        json.news (λ news. ok (map news_item news)) []

  unfoldable pub fetch_finnhub_valuation_ratios :
      String → Client → Fetched (Option FinnhubValuationRatios)
  unfolding fetch finnhub_request ratios_of
  fetch_finnhub_valuation_ratios ticker =
      fetch finnhub (labels (some "finnhub") "finnhub metric")
        (finnhub_request (concat ("stock/metric?symbol=" ∷ ticker ∷ "&metric=all" ∷ [])))
        json.metrics (λ m. address (ratios_of m)) none
