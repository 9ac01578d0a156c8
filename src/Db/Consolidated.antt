-- ===== src/Db/Consolidated.antt =====
-- `DB.GetConsolidatedData`: everything that is stored of a ticker, in one value. A query that fails
-- after the first leaves its list empty.
use fin_base.Base.{
  ℕ, zero, suc, String, str_eq, false, List, [], Option, none, some, ltb, ◌==◌, keep, find, or_else,
}
use fin_base.Base.Text.{normalize}
use fin_base.Db.Models.{
  Watchitem, WatchRow, Company, MarketData, Fundamental, ValuationRatio, Dividend, StockSplit,
  HistoricalPrice, AnalystEstimate, EarningsCalendar, CompanyNews, InsiderTransaction,
  InstitutionalOwnership, MacroIndicator, ActionHistory, Tables,
}
use fin_base.Db.Tx.{Result, ok, err, World, M, ◌>>=◌, pure, query}
use fin_base.Db.Watchlist.{has_ticker}
use fin_base.Db.Companies.{is_company}
use fin_base.Db.Sorting.{sort_by, take, text_before}

pub record ConsolidatedCompanyData : Type 0 where
  pub company : Company
  pub watchlist : Option Watchitem
  pub market_data : List MarketData
  pub fundamentals : List Fundamental
  pub valuation_ratios : List ValuationRatio
  pub dividends : List Dividend
  pub stock_splits : List StockSplit
  pub historical_prices : List HistoricalPrice
  pub analyst_estimates : List AnalystEstimate
  pub earnings_calendar : List EarningsCalendar
  pub company_news : List CompanyNews
  pub insider_transactions : List InsiderTransaction
  pub institutional_ownership : List InstitutionalOwnership
  pub macro_indicators : List MacroIndicator
  pub history : List ActionHistory

-- `if err == nil { … }` around a query's rows: `d` if it fails.
abbrev pub or_default : {A : Type 0} → A → Result A × World → Result A × World
or_default d (ok a, w) = (ok a, w)
or_default d (err e, w) = (ok d, w)

module _ {A : Type 0} where
  -- The rows of a query, or none if it fails.
  unfoldable pub rows_or_empty : (Tables → List A) → M (List A)
  unfolding query
  rows_or_empty q w = or_default [] (query (λ _ t. q t) w)

-- What the program has of a ticker that no row of companies names.
unfoldable pub unknown_company : String → Company
unknown_company ticker = record {
  id = 0;
  ticker = ticker;
  cik = "";
  isin = "";
  name = "";
  sector = "";
  exchange = "";
  outstanding_shares = 0;
  logo_url = "";
}

-- The scan of the watchlist row here leaves the force flag at its zero value.
unfoldable pub scan_unforced : Option WatchRow → Option Watchitem
scan_unforced none = none
scan_unforced (some r) = some (record {
  id = r.id;
  ticker = r.ticker;
  priority = r.priority;
  status = r.status;
  last_updated = r.last_updated;
  next_update_time = 0;
  force_full_refresh = false;
})

-- The watchlist entry, none if the query fails.
unfoldable pub watch_entry : String → M (Option Watchitem)
unfolding query scan_unforced
watch_entry ticker w =
    or_default none (query (λ _ t. scan_unforced (find (has_ticker ticker) t.watchlist)) w)

unfoldable pub market_data_of : ℕ → Tables → List MarketData
unfolding sort_by take
market_data_of id t = take 50 (
    sort_by (λ x y. ltb y.timestamp x.timestamp)
      (keep (λ (x : MarketData). x.company_id == id) t.market_data))

unfoldable pub fundamentals_of : ℕ → Tables → List Fundamental
unfolding sort_by take
fundamentals_of id t =
    take 50 (
      sort_by (λ x y. ltb y.id x.id)
        (keep (λ (x : Fundamental). x.company_id == id) t.fundamentals))

unfoldable pub valuation_ratios_of : ℕ → Tables → List ValuationRatio
unfolding sort_by take
valuation_ratios_of id t = take 10 (
    sort_by (λ x y. ltb y.timestamp x.timestamp)
      (keep (λ (x : ValuationRatio). x.company_id == id) t.valuation_ratios))

unfoldable pub dividends_of : ℕ → Tables → List Dividend
unfolding sort_by take
dividends_of id t = take 50 (
    sort_by (λ x y. text_before y.ex_date x.ex_date)
      (keep (λ (x : Dividend). x.company_id == id) t.dividends))

unfoldable pub stock_splits_of : ℕ → Tables → List StockSplit
unfolding sort_by take
stock_splits_of id t = take 50 (
    sort_by (λ x y. text_before y.execution_date x.execution_date)
      (keep (λ (x : StockSplit). x.company_id == id) t.stock_splits))

unfoldable pub historical_prices_of : ℕ → Tables → List HistoricalPrice
unfolding sort_by take
historical_prices_of id t = take 100 (
    sort_by (λ x y. text_before y.date x.date)
      (keep (λ (x : HistoricalPrice). x.company_id == id) t.historical_prices))

unfoldable pub analyst_estimates_of : ℕ → Tables → List AnalystEstimate
unfolding sort_by take
analyst_estimates_of id t = take 10 (
    sort_by (λ x y. text_before y.period x.period)
      (keep (λ (x : AnalystEstimate). x.company_id == id) t.analyst_estimates))

unfoldable pub earnings_calendar_of : ℕ → Tables → List EarningsCalendar
unfolding sort_by take
earnings_calendar_of id t = take 10 (
    sort_by (λ x y. text_before y.date x.date)
      (keep (λ (x : EarningsCalendar). x.company_id == id) t.earnings_calendar))

unfoldable pub company_news_of : ℕ → Tables → List CompanyNews
unfolding sort_by take
company_news_of id t = take 20 (
    sort_by (λ x y. ltb y.published_at x.published_at)
      (keep (λ (x : CompanyNews). x.company_id == id) t.company_news))

unfoldable pub insider_transactions_of : ℕ → Tables → List InsiderTransaction
unfolding sort_by take
insider_transactions_of id t = take 20 (
    sort_by (λ x y. text_before y.filing_date x.filing_date)
      (keep (λ (x : InsiderTransaction). x.company_id == id) t.insider_transactions))

unfoldable pub institutional_ownership_of : ℕ → Tables → List InstitutionalOwnership
unfolding sort_by take
institutional_ownership_of id t = take 20 (
    sort_by (λ x y. text_before y.period x.period)
      (keep (λ (x : InstitutionalOwnership). x.company_id == id) t.institutional_ownership))

unfoldable pub macro_indicators_of : Tables → List MacroIndicator
unfolding sort_by take
macro_indicators_of t = take 50 (sort_by (λ x y. text_before y.date x.date) t.macro_indicators)

unfoldable pub history_of : String → Tables → List ActionHistory
unfolding sort_by take
history_of ticker t = take 50 (
    sort_by (λ x y. ltb y.timestamp x.timestamp)
      (keep (λ (h : ActionHistory). str_eq h.ticker ticker) t.history))

-- `if comp.ID > 0 { … }`: a list is queried only for a company that is stored.
unfoldable pub if_stored : {A : Type 0} → ℕ → (ℕ → Tables → List A) → M (List A)
unfolding rows_or_empty
if_stored zero q = pure []
if_stored (suc id) q = rows_or_empty (q (suc id))

unfoldable pub get_consolidated_data : String → M ConsolidatedCompanyData
unfolding query normalize unknown_company watch_entry if_stored rows_or_empty history_of
    macro_indicators_of market_data_of fundamentals_of valuation_ratios_of dividends_of
    stock_splits_of historical_prices_of analyst_estimates_of earnings_calendar_of company_news_of
    insider_transactions_of institutional_ownership_of
get_consolidated_data name = do
  let ticker = normalize name
  company ← query λ _ t. or_else (find (is_company ticker) t.companies) (unknown_company ticker)
  watchlist ← watch_entry ticker
  market_data ← if_stored company.id market_data_of
  fundamentals ← if_stored company.id fundamentals_of
  valuation_ratios ← if_stored company.id valuation_ratios_of
  dividends ← if_stored company.id dividends_of
  stock_splits ← if_stored company.id stock_splits_of
  historical_prices ← if_stored company.id historical_prices_of
  analyst_estimates ← if_stored company.id analyst_estimates_of
  earnings_calendar ← if_stored company.id earnings_calendar_of
  company_news ← if_stored company.id company_news_of
  insider_transactions ← if_stored company.id insider_transactions_of
  institutional_ownership ← if_stored company.id institutional_ownership_of
  macro_indicators ← rows_or_empty macro_indicators_of
  history ← rows_or_empty (history_of ticker)
  pure (record {
    company = company;
    watchlist = watchlist;
    market_data = market_data;
    fundamentals = fundamentals;
    valuation_ratios = valuation_ratios;
    dividends = dividends;
    stock_splits = stock_splits;
    historical_prices = historical_prices;
    analyst_estimates = analyst_estimates;
    earnings_calendar = earnings_calendar;
    company_news = company_news;
    insider_transactions = insider_transactions;
    institutional_ownership = institutional_ownership;
    macro_indicators = macro_indicators;
    history = history;
  })
