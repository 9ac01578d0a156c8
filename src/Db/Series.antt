-- ===== src/Db/Series.antt =====
-- The tables of a company's data: the inserts of db/db.go, one row or a batch in one transaction. The
-- id of a row is its place, since no row of these tables is ever deleted.
pub mod Laws
use fin_base.Base.{
  ℕ, suc, String, str_eq, Bool, ◌&&◌, List, [], ◌∷◌, ◌++◌, Option, none, some, if◌then◌else◌, ◌==◌,
  any, length,
}
use fin_base.Base.Float.{Float}
use fin_base.Db.Models.{
  MarketData, Fundamental, ValuationRatio, Dividend, StockSplit, HistoricalPrice, AnalystEstimate,
  EarningsCalendar, CompanyNews, InsiderTransaction, InstitutionalOwnership, MacroIndicator, Tables,
}
use fin_base.Db.Tx.{Result, ok, err, World, M, ◌>>=◌, ◌>>◌, pure, Stmt, exec, with_tx}
use fin_base.Db.Companies.{company_exists, foreign_key}

-- A statement that refers to a company.
abbrev pub for_company : ℕ → (ℕ → Tables → Tables) → Stmt (Unit {0})
for_company company_id f n t =
    if company_exists company_id t then ok (tt, f n t) else err foreign_key

module _ {A : Type 0} where
  -- `for _, item := range items { if _, err := exec.ExecContext(…); err != nil { return err } }`
  unfoldable pub insert_each : (A → Stmt (Unit {0})) → List A → M (Unit {0})
  unfolding exec
  insert_each insert [] = pure tt
  insert_each insert (x ∷ xs) = exec (insert x) >> insert_each insert xs

  -- A batch in one transaction; an empty one does not touch the database.
  unfoldable pub insert_batch : (A → Stmt (Unit {0})) → List A → M (Unit {0})
  unfolding with_tx insert_each
  insert_batch insert [] = pure tt
  insert_batch insert (x ∷ xs) = with_tx (insert_each insert (x ∷ xs))

unfoldable pub append_dividends : ℕ → Dividend → Stmt (Unit {0})
append_dividends company_id x = for_company company_id λ n t. record t {
  dividends =
      t.dividends ++ record x { id = suc (length t.dividends); company_id = company_id } ∷ [];
}

unfoldable pub insert_dividends_batch : ℕ → List Dividend → M (Unit {0})
unfolding insert_batch append_dividends
insert_dividends_batch company_id = insert_batch (append_dividends company_id)

unfoldable pub append_stock_splits : ℕ → StockSplit → Stmt (Unit {0})
append_stock_splits company_id x = for_company company_id λ n t. record t {
  stock_splits =
      t.stock_splits ++ record x { id = suc (length t.stock_splits); company_id = company_id } ∷ [];
}

unfoldable pub insert_stock_splits_batch : ℕ → List StockSplit → M (Unit {0})
unfolding insert_batch append_stock_splits
insert_stock_splits_batch company_id = insert_batch (append_stock_splits company_id)

unfoldable pub append_analyst_estimates : ℕ → AnalystEstimate → Stmt (Unit {0})
append_analyst_estimates company_id x = for_company company_id λ n t. record t {
  analyst_estimates =
      t.analyst_estimates
      ++ record x { id = suc (length t.analyst_estimates); company_id = company_id } ∷ [];
}

unfoldable pub insert_analyst_estimates_batch : ℕ → List AnalystEstimate → M (Unit {0})
unfolding insert_batch append_analyst_estimates
insert_analyst_estimates_batch company_id = insert_batch (append_analyst_estimates company_id)

unfoldable pub append_earnings_calendar : ℕ → EarningsCalendar → Stmt (Unit {0})
append_earnings_calendar company_id x = for_company company_id λ n t. record t {
  earnings_calendar =
      t.earnings_calendar
      ++ record x { id = suc (length t.earnings_calendar); company_id = company_id } ∷ [];
}

unfoldable pub insert_earnings_calendar_batch : ℕ → List EarningsCalendar → M (Unit {0})
unfolding insert_batch append_earnings_calendar
insert_earnings_calendar_batch company_id = insert_batch (append_earnings_calendar company_id)

unfoldable pub append_company_news : ℕ → CompanyNews → Stmt (Unit {0})
append_company_news company_id x = for_company company_id λ n t. record t {
  company_news =
      t.company_news ++ record x { id = suc (length t.company_news); company_id = company_id } ∷ [];
}

unfoldable pub insert_company_news_batch : ℕ → List CompanyNews → M (Unit {0})
unfolding insert_batch append_company_news
insert_company_news_batch company_id = insert_batch (append_company_news company_id)

unfoldable pub append_insider_transactions : ℕ → InsiderTransaction → Stmt (Unit {0})
append_insider_transactions company_id x = for_company company_id λ n t. record t {
  insider_transactions =
      t.insider_transactions
      ++ record x { id = suc (length t.insider_transactions); company_id = company_id } ∷ [];
}

unfoldable pub insert_insider_transactions_batch : ℕ → List InsiderTransaction → M (Unit {0})
unfolding insert_batch append_insider_transactions
insert_insider_transactions_batch company_id = insert_batch (append_insider_transactions company_id)

unfoldable pub append_institutional_ownership : ℕ → InstitutionalOwnership → Stmt (Unit {0})
append_institutional_ownership company_id x = for_company company_id λ n t. record t {
  institutional_ownership =
      t.institutional_ownership
      ++ record x { id = suc (length t.institutional_ownership); company_id = company_id } ∷ [];
}

unfoldable pub insert_institutional_ownership_batch : ℕ → List InstitutionalOwnership → M (Unit {0})
unfolding insert_batch append_institutional_ownership
insert_institutional_ownership_batch company_id =
    insert_batch (append_institutional_ownership company_id)

-- A period, a metric and its value (`FundamentalItem`).
pub record FundamentalItem : Type 0 where
  pub period : String
  pub metric_name : String
  pub value : Float

unfoldable pub append_fundamental : ℕ → FundamentalItem → Stmt (Unit {0})
append_fundamental company_id x = for_company company_id λ n t. record t {
  fundamentals =
      t.fundamentals
      ++ record {
        id = suc (length t.fundamentals);
        company_id = company_id;
        period = x.period;
        metric_name = x.metric_name;
        value = x.value;
      }
        ∷ [];
}

unfoldable pub insert_fundamentals_batch : ℕ → List FundamentalItem → M (Unit {0})
unfolding insert_batch append_fundamental
insert_fundamentals_batch company_id = insert_batch (append_fundamental company_id)

unfoldable pub insert_fundamental : ℕ → String → String → Float → M (Unit {0})
unfolding with_tx exec append_fundamental
insert_fundamental company_id period metric_name value = with_tx (
    exec (
      append_fundamental company_id
        (record { period = period; metric_name = metric_name; value = value })))

unfoldable pub append_market_data : ℕ → MarketData → Stmt (Unit {0})
append_market_data company_id md = for_company company_id λ n t. record t {
  market_data =
      t.market_data
      ++ record md { id = suc (length t.market_data); company_id = company_id; timestamp = n } ∷ [];
}

unfoldable pub insert_market_data : ℕ → MarketData → M (Unit {0})
unfolding with_tx exec append_market_data
insert_market_data company_id md = with_tx (exec (append_market_data company_id md))

unfoldable pub append_valuation_ratios : ℕ → ValuationRatio → Stmt (Unit {0})
append_valuation_ratios company_id vr = for_company company_id λ n t. record t {
  valuation_ratios =
      t.valuation_ratios
      ++ record vr { id = suc (length t.valuation_ratios); company_id = company_id; timestamp = n }
        ∷ [];
}

unfoldable pub insert_valuation_ratios : ℕ → ValuationRatio → M (Unit {0})
unfolding with_tx exec append_valuation_ratios
insert_valuation_ratios company_id vr = with_tx (exec (append_valuation_ratios company_id vr))

abbrev pub has_day : ℕ → String → HistoricalPrice → Bool
has_day company_id date p = p.company_id == company_id && str_eq p.date date

-- "ON CONFLICT(company_id, date) DO UPDATE SET …": the row keeps its id.
unfoldable pub replace_day : HistoricalPrice → List HistoricalPrice → List HistoricalPrice
replace_day new [] = []
replace_day new (p ∷ ps) =
    (if has_day new.company_id new.date p then record new { id = p.id } else p) ∷ replace_day new ps

unfoldable pub upsert_historical : ℕ → HistoricalPrice → Stmt (Unit {0})
unfolding replace_day
upsert_historical company_id x = for_company company_id λ n t.
    let new : HistoricalPrice = record x {
      id = suc (length t.historical_prices);
      company_id = company_id;
    } in
    record t {
      historical_prices =
          if any (has_day company_id x.date) t.historical_prices
          then replace_day new t.historical_prices
          else t.historical_prices ++ new ∷ [];
    }

unfoldable pub insert_historical_prices_batch : ℕ → List HistoricalPrice → M (Unit {0})
unfolding insert_batch upsert_historical
insert_historical_prices_batch company_id = insert_batch (upsert_historical company_id)

abbrev pub has_point : String → String → MacroIndicator → Bool
has_point series_id date m = str_eq m.series_id series_id && str_eq m.date date

-- "ON CONFLICT(series_id, date) DO UPDATE SET …": the row keeps its id.
unfoldable pub replace_point : MacroIndicator → List MacroIndicator → List MacroIndicator
replace_point new [] = []
replace_point new (m ∷ ms) =
    (if has_point new.series_id new.date m then record new { id = m.id } else m)
    ∷ replace_point new ms

unfoldable pub upsert_macro : MacroIndicator → Stmt (Unit {0})
unfolding replace_point
upsert_macro x n t =
    let new : MacroIndicator = record x { id = suc (length t.macro_indicators) } in
    ok (
      tt,
      record t {
        macro_indicators =
            if any (has_point x.series_id x.date) t.macro_indicators
            then replace_point new t.macro_indicators
            else t.macro_indicators ++ new ∷ [];
      },
    )

unfoldable pub insert_macro_indicators_batch : List MacroIndicator → M (Unit {0})
unfolding insert_batch upsert_macro
insert_macro_indicators_batch = insert_batch upsert_macro
