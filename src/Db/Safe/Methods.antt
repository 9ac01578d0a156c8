-- ===== src/Db/Safe/Methods.antt =====
-- Each method of db/db.go that a job calls: it leaves the keys and keeps the watchlist in order.
use fin_base.Base.{
  [], zero, suc, ap, ℕ, refl, ◌∙◌, inl, inr, String, Bool, List, arith, Bool-cases, any,
}
use fin_base.Base.Text.{normalize}
use fin_base.Db.Models.{
  Tables, Company, MarketData, ValuationRatio, Dividend, StockSplit, HistoricalPrice,
  AnalystEstimate, EarningsCalendar, CompanyNews, InsiderTransaction, InstitutionalOwnership,
  MacroIndicator,
}
use fin_base.Db.Tx.{committed, World, M, query, ◌>>◌, exec}
use fin_base.Db.Tx.Laws.{Effect, of_stmt, then_effect, exec-Runs, bind-Runs}
use fin_base.Db.Tx.Calm.{IsCalm, exec-IsCalm, query-IsCalm, pure-IsCalm, bind-IsCalm, with_tx-Works}
use fin_base.Db.Quiet.{default_world, get_consolidated_data-IsQuiet, query-IsQuiet}
use fin_base.Db.Companies.{
  is_company, upsert_company_row, select_company_id, upsert_body, upsert_company, upsert_stamp,
  set_category_last_updated, get_category_last_updated, append_action, log_action,
}
use fin_base.Db.Consolidated.{
  or_default, rows_or_empty, watch_entry, if_stored, get_consolidated_data,
}
use fin_base.Db.Companies.Stamps.{stamp_of}
use fin_base.Db.Series.{
  FundamentalItem, append_dividends, insert_dividends_batch, append_stock_splits,
  insert_stock_splits_batch, append_analyst_estimates, insert_analyst_estimates_batch,
  append_earnings_calendar, insert_earnings_calendar_batch, append_company_news,
  insert_company_news_batch, append_insider_transactions, insert_insider_transactions_batch,
  append_institutional_ownership, insert_institutional_ownership_batch, append_fundamental,
  insert_fundamentals_batch, append_market_data, insert_market_data, append_valuation_ratios,
  insert_valuation_ratios, upsert_historical, insert_historical_prices_batch, upsert_macro,
  insert_macro_indicators_batch,
}
use fin_base.Db.Watchlist.{
  set_status, set_force, update_watchitem_status, set_watchitem_force_refresh,
}
use fin_base.Db.Watchlist.Runs.{perform, perform-IsValid, force, set_status_of}
use fin_base.Db.Watchlist.Frame.{perform-api_keys}
use fin_base.Db.Safe.{
  Leaves, LeavesAll, IsSafe, quiet-IsSafe, exec-IsSafe, exec-Leaves, Runs-IsSafe, batch-IsSafe,
  for_company-LeavesAll,
}

module _ (id : ℕ) where
  append_dividends-LeavesAll : (x : Dividend) → LeavesAll (append_dividends id x)
  unfolding append_dividends
  append_dividends-LeavesAll x = for_company-LeavesAll id _ (λ n t. (refl, refl, refl))

  pub insert_dividends_batch-IsSafe : (xs : List Dividend) → IsSafe (insert_dividends_batch id xs)
  unfolding insert_dividends_batch
  insert_dividends_batch-IsSafe = batch-IsSafe append_dividends-LeavesAll

  append_stock_splits-LeavesAll : (x : StockSplit) → LeavesAll (append_stock_splits id x)
  unfolding append_stock_splits
  append_stock_splits-LeavesAll x = for_company-LeavesAll id _ (λ n t. (refl, refl, refl))

  pub insert_stock_splits_batch-IsSafe :
      (xs : List StockSplit) → IsSafe (insert_stock_splits_batch id xs)
  unfolding insert_stock_splits_batch
  insert_stock_splits_batch-IsSafe = batch-IsSafe append_stock_splits-LeavesAll

  append_analyst_estimates-LeavesAll :
      (x : AnalystEstimate) → LeavesAll (append_analyst_estimates id x)
  unfolding append_analyst_estimates
  append_analyst_estimates-LeavesAll x = for_company-LeavesAll id _ (λ n t. (refl, refl, refl))

  pub insert_analyst_estimates_batch-IsSafe :
      (xs : List AnalystEstimate) → IsSafe (insert_analyst_estimates_batch id xs)
  unfolding insert_analyst_estimates_batch
  insert_analyst_estimates_batch-IsSafe = batch-IsSafe append_analyst_estimates-LeavesAll

  append_earnings_calendar-LeavesAll :
      (x : EarningsCalendar) → LeavesAll (append_earnings_calendar id x)
  unfolding append_earnings_calendar
  append_earnings_calendar-LeavesAll x = for_company-LeavesAll id _ (λ n t. (refl, refl, refl))

  pub insert_earnings_calendar_batch-IsSafe :
      (xs : List EarningsCalendar) → IsSafe (insert_earnings_calendar_batch id xs)
  unfolding insert_earnings_calendar_batch
  insert_earnings_calendar_batch-IsSafe = batch-IsSafe append_earnings_calendar-LeavesAll

  append_company_news-LeavesAll : (x : CompanyNews) → LeavesAll (append_company_news id x)
  unfolding append_company_news
  append_company_news-LeavesAll x = for_company-LeavesAll id _ (λ n t. (refl, refl, refl))

  pub insert_company_news_batch-IsSafe :
      (xs : List CompanyNews) → IsSafe (insert_company_news_batch id xs)
  unfolding insert_company_news_batch
  insert_company_news_batch-IsSafe = batch-IsSafe append_company_news-LeavesAll

  append_insider_transactions-LeavesAll :
      (x : InsiderTransaction) → LeavesAll (append_insider_transactions id x)
  unfolding append_insider_transactions
  append_insider_transactions-LeavesAll x = for_company-LeavesAll id _ (λ n t. (refl, refl, refl))

  pub insert_insider_transactions_batch-IsSafe :
      (xs : List InsiderTransaction) → IsSafe (insert_insider_transactions_batch id xs)
  unfolding insert_insider_transactions_batch
  insert_insider_transactions_batch-IsSafe = batch-IsSafe append_insider_transactions-LeavesAll

  append_institutional_ownership-LeavesAll :
      (x : InstitutionalOwnership) → LeavesAll (append_institutional_ownership id x)
  unfolding append_institutional_ownership
  append_institutional_ownership-LeavesAll x =
      for_company-LeavesAll id _ (λ n t. (refl, refl, refl))

  pub insert_institutional_ownership_batch-IsSafe :
      (xs : List InstitutionalOwnership) → IsSafe (insert_institutional_ownership_batch id xs)
  unfolding insert_institutional_ownership_batch
  insert_institutional_ownership_batch-IsSafe =
      batch-IsSafe append_institutional_ownership-LeavesAll

  append_fundamental-LeavesAll : (x : FundamentalItem) → LeavesAll (append_fundamental id x)
  unfolding append_fundamental
  append_fundamental-LeavesAll x = for_company-LeavesAll id _ (λ n t. (refl, refl, refl))

  pub insert_fundamentals_batch-IsSafe :
      (xs : List FundamentalItem) → IsSafe (insert_fundamentals_batch id xs)
  unfolding insert_fundamentals_batch
  insert_fundamentals_batch-IsSafe = batch-IsSafe append_fundamental-LeavesAll

  upsert_historical-LeavesAll : (x : HistoricalPrice) → LeavesAll (upsert_historical id x)
  unfolding upsert_historical
  upsert_historical-LeavesAll x = for_company-LeavesAll id _ (λ n t. (refl, refl, refl))

  pub insert_historical_prices_batch-IsSafe :
      (xs : List HistoricalPrice) → IsSafe (insert_historical_prices_batch id xs)
  unfolding insert_historical_prices_batch
  insert_historical_prices_batch-IsSafe = batch-IsSafe upsert_historical-LeavesAll

  append_market_data-LeavesAll : (x : MarketData) → LeavesAll (append_market_data id x)
  unfolding append_market_data
  append_market_data-LeavesAll x = for_company-LeavesAll id _ (λ n t. (refl, refl, refl))

  pub insert_market_data-IsSafe : (x : MarketData) → IsSafe (insert_market_data id x)
  unfolding insert_market_data
  insert_market_data-IsSafe x = exec-IsSafe (append_market_data-LeavesAll x)

  append_valuation_ratios-LeavesAll :
      (x : ValuationRatio) → LeavesAll (append_valuation_ratios id x)
  unfolding append_valuation_ratios
  append_valuation_ratios-LeavesAll x = for_company-LeavesAll id _ (λ n t. (refl, refl, refl))

  pub insert_valuation_ratios-IsSafe : (x : ValuationRatio) → IsSafe (insert_valuation_ratios id x)
  unfolding insert_valuation_ratios
  insert_valuation_ratios-IsSafe x = exec-IsSafe (append_valuation_ratios-LeavesAll x)

  upsert_stamp-LeavesAll : (category : String) → LeavesAll (upsert_stamp id category)
  unfolding upsert_stamp
  upsert_stamp-LeavesAll category = for_company-LeavesAll id _ (λ n t. (refl, refl, refl))

  pub set_category_last_updated-IsSafe :
      (category : String) → IsSafe (set_category_last_updated id category)
  unfolding set_category_last_updated
  set_category_last_updated-IsSafe category = exec-IsSafe (upsert_stamp-LeavesAll category)

  pub get_category_last_updated-IsSafe :
      (category : String) → IsSafe (get_category_last_updated id category)
  unfolding get_category_last_updated
  get_category_last_updated-IsSafe category =
      quiet-IsSafe (get_category_last_updated id category)
        (query-IsQuiet (λ _ t. stamp_of id category t))
        (query-IsCalm (λ _ t. stamp_of id category t))

upsert_macro-LeavesAll : (x : MacroIndicator) → LeavesAll (upsert_macro x)
unfolding upsert_macro
upsert_macro-LeavesAll x = record {
  leaves = λ n t a u h. (ground arith, ground arith, ground arith);
}

pub insert_macro_indicators_batch-IsSafe :
    (xs : List MacroIndicator) → IsSafe (insert_macro_indicators_batch xs)
unfolding insert_macro_indicators_batch
insert_macro_indicators_batch-IsSafe = batch-IsSafe upsert_macro-LeavesAll

append_action-LeavesAll :
    (ticker action status message : String) → LeavesAll (append_action ticker action status message)
unfolding append_action
append_action-LeavesAll ticker action status message = record {
  leaves = λ n t a u h. (ground arith, ground arith, ground arith);
}

-- `LogAction` leaves the keys and the rows of the watchlist.
pub log_action-Leaves :
    (ticker action status message : String) (w : World)
    → Leaves (committed w) (committed (log_action ticker action status message w).1)
unfolding log_action
log_action-Leaves ticker action status message =
    exec-Leaves (append_action-LeavesAll (normalize ticker) action status message)

pub log_action-IsSafe :
    (ticker action status message : String) → IsSafe (log_action ticker action status message)
unfolding log_action
log_action-IsSafe ticker action status message =
    exec-IsSafe (append_action-LeavesAll (normalize ticker) action status message)

upsert_row-LeavesAll : (new : Company) → LeavesAll (upsert_company_row new)
unfolding upsert_company_row
upsert_row-LeavesAll new = record {
  leaves = λ n t a u h. elim (Bool-cases (any (is_company new.ticker) t.companies)) [
    | inl q ↦ (ground (arith, h, q), ground (arith, h, q), ground (arith, h, q))
    | inr q ↦ (ground (arith, h, q), ground (arith, h, q), ground (arith, h, q))
  ];
}

select_id-LeavesAll : (ticker : String) → LeavesAll (select_company_id ticker)
unfolding select_company_id
select_id-LeavesAll ticker = record {
  leaves = λ n t a u h. (ground (arith, h), ground (arith, h), ground (arith, h));
}

pub upsert_company-IsSafe : (comp : Company) → IsSafe (upsert_company comp)
unfolding upsert_company upsert_body
upsert_company-IsSafe comp =
    let new : Company = record comp { ticker = normalize comp.ticker } in
    let R : Effect ℕ =
      then_effect (of_stmt (upsert_company_row new))
        (λ _. of_stmt (select_company_id new.ticker)) in
    Runs-IsSafe (exec (upsert_company_row new) >> exec (select_company_id new.ticker)) R
      (λ n t id u (a, v, r, q).
        let one = (upsert_row-LeavesAll new).leaves n t a v r in
        let two = (select_id-LeavesAll new.ticker).leaves n v id u q in
        (two.0 ∙ one.0, two.1 ∙ one.1, two.2 ∙ one.2))
      (bind-Runs (exec (upsert_company_row new)) (λ _. exec (select_company_id new.ticker))
        (of_stmt (upsert_company_row new)) (λ _. of_stmt (select_company_id new.ticker))
        (exec-Runs (upsert_company_row new)) (λ _. exec-Runs (select_company_id new.ticker)))
      (bind-IsCalm (exec (upsert_company_row new)) (λ _. exec (select_company_id new.ticker))
        (exec-IsCalm (upsert_company_row new)) (λ _. exec-IsCalm (select_company_id new.ticker)))

default-IsCalm : {A : Type 0} (d : A) (m : M A) → IsCalm m → IsCalm (λ w. or_default d (m w))
default-IsCalm d m h w o =
    let e = default_world d (m w) in
    (ap (λ (x : World). x.outcomes) e ∙ (h w o).0, ap (λ (x : World). x.saved) e ∙ (h w o).1)

rows-IsCalm : {A : Type 0} (q : Tables → List A) → IsCalm (rows_or_empty q)
unfolding rows_or_empty
rows-IsCalm q = default-IsCalm [] (query (λ _ t. q t)) (query-IsCalm (λ _ t. q t))

stored-IsCalm : {A : Type 0} (id : ℕ) (q : ℕ → Tables → List A) → IsCalm (if_stored id q)
unfolding if_stored
stored-IsCalm zero q w o = (o, refl)
stored-IsCalm (suc id) q w o = rows-IsCalm (q (suc id)) w o

entry-IsCalm : (ticker : String) → IsCalm (watch_entry ticker)
unfolding watch_entry
entry-IsCalm ticker = search (default-IsCalm, query-IsCalm)

get_consolidated_data-IsCalm : (name : String) → IsCalm (get_consolidated_data name)
unfolding get_consolidated_data
get_consolidated_data-IsCalm name =
    search (bind-IsCalm, query-IsCalm, pure-IsCalm, entry-IsCalm, stored-IsCalm, rows-IsCalm) depth
      40 fits 5000

pub get_consolidated_data-IsSafe : (ticker : String) → IsSafe (get_consolidated_data ticker)
get_consolidated_data-IsSafe ticker =
    quiet-IsSafe (get_consolidated_data ticker) (get_consolidated_data-IsQuiet ticker)
      (get_consolidated_data-IsCalm ticker)

pub update_watchitem_status-IsSafe :
    (ticker status : String) → IsSafe (update_watchitem_status ticker status)
unfolding perform update_watchitem_status
update_watchitem_status-IsSafe ticker status = record {
  keys = perform-api_keys (set_status_of ticker status);
  in_order = perform-IsValid (set_status_of ticker status);
  works =
      with_tx-Works (exec (set_status (normalize ticker) status))
        (exec-IsCalm (set_status (normalize ticker) status));
}

pub set_watchitem_force_refresh-IsSafe :
    (ticker : String) (on : Bool) → IsSafe (set_watchitem_force_refresh ticker on)
unfolding perform set_watchitem_force_refresh
set_watchitem_force_refresh-IsSafe ticker on = record {
  keys = perform-api_keys (force ticker on);
  in_order = perform-IsValid (force ticker on);
  works =
      with_tx-Works (exec (set_force (normalize ticker) on))
        (exec-IsCalm (set_force (normalize ticker) on));
}
