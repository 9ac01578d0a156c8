-- ===== src/Worker/Job/Steps.antt =====
-- The nine categories of `processJob` in worker/worker.go, each behind its guard.
pub mod Silent
pub mod Keeping
pub mod Failing
use fin_base.Base.{
  ℕ, String, str_eq, Bool, true, false, not, ◌&&◌, List, [], ◌∷◌, map, Option, none, some,
  if◌then◌else◌, ltb, length, Result, ok, err,
}
use fin_base.Base.Text.{concat, show_nat}
use fin_base.Base.Float.{Float, is_positive}
use fin_base.Base.Int.{ℤ}
use fin_base.Db.Models.{
  Company, MarketData, ValuationRatio, Dividend, StockSplit, HistoricalPrice, AnalystEstimate,
  EarningsCalendar, CompanyNews, InsiderTransaction, InstitutionalOwnership,
}
use fin_base.Db.Tx.{M}
use fin_base.Db.Companies.{upsert_company}
use fin_base.Db.Series.{
  insert_market_data, insert_valuation_ratios, insert_dividends_batch, insert_stock_splits_batch,
  insert_historical_prices_batch, insert_analyst_estimates_batch, insert_earnings_calendar_batch,
  insert_company_news_batch, insert_insider_transactions_batch,
  insert_institutional_ownership_batch,
}
use fin_base.Db.Watchlist.{set_watchitem_force_refresh}
use fin_base.Db.Consolidated.{ConsolidatedCompanyData, get_consolidated_data}
use fin_base.Clients.Cik.{format_cik}
use fin_base.Clients.Http.{Client, Fetched}
use fin_base.Clients.Payloads.{
  MarketQuote, FinnhubProfile, FinnhubValuationRatios, FigiEntry, OpenFigiResult, SecCompanyFacts,
  FmpIncomeStatement, DividendItem, StockSplitItem, HistoricalPriceItem, AnalystEstimateItem,
  EarningsCalendarItem, CompanyNewsItem, InsiderTransactionItem, InstitutionalOwnershipItem,
}
use fin_base.Worker.Site.{
  Services, Runtime, Broadcast, log, company_update, Site, J, ◌>>=◌, ◌>>◌, done, now, db_call,
  db_ignore, fetched, broadcast, get_env_duration, when_due, note, stamp, set_job_status,
  should_update_category,
}
use fin_base.Worker.Job.{
  Details, from_profile, from_figi, from_sec, stored_cik_of, company_of, store_items, take_items,
  stored_note,
}
use fin_base.Worker.Fundamentals.{extract_and_store_sec_facts, extract_and_store_fmp_facts}
use fin_base.Worker.Job.Rows.{
  market_data_of_quote, ratios_row, dividend_row, split_row, price_row, estimate_row, earnings_row,
  news_row, insider_row, ownership_row,
}

module _ (go : Runtime) (services : Services) (ticker : String) where
  failed_upsert : Details → String → J (Option Details)
  unfolding note set_job_status broadcast
  failed_upsert d e =
      let msg = concat ("Failed to upsert company " ∷ ticker ∷ ": " ∷ e ∷ []) in
      note ticker "UPSERT_COMPANY" "ERROR" msg
      >> set_job_status ticker "error"
      >> broadcast (log ticker "ERROR" msg)
      >> done none

  upserted : Details → Result ℕ → J (Option Details)
  unfolding stamp failed_upsert
  upserted d (ok id) = stamp id "profile" >> done (some (record d { company_id = id }))
  upserted d (err e) = failed_upsert d e

  -- 1. Company Profile: `none` where the job ends because the company cannot be stored.
  unfoldable pub profile_step : String → Details → J (Option Details)
  unfolding fetched from_profile from_figi from_sec company_of db_call upsert_company upserted
  profile_step stored_cik d = do
    profile ← fetched (services.profile ticker)
    figi ← fetched (services.open_figi ticker)
    sec_cik ← fetched (services.sec_cik_for_ticker ticker)
    let d' = from_sec stored_cik sec_cik (from_figi figi (from_profile go profile d))
    r ← db_call (upsert_company (company_of ticker d'))
    upserted d' r

  quote_noted : ℕ → MarketQuote → Float → Result (Unit {0}) → J (Unit {0})
  unfolding note stamp
  quote_noted id q cap (err e) = done tt
  quote_noted id q cap (ok _) =
      note ticker "FETCH_QUOTE" "SUCCESS" (
        concat (
          "Price: $"
          ∷ go.format_float 2 q.current_price
          ∷ " (Source: "
          ∷ q.source
          ∷ ", Market Cap: $"
          ∷ go.format_float 0 cap
          ∷ ")"
          ∷ []))
      >> stamp id "market_data"

  store_quote : Details → Option MarketQuote × Option String → J (Unit {0})
  unfolding market_data_of_quote db_call insert_market_data quote_noted note
  store_quote d (some q, none) =
      let cap = go.floats.mul q.current_price d.outstanding_shares in
      db_call (insert_market_data d.company_id (market_data_of_quote cap q))
      >>= quote_noted d.company_id q cap
  store_quote d (none, none) = done tt
  store_quote d (q, some e) =
      note ticker "FETCH_QUOTE" "ERROR" (concat ("Market data failed: " ∷ e ∷ []))

  -- 2. Market Data
  unfoldable pub market_data_step : Details → J (Unit {0})
  unfolding fetched store_quote
  market_data_step d = fetched (services.market_data_waterfall ticker) >>= store_quote d

  sec_noted : Details → ℕ → J Bool
  unfolding note
  sec_noted d count =
      if ltb 0 count
      then note ticker "FETCH_SEC_FACTS" "SUCCESS" (
          concat (
            "Fetched XBRL facts for CIK "
            ∷ d.cik
            ∷ " ("
            ∷ show_nat count
            ∷ " metrics stored)"
            ∷ []))
        >> done true
      else done false

  store_sec : Details → Option SecCompanyFacts × Option String → J Bool
  unfolding extract_and_store_sec_facts sec_noted note
  store_sec d (some facts, none) = extract_and_store_sec_facts go d.company_id facts >>= sec_noted d
  store_sec d (none, none) = done false
  store_sec d (facts, some e) =
      note ticker "FETCH_SEC_FACTS" "WARN"
        (concat ("SEC EDGAR failed for CIK " ∷ d.cik ∷ ": " ∷ e ∷ []))
      >> done false

  -- Whether the SEC's facts were stored.
  unfoldable pub sec_part : Details → J Bool
  unfolding fetched store_sec
  sec_part d =
      if not (str_eq d.cik "") && not (str_eq d.cik "0000000000")
      then fetched (services.sec_facts d.cik) >>= store_sec d
      else done false

  store_fmp : Details → List FmpIncomeStatement × Option String → J (Unit {0})
  unfolding extract_and_store_fmp_facts note
  store_fmp d (stmts, some e) =
      note ticker "FETCH_FMP_FACTS" "ERROR"
        (concat ("FMP fallback failed for " ∷ ticker ∷ ": " ∷ e ∷ []))
  store_fmp d ([], none) = done tt
  store_fmp d (stmt ∷ stmts, none) =
      extract_and_store_fmp_facts d.company_id (stmt ∷ stmts) >>= λ count.
      note ticker "FETCH_FMP_FACTS" "SUCCESS"
        (concat ("Fetched FMP fundamentals (" ∷ show_nat count ∷ " metrics stored)" ∷ []))

  fmp_part : Details → Bool → J (Unit {0})
  unfolding fetched store_fmp
  fmp_part d true = done tt
  fmp_part d false = fetched (services.income_statement ticker) >>= store_fmp d

  -- 3. Fundamentals: FMP where the SEC has none.
  unfoldable pub fundamentals_step : Details → J (Unit {0})
  unfolding sec_part fmp_part stamp
  fundamentals_step d = sec_part d >>= fmp_part d >> stamp d.company_id "fundamentals"

  ratios_noted : ℕ → FinnhubValuationRatios → Result (Unit {0}) → J (Unit {0})
  unfolding note stamp
  ratios_noted id r (err e) = done tt
  ratios_noted id r (ok _) =
      note ticker "FETCH_VALUATION_RATIOS" "SUCCESS" (
        concat (
          "P/E: "
          ∷ go.format_float 2 r.pe_ratio
          ∷ ", P/B: "
          ∷ go.format_float 2 r.pb_ratio
          ∷ ", Net Margin: "
          ∷ go.format_float 2 r.net_margin
          ∷ "%"
          ∷ []))
      >> stamp id "valuation"

  store_ratios : Details → Option FinnhubValuationRatios × Option String → J (Unit {0})
  unfolding ratios_row db_call insert_valuation_ratios ratios_noted
  store_ratios d (some r, none) =
      db_call (insert_valuation_ratios d.company_id (ratios_row r)) >>= ratios_noted d.company_id r
  store_ratios d (none, none) = done tt
  store_ratios d (r, some e) = done tt

  -- 4. Valuation & Ratios
  unfoldable pub valuation_step : Details → J (Unit {0})
  unfolding fetched store_ratios
  valuation_step d = fetched (services.valuation_ratios ticker) >>= store_ratios d

  take_dividends : Details → J (Unit {0})
  unfolding take_items insert_dividends_batch dividend_row note
  take_dividends d =
      take_items (services.dividends ticker)
        (λ xs. insert_dividends_batch d.company_id (map dividend_row xs))
        (stored_note ticker "FETCH_DIVIDENDS" " dividend events")

  take_splits : Details → J (Unit {0})
  unfolding take_items insert_stock_splits_batch split_row note
  take_splits d =
      take_items (services.splits ticker)
        (λ xs. insert_stock_splits_batch d.company_id (map split_row xs))
        (stored_note ticker "FETCH_SPLITS" " split events")

  -- 5. Dividends & Corporate Actions
  unfoldable pub dividends_step : Details → J (Unit {0})
  unfolding take_dividends take_splits stamp
  dividends_step d = take_dividends d >> take_splits d >> stamp d.company_id "dividends_splits"

  -- 6. Historical EOD Time Series; `time` is when the step began.
  unfoldable pub historical_step : ℕ → Details → J (Unit {0})
  unfolding take_items insert_historical_prices_batch price_row note stamp
  historical_step time d =
      take_items (services.historical_prices ticker (go.day_a_year_before time) (go.day time))
        (λ xs. insert_historical_prices_batch d.company_id (map price_row xs))
        (λ xs.
          stored_note ticker "FETCH_HISTORICAL_PRICES" " historical price bars" xs
          >> stamp d.company_id "historical")

  take_estimates : Details → J (Unit {0})
  unfolding take_items insert_analyst_estimates_batch estimate_row note
  take_estimates d =
      take_items (services.analyst_estimates ticker)
        (λ xs. insert_analyst_estimates_batch d.company_id (map estimate_row xs))
        (stored_note ticker "FETCH_ANALYST_ESTIMATES" " analyst estimate periods")

  take_earnings : Details → J (Unit {0})
  unfolding take_items insert_earnings_calendar_batch earnings_row note
  take_earnings d =
      take_items (services.earnings_calendar ticker)
        (λ xs. insert_earnings_calendar_batch d.company_id (map earnings_row xs))
        (stored_note ticker "FETCH_EARNINGS_CALENDAR" " earnings events")

  -- 7. Analyst Estimates & Earnings Calendars
  unfoldable pub analyst_step : Details → J (Unit {0})
  unfolding take_estimates take_earnings stamp
  analyst_step d = take_estimates d >> take_earnings d >> stamp d.company_id "analyst_earnings"

  -- 8. Company News & Sentiment
  unfoldable pub news_step : ℕ → Details → J (Unit {0})
  unfolding take_items insert_company_news_batch news_row note stamp
  news_step time d =
      take_items (services.company_news ticker (go.day_thirty_days_before time) (go.day time))
        (λ xs. insert_company_news_batch d.company_id (map news_row xs))
        (λ xs.
          stored_note ticker "FETCH_COMPANY_NEWS" " news items" xs >> stamp d.company_id "news")

  take_insiders : Details → J (Unit {0})
  unfolding take_items insert_insider_transactions_batch insider_row note
  take_insiders d =
      take_items (services.insider_transactions ticker)
        (λ xs. insert_insider_transactions_batch d.company_id (map insider_row xs))
        (stored_note ticker "FETCH_INSIDER_TRANSACTIONS" " insider transactions")

  take_ownership : Details → J (Unit {0})
  unfolding take_items insert_institutional_ownership_batch ownership_row note
  take_ownership d =
      take_items (services.institutional_ownership ticker)
        (λ xs. insert_institutional_ownership_batch d.company_id (map ownership_row xs))
        (stored_note ticker "FETCH_INSTITUTIONAL_OWNERSHIP" " institutional ownership entries")

  -- 9. Insider Trading & Institutional Ownership
  unfoldable pub insider_step : Details → J (Unit {0})
  unfolding take_insiders take_ownership stamp
  insider_step d = take_insiders d >> take_ownership d >> stamp d.company_id "insider_institutional"
