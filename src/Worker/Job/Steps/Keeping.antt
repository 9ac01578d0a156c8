-- ===== src/Worker/Job/Steps/Keeping.antt =====
-- The categories of a job leave the keys and keep the watchlist in order.
use fin_base.Base.{
  ℕ, inl, inr, String, str_eq, Bool, true, false, not, ◌&&◌, List, [], ◌∷◌, Option, none, some,
  Result, ok, err, Bool-cases, ltb,
}
use fin_base.Base.Float.{Float}
use fin_base.Db.Companies.{upsert_company}
use fin_base.Db.Series.{FundamentalItem, insert_fundamentals_batch}
use fin_base.Db.Safe.Methods.{
  upsert_company-IsSafe, insert_market_data-IsSafe, insert_valuation_ratios-IsSafe,
  insert_dividends_batch-IsSafe, insert_stock_splits_batch-IsSafe,
  insert_historical_prices_batch-IsSafe, insert_analyst_estimates_batch-IsSafe,
  insert_earnings_calendar_batch-IsSafe, insert_company_news_batch-IsSafe,
  insert_insider_transactions_batch-IsSafe, insert_institutional_ownership_batch-IsSafe,
  insert_fundamentals_batch-IsSafe,
}
use fin_base.Clients.Payloads.{
  MarketQuote, FinnhubValuationRatios, SecCompanyFacts, FmpIncomeStatement,
}
use fin_base.Worker.Site.{Services, Runtime, db_call, fetched}
use fin_base.Worker.Fundamentals.{
  store_batch, extract_and_store_sec_facts, extract_and_store_fmp_facts,
}
use fin_base.Worker.Job.{Details, from_profile, from_figi, from_sec, company_of, stored_note}
use fin_base.Worker.Job.Kept.{
  Serves, Kept, db_call-Keeps, fetched-Keeps, broadcast-Keeps, note-Keeps, stamp-Keeps,
  set_job_status-Keeps, take_items-Kept,
}
use fin_base.Worker.Job.Rows.{market_data_of_quote, ratios_row}
use fin_base.Worker.Job.Steps.{
  take_dividends, take_splits, take_estimates, take_earnings, take_insiders, take_ownership,
  failed_upsert, upserted, profile_step, quote_noted, store_quote, market_data_step, sec_noted,
  store_sec, sec_part, store_fmp, fmp_part, fundamentals_step, ratios_noted, store_ratios,
  valuation_step, dividends_step, historical_step, analyst_step, news_step, insider_step,
}

store_batch-Kept : (id : ℕ) (items : List FundamentalItem) → Kept (store_batch id items)
unfolding store_batch
store_batch-Kept id [] s t k = k
store_batch-Kept id (b ∷ bs) s t k =
    db_call-Keeps (insert_fundamentals_batch id (b ∷ bs)) t
      (insert_fundamentals_batch-IsSafe id (b ∷ bs)) k

ruleset keeping = (
  note-Keeps, stamp-Keeps, set_job_status-Keeps, broadcast-Keeps, fetched-Keeps, store_batch-Kept,
)

stored_note-Kept :
    {A : Type 0} (ticker action what : String) (xs : List A)
    → Kept (stored_note ticker action what xs)
stored_note-Kept ticker action what xs s t k = search note-Keeps

module _ (go : Runtime) (services : Services) (good : Serves services) (ticker : String) where
  quote_noted-Kept :
      (id : ℕ) (q : MarketQuote) (cap : Float) (r : Result (Unit {0}))
      → Kept (quote_noted go services ticker id q cap r)
  unfolding quote_noted
  quote_noted-Kept id q cap (err e) s t k = k
  quote_noted-Kept id q cap (ok _) s t k = search keeping

  store_quote-Kept :
      (d : Details) (r : Option MarketQuote × Option String)
      → Kept (store_quote go services ticker d r)
  unfolding store_quote
  store_quote-Kept d (some q, none) s t k =
      quote_noted-Kept d.company_id q (go.floats.mul q.current_price d.outstanding_shares) _ s _ (
        db_call-Keeps _ t
          (insert_market_data-IsSafe d.company_id
            (market_data_of_quote (go.floats.mul q.current_price d.outstanding_shares) q))
          k)
  store_quote-Kept d (none, none) s t k = k
  store_quote-Kept d (q, some e) s t k = search keeping

  pub market_data-Kept : (d : Details) → Kept (market_data_step go services ticker d)
  unfolding market_data_step
  market_data-Kept d s t k =
      store_quote-Kept d _ s _ (fetched-Keeps _ t (good.market_data_waterfall ticker) k)

  take_dividends-Kept : (d : Details) → Kept (take_dividends go services ticker d)
  unfolding take_dividends
  take_dividends-Kept d =
      take_items-Kept (services.dividends ticker) _ _ (good.dividends ticker)
        (λ xs. insert_dividends_batch-IsSafe d.company_id _)
        (stored_note-Kept ticker "FETCH_DIVIDENDS" " dividend events")

  take_splits-Kept : (d : Details) → Kept (take_splits go services ticker d)
  unfolding take_splits
  take_splits-Kept d =
      take_items-Kept (services.splits ticker) _ _ (good.splits ticker)
        (λ xs. insert_stock_splits_batch-IsSafe d.company_id _)
        (stored_note-Kept ticker "FETCH_SPLITS" " split events")

  take_estimates-Kept : (d : Details) → Kept (take_estimates go services ticker d)
  unfolding take_estimates
  take_estimates-Kept d =
      take_items-Kept (services.analyst_estimates ticker) _ _ (good.analyst_estimates ticker)
        (λ xs. insert_analyst_estimates_batch-IsSafe d.company_id _)
        (stored_note-Kept ticker "FETCH_ANALYST_ESTIMATES" " analyst estimate periods")

  take_earnings-Kept : (d : Details) → Kept (take_earnings go services ticker d)
  unfolding take_earnings
  take_earnings-Kept d =
      take_items-Kept (services.earnings_calendar ticker) _ _ (good.earnings_calendar ticker)
        (λ xs. insert_earnings_calendar_batch-IsSafe d.company_id _)
        (stored_note-Kept ticker "FETCH_EARNINGS_CALENDAR" " earnings events")

  take_insiders-Kept : (d : Details) → Kept (take_insiders go services ticker d)
  unfolding take_insiders
  take_insiders-Kept d =
      take_items-Kept (services.insider_transactions ticker) _ _ (good.insider_transactions ticker)
        (λ xs. insert_insider_transactions_batch-IsSafe d.company_id _)
        (stored_note-Kept ticker "FETCH_INSIDER_TRANSACTIONS" " insider transactions")

  take_ownership-Kept : (d : Details) → Kept (take_ownership go services ticker d)
  unfolding take_ownership
  take_ownership-Kept d =
      take_items-Kept (services.institutional_ownership ticker) _ _
        (good.institutional_ownership ticker)
        (λ xs. insert_institutional_ownership_batch-IsSafe d.company_id _)
        (stored_note-Kept ticker "FETCH_INSTITUTIONAL_OWNERSHIP" " institutional ownership entries")

  pub dividends-Kept : (d : Details) → Kept (dividends_step go services ticker d)
  unfolding dividends_step
  dividends-Kept d s t k =
      stamp-Keeps d.company_id _ _ (take_splits-Kept d s _ (take_dividends-Kept d s t k))

  pub analyst-Kept : (d : Details) → Kept (analyst_step go services ticker d)
  unfolding analyst_step
  analyst-Kept d s t k =
      stamp-Keeps d.company_id _ _ (take_earnings-Kept d s _ (take_estimates-Kept d s t k))

  pub insider-Kept : (d : Details) → Kept (insider_step go services ticker d)
  unfolding insider_step
  insider-Kept d s t k =
      stamp-Keeps d.company_id _ _ (take_ownership-Kept d s _ (take_insiders-Kept d s t k))

  pub historical-Kept : (time : ℕ) (d : Details) → Kept (historical_step go services ticker time d)
  unfolding historical_step
  historical-Kept time d =
      take_items-Kept (services.historical_prices ticker (go.day_a_year_before time) (go.day time))
        _ _ (good.historical_prices ticker (go.day_a_year_before time) (go.day time))
        (λ xs. insert_historical_prices_batch-IsSafe d.company_id _) (λ xs s t k. search keeping)

  pub news-Kept : (time : ℕ) (d : Details) → Kept (news_step go services ticker time d)
  unfolding news_step
  news-Kept time d =
      take_items-Kept (services.company_news ticker (go.day_thirty_days_before time) (go.day time))
        _ _ (good.company_news ticker (go.day_thirty_days_before time) (go.day time))
        (λ xs. insert_company_news_batch-IsSafe d.company_id _) (λ xs s t k. search keeping)

  ratios_noted-Kept :
      (id : ℕ) (q : FinnhubValuationRatios) (r : Result (Unit {0}))
      → Kept (ratios_noted go services ticker id q r)
  unfolding ratios_noted
  ratios_noted-Kept id q (err e) s t k = k
  ratios_noted-Kept id q (ok _) s t k = search keeping

  store_ratios-Kept :
      (d : Details) (r : Option FinnhubValuationRatios × Option String)
      → Kept (store_ratios go services ticker d r)
  unfolding store_ratios
  store_ratios-Kept d (some q, none) s t k =
      ratios_noted-Kept d.company_id q _ s _
        (db_call-Keeps _ t (insert_valuation_ratios-IsSafe d.company_id (ratios_row q)) k)
  store_ratios-Kept d (none, none) s t k = k
  store_ratios-Kept d (q, some e) s t k = k

  pub valuation-Kept : (d : Details) → Kept (valuation_step go services ticker d)
  unfolding valuation_step
  valuation-Kept d s t k =
      store_ratios-Kept d _ s _ (fetched-Keeps _ t (good.valuation_ratios ticker) k)

  sec_noted-Kept : (d : Details) (n : ℕ) → Kept (sec_noted go services ticker d n)
  unfolding sec_noted
  sec_noted-Kept d n s t k = elim (Bool-cases (ltb 0 n)) [
    | inl q ↦ rw q (search keeping)
    | inr q ↦ rw q k
  ]

  store_sec-Kept :
      (d : Details) (r : Option SecCompanyFacts × Option String)
      → Kept (store_sec go services ticker d r)
  unfolding store_sec extract_and_store_sec_facts
  store_sec-Kept d (some facts, none) s t k =
      sec_noted-Kept d _ s _ (store_batch-Kept d.company_id _ s t k)
  store_sec-Kept d (none, none) s t k = k
  store_sec-Kept d (facts, some e) s t k = search keeping

  sec_part-Kept : (d : Details) → Kept (sec_part go services ticker d)
  unfolding sec_part
  sec_part-Kept d s t k =
      elim (Bool-cases (not (str_eq d.cik "") && not (str_eq d.cik "0000000000"))) [
        | inl q ↦ rw q (
            store_sec-Kept d (fetched (services.sec_facts d.cik) t).0 s _
              (fetched-Keeps _ t (good.sec_facts d.cik) k))
        | inr q ↦ rw q k
      ]

  store_fmp-Kept :
      (d : Details) (r : List FmpIncomeStatement × Option String)
      → Kept (store_fmp go services ticker d r)
  unfolding store_fmp extract_and_store_fmp_facts
  store_fmp-Kept d (stmts, some e) s t k = search keeping
  store_fmp-Kept d ([], none) s t k = k
  store_fmp-Kept d (x ∷ xs, none) s t k = search keeping

  fmp_part-Kept : (d : Details) (stored : Bool) → Kept (fmp_part go services ticker d stored)
  unfolding fmp_part
  fmp_part-Kept d true s t k = k
  fmp_part-Kept d false s t k =
      store_fmp-Kept d (fetched (services.income_statement ticker) t).0 s _
        (fetched-Keeps _ t (good.income_statement ticker) k)

  pub fundamentals-Kept : (d : Details) → Kept (fundamentals_step go services ticker d)
  unfolding fundamentals_step
  fundamentals-Kept d s t k =
      stamp-Keeps d.company_id "fundamentals" _ (fmp_part-Kept d _ s _ (sec_part-Kept d s t k))

  upserted-Kept : (d : Details) (r : Result ℕ) → Kept (upserted go services ticker d r)
  unfolding upserted failed_upsert
  upserted-Kept d (ok id) s t k = search keeping
  upserted-Kept d (err e) s t k = search keeping

  pub profile-Kept :
      (stored_cik : String) (d : Details) → Kept (profile_step go services ticker stored_cik d)
  unfolding profile_step
  profile-Kept stored_cik d s t k =
      let p = fetched (services.profile ticker) t in
      let f = fetched (services.open_figi ticker) p.1 in
      let c = fetched (services.sec_cik_for_ticker ticker) f.1 in
      let d' = from_sec stored_cik c.0 (from_figi f.0 (from_profile go p.0 d)) in
      let r = db_call (upsert_company (company_of ticker d')) c.1 in
      upserted-Kept d' r.0 s r.1 (
        db_call-Keeps (upsert_company (company_of ticker d')) c.1
          (upsert_company-IsSafe (company_of ticker d'))
          (fetched-Keeps (services.sec_cik_for_ticker ticker) f.1 (good.sec_cik_for_ticker ticker) (
            fetched-Keeps (services.open_figi ticker) p.1 (good.open_figi ticker)
              (fetched-Keeps (services.profile ticker) t (good.profile ticker) k))))
