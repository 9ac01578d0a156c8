-- ===== src/Worker/Job/Steps/Silent.antt =====
-- The categories of a job broadcast nothing, save that a company which cannot be stored is reported.
use fin_base.Base.{
  ℕ, ◌≡◌, refl, ◌∙◌, inl, inr, String, Bool, true, false, List, [], ◌∷◌, ◌++◌, map, Option, none,
  some, Result, ok, err, Bool-cases, length, ltb, str_eq, ◌&&◌, not,
}
use fin_base.Db.Companies.{upsert_company}
use fin_base.Db.Series.{
  FundamentalItem, insert_market_data, insert_valuation_ratios, insert_dividends_batch,
  insert_stock_splits_batch, insert_historical_prices_batch, insert_analyst_estimates_batch,
  insert_earnings_calendar_batch, insert_company_news_batch, insert_insider_transactions_batch,
  insert_institutional_ownership_batch,
}
use fin_base.Base.Text.{concat, show_nat}
use fin_base.Base.Float.{Float}
use fin_base.Clients.Payloads.{
  MarketQuote, FinnhubValuationRatios, SecCompanyFacts, FmpIncomeStatement,
}
use fin_base.Worker.Site.{
  Services, Runtime, log, Site, ◌>>◌, db_call, fetched, broadcast, note, stamp, set_job_status,
}
use fin_base.Worker.Fundamentals.{
  store_batch, fmp_batch, extract_and_store_sec_facts, extract_and_store_fmp_facts,
}
use fin_base.Worker.Job.{Details, from_profile, from_figi, from_sec, company_of, stored_note}
use fin_base.Worker.Job.Laws.{
  Silent, note-Silent, stamp-Silent, seq-Silent, take_items-Silent, bind-Silent, fetched-Silent,
  db_call-Silent,
}
use fin_base.Worker.Job.Rows.{
  market_data_of_quote, ratios_row, dividend_row, split_row, price_row, estimate_row, earnings_row,
  news_row, insider_row, ownership_row,
}
use fin_base.Worker.Job.Steps.{
  take_dividends, take_splits, take_estimates, take_earnings, take_insiders, take_ownership,
  failed_upsert, upserted, profile_step, quote_noted, store_quote, market_data_step, sec_noted,
  store_sec, sec_part, store_fmp, fmp_part, fundamentals_step, ratios_noted, store_ratios,
  valuation_step, dividends_step, historical_step, analyst_step, news_step, insider_step,
}

module _ (go : Runtime) (services : Services) (t : String) where
  quote_noted-Silent :
      (id : ℕ) (q : MarketQuote) (cap : Float) (r : Result (Unit {0}))
      → Silent (quote_noted go services t id q cap r)
  unfolding quote_noted note stamp
  quote_noted-Silent id q cap (err e) s = refl
  quote_noted-Silent id q cap (ok _) s = refl

  store_quote-Silent :
      (d : Details) (r : Option MarketQuote × Option String)
      → Silent (store_quote go services t d r)
  unfolding store_quote note db_call
  store_quote-Silent d (some q, none) s =
      quote_noted-Silent d.company_id q (go.floats.mul q.current_price d.outstanding_shares)
        (db_call
          (insert_market_data d.company_id
            (market_data_of_quote (go.floats.mul q.current_price d.outstanding_shares) q))
          s).0
        _
  store_quote-Silent d (none, none) s = refl
  store_quote-Silent d (q, some e) s = refl

  take_dividends-Silent : (d : Details) → Silent (take_dividends go services t d)
  unfolding take_dividends
  take_dividends-Silent d =
      take_items-Silent (services.dividends t)
        (λ xs. insert_dividends_batch d.company_id (map (dividend_row) xs))
        (stored_note t "FETCH_DIVIDENDS" " dividend events")
        (λ xs.
          note-Silent t "FETCH_DIVIDENDS" "SUCCESS"
            (concat ("Stored " ∷ show_nat (length xs) ∷ " dividend events" ∷ [])))

  take_splits-Silent : (d : Details) → Silent (take_splits go services t d)
  unfolding take_splits
  take_splits-Silent d =
      take_items-Silent (services.splits t)
        (λ xs. insert_stock_splits_batch d.company_id (map (split_row) xs))
        (stored_note t "FETCH_SPLITS" " split events")
        (λ xs.
          note-Silent t "FETCH_SPLITS" "SUCCESS"
            (concat ("Stored " ∷ show_nat (length xs) ∷ " split events" ∷ [])))

  pub historical-Silent : (time : ℕ) (d : Details) → Silent (historical_step go services t time d)
  unfolding historical_step
  historical-Silent time d =
      take_items-Silent (services.historical_prices t (go.day_a_year_before time) (go.day time))
        (λ xs. insert_historical_prices_batch d.company_id (map (price_row) xs))
        (λ xs.
          stored_note t "FETCH_HISTORICAL_PRICES" " historical price bars" xs
          >> stamp d.company_id "historical")
        (λ xs.
          seq-Silent (stored_note t "FETCH_HISTORICAL_PRICES" " historical price bars" xs)
            (stamp d.company_id "historical")
            (note-Silent t "FETCH_HISTORICAL_PRICES" "SUCCESS"
              (concat ("Stored " ∷ show_nat (length xs) ∷ " historical price bars" ∷ [])))
            (stamp-Silent d.company_id "historical"))

  take_estimates-Silent : (d : Details) → Silent (take_estimates go services t d)
  unfolding take_estimates
  take_estimates-Silent d =
      take_items-Silent (services.analyst_estimates t)
        (λ xs. insert_analyst_estimates_batch d.company_id (map (estimate_row) xs))
        (stored_note t "FETCH_ANALYST_ESTIMATES" " analyst estimate periods")
        (λ xs.
          note-Silent t "FETCH_ANALYST_ESTIMATES" "SUCCESS"
            (concat ("Stored " ∷ show_nat (length xs) ∷ " analyst estimate periods" ∷ [])))

  take_earnings-Silent : (d : Details) → Silent (take_earnings go services t d)
  unfolding take_earnings
  take_earnings-Silent d =
      take_items-Silent (services.earnings_calendar t)
        (λ xs. insert_earnings_calendar_batch d.company_id (map (earnings_row) xs))
        (stored_note t "FETCH_EARNINGS_CALENDAR" " earnings events")
        (λ xs.
          note-Silent t "FETCH_EARNINGS_CALENDAR" "SUCCESS"
            (concat ("Stored " ∷ show_nat (length xs) ∷ " earnings events" ∷ [])))

  pub news-Silent : (time : ℕ) (d : Details) → Silent (news_step go services t time d)
  unfolding news_step
  news-Silent time d =
      take_items-Silent (services.company_news t (go.day_thirty_days_before time) (go.day time))
        (λ xs. insert_company_news_batch d.company_id (map (news_row) xs))
        (λ xs. stored_note t "FETCH_COMPANY_NEWS" " news items" xs >> stamp d.company_id "news")
        (λ xs.
          seq-Silent (stored_note t "FETCH_COMPANY_NEWS" " news items" xs)
            (stamp d.company_id "news")
            (note-Silent t "FETCH_COMPANY_NEWS" "SUCCESS"
              (concat ("Stored " ∷ show_nat (length xs) ∷ " news items" ∷ [])))
            (stamp-Silent d.company_id "news"))

  take_insiders-Silent : (d : Details) → Silent (take_insiders go services t d)
  unfolding take_insiders
  take_insiders-Silent d =
      take_items-Silent (services.insider_transactions t)
        (λ xs. insert_insider_transactions_batch d.company_id (map (insider_row) xs))
        (stored_note t "FETCH_INSIDER_TRANSACTIONS" " insider transactions")
        (λ xs.
          note-Silent t "FETCH_INSIDER_TRANSACTIONS" "SUCCESS"
            (concat ("Stored " ∷ show_nat (length xs) ∷ " insider transactions" ∷ [])))

  take_ownership-Silent : (d : Details) → Silent (take_ownership go services t d)
  unfolding take_ownership
  take_ownership-Silent d =
      take_items-Silent (services.institutional_ownership t)
        (λ xs. insert_institutional_ownership_batch d.company_id (map (ownership_row) xs))
        (stored_note t "FETCH_INSTITUTIONAL_OWNERSHIP" " institutional ownership entries")
        (λ xs.
          note-Silent t "FETCH_INSTITUTIONAL_OWNERSHIP" "SUCCESS"
            (concat ("Stored " ∷ show_nat (length xs) ∷ " institutional ownership entries" ∷ [])))

  pub dividends-Silent : (d : Details) → Silent (dividends_step go services t d)
  unfolding dividends_step
  dividends-Silent d s =
      stamp-Silent d.company_id "dividends_splits"
        (take_splits go services t d (take_dividends go services t d s).1).1
      ∙ take_splits-Silent d (take_dividends go services t d s).1
      ∙ take_dividends-Silent d s

  pub analyst-Silent : (d : Details) → Silent (analyst_step go services t d)
  unfolding analyst_step
  analyst-Silent d s =
      stamp-Silent d.company_id "analyst_earnings"
        (take_earnings go services t d (take_estimates go services t d s).1).1
      ∙ take_earnings-Silent d (take_estimates go services t d s).1
      ∙ take_estimates-Silent d s

  pub insider-Silent : (d : Details) → Silent (insider_step go services t d)
  unfolding insider_step
  insider-Silent d s =
      stamp-Silent d.company_id "insider_institutional"
        (take_ownership go services t d (take_insiders go services t d s).1).1
      ∙ take_ownership-Silent d (take_insiders go services t d s).1
      ∙ take_insiders-Silent d s

  pub market_data-Silent : (d : Details) → Silent (market_data_step go services t d)
  unfolding market_data_step
  market_data-Silent d =
      bind-Silent (fetched (services.market_data_waterfall t)) (store_quote go services t d)
        (fetched-Silent (services.market_data_waterfall t)) (store_quote-Silent d)

  ratios_noted-Silent :
      (id : ℕ) (q : FinnhubValuationRatios) (r : Result (Unit {0}))
      → Silent (ratios_noted go services t id q r)
  unfolding ratios_noted note stamp
  ratios_noted-Silent id q (err e) s = refl
  ratios_noted-Silent id q (ok _) s = refl

  store_ratios-Silent :
      (d : Details) (r : Option FinnhubValuationRatios × Option String)
      → Silent (store_ratios go services t d r)
  unfolding store_ratios
  store_ratios-Silent d (some q, none) =
      bind-Silent (db_call (insert_valuation_ratios d.company_id (ratios_row q)))
        (ratios_noted go services t d.company_id q)
        (db_call-Silent (insert_valuation_ratios d.company_id (ratios_row q)))
        (ratios_noted-Silent d.company_id q)
  store_ratios-Silent d (none, none) = λ s. refl
  store_ratios-Silent d (q, some e) = λ s. refl

  pub valuation-Silent : (d : Details) → Silent (valuation_step go services t d)
  unfolding valuation_step
  valuation-Silent d =
      bind-Silent (fetched (services.valuation_ratios t)) (store_ratios go services t d)
        (fetched-Silent (services.valuation_ratios t)) (store_ratios-Silent d)

  store_batch-Silent : (id : ℕ) (items : List FundamentalItem) → Silent (store_batch id items)
  unfolding store_batch db_call
  store_batch-Silent id [] s = refl
  store_batch-Silent id (b ∷ bs) s = refl

  sec_noted-Silent : (d : Details) (n : ℕ) → Silent (sec_noted go services t d n)
  unfolding sec_noted note
  sec_noted-Silent d n s = elim (Bool-cases (ltb 0 n)) [ inl q ↦ rw q refl | inr q ↦ rw q refl ]

  store_sec-Silent :
      (d : Details) (r : Option SecCompanyFacts × Option String)
      → Silent (store_sec go services t d r)
  unfolding store_sec note extract_and_store_sec_facts
  store_sec-Silent d (some facts, none) s =
      sec_noted-Silent d _ _ ∙ store_batch-Silent d.company_id _ s
  store_sec-Silent d (none, none) s = refl
  store_sec-Silent d (facts, some e) s = refl

  sec_part-Silent : (d : Details) → Silent (sec_part go services t d)
  unfolding sec_part
  sec_part-Silent d s =
      elim (Bool-cases (not (str_eq d.cik "") && not (str_eq d.cik "0000000000"))) [
        | inl q ↦ rw q (
            bind-Silent (fetched (services.sec_facts d.cik)) (store_sec go services t d)
              (fetched-Silent (services.sec_facts d.cik)) (store_sec-Silent d) s)
        | inr q ↦ rw q refl
      ]

  store_fmp-Silent :
      (d : Details) (r : List FmpIncomeStatement × Option String)
      → Silent (store_fmp go services t d r)
  unfolding store_fmp note extract_and_store_fmp_facts
  store_fmp-Silent d (stmts, some e) s = refl
  store_fmp-Silent d ([], none) s = refl
  store_fmp-Silent d (x ∷ xs, none) s = store_batch-Silent d.company_id (fmp_batch (x ∷ xs)) s

  fmp_part-Silent : (d : Details) (stored : Bool) → Silent (fmp_part go services t d stored)
  unfolding fmp_part
  fmp_part-Silent d true = λ s. refl
  fmp_part-Silent d false =
      bind-Silent (fetched (services.income_statement t)) (store_fmp go services t d)
        (fetched-Silent (services.income_statement t)) (store_fmp-Silent d)

  pub fundamentals-Silent : (d : Details) → Silent (fundamentals_step go services t d)
  unfolding fundamentals_step
  fundamentals-Silent d s =
      let p = sec_part go services t d s in
      stamp-Silent d.company_id "fundamentals" (fmp_part go services t d p.0 p.1).1
      ∙ fmp_part-Silent d p.0 p.1
      ∙ sec_part-Silent d s

  -- Where a company is stored nothing is broadcast, and where it is not the last log is an error of
  -- the ticker.
  abbrev pub Reported : Site → Option Details × Site → Type 0
  Reported s (some d, s') = s'.broadcasts ≡ s.broadcasts
  Reported s (none, s') = (msg : String) × (s'.broadcasts ≡ s.broadcasts ++ log t "ERROR" msg ∷ [])

  upserted-Reported :
      (d : Details) (r : Result ℕ) (s : Site) → Reported s (upserted go services t d r s)
  unfolding upserted failed_upsert stamp note set_job_status broadcast
  upserted-Reported d (ok id) s = refl
  upserted-Reported d (err e) s = (_, refl)

  pub profile-Reported :
      (stored_cik : String) (d : Details) (s : Site)
      → Reported s (profile_step go services t stored_cik d s)
  unfolding profile_step fetched db_call
  profile-Reported stored_cik d s =
      let p = fetched (services.profile t) s in
      let f = fetched (services.open_figi t) p.1 in
      let c = fetched (services.sec_cik_for_ticker t) f.1 in
      let d' = from_sec stored_cik c.0 (from_figi f.0 (from_profile go p.0 d)) in
      let r = db_call (upsert_company (company_of t d')) c.1 in upserted-Reported d' r.0 r.1
