-- ===== src/Worker/Job/Keeping.antt =====
-- A whole job, and the macro worker's fetch, leave the keys and keep the watchlist in order.
use fin_base.Base.{ℕ, String, Bool, true, false, List, map, Option, none, some, Result, ok, err}
use fin_base.Db.Consolidated.{ConsolidatedCompanyData, get_consolidated_data}
use fin_base.Db.Series.{insert_macro_indicators_batch}
use fin_base.Db.Safe.Methods.{
  get_consolidated_data-IsSafe, set_watchitem_force_refresh-IsSafe,
  insert_macro_indicators_batch-IsSafe,
}
use fin_base.Worker.Site.{
  Services, Runtime, Site, log, done, db_call, fetched, broadcast, get_env_duration,
  should_update_category, set_job_status,
}
use fin_base.Clients.Payloads.{MacroIndicatorItem}
use fin_base.Db.Models.{MacroIndicator}
use fin_base.Worker.Job.{Job, store_items, Details, known_details, stored_cik_of}
use fin_base.Worker.Job.Kept.{
  Serves, Kept, Keeps, here-Keeps, db_call-Keeps, db_ignore-Keeps, fetched-Keeps, broadcast-Keeps,
  note-Keeps, set_job_status-Keeps, should-Keeps, store_items-Kept, when_due-Kept,
}
use fin_base.Worker.Job.Steps.{
  market_data_step, fundamentals_step, valuation_step, dividends_step, historical_step,
  analyst_step, news_step, insider_step,
}
use fin_base.Worker.Job.Steps.Keeping.{
  profile-Kept, market_data-Kept, fundamentals-Kept, valuation-Kept, dividends-Kept,
  historical-Kept, analyst-Kept, news-Kept, insider-Kept,
}
use fin_base.Worker.Job.Process.{
  processing_message, market_data_due, fundamentals_due, valuation_due, dividends_due,
  historical_due, analyst_due, news_due, insider_due, collect_first, collect_rest, collect, publish,
  complete, proceed, company_when, ensure_company, process_job, macro_row, run_macro_fetch,
}

publish-Kept : (ticker : String) (r : Result ConsolidatedCompanyData) → Kept (publish ticker r)
unfolding publish
publish-Kept ticker (ok stored) s t k = broadcast-Keeps _ t k
publish-Kept ticker (err e) s t k = k

ruleset ending = (
  publish-Kept, db_call-Keeps, db_ignore-Keeps, note-Keeps, set_job_status-Keeps, broadcast-Keeps,
  get_consolidated_data-IsSafe, set_watchitem_force_refresh-IsSafe,
)

complete-Kept : (job : Job) → Kept (complete job)
unfolding complete
complete-Kept job s t k = search ending depth 12

-- The first steps of a job, up to what is stored of its ticker.
abbrev pub read_of : Job → Site → Result ConsolidatedCompanyData × Site
read_of job s =
    let begun =
      broadcast (log job.ticker "PROCESSING" (processing_message job))
        (set_job_status job.ticker "processing" s).1 in
    db_call (get_consolidated_data job.ticker) begun.1

module _ (go : Runtime) (services : Services) (good : Serves services) (job : Job) where
  market_data_due-Kept : (d : Details) → Kept (market_data_due go services job d)
  unfolding market_data_due
  market_data_due-Kept d =
      when_due-Kept d.company_id "market_data"
        (get_env_duration go "TTL_MARKET_DATA" 300_000_000_000) job.force_full_refresh
        (market_data_step go services job.ticker d) (market_data-Kept go services good job.ticker d)

  fundamentals_due-Kept : (d : Details) → Kept (fundamentals_due go services job d)
  unfolding fundamentals_due
  fundamentals_due-Kept d =
      when_due-Kept d.company_id "fundamentals"
        (get_env_duration go "TTL_QUARTERLY" 604_800_000_000_000) job.force_full_refresh
        (fundamentals_step go services job.ticker d)
        (fundamentals-Kept go services good job.ticker d)

  valuation_due-Kept : (d : Details) → Kept (valuation_due go services job d)
  unfolding valuation_due
  valuation_due-Kept d =
      when_due-Kept d.company_id "valuation"
        (get_env_duration go "TTL_VALUATION" 86_400_000_000_000) job.force_full_refresh
        (valuation_step go services job.ticker d) (valuation-Kept go services good job.ticker d)

  dividends_due-Kept : (d : Details) → Kept (dividends_due go services job d)
  unfolding dividends_due
  dividends_due-Kept d =
      when_due-Kept d.company_id "dividends_splits"
        (get_env_duration go "TTL_QUARTERLY" 604_800_000_000_000) job.force_full_refresh
        (dividends_step go services job.ticker d) (dividends-Kept go services good job.ticker d)

  historical_due-Kept : (time : ℕ) (d : Details) → Kept (historical_due go services job time d)
  unfolding historical_due
  historical_due-Kept time d =
      when_due-Kept d.company_id "historical"
        (get_env_duration go "TTL_HISTORICAL" 86_400_000_000_000) job.force_full_refresh
        (historical_step go services job.ticker time d)
        (historical-Kept go services good job.ticker time d)

  analyst_due-Kept : (d : Details) → Kept (analyst_due go services job d)
  unfolding analyst_due
  analyst_due-Kept d =
      when_due-Kept d.company_id "analyst_earnings"
        (get_env_duration go "TTL_ANALYST" 259_200_000_000_000) job.force_full_refresh
        (analyst_step go services job.ticker d) (analyst-Kept go services good job.ticker d)

  news_due-Kept : (time : ℕ) (d : Details) → Kept (news_due go services job time d)
  unfolding news_due
  news_due-Kept time d =
      when_due-Kept d.company_id "news" (get_env_duration go "TTL_NEWS" 43_200_000_000_000)
        job.force_full_refresh (news_step go services job.ticker time d)
        (news-Kept go services good job.ticker time d)

  insider_due-Kept : (d : Details) → Kept (insider_due go services job d)
  unfolding insider_due
  insider_due-Kept d =
      when_due-Kept d.company_id "insider_institutional"
        (get_env_duration go "TTL_QUARTERLY" 604_800_000_000_000) job.force_full_refresh
        (insider_step go services job.ticker d) (insider-Kept go services good job.ticker d)

  first-Kept : (d : Details) → Kept (collect_first go services job d)
  unfolding collect_first
  first-Kept d s t k =
      search (market_data_due-Kept, fundamentals_due-Kept, valuation_due-Kept, dividends_due-Kept)

  rest-Kept : (d : Details) (time : ℕ) → Kept (collect_rest go services job d time)
  unfolding collect_rest
  rest-Kept d time s t k =
      search (historical_due-Kept, analyst_due-Kept, news_due-Kept, insider_due-Kept)

  pub collect-Kept : (d : Details) → Kept (collect go services job d)
  unfolding collect
  collect-Kept d s t k = rest-Kept d _ s _ (first-Kept d s t k)

  proceed-Kept : (d : Option Details) → Kept (proceed go services job d)
  unfolding proceed
  proceed-Kept none s t k = k
  proceed-Kept (some d) s t k = complete-Kept job s _ (collect-Kept d s t k)

  when-Kept :
      (stored : Result ConsolidatedCompanyData) (due : Bool)
      → Kept (company_when go services job stored due)
  unfolding company_when
  when-Kept stored true s t k =
      profile-Kept go services good job.ticker (stored_cik_of stored) (known_details stored) s t k
  when-Kept stored false s t k = k

  pub ensure-Kept :
      (stored : Result ConsolidatedCompanyData) → Kept (ensure_company go services job stored)
  unfolding ensure_company
  ensure-Kept stored s t k =
      let due =
        should_update_category (known_details stored).company_id "profile"
          (get_env_duration go "TTL_COMPANY_PROFILE" 2_592_000_000_000_000) job.force_full_refresh
          t in
      when-Kept stored due.0 s due.1 (
        should-Keeps (known_details stored).company_id "profile"
          (get_env_duration go "TTL_COMPANY_PROFILE" 2_592_000_000_000_000) job.force_full_refresh t
          k)

  pub read-Keeps : (s : Site) → Keeps s (read_of job s).1
  read-Keeps s =
      let begun =
        broadcast (log job.ticker "PROCESSING" (processing_message job))
          (set_job_status job.ticker "processing" s).1 in
      db_call-Keeps (get_consolidated_data job.ticker) begun.1
        (get_consolidated_data-IsSafe job.ticker)
        (broadcast-Keeps _ _ (set_job_status-Keeps job.ticker "processing" s here-Keeps))

  -- A job leaves the keys of the table and of the clients as they were, and a watchlist in order is in
  -- order behind it, whatever SQLite and the services answer, where no fetch changes a key.
  pub process_job-Keeps : (s : Site) → Keeps s (process_job go services job s).1
  unfolding process_job
  process_job-Keeps s =
      let read = read_of job s in
      let company = ensure_company go services job read.0 read.1 in
      proceed-Kept company.0 s company.1 (ensure-Kept read.0 s read.1 (read-Keeps s))

items-Kept :
    {A : Type 0} (row : A → MacroIndicator) (r : List A × Option String)
    → Kept (store_items r (λ xs. insert_macro_indicators_batch (map row xs)) (λ _. done tt))
items-Kept row r =
    store_items-Kept r (λ xs. insert_macro_indicators_batch (map row xs)) (λ _. done tt)
      (λ xs. insert_macro_indicators_batch-IsSafe (map row xs)) (λ xs s t k. k)

-- The macro worker's fetch leaves the keys and keeps the watchlist in order in the same way.
pub run_macro_fetch-Keeps :
    (services : Services) → Serves services → (s : Site) → Keeps s (run_macro_fetch services s).1
unfolding run_macro_fetch
run_macro_fetch-Keeps services good s =
    let yields =
      fetched (services.fred_series "DGS10" "10-Year Treasury Constant Maturity Rate") s in
    let row : MacroIndicatorItem → MacroIndicator = macro_row in
    let stored =
      store_items yields.0 (λ xs. insert_macro_indicators_batch (map row xs)) (λ _. done tt)
        yields.1 in
    let cpi =
      fetched (services.fred_series "CPIAUCSL" "Consumer Price Index for All Urban Consumers")
        stored.1 in
    items-Kept row cpi.0 s cpi.1 (
      fetched-Keeps (services.fred_series "CPIAUCSL" "Consumer Price Index for All Urban Consumers")
        stored.1 (good.fred_series "CPIAUCSL" "Consumer Price Index for All Urban Consumers")
        (items-Kept row yields.0 s yields.1 (
          fetched-Keeps (services.fred_series "DGS10" "10-Year Treasury Constant Maturity Rate") s
            (good.fred_series "DGS10" "10-Year Treasury Constant Maturity Rate") here-Keeps)))
