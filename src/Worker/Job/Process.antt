-- ===== src/Worker/Job/Process.antt =====
-- `processJob` of worker/worker.go, and the job of the macro worker.
use fin_base.Base.{ℕ, String, Bool, true, false, [], ◌∷◌, map, Option, none, some, Result, ok, err}
use fin_base.Base.Text.{concat}
use fin_base.Db.Models.{MacroIndicator}
use fin_base.Db.Series.{insert_macro_indicators_batch}
use fin_base.Db.Watchlist.{set_watchitem_force_refresh}
use fin_base.Db.Consolidated.{ConsolidatedCompanyData, get_consolidated_data}
use fin_base.Clients.Payloads.{MacroIndicatorItem}
use fin_base.Worker.Site.{
  Services, Runtime, log, company_update, J, ◌>>=◌, ◌>>◌, done, now, db_call, db_ignore, fetched,
  broadcast, get_env_duration, should_update_category, when_due, note, set_job_status,
}
use fin_base.Worker.Job.{Job, Details, known_details, show_bool, stored_cik_of, store_items}
use fin_base.Worker.Job.Steps.{
  profile_step, market_data_step, fundamentals_step, valuation_step, dividends_step,
  historical_step, analyst_step, news_step, insider_step,
}

abbrev pub clock : J ℕ
clock s = (now s.client, s)

abbrev pub processing_message : Job → String
processing_message job = concat (
    "Starting processing for ticker "
    ∷ job.ticker
    ∷ " (force_refresh="
    ∷ show_bool job.force_full_refresh
    ∷ ")"
    ∷ [])

unfoldable pub publish : String → Result ConsolidatedCompanyData → J (Unit {0})
unfolding broadcast
publish t (ok stored) = broadcast (company_update t stored)
publish t (err e) = done tt

-- The end of a job.
unfoldable pub complete : Job → J (Unit {0})
unfolding db_ignore set_watchitem_force_refresh set_job_status note broadcast db_call
    get_consolidated_data publish
complete job =
    let t = job.ticker in
    db_ignore (set_watchitem_force_refresh t false)
    >> set_job_status t "completed"
    >> note t "JOB_COMPLETE" "SUCCESS" (concat ("Finished processing job for " ∷ t ∷ []))
    >> broadcast (log t "SUCCESS" (concat ("Completed aggregation for " ∷ t ∷ [])))
    >> db_call (get_consolidated_data t)
    >>= publish t

module _ (go : Runtime) (services : Services) where
  unfoldable pub market_data_due : Job → Details → J (Unit {0})
  unfolding should_update_category get_env_duration market_data_step
  market_data_due job d =
      when_due d.company_id "market_data" (get_env_duration go "TTL_MARKET_DATA" 300_000_000_000)
        job.force_full_refresh (market_data_step go services job.ticker d)

  unfoldable pub fundamentals_due : Job → Details → J (Unit {0})
  unfolding should_update_category get_env_duration fundamentals_step
  fundamentals_due job d =
      when_due d.company_id "fundamentals" (get_env_duration go "TTL_QUARTERLY" 604_800_000_000_000)
        job.force_full_refresh (fundamentals_step go services job.ticker d)

  unfoldable pub valuation_due : Job → Details → J (Unit {0})
  unfolding should_update_category get_env_duration valuation_step
  valuation_due job d =
      when_due d.company_id "valuation" (get_env_duration go "TTL_VALUATION" 86_400_000_000_000)
        job.force_full_refresh (valuation_step go services job.ticker d)

  unfoldable pub dividends_due : Job → Details → J (Unit {0})
  unfolding should_update_category get_env_duration dividends_step
  dividends_due job d =
      when_due d.company_id "dividends_splits"
        (get_env_duration go "TTL_QUARTERLY" 604_800_000_000_000) job.force_full_refresh
        (dividends_step go services job.ticker d)

  unfoldable pub historical_due : Job → ℕ → Details → J (Unit {0})
  unfolding should_update_category get_env_duration historical_step
  historical_due job time d =
      when_due d.company_id "historical" (get_env_duration go "TTL_HISTORICAL" 86_400_000_000_000)
        job.force_full_refresh (historical_step go services job.ticker time d)

  unfoldable pub analyst_due : Job → Details → J (Unit {0})
  unfolding should_update_category get_env_duration analyst_step
  analyst_due job d =
      when_due d.company_id "analyst_earnings"
        (get_env_duration go "TTL_ANALYST" 259_200_000_000_000) job.force_full_refresh
        (analyst_step go services job.ticker d)

  unfoldable pub news_due : Job → ℕ → Details → J (Unit {0})
  unfolding should_update_category get_env_duration news_step
  news_due job time d =
      when_due d.company_id "news" (get_env_duration go "TTL_NEWS" 43_200_000_000_000)
        job.force_full_refresh (news_step go services job.ticker time d)

  unfoldable pub insider_due : Job → Details → J (Unit {0})
  unfolding should_update_category get_env_duration insider_step
  insider_due job d =
      when_due d.company_id "insider_institutional"
        (get_env_duration go "TTL_QUARTERLY" 604_800_000_000_000) job.force_full_refresh
        (insider_step go services job.ticker d)

  -- Categories 2 to 5.
  unfoldable pub collect_first : Job → Details → J (Unit {0})
  unfolding market_data_due fundamentals_due valuation_due dividends_due
  collect_first job d =
      market_data_due job d >> fundamentals_due job d >> valuation_due job d >> dividends_due job d

  -- Categories 6 to 9.
  unfoldable pub collect_rest : Job → Details → ℕ → J (Unit {0})
  unfolding historical_due analyst_due news_due insider_due
  collect_rest job d time =
      historical_due job time d >> analyst_due job d >> news_due job time d >> insider_due job d

  unfoldable pub collect : Job → Details → J (Unit {0})
  unfolding collect_first collect_rest
  collect job d = collect_first job d >> clock >>= collect_rest job d

  unfoldable pub proceed : Job → Option Details → J (Unit {0})
  unfolding collect complete
  proceed job none = done tt
  proceed job (some d) = collect job d >> complete job

  unfoldable pub company_when : Job → Result ConsolidatedCompanyData → Bool → J (Option Details)
  unfolding known_details profile_step
  company_when job stored true =
      profile_step go services job.ticker (stored_cik_of stored) (known_details stored)
  company_when job stored false = done (some (known_details stored))

  -- Category 1, whose company the others need.
  unfoldable pub ensure_company : Job → Result ConsolidatedCompanyData → J (Option Details)
  unfolding should_update_category get_env_duration known_details company_when
  ensure_company job stored =
      should_update_category (known_details stored).company_id "profile"
        (get_env_duration go "TTL_COMPANY_PROFILE" 2_592_000_000_000_000) job.force_full_refresh
      >>= company_when job stored

  -- `processJob`
  unfoldable pub process_job : Job → J (Unit {0})
  unfolding set_job_status broadcast db_call get_consolidated_data ensure_company proceed
  process_job job =
      set_job_status job.ticker "processing"
      >> broadcast (log job.ticker "PROCESSING" (processing_message job))
      >> db_call (get_consolidated_data job.ticker)
      >>= ensure_company job
      >>= proceed job

unfoldable pub macro_row : MacroIndicatorItem → MacroIndicator
macro_row m = record {
  id = 0;
  series_id = m.series_id;
  indicator_name = m.indicator_name;
  date = m.date;
  value = m.value;
}

-- `runMacroFetch`
unfoldable pub run_macro_fetch : Services → J (Unit {0})
unfolding fetched store_items insert_macro_indicators_batch macro_row
run_macro_fetch services = do
  yields ← fetched (services.fred_series "DGS10" "10-Year Treasury Constant Maturity Rate")
  store_items yields (λ xs. insert_macro_indicators_batch (map macro_row xs)) (λ _. done tt)
  cpi ← fetched (services.fred_series "CPIAUCSL" "Consumer Price Index for All Urban Consumers")
  store_items cpi (λ xs. insert_macro_indicators_batch (map macro_row xs)) (λ _. done tt)
