-- ===== src/Worker/Job/Broadcasts.antt =====
-- The broadcasts of a whole job: one beginning and one end.
use fin_base.Base.{
  ℕ, ◌≡◌, refl, ap, ◌∙◌, ◌⊎◌, inl, inr, String, Bool, true, false, List, [], ◌∷◌, ◌++◌, Option,
  none, some, Result, ok, err, subst,
}
use fin_base.Base.Text.{concat}
use mathlib.Core.List.{append_assoc}
use fin_base.Db.Watchlist.{set_watchitem_force_refresh}
use fin_base.Db.Consolidated.{ConsolidatedCompanyData, get_consolidated_data}
use fin_base.Worker.Site.{
  Services, Runtime, Broadcast, log, company_update, Site, ◌>>◌, db_call, db_ignore, broadcast,
  get_env_duration, should_update_category, note, set_job_status,
}
use fin_base.Worker.Job.{Job, Details, known_details, stored_cik_of}
use fin_base.Worker.Job.Laws.{Silent, when_due-Silent, should-Silent}
use fin_base.Worker.Job.Steps.{
  market_data_step, fundamentals_step, valuation_step, dividends_step, historical_step,
  analyst_step, news_step, insider_step,
}
use fin_base.Worker.Job.Steps.Silent.{
  market_data-Silent, fundamentals-Silent, valuation-Silent, dividends-Silent, historical-Silent,
  analyst-Silent, news-Silent, insider-Silent, Reported, profile-Reported,
}
use fin_base.Worker.Job.Process.{
  clock, processing_message, market_data_due, fundamentals_due, valuation_due, dividends_due,
  historical_due, analyst_due, news_due, insider_due, collect_first, collect_rest, collect, publish,
  complete, proceed, company_when, ensure_company, process_job,
}

-- The end of a job that gathered all it could: a success, and the company's data where they can be
-- read back.
unfoldable pub Finished : String → List Broadcast → List Broadcast → Type 0
Finished t before after =
    let success = log t "SUCCESS" (concat ("Completed aggregation for " ∷ t ∷ [])) in
    (after ≡ before ++ success ∷ [])
    ⊎ ((stored : ConsolidatedCompanyData) × (after
          ≡ before ++ success ∷ company_update t stored ∷ []))

publish-Finished :
    (t : String) (r : Result ConsolidatedCompanyData) (s : Site) (before : List Broadcast)
    → s.broadcasts ≡ before ++ log t "SUCCESS" (concat ("Completed aggregation for " ∷ t ∷ [])) ∷ []
    → Finished t before (publish t r s).1.broadcasts
unfolding publish Finished broadcast
publish-Finished t (ok stored) s before h = inr (
  stored,
  ap (λ l. l ++ company_update t stored ∷ []) h
      ∙ append_assoc before (log t "SUCCESS" (concat ("Completed aggregation for " ∷ t ∷ [])) ∷ [])
          (company_update t stored ∷ []),
)
publish-Finished t (err e) s before h = inl h

complete-Finished :
    (job : Job) (s : Site) → Finished job.ticker s.broadcasts (complete job s).1.broadcasts
unfolding complete db_ignore set_job_status note broadcast db_call
complete-Finished job s =
    let t = job.ticker in
    let ready =
      (db_ignore (set_watchitem_force_refresh t false)
          >> set_job_status t "completed"
          >> note t "JOB_COMPLETE" "SUCCESS" (concat ("Finished processing job for " ∷ t ∷ []))
          >> broadcast (log t "SUCCESS" (concat ("Completed aggregation for " ∷ t ∷ [])))
          >> db_call (get_consolidated_data t))
        s in
    publish-Finished t ready.0 ready.1 s.broadcasts refl

module _ (go : Runtime) (services : Services) (job : Job) where
  market_data_due-Silent : (d : Details) → Silent (market_data_due go services job d)
  unfolding market_data_due
  market_data_due-Silent d =
      when_due-Silent d.company_id "market_data"
        (get_env_duration go "TTL_MARKET_DATA" 300_000_000_000) job.force_full_refresh
        (market_data_step go services job.ticker d) (market_data-Silent go services job.ticker d)

  fundamentals_due-Silent : (d : Details) → Silent (fundamentals_due go services job d)
  unfolding fundamentals_due
  fundamentals_due-Silent d =
      when_due-Silent d.company_id "fundamentals"
        (get_env_duration go "TTL_QUARTERLY" 604_800_000_000_000) job.force_full_refresh
        (fundamentals_step go services job.ticker d) (fundamentals-Silent go services job.ticker d)

  valuation_due-Silent : (d : Details) → Silent (valuation_due go services job d)
  unfolding valuation_due
  valuation_due-Silent d =
      when_due-Silent d.company_id "valuation"
        (get_env_duration go "TTL_VALUATION" 86_400_000_000_000) job.force_full_refresh
        (valuation_step go services job.ticker d) (valuation-Silent go services job.ticker d)

  dividends_due-Silent : (d : Details) → Silent (dividends_due go services job d)
  unfolding dividends_due
  dividends_due-Silent d =
      when_due-Silent d.company_id "dividends_splits"
        (get_env_duration go "TTL_QUARTERLY" 604_800_000_000_000) job.force_full_refresh
        (dividends_step go services job.ticker d) (dividends-Silent go services job.ticker d)

  historical_due-Silent : (time : ℕ) (d : Details) → Silent (historical_due go services job time d)
  unfolding historical_due
  historical_due-Silent time d =
      when_due-Silent d.company_id "historical"
        (get_env_duration go "TTL_HISTORICAL" 86_400_000_000_000) job.force_full_refresh
        (historical_step go services job.ticker time d)
        (historical-Silent go services job.ticker time d)

  analyst_due-Silent : (d : Details) → Silent (analyst_due go services job d)
  unfolding analyst_due
  analyst_due-Silent d =
      when_due-Silent d.company_id "analyst_earnings"
        (get_env_duration go "TTL_ANALYST" 259_200_000_000_000) job.force_full_refresh
        (analyst_step go services job.ticker d) (analyst-Silent go services job.ticker d)

  news_due-Silent : (time : ℕ) (d : Details) → Silent (news_due go services job time d)
  unfolding news_due
  news_due-Silent time d =
      when_due-Silent d.company_id "news" (get_env_duration go "TTL_NEWS" 43_200_000_000_000)
        job.force_full_refresh (news_step go services job.ticker time d)
        (news-Silent go services job.ticker time d)

  insider_due-Silent : (d : Details) → Silent (insider_due go services job d)
  unfolding insider_due
  insider_due-Silent d =
      when_due-Silent d.company_id "insider_institutional"
        (get_env_duration go "TTL_QUARTERLY" 604_800_000_000_000) job.force_full_refresh
        (insider_step go services job.ticker d) (insider-Silent go services job.ticker d)

  first-Silent : (d : Details) → Silent (collect_first go services job d)
  unfolding collect_first
  first-Silent d s =
      let a = market_data_due go services job d s in
      let b = fundamentals_due go services job d a.1 in
      let c = valuation_due go services job d b.1 in
      dividends_due-Silent d c.1
      ∙ valuation_due-Silent d b.1
      ∙ fundamentals_due-Silent d a.1
      ∙ market_data_due-Silent d s

  rest-Silent : (d : Details) (time : ℕ) → Silent (collect_rest go services job d time)
  unfolding collect_rest
  rest-Silent d time s =
      let a = historical_due go services job time d s in
      let b = analyst_due go services job d a.1 in
      let c = news_due go services job time d b.1 in
      insider_due-Silent d c.1
      ∙ news_due-Silent time d b.1
      ∙ analyst_due-Silent d a.1
      ∙ historical_due-Silent time d s

  collect-Silent : (d : Details) → Silent (collect go services job d)
  unfolding collect
  collect-Silent d s =
      let a = collect_first go services job d s in
      rest-Silent d (clock a.1).0 a.1 ∙ first-Silent d s

  -- How a job ends, from what was broadcast before: an error, or a success.
  pub Ends : List Broadcast → List Broadcast → Type 0
  Ends before after =
      ((msg : String) × (after ≡ before ++ log job.ticker "ERROR" msg ∷ []))
      ⊎ Finished job.ticker before after

  proceed-Ends :
      (before : List Broadcast) (r : Option Details × Site) (s : Site)
      → Reported go services job.ticker s r
      → s.broadcasts ≡ before
      → Ends before (proceed go services job r.0 r.1).1.broadcasts
  unfolding proceed Ends
  proceed-Ends before (none, s') s h e =
      inl (h.0, h.1 ∙ ap (λ l. l ++ log job.ticker "ERROR" h.0 ∷ []) e)
  proceed-Ends before (some d, s') s h e = inr (
      subst
        (λ l. Finished job.ticker l (complete job (collect go services job d s').1).1.broadcasts)
        (collect-Silent d s' ∙ h ∙ e) (complete-Finished job (collect go services job d s').1))

  when-Reported :
      (stored : Result ConsolidatedCompanyData) (due : Bool) (s : Site)
      → Reported go services job.ticker s (company_when go services job stored due s)
  unfolding company_when
  when-Reported stored true s =
      profile-Reported go services job.ticker (stored_cik_of stored) (known_details stored) s
  when-Reported stored false s = refl

  -- Every job, whatever the services and SQLite answer, broadcasts that it processes its ticker, then
  -- nothing until its end, and then one of: an error; a success; a success and the company's data.
  pub job-Ends :
      (s : Site)
      → Ends
          (s.broadcasts ++ log job.ticker "PROCESSING" (processing_message job) ∷ [])
          (process_job go services job s).1.broadcasts
  unfolding process_job ensure_company set_job_status broadcast db_call
  job-Ends s =
      let read =
        (set_job_status job.ticker "processing"
            >> broadcast (log job.ticker "PROCESSING" (processing_message job))
            >> db_call (get_consolidated_data job.ticker))
          s in
      let due =
        should_update_category (known_details read.0).company_id "profile"
          (get_env_duration go "TTL_COMPANY_PROFILE" 2_592_000_000_000_000) job.force_full_refresh
          read.1 in
      proceed-Ends _ (company_when go services job read.0 due.0 due.1) due.1
        (when-Reported read.0 due.0 due.1)
        (should-Silent (known_details read.0).company_id "profile"
          (get_env_duration go "TTL_COMPANY_PROFILE" 2_592_000_000_000_000) job.force_full_refresh
          read.1)
