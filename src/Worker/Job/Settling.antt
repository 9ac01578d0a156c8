-- ===== src/Worker/Job/Settling.antt =====
-- No job leaves its ticker's row in processing while SQLite works.
use fin_base.Base.{◌≡◌, ◌⊎◌, inl, inr, Bool, true, false, Option, none, some}
use fin_base.Base.Text.{normalize}
use fin_base.Db.Models.{WatchRow}
use fin_base.Db.Tx.{Result, committed}
use fin_base.Db.Tx.Calm.{Works}
use fin_base.Db.Consolidated.{ConsolidatedCompanyData}
use fin_base.Worker.Site.{Services, Runtime, Site, get_env_duration, should_update_category}
use fin_base.Worker.Job.{Job, Details, known_details, stored_cik_of}
use fin_base.Worker.Job.Kept.{Serves, here-Keeps, should-Keeps}
use fin_base.Worker.Job.Keeping.{read_of, read-Keeps, ensure-Kept, collect-Kept}
use fin_base.Worker.Job.Settled.{Has, Completed, complete-Has}
use fin_base.Worker.Job.Steps.Failing.{Failed, profile-Failed}
use fin_base.Worker.Job.Process.{collect, proceed, company_when, ensure_company, process_job}

-- The row is completed and not forced, or it has an error.
abbrev pub IsSettled : WatchRow → Type 0
IsSettled r = Completed r ⊎ (r.status ≡ "error")

module _ (go : Runtime) (services : Services) (good : Serves services) (job : Job) where
  when-Failed :
      (stored : Result ConsolidatedCompanyData) (due : Bool) (s : Site)
      → Works s.db
      → Failed job.ticker (company_when go services job stored due s)
  unfolding company_when
  when-Failed stored true s works =
      profile-Failed go services job.ticker (stored_cik_of stored) (known_details stored) s works
  when-Failed stored false s works = tt

  ensure-Failed :
      (stored : Result ConsolidatedCompanyData) (s : Site)
      → Works s.db
      → Failed job.ticker (ensure_company go services job stored s)
  unfolding ensure_company
  ensure-Failed stored s works =
      let ttl = get_env_duration go "TTL_COMPANY_PROFILE" 2_592_000_000_000_000 in
      let due =
        should_update_category (known_details stored).company_id "profile" ttl
          job.force_full_refresh s in
      let k =
        should-Keeps (known_details stored).company_id "profile" ttl job.force_full_refresh s
          here-Keeps in
      when-Failed stored due.0 due.1 (k.works works)

  proceed-IsSettled :
      (r : Option Details × Site)
      → Works r.1.db
      → Failed job.ticker r
      → Has IsSettled (normalize job.ticker) (committed (proceed go services job r.0 r.1).1.db)
  unfolding proceed
  proceed-IsSettled (none, s) works h = λ r q. inr (h r q)
  proceed-IsSettled (some d, s) works h =
      let k = collect-Kept go services good job d s s here-Keeps in
      λ r q. inl (complete-Has job (collect go services job d s).1 (k.works works) r q)

  -- While SQLite works, a job that is done has left its ticker's row, if there is one, completed and
  -- without its force flag, or with an error: never in processing, whatever the services answer, where
  -- no fetch changes a key.
  pub process_job-IsSettled :
      (s : Site)
      → Works s.db
      → Has IsSettled (normalize job.ticker) (committed (process_job go services job s).1.db)
  unfolding process_job
  process_job-IsSettled s works =
      let read = read_of job s in
      let k = read-Keeps go services good job s in
      proceed-IsSettled (ensure_company go services job read.0 read.1)
        ((ensure-Kept go services good job read.0 s read.1 k).works works)
        (ensure-Failed read.0 read.1 (k.works works))
