-- ===== src/Worker/Tests.antt =====
-- Tests of the pool and the jobs, and witnesses of their theorems.
use fin_base.Base.{◌≡◌, refl, false, [], ◌∷◌, ◌++◌, none, some, arith, ok}
use fin_base.Base.Int.{pos}
use fin_base.Db.Samples.{world}
use fin_base.Clients.Manager.{new_client_manager}
use fin_base.Clients.Http.{Client, Fetched}
use fin_base.Db.Companies.{set_category_last_updated}
use fin_base.Worker.Site.{Services, Site, log, should_update_category}
use fin_base.Worker.Samples.{go}
use fin_base.Base.Text.{normalize}
use fin_base.Db.Tx.{committed}
use fin_base.Clients.Samples.{codec, inflate}
use fin_base.Worker.Wiring.{client_services, client_services-Serves}
use fin_base.Worker.Job.Settled.{Has}
use fin_base.Worker.Job.Settling.{IsSettled, process_job-IsSettled}
use fin_base.Worker.Due.{Judges, stamped-Judges}
use fin_base.Worker.Job.{Job}
use fin_base.Worker.Job.Process.{process_job, processing_message}
use fin_base.Worker.Job.Broadcasts.{Ends, job-Ends}
use fin_base.Worker.Pool.{WorkerPool, new_worker_pool, dispatch, start}

abbrev down : {A : Type 0} → A → Client → Fetched A
down a c = ((a, some "service is down"), c)

-- Services of which none answers.
abbrev services : Services
services = record {
  profile = λ _. down none;
  open_figi = λ _. down none;
  sec_cik_for_ticker = λ _. down "";
  market_data_waterfall = λ _. down none;
  sec_facts = λ _. down none;
  income_statement = λ _. down [];
  valuation_ratios = λ _. down none;
  dividends = λ _. down [];
  splits = λ _. down [];
  historical_prices = λ _ _ _. down [];
  analyst_estimates = λ _. down [];
  earnings_calendar = λ _. down [];
  company_news = λ _ _ _. down [];
  insider_transactions = λ _. down [];
  institutional_ownership = λ _. down [];
  fred_series = λ _ _. down [];
}

abbrev site : Site
site = record {
  db = world [];
  client = record {
    manager = new_client_manager "" "f" "" "" "" "";
    wire = record { clock = 1_000_000_000_000; replies = []; requests = [] };
  };
  broadcasts = [];
}

abbrev job : Job
job = record { ticker = "MSFT"; priority = pos 5; force_full_refresh = false }

job-Ends_example :
    Ends go services job
      ([] ++ log "MSFT" "PROCESSING" (processing_message job) ∷ [])
      (process_job go services job site).1.broadcasts
job-Ends_example = job-Ends go services job site

abbrev idle : WorkerPool
idle = new_worker_pool (world []) 8 2

abbrev loaded : WorkerPool
loaded = (dispatch idle).0

abbrev busy : WorkerPool
busy = start 1 1001 job [] loaded

sends : (dispatch idle).1 ≡ some job
unfolding dispatch new_worker_pool
sends = refl

-- A company whose data was stamped at second 1000.
abbrev stamped_site : Site
stamped_site = record site {
  db = (set_category_last_updated 1 "news" (world [])).1;
  client = record site.client { wire = record site.client.wire { clock = 1_900_000_000_000 } };
}

news_stamped : (set_category_last_updated 1 "news" (world [])).0 ≡ ok tt
unfolding set_category_last_updated
news_stamped = refl

stamped-Judges_example :
    Judges 3_600_000_000_000 1000 1 "news" stamped_site
      (should_update_category 1 "news" (pos 3_600_000_000_000) false stamped_site).0
stamped-Judges_example =
    stamped-Judges 1 "news" 3_600_000_000_000 (world []) stamped_site (λ e. ground arith)
      (λ e. ground arith) news_stamped refl

process_job-IsSettled_example :
    Has IsSettled
      (normalize job.ticker)
      (committed (process_job go (client_services codec inflate) job site).1.db)
process_job-IsSettled_example =
    process_job-IsSettled go (client_services codec inflate) (client_services-Serves codec inflate)
      job site (refl, refl)
