-- ===== src/Worker/Job/Steps/Failing.antt =====
-- A job that cannot store its company leaves the ticker's row with an error while SQLite works.
use fin_base.Base.{ℕ, ◌≡◌, String, [], ◌∷◌, Option, none, some}
use fin_base.Base.Text.{concat, normalize}
use fin_base.Db.Tx.{Result, ok, err, committed}
use fin_base.Db.Tx.Calm.{Works}
use fin_base.Db.Companies.{log_action, upsert_company}
use fin_base.Db.Safe.Methods.{log_action-IsSafe, upsert_company-IsSafe}
use fin_base.Worker.Site.{
  Services, Runtime, Site, db_call, db_ignore, fetched, broadcast, note, set_job_status,
}
use fin_base.Worker.Due.{reading}
use fin_base.Worker.Job.{Details, from_profile, from_figi, from_sec, company_of}
use fin_base.Worker.Job.Settled.{Has, status-Has}
use fin_base.Worker.Job.Steps.{failed_upsert, upserted, profile_step}

-- Where there is no company, the row has an error.
abbrev pub Failed : String → Option Details × Site → Type 0
Failed t (some d, s) = Unit
Failed t (none, s) = Has (λ r. r.status ≡ "error") (normalize t) (committed s.db)

module _ (go : Runtime) (services : Services) (t : String) where
  upserted-Failed :
      (d : Details) (r : Result ℕ) (s : Site) → Works s.db → Failed t (upserted go services t d r s)
  unfolding upserted failed_upsert note set_job_status broadcast db_ignore db_call
  upserted-Failed d (ok id) s works = tt
  upserted-Failed d (err e) s works =
      let msg = concat ("Failed to upsert company " ∷ t ∷ ": " ∷ e ∷ []) in
      let noted = log_action t "UPSERT_COMPANY" "ERROR" msg (reading s) in
      λ r q.
        (status-Has (λ _. Unit) t "error" (reading (record s { db = noted.1 }))
          ((log_action-IsSafe t "UPSERT_COMPANY" "ERROR" msg).works (reading s) works) (λ n r h. tt)
          (λ r q. tt) r q).0

  pub profile-Failed :
      (stored_cik : String) (d : Details) (s : Site)
      → Works s.db
      → Failed t (profile_step go services t stored_cik d s)
  unfolding profile_step fetched db_call
  profile-Failed stored_cik d s works =
      let p = fetched (services.profile t) s in
      let f = fetched (services.open_figi t) p.1 in
      let c = fetched (services.sec_cik_for_ticker t) f.1 in
      let d' = from_sec stored_cik c.0 (from_figi f.0 (from_profile go p.0 d)) in
      let r = db_call (upsert_company (company_of t d')) c.1 in
      upserted-Failed d' r.0 r.1
        ((upsert_company-IsSafe (company_of t d')).works (reading c.1) works)
