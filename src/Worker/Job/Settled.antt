-- ===== src/Worker/Job/Settled.antt =====
-- Where a job leaves its ticker's row while SQLite works.
use mathlib.Core.Option
use fin_base.Base.{
  ℕ, ◌≡◌, refl, sym, ap, subst, ◌∙◌, String, false, List, [], ◌∷◌, Option, none, some, arith, find,
}
use fin_base.Base.Text.{normalize}
use fin_base.Db.Models.{WatchRow, Tables}
use fin_base.Db.Tx.{Result, ok, err, World, committed, exec, with_tx}
use fin_base.Db.Tx.Laws.{world_of}
use fin_base.Db.Tx.Calm.{Works}
use fin_base.Db.Watchlist.{
  on_watchlist, update_where, has_ticker, set_force, set_watchitem_force_refresh, set_status,
  update_watchitem_status,
}
use fin_base.Base.Text.{concat}
use fin_base.Db.Companies.{log_action}
use fin_base.Db.Consolidated.{ConsolidatedCompanyData, get_consolidated_data}
use fin_base.Db.Quiet.{get_consolidated_data-IsQuiet}
use fin_base.Db.Safe.Methods.{log_action-Leaves, set_watchitem_force_refresh-IsSafe}
use fin_base.Worker.Site.{Site, log, db_call, db_ignore, broadcast, note, set_job_status}
use fin_base.Worker.Due.{reading}
use fin_base.Worker.Job.{Job}
use fin_base.Worker.Job.Process.{complete, publish}
use fin_base.Db.Watchlist.Lookup.{row_of, find-update_self}

-- The row of a ticker, if there is one, is as said.
abbrev pub Has : (WatchRow → Type 0) → String → Tables → Type 0
Has P ticker t = (r : WatchRow) → row_of ticker t ≡ some r → P r

updated_tables :
    (f : ℕ → List WatchRow → List WatchRow) (w : World)
    → Works w
    → committed (with_tx (exec (on_watchlist f)) w).1
      ≡ record w.tables { watchlist = f w.now w.tables.watchlist }
unfolding with_tx exec
updated_tables f w (s, o) =
    subst
      (λ s'.
        committed (with_tx (exec (on_watchlist f)) (world_of w.tables s' w.outcomes w.now)).1
        ≡ record w.tables { watchlist = f w.now w.tables.watchlist })
      (sym s)
      (subst
        (λ os.
          committed (with_tx (exec (on_watchlist f)) (world_of w.tables none os w.now)).1
          ≡ record w.tables { watchlist = f w.now w.tables.watchlist })
        (sym o) refl)

mapped-Has :
    (P Q : WatchRow → Type 0) (f : WatchRow → WatchRow) (o : Option WatchRow)
    → ((r : WatchRow) → P r → Q (f r))
    → ((r : WatchRow) → o ≡ some r → P r)
    → (r : WatchRow) → Option.map f o ≡ some r
    → Q r
mapped-Has P Q f none h k r e = cc
mapped-Has P Q f (some x) h k r e = subst Q (ground (arith, e)) (h x (k x refl))

module _ (ticker : String) (f : ℕ → WatchRow → WatchRow)
    (same : (n : ℕ) (r : WatchRow) → (f n r).ticker ≡ r.ticker) where
  update-Has :
      (P Q : WatchRow → Type 0) (w : World)
      → Works w
      → ((n : ℕ) (r : WatchRow) → P r → Q (f n r))
      → Has P ticker (committed w)
      → Has Q ticker (
          committed
            (with_tx (exec (on_watchlist (λ n. update_where (has_ticker ticker) (f n)))) w).1)
  update-Has P Q w works h k =
      subst (Has Q ticker)
        (sym (updated_tables (λ n. update_where (has_ticker ticker) (f n)) w works))
        (λ r e.
          mapped-Has P Q (f w.now) (row_of ticker w.tables) (h w.now)
            (subst (Has P ticker) (committed_tables w works) k) r
            (sym (find-update_self ticker (f w.now) (same w.now) w.tables.watchlist) ∙ e))
    where
      committed_tables : (w : World) → Works w → committed w ≡ w.tables
      committed_tables w works = ap (λ s. committed (world_of w.tables s w.outcomes w.now)) works.0

-- The force flag is taken off.
unforced-Has :
    (ticker : String) (w : World)
    → Works w
    → Has
        (λ r. r.force_full_refresh ≡ 0)
        (normalize ticker)
        (committed (set_watchitem_force_refresh ticker false w).1)
unfolding set_watchitem_force_refresh set_force
unforced-Has ticker w works =
    update-Has (normalize ticker) (λ n r. record r { force_full_refresh = 0 }) (λ n r. refl)
      (λ r. Unit) (λ r. r.force_full_refresh ≡ 0) w works (λ n r h. refl) (λ r e. tt)

-- The status is set, and what holds of the row apart from its status and time goes on to hold.
pub status-Has :
    (P : WatchRow → Type 0) (ticker status : String) (w : World)
    → Works w
    → ((n : ℕ) (r : WatchRow) → P r → P (record r { status = status; last_updated = n }))
    → Has P (normalize ticker) (committed w)
    → Has
        (λ r. (r.status ≡ status) × P r)
        (normalize ticker)
        (committed (update_watchitem_status ticker status w).1)
unfolding update_watchitem_status set_status
status-Has P ticker status w works h k =
    update-Has (normalize ticker) (λ n r. record r { status = status; last_updated = n })
      (λ n r. refl) P (λ r. (r.status ≡ status) × P r) w works (λ n r p. (refl, h n r p)) k

abbrev pub Completed : WatchRow → Type 0
Completed r = (r.status ≡ "completed") × (r.force_full_refresh ≡ 0)

pub rows-Has :
    (P : WatchRow → Type 0) (ticker : String) (t u : Tables)
    → u.watchlist ≡ t.watchlist
    → Has P ticker t
    → Has P ticker u
rows-Has P ticker t u e h r q = h r (ap (find (has_ticker ticker)) (sym e) ∙ q)

publish_db :
    (ticker : String) (r : Result ConsolidatedCompanyData) (s : Site)
    → (publish ticker r s).1.db ≡ s.db
unfolding publish broadcast
publish_db ticker (ok stored) s = refl
publish_db ticker (err e) s = refl

abbrev completed_message : String → String
completed_message t = concat ("Finished processing job for " ∷ t ∷ [])

-- The site when `complete` has set the row.
abbrev marked : String → Site → Site
marked t s = (set_job_status t "completed" (db_ignore (set_watchitem_force_refresh t false) s).1).1

marked-Has :
    (t : String) (s : Site) → Works s.db → Has Completed (normalize t) (committed (marked t s).db)
unfolding set_job_status db_ignore db_call
marked-Has t s works =
    status-Has (λ r. r.force_full_refresh ≡ 0) t "completed" _
      ((set_watchitem_force_refresh-IsSafe t false).works (reading s) works) (λ n r h. h)
      (unforced-Has t (reading s) works)

pub complete-Has :
    (job : Job) (s : Site)
    → Works s.db
    → Has Completed (normalize job.ticker) (committed (complete job s).1.db)
unfolding complete note broadcast db_call db_ignore
complete-Has job s works =
    let t = job.ticker in
    let m = marked t s in
    let noted = log_action t "JOB_COMPLETE" "SUCCESS" (completed_message t) (reading m) in
    let told =
      (broadcast (log t "SUCCESS" (concat ("Completed aggregation for " ∷ t ∷ [])))
        (record m { db = noted.1 })).1 in
    let x = db_call (get_consolidated_data t) told in
    subst (λ w. Has Completed (normalize t) (committed w)) (sym (publish_db t x.0 x.1))
      (rows-Has Completed (normalize t) (committed noted.1) (committed x.1.db)
        (ap (λ (u : Tables). u.watchlist) (get_consolidated_data-IsQuiet t (reading told)))
        (rows-Has Completed (normalize t) (committed m.db) (committed noted.1)
          (log_action-Leaves t "JOB_COMPLETE" "SUCCESS" (completed_message t) (reading m)).1
          (marked-Has t s works)))
