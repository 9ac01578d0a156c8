-- ===== src/Api/Server/Changes/Handlers.antt =====
-- The handlers of api/api.go on the watchlist, a company's data and the status, as changes.
use fin_base.Base.{ℕ, ◌≡◌, refl, inl, inr, String, str_eq, Bool, true, [], ◌∷◌, Bool-cases}
use fin_base.Base.Int.{pos}
use fin_base.Db.Tx.{Result, ok, err, World, M}
use fin_base.Db.Quiet.{
  get_watchlist-IsQuiet, get_job_status_summary-IsQuiet, get_recent_action_history-IsQuiet,
  get_consolidated_data-IsQuiet,
}
use fin_base.Base.Int.{ℤ}
use fin_base.Db.Watchlist.{
  add_watchitem, update_watchitem_priority, delete_watchitem, set_watchitem_force_refresh,
  set_watchitem_force_refresh_all, update_watchitem_status,
}
use fin_base.Db.Watchlist.Reads.{get_job_status_summary, get_recent_action_history, no_jobs}
use fin_base.Db.Watchlist.Runs.{
  WatchOp, add, force, force_all, set_priority_of, set_status_of, delete, perform,
}
use fin_base.Env.{Environment, EnvService}
use fin_base.Api.Messages.{
  HttpRequest, success, fields, watch_item, WatchlistBody, Outside, Response, Server, or_fail,
  on_db,
}
use fin_base.Api.Server.{
  or_default, get_list, post_item, put_priority, delete_item, with_ticker, handle_watchlist,
  refresh_one, refresh_all, handle_watchlist_refresh, handle_company_data, handle_status,
}
use fin_base.Api.Server.Changes.{Changes, nothing}
use fin_base.Api.Server.Changes.Methods.{
  after, fail_after, default_after, read_after, watch_after, branch_after,
}

-- Each method of the watchlist is an operation of it.
add-perform :
    (last_id : ℕ) (ticker : String) (priority : ℤ) (w : World)
    → (add_watchitem last_id ticker priority w).1 ≡ perform (add last_id ticker priority) w
unfolding perform
add-perform last_id ticker priority w = refl

priority-perform :
    (ticker : String) (priority : ℤ) (w : World)
    → (update_watchitem_priority ticker priority w).1 ≡ perform (set_priority_of ticker priority) w
unfolding perform
priority-perform ticker priority w = refl

delete-perform :
    (ticker : String) (w : World) → (delete_watchitem ticker w).1 ≡ perform (delete ticker) w
unfolding perform
delete-perform ticker w = refl

force-perform :
    (ticker : String) (on : Bool) (w : World)
    → (set_watchitem_force_refresh ticker on w).1 ≡ perform (force ticker on) w
unfolding perform
force-perform ticker on w = refl

force_all-perform :
    (on : Bool) (w : World) → (set_watchitem_force_refresh_all on w).1 ≡ perform (force_all on) w
unfolding perform
force_all-perform on w = refl

status-perform :
    (ticker status : String) (w : World)
    → (update_watchitem_status ticker status w).1 ≡ perform (set_status_of ticker status) w
unfolding perform
status-perform ticker status w = refl

module _ {A : Type 0} (getenv : Environment) (s : EnvService) where
  op_after :
      (code : ℕ) (good : A → Response) (m : M A) (op : WatchOp) (t : Server)
      → ((w : World) → (m w).1 ≡ perform op w)
      → Changes getenv s t.env_svc
      → Changes getenv s (after (or_fail code (λ a s'. (good a, s')) (on_db m t)))
  op_after code good m op t q h =
      fail_after getenv s code good (on_db m t) (watch_after getenv s m op t (q t.env_svc.db) h)

module _ (getenv : Environment) where
  -- The change of the service from before a request to behind it.
  abbrev Steps : Server → Response × Server → Type 0
  Steps s x = Changes getenv s.env_svc (after x)

  get_list-Changes : (r : HttpRequest) (s : Server) → Steps s (get_list r s)
  unfolding get_list
  get_list-Changes r s = search (fail_after, read_after, get_watchlist-IsQuiet, nothing)

  post_item-Changes :
      (last_id : ℕ) (b : WatchlistBody) (s : Server) → Steps s (post_item last_id b s)
  unfolding post_item
  post_item-Changes last_id b s =
      op_after getenv s.env_svc 500 (λ i. record { status = 201; payload = watch_item i })
        (add_watchitem last_id b.ticker b.priority) (add last_id b.ticker b.priority) s
        (add-perform last_id b.ticker b.priority) nothing

  put_priority-Changes : (b : WatchlistBody) (s : Server) → Steps s (put_priority b s)
  unfolding put_priority
  put_priority-Changes b s =
      op_after getenv s.env_svc 500
        (λ _. record { status = 200; payload = fields (("status", "success") ∷ []) })
        (update_watchitem_priority b.ticker b.priority) (set_priority_of b.ticker b.priority) s
        (priority-perform b.ticker b.priority) nothing

  delete_item-Changes : (r : HttpRequest) (s : Server) → Steps s (delete_item r s)
  unfolding delete_item
  delete_item-Changes r s = elim (Bool-cases (str_eq (r.query "ticker") "")) [
    | inl q ↦ rw q nothing
    | inr q ↦ rw q (
        op_after getenv s.env_svc 500
          (λ _. record { status = 200; payload = fields (("status", "deleted") ∷ []) })
          (delete_watchitem (r.query "ticker")) (delete (r.query "ticker")) s
          (delete-perform (r.query "ticker")) nothing)
  ]

  with_ticker-Changes :
      (f : WatchlistBody → Server → Response × Server) (x : Result WatchlistBody) (s : Server)
      → ((b : WatchlistBody) → Steps s (f b s))
      → Steps s (with_ticker f x s)
  with_ticker-Changes f (err e) s h = nothing
  with_ticker-Changes f (ok b) s h = elim (Bool-cases (str_eq b.ticker "")) [
    | inl q ↦ rw q nothing
    | inr q ↦ rw q (h b)
  ]

  pub handle_watchlist-Changes :
      (o : Outside) (last_id : ℕ) (r : HttpRequest) (s : Server)
      → Steps s (handle_watchlist o last_id r s)
  unfolding handle_watchlist
  handle_watchlist-Changes o last_id r s = search (
    branch_after, get_list-Changes, with_ticker-Changes, post_item-Changes, put_priority-Changes,
    delete_item-Changes, nothing,
  )

  refresh_all-Changes : (s : Server) → Steps s (refresh_all s)
  unfolding refresh_all
  refresh_all-Changes s =
      op_after getenv s.env_svc 500
        (λ _. record {
          status = 200;
          payload = fields (
              ("status", "queued")
              ∷ ("message", "all watchlist items marked for force refresh")
              ∷ []);
        })
        (set_watchitem_force_refresh_all true) (force_all true) s (force_all-perform true) nothing

  set_status-Changes :
      (ticker : String) (s : Server) (x : Result (Unit {0}) × Server)
      → Changes getenv s.env_svc x.1.env_svc
      → Steps s (
          or_fail 500
            (λ _ s'.
              or_fail 500
                (λ _. success (("status", "queued") ∷ ("ticker", ticker) ∷ []))
                (on_db (update_watchitem_status ticker "pending") s'))
            x)
  set_status-Changes ticker s (err e, t) h = h
  set_status-Changes ticker s (ok _, t) h =
      op_after getenv s.env_svc 500
        (λ _. record {
          status = 200;
          payload = fields (("status", "queued") ∷ ("ticker", ticker) ∷ []);
        })
        (update_watchitem_status ticker "pending") (set_status_of ticker "pending") t
        (status-perform ticker "pending") h

  refresh_one-Changes : (ticker : String) (s : Server) → Steps s (refresh_one ticker s)
  unfolding refresh_one
  refresh_one-Changes ticker s =
      set_status-Changes ticker s (on_db (set_watchitem_force_refresh ticker true) s) (
        watch_after getenv s.env_svc (set_watchitem_force_refresh ticker true) (force ticker true) s
          (force-perform ticker true s.env_svc.db) nothing)

  pub handle_watchlist_refresh-Changes :
      (o : Outside) (r : HttpRequest) (s : Server) → Steps s (handle_watchlist_refresh o r s)
  unfolding handle_watchlist_refresh
  handle_watchlist_refresh-Changes o r s =
      search (branch_after, refresh_all-Changes, refresh_one-Changes, nothing)

  pub handle_company_data-Changes :
      (ticker : String) (r : HttpRequest) (s : Server) → Steps s (handle_company_data ticker r s)
  unfolding handle_company_data
  handle_company_data-Changes ticker r s =
      search (branch_after, fail_after, read_after, get_consolidated_data-IsQuiet, nothing)

  pub handle_status-Changes : (r : HttpRequest) (s : Server) → Steps s (handle_status r s)
  unfolding handle_status
  handle_status-Changes r s = elim (Bool-cases (str_eq r.method "GET")) [
    | inr g ↦ rw g nothing
    | inl g ↦ rw g (
        default_after getenv s.env_svc []
          (on_db (get_recent_action_history (pos 50))
            (or_default no_jobs (on_db get_job_status_summary s)).1)
          (read_after getenv s.env_svc (get_recent_action_history (pos 50))
            (or_default no_jobs (on_db get_job_status_summary s)).1
            (get_recent_action_history-IsQuiet (pos 50))
            (default_after getenv s.env_svc no_jobs (on_db get_job_status_summary s) (
              read_after getenv s.env_svc get_job_status_summary s get_job_status_summary-IsQuiet
                nothing))))
  ]
