-- ===== src/Db/Watchlist/Runs.antt =====
-- Any run of watchlist operations, under any times and any answers of SQLite: the invariant holds
-- throughout, and a row that was handed out is not handed out again while its status stands.
use fin_base.Base.{
  ℕ, suc, ◌≡◌, sym, subst, refl, inl, inr, String, Bool, true, List, [], ◌∷◌, ◌++◌, Option, none,
  some, arith, keep, any, not, if◌then◌else◌, Bool-cases,
}
use fin_base.Base.Int.{ℤ}
use fin_base.Base.Text.{normalize}
use fin_base.Db.Models.{WatchRow, Watchitem, Tables}
use fin_base.Db.Tx.{Result, ok, err, World, committed, M, with_tx}
use fin_base.Db.Tx.Laws.{Effect, of_stmt, then_effect, Ended, Commits, exec-Commits}
use fin_base.Db.Watchlist.{
  update_where, has_ticker, has_id, new_row, readded, upsert_watchitem, add_body, add_watchitem,
  fetch_and_queue_body, fetch_and_queue_next_watchitem, select_next, mark_queued, item_or_nil,
  set_force, set_watchitem_force_refresh, set_force_all, set_watchitem_force_refresh_all,
  set_priority, update_watchitem_priority, set_status, update_watchitem_status, delete_ticker,
  delete_watchitem, on_watchlist,
}
use fin_base.Db.Watchlist.Fetch.{fetch_effect, queue_effect, fetch-Commits}
use fin_base.Db.Watchlist.Add.{ReadsBack, add_body-Commits}
use fin_base.Db.Watchlist.Invariant.{IsValid, update-InOrder, keep-InOrder, append-InOrder}

-- The operations that change the watchlist.
pub data WatchOp : Type 0 where
  add : ℕ → String → ℤ → WatchOp
  fetch : WatchOp
  force : String → Bool → WatchOp
  force_all : Bool → WatchOp
  set_priority_of : String → ℤ → WatchOp
  set_status_of : String → String → WatchOp
  delete : String → WatchOp

-- The world behind an operation, whatever it returned.
unfoldable pub perform : WatchOp → World → World
unfolding add_watchitem fetch_and_queue_next_watchitem set_watchitem_force_refresh
    set_watchitem_force_refresh_all update_watchitem_priority update_watchitem_status
    delete_watchitem
perform (add last_id ticker priority) w = (add_watchitem last_id ticker priority w).1
perform fetch w = (fetch_and_queue_next_watchitem w).1
perform (force ticker on) w = (set_watchitem_force_refresh ticker on w).1
perform (force_all on) w = (set_watchitem_force_refresh_all on w).1
perform (set_priority_of ticker priority) w = (update_watchitem_priority ticker priority w).1
perform (set_status_of ticker status) w = (update_watchitem_status ticker status w).1
perform (delete ticker) w = (delete_watchitem ticker w).1

-- An operation at a time, with what SQLite answers to its calls.
pub record Event : Type 0 where
  pub op : WatchOp
  pub at : ℕ
  pub answers : List (Option String)

pub run : World → List Event → World
unfolding perform
run w [] = w
run w (e ∷ es) = run (perform e.op (record w { now = e.at; outcomes = e.answers })) es

-- An effect that keeps the invariant.
abbrev Keeps : {A : Type 0} → Effect A → Type 0
Keeps {A} R = (n : ℕ) (t : Tables) (a : A) (t' : Tables) → R n t a t' → IsValid t → IsValid t'

kept_go :
    {A : Type 0} (R : Effect A) (w : World) (r : Result A × World)
    → Keeps R
    → Ended R w r
    → IsValid (committed w)
    → IsValid (committed r.1)
kept_go R w (ok a, w') k h v = k _ _ _ _ h.0 v
kept_go R w (err e, w') k h v = subst IsValid (sym h.0) v

kept :
    {A : Type 0} (m : M A) (R : Effect A) (w : World)
    → Keeps R
    → Commits m R
    → IsValid (committed w)
    → IsValid (committed (m w).1)
kept m R w k c v = kept_go R w (m w) k (c w) v

update-Keeps :
    (p : WatchRow → Bool) (f : ℕ → WatchRow → WatchRow)
    → ((n : ℕ) (r : WatchRow) → (f n r).ticker ≡ r.ticker)
    → ((n : ℕ) (r : WatchRow) → (f n r).id ≡ r.id)
    → Keeps (of_stmt (on_watchlist (λ n. update_where p (f n))))
update-Keeps p f same kept_id n t a t' h v =
    let e : t' ≡ record t { watchlist = update_where p (f n) t.watchlist } = ground arith in
    subst IsValid (sym e) (update-InOrder 0 t.watch_seq p (f n) t.watchlist (same n) (kept_id n) v)

delete-Keeps : (ticker : String) → Keeps (of_stmt (delete_ticker ticker))
unfolding delete_ticker
delete-Keeps ticker n t a t' h v =
    let e : t' ≡ record t { watchlist = keep (λ r. not (has_ticker ticker r)) t.watchlist } =
      ground arith in
    subst IsValid (sym e)
      (keep-InOrder 0 t.watch_seq (λ r. not (has_ticker ticker r)) t.watchlist v)

upsert-Keeps :
    (last_id : ℕ) (ticker : String) (priority : ℤ)
    → Keeps (of_stmt (upsert_watchitem last_id ticker priority))
unfolding upsert_watchitem
upsert-Keeps last_id ticker priority n t a t' h v =
    elim (Bool-cases (any (has_ticker ticker) t.watchlist)) [
      | inl there ↦
          let rows = update_where (has_ticker ticker) (readded priority n) t.watchlist in
          let e : t' ≡ record t { watchlist = rows } = ground arith in
          subst IsValid (sym e) (
            update-InOrder 0 t.watch_seq (has_ticker ticker) (readded priority n) t.watchlist
              (λ _. refl) (λ _. refl) v)
      | inr fresh ↦
          let row : WatchRow = new_row (suc t.watch_seq) ticker priority n in
          let e : t'
              ≡ record t { watchlist = t.watchlist ++ row ∷ []; watch_seq = suc t.watch_seq } =
            ground arith in
          subst IsValid (sym e) (append-InOrder 0 t.watch_seq t.watchlist row refl fresh v)
    ]

add-Keeps :
    (last_id : ℕ) (ticker : String) (priority : ℤ)
    → Keeps (
        then_effect
          (of_stmt (upsert_watchitem last_id ticker priority))
          (ReadsBack last_id ticker priority))
add-Keeps last_id ticker priority n t a t' (id, u, h, (e, _)) v =
    subst IsValid (sym e) (upsert-Keeps last_id ticker priority n t id u h v)

queue-Keeps : (o : Option WatchRow) → Keeps (queue_effect o)
unfolding mark_queued
queue-Keeps none n t a t' (_, e) v = subst IsValid (sym e) v
queue-Keeps (some r) n t a t' (x, u, h, (_, e)) v = subst IsValid (sym e) (
    update-Keeps (has_id r.id) (λ m s. record s { status = "queued"; last_updated = m })
      (λ m s. refl) (λ m s. refl) n t x u h v)

fetch-Keeps : Keeps fetch_effect
unfolding select_next
fetch-Keeps n t a t' (o, u, h, q) v =
    let e : u ≡ t = ground arith in queue-Keeps o n u a t' q (subst IsValid (sym e) v)

pub same_world :
    (r : Result (Option Watchitem) × World)
    → (let (s, w') = r in
        elim s as (λ _. Result (Option Watchitem) × World) [
          | ok a ↦ (ok (item_or_nil a), w')
          | err e ↦ (err e, w')
        ]).1
      ≡ r.1
same_world (ok a, w') = refl
same_world (err e, w') = refl

pub perform-IsValid :
    (op : WatchOp) (w : World) → IsValid (committed w) → IsValid (committed (perform op w))
unfolding perform add_watchitem set_watchitem_force_refresh set_watchitem_force_refresh_all
    set_force set_force_all set_priority set_status update_watchitem_priority
    update_watchitem_status delete_watchitem fetch_and_queue_next_watchitem
perform-IsValid (add last_id ticker priority) w v =
    kept (with_tx (add_body last_id (normalize ticker) priority)) _ w
      (add-Keeps last_id (normalize ticker) priority)
      (add_body-Commits last_id (normalize ticker) priority) v
perform-IsValid fetch w v =
    subst (λ u. IsValid (committed u)) (sym (same_world (with_tx fetch_and_queue_body w)))
      (kept (with_tx fetch_and_queue_body) fetch_effect w fetch-Keeps fetch-Commits v)
perform-IsValid (force ticker on) w v =
    kept (set_watchitem_force_refresh ticker on) (of_stmt (set_force (normalize ticker) on)) w
      (update-Keeps (has_ticker (normalize ticker))
        (λ _ r. record r { force_full_refresh = if on then 1 else 0 }) (λ _ r. refl) (λ _ r. refl))
      (exec-Commits (set_force (normalize ticker) on)) v
perform-IsValid (force_all on) w v =
    kept (set_watchitem_force_refresh_all on) (of_stmt (set_force_all on)) w
      (update-Keeps (λ _. true)
        (λ n r. record r {
          status = "pending";
          last_updated = n;
          force_full_refresh = if on then 1 else 0;
        })
        (λ _ r. refl) (λ _ r. refl))
      (exec-Commits (set_force_all on)) v
perform-IsValid (set_priority_of ticker priority) w v =
    kept (update_watchitem_priority ticker priority)
      (of_stmt (set_priority (normalize ticker) priority)) w
      (update-Keeps (has_ticker (normalize ticker))
        (λ n r. record r { priority = priority; status = "pending"; last_updated = n })
        (λ _ r. refl) (λ _ r. refl))
      (exec-Commits (set_priority (normalize ticker) priority)) v
perform-IsValid (set_status_of ticker status) w v =
    kept (update_watchitem_status ticker status) (of_stmt (set_status (normalize ticker) status)) w
      (update-Keeps (has_ticker (normalize ticker))
        (λ n r. record r { status = status; last_updated = n }) (λ _ r. refl) (λ _ r. refl))
      (exec-Commits (set_status (normalize ticker) status)) v
perform-IsValid (delete ticker) w v =
    kept (delete_watchitem ticker) (of_stmt (delete_ticker (normalize ticker))) w
      (delete-Keeps (normalize ticker)) (exec-Commits (delete_ticker (normalize ticker))) v

-- Whatever operations run in whatever order, at any times and under any answers of SQLite, the
-- committed watchlist keeps its invariant: ids are positive, rise along the table and stay within the
-- sequence, and no ticker has two rows.
pub run-IsValid :
    (w : World) (es : List Event) → IsValid (committed w) → IsValid (committed (run w es))
unfolding run
run-IsValid w [] v = v
run-IsValid w (e ∷ es) v =
    run-IsValid (perform e.op (record w { now = e.at; outcomes = e.answers })) es
      (perform-IsValid e.op (record w { now = e.at; outcomes = e.answers }) v)
