-- ===== src/Db/Watchlist/Frame.antt =====
-- The watchlist operations leave the table of keys alone.
use fin_base.Base.{ℕ, ◌≡◌, ap, ◌∙◌, inl, inr, String, Option, none, some, arith, any, Bool-cases}
use fin_base.Base.Int.{ℤ}
use fin_base.Base.Text.{normalize}
use fin_base.Db.Models.{WatchRow, Tables}
use fin_base.Db.Tx.{Result, ok, err, World, committed, M, with_tx}
use fin_base.Db.Tx.Laws.{Effect, of_stmt, then_effect, Ended, Commits, exec-Commits}
use fin_base.Db.Watchlist.{
  has_ticker, upsert_watchitem, add_body, fetch_and_queue_body, select_next, mark_queued, set_force,
  set_force_all, set_priority, set_status, delete_ticker,
}
use fin_base.Db.Watchlist.Fetch.{fetch_effect, queue_effect, fetch-Commits}
use fin_base.Db.Watchlist.Add.{ReadsBack, add_body-Commits}
use fin_base.Db.Watchlist.Runs.{
  WatchOp, add, fetch, force, force_all, set_priority_of, set_status_of, delete, perform,
  same_world,
}

-- An effect that leaves the keys.
abbrev LeavesKeys : {A : Type 0} → Effect A → Type 0
LeavesKeys {A} R = (n : ℕ) (t : Tables) (a : A) (u : Tables) → R n t a u → u.api_keys ≡ t.api_keys

keys_go :
    {A : Type 0} (R : Effect A) (w : World) (r : Result A × World)
    → LeavesKeys R
    → Ended R w r
    → (committed r.1).api_keys ≡ (committed w).api_keys
keys_go R w (ok a, w') k h = k _ _ _ _ h.0
keys_go R w (err e, w') k h = ap (λ (t : Tables). t.api_keys) h.0

left :
    {A : Type 0} (m : M A) (R : Effect A) (w : World)
    → LeavesKeys R
    → Commits m R
    → (committed (m w).1).api_keys ≡ (committed w).api_keys
left m R w k c = keys_go R w (m w) k (c w)

upsert-LeavesKeys :
    (last_id : ℕ) (ticker : String) (priority : ℤ)
    → LeavesKeys (of_stmt (upsert_watchitem last_id ticker priority))
unfolding upsert_watchitem
upsert-LeavesKeys last_id ticker priority n t a u h =
    elim (Bool-cases (any (has_ticker ticker) t.watchlist)) [
      | inl q ↦ ground (arith, h, q)
      | inr q ↦ ground (arith, h, q)
    ]

add-LeavesKeys :
    (last_id : ℕ) (ticker : String) (priority : ℤ)
    → LeavesKeys (
        then_effect
          (of_stmt (upsert_watchitem last_id ticker priority))
          (ReadsBack last_id ticker priority))
add-LeavesKeys last_id ticker priority n t a u (id, v, h, (e, _)) =
    ap (λ (x : Tables). x.api_keys) e ∙ upsert-LeavesKeys last_id ticker priority n t id v h

queue-LeavesKeys : (o : Option WatchRow) → LeavesKeys (queue_effect o)
unfolding mark_queued
queue-LeavesKeys none n t a u (_, e) = ap (λ (x : Tables). x.api_keys) e
queue-LeavesKeys (some r) n t a u (x, v, h, (_, e)) = ground (arith, e, h)

fetch-LeavesKeys : LeavesKeys fetch_effect
unfolding select_next
fetch-LeavesKeys n t a u (o, v, h, q) = ground (arith, queue-LeavesKeys o n v a u q, h)

-- Whatever operation of the watchlist runs, and whatever SQLite answers, the table of keys is as before.
pub perform-api_keys :
    (op : WatchOp) (w : World) → (committed (perform op w)).api_keys ≡ (committed w).api_keys
unfolding perform set_force set_force_all set_priority set_status delete_ticker
perform-api_keys (add last_id ticker priority) w =
    left (with_tx (add_body last_id (normalize ticker) priority)) _ w
      (add-LeavesKeys last_id (normalize ticker) priority)
      (add_body-Commits last_id (normalize ticker) priority)
perform-api_keys fetch w =
    ap (λ u. (committed u).api_keys) (same_world (with_tx fetch_and_queue_body w))
    ∙ left (with_tx fetch_and_queue_body) fetch_effect w fetch-LeavesKeys fetch-Commits
perform-api_keys (force ticker on) w =
    left _ (of_stmt (set_force (normalize ticker) on)) w (λ n t a u h. ground arith)
      (exec-Commits (set_force (normalize ticker) on))
perform-api_keys (force_all on) w =
    left _ (of_stmt (set_force_all on)) w (λ n t a u h. ground arith)
      (exec-Commits (set_force_all on))
perform-api_keys (set_priority_of ticker priority) w =
    left _ (of_stmt (set_priority (normalize ticker) priority)) w (λ n t a u h. ground arith)
      (exec-Commits (set_priority (normalize ticker) priority))
perform-api_keys (set_status_of ticker status) w =
    left _ (of_stmt (set_status (normalize ticker) status)) w (λ n t a u h. ground arith)
      (exec-Commits (set_status (normalize ticker) status))
perform-api_keys (delete ticker) w =
    left _ (of_stmt (delete_ticker (normalize ticker))) w (λ n t a u h. ground arith)
      (exec-Commits (delete_ticker (normalize ticker)))
