-- ===== src/Db/Watchlist/Add.antt =====
-- `AddWatchitem`: the row that it leaves behind and the item that it returns.
use mathlib.Core.Option
use fin_base.Base.{ℕ, ◌≡◌, refl, ap, ◌≢◌, ◌⊎◌, inl, inr, String, true, Option, none, some, arith}
use fin_base.Base.Int.{ℤ}
use fin_base.Db.Models.{WatchRow, Watchitem}
use fin_base.Db.Tx.{Result, ok, err, World, exec, with_tx}
use fin_base.Db.Tx.Laws.{
  Effect, of_stmt, then_effect, Executed, Ran, Runs, exec-Executed, Commits, exec-Runs, bind-Runs,
  with_tx-Commits,
}
use fin_base.Db.Watchlist.{
  new_row, upsert_watchitem, select_ticker, scan_row, add_body, read_back, added_item,
}
use fin_base.Db.Watchlist.Lookup.{row_of}

-- What `AddWatchitem` promises: a row that is pending with a forced refresh, and the item for it.
abbrev pub Adds : String → ℤ → Effect Watchitem
Adds ticker priority n t item t' =
    ((id : ℕ) × (row_of ticker t' ≡ some (new_row id ticker priority n)))
    × (item.ticker ≡ ticker)
    × (item.priority ≡ priority)
    × (item.status ≡ "pending")
    × (item.force_full_refresh ≡ true)
    × ((other : String) → other ≢ ticker → row_of other t' ≡ row_of other t)

module _ (last_id : ℕ) (ticker : String) (priority : ℤ) where
  -- The upsert leaves the row, under an old or a new id.
  abbrev Upserts : Effect ℕ
  Upserts n t _ t' =
      ((id : ℕ) × (row_of ticker t' ≡ some (new_row id ticker priority n)))
      × ((other : String) → other ≢ ticker → row_of other t' ≡ row_of other t)

  -- Reading back changes nothing, and returns the row or what was to be written.
  abbrev pub ReadsBack : ℕ → Effect Watchitem
  ReadsBack id n t item t' =
      (t' ≡ t)
      × (((r : WatchRow) × (row_of ticker t ≡ some r) × (item ≡ scan_row r))
          ⊎ (item ≡ added_item id ticker priority n))

  read_go :
      (id : ℕ) (w : World) (s : Result (Option WatchRow) × World)
      → Executed (select_ticker ticker) w s
      → Ran (ReadsBack id) w (read_back id ticker priority s)
  unfolding read_back select_ticker
  read_go id w (ok (some r), w') (h, s, n) = ((ground arith, inl (r, ground arith, refl)), s, n)
  read_go id w (ok none, w') (h, s, n) =
      ((ground arith, inr (ap (added_item id ticker priority) n)), s, n)
  read_go id w (err e, w') (v, s, n) = ((v, inr (ap (added_item id ticker priority) n)), s, n)

  add_body-Runs :
      Runs
        (add_body last_id ticker priority)
        (then_effect (of_stmt (upsert_watchitem last_id ticker priority)) ReadsBack)
  unfolding add_body
  add_body-Runs =
      bind-Runs (exec (upsert_watchitem last_id ticker priority))
        (λ id w. read_back id ticker priority (exec (select_ticker ticker) w))
        (of_stmt (upsert_watchitem last_id ticker priority)) ReadsBack
        (exec-Runs (upsert_watchitem last_id ticker priority))
        (λ id w.
          read_go id w (exec (select_ticker ticker) w) (exec-Executed (select_ticker ticker) w))

pub add_body-Commits :
    (last_id : ℕ) (ticker : String) (priority : ℤ)
    → Commits (with_tx (add_body last_id ticker priority)) (
        then_effect
          (of_stmt (upsert_watchitem last_id ticker priority))
          (ReadsBack last_id ticker priority))
add_body-Commits last_id ticker priority =
    with_tx-Commits (add_body last_id ticker priority)
      (then_effect (of_stmt (upsert_watchitem last_id ticker priority))
        (ReadsBack last_id ticker priority))
      (add_body-Runs last_id ticker priority)
