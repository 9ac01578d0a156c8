-- ===== src/Db/Watchlist.antt =====
-- The watchlist operations of db/db.go. `Stmt`s are its SQL statements; the tests in a WHERE or
-- ORDER BY clause are functions of a row.
pub mod Fetch
pub mod Lookup
pub mod Reads
pub mod Add
pub mod Runs
pub mod Frame
pub mod Handout
mod Tests
pub mod Invariant
use fin_base.Base.{
  ℕ, suc, ◌+◌, String, str_eq, Bool, true, false, not, ◌&&◌, ◌||◌, List, [], ◌∷◌, ◌++◌, map, Option,
  none, some, if◌then◌else◌, ltb, leb, ◌==◌, keep, find, any, length,
}
use fin_base.Base.Int.{ℤ, lt_int}
use fin_base.Base.Text.{normalize, to_lower}
use fin_base.Db.Models.{Watchitem, WatchRow, Tables, JobStatusSummary}
use fin_base.Db.Tx.{Result, ok, err, World, M, ◌>>=◌, ◌>>◌, pure, Stmt, exec, with_tx, query}

-- `UPDATE watchlist SET … WHERE …`
unfoldable pub update_where :
    (WatchRow → Bool) → (WatchRow → WatchRow) → List WatchRow → List WatchRow
update_where p f [] = []
update_where p f (r ∷ rs) = (if p r then f r else r) ∷ update_where p f rs

abbrev pub has_ticker : String → WatchRow → Bool
has_ticker ticker r = str_eq r.ticker ticker

abbrev pub on_watchlist : (ℕ → List WatchRow → List WatchRow) → Stmt (Unit {0})
on_watchlist f n t = ok (tt, record t { watchlist = f n t.watchlist })

-- The row that an INSERT adds, and what ON CONFLICT(ticker) makes of the row that is there.
abbrev pub new_row : ℕ → String → ℤ → ℕ → WatchRow
new_row id ticker priority n = record {
  id = id;
  ticker = ticker;
  priority = priority;
  status = "pending";
  last_updated = n;
  force_full_refresh = 1;
}

abbrev pub readded : ℤ → ℕ → WatchRow → WatchRow
readded priority n r = record r {
  priority = priority;
  status = "pending";
  last_updated = n;
  force_full_refresh = 1;
}

-- "INSERT INTO watchlist … ON CONFLICT(ticker) DO UPDATE …", with what LastInsertId answers:
-- `last_id` where no row is inserted.
unfoldable pub upsert_watchitem : ℕ → String → ℤ → Stmt ℕ
unfolding update_where
upsert_watchitem last_id ticker priority n t =
    if any (has_ticker ticker) t.watchlist
    then ok (
      last_id,
      record t { watchlist = update_where (has_ticker ticker) (readded priority n) t.watchlist },
    )
    else ok (
      suc t.watch_seq,
      record t {
        watchlist = t.watchlist ++ new_row (suc t.watch_seq) ticker priority n ∷ [];
        watch_seq = suc t.watch_seq;
      },
    )

-- "SELECT … FROM watchlist WHERE ticker = ?"
unfoldable pub select_ticker : String → Stmt (Option WatchRow)
select_ticker ticker n t = ok (find (has_ticker ticker) t.watchlist, t)

-- The scan of a row into a `Watchitem`, whose `NextUpdateTime` keeps its zero value.
unfoldable pub scan_row : WatchRow → Watchitem
scan_row r = record {
  id = r.id;
  ticker = r.ticker;
  priority = r.priority;
  status = r.status;
  last_updated = r.last_updated;
  next_update_time = 0;
  force_full_refresh = not (r.force_full_refresh == 0);
}

-- What `AddWatchitem` returns if the row cannot be read back.
unfoldable pub added_item : ℕ → String → ℤ → ℕ → Watchitem
added_item id ticker priority now = record {
  id = id;
  ticker = ticker;
  priority = priority;
  status = "pending";
  last_updated = now;
  next_update_time = 0;
  force_full_refresh = true;
}

read_back : ℕ → String → ℤ → Result (Option WatchRow) × World → Result Watchitem × World
unfolding scan_row added_item
read_back id ticker priority (ok (some r), w) = (ok (scan_row r), w)
read_back id ticker priority (ok none, w) = (ok (added_item id ticker priority w.now), w)
read_back id ticker priority (err e, w) = (ok (added_item id ticker priority w.now), w)

-- The function that `AddWatchitem` runs in its transaction.
unfoldable pub add_body : ℕ → String → ℤ → M Watchitem
unfolding exec upsert_watchitem select_ticker read_back
add_body last_id ticker priority = do
  id ← exec (upsert_watchitem last_id ticker priority)
  λ w. read_back id ticker priority (exec (select_ticker ticker) w)

-- `DB.AddWatchitem`
unfoldable pub add_watchitem : ℕ → String → ℤ → M Watchitem
unfolding with_tx normalize add_body
add_watchitem last_id ticker priority = with_tx (add_body last_id (normalize ticker) priority)

-- The WHERE clause of the two fetch queries: five minutes are 300 seconds.
unfoldable pub is_eligible : ℕ → WatchRow → Bool
is_eligible n r =
    str_eq r.status "pending"
    || not (str_eq r.status "queued" || str_eq r.status "processing")
      && leb (r.last_updated + 300) n

-- CASE WHEN status = 'pending' THEN 0 ELSE 1 END
unfoldable pub rank : WatchRow → ℕ
rank r = if str_eq r.status "pending" then 0 else 1

-- The ORDER BY clause: `r` comes before `s`.
unfoldable pub precedes : WatchRow → WatchRow → Bool
unfolding rank
precedes r s =
    ltb (rank r) (rank s)
    || not (ltb (rank s) (rank r))
      && (lt_int s.priority r.priority
          || not (lt_int r.priority s.priority) && ltb r.last_updated s.last_updated)

-- LIMIT 1: the first row in an order; among equals SQLite may choose any, here the earliest.
unfoldable pub better : (WatchRow → WatchRow → Bool) → WatchRow → Option WatchRow → Option WatchRow
better before r none = some r
better before r (some s) = if before s r then some s else some r

unfoldable pub first_by : (WatchRow → WatchRow → Bool) → List WatchRow → Option WatchRow
unfolding better
first_by before [] = none
first_by before (r ∷ rs) = better before r (first_by before rs)

unfoldable pub select_next : Stmt (Option WatchRow)
unfolding is_eligible precedes first_by
select_next n t = ok (first_by precedes (keep (is_eligible n) t.watchlist), t)

abbrev pub has_id : ℕ → WatchRow → Bool
has_id id r = r.id == id

-- "UPDATE watchlist SET status = 'queued', last_updated = CURRENT_TIMESTAMP WHERE id = ?"
unfoldable pub mark_queued : ℕ → Stmt (Unit {0})
unfolding update_where
mark_queued id =
    on_watchlist λ n. update_where (has_id id) λ r. record r { status = "queued"; last_updated = n }

queue_row : Option WatchRow → M (Option Watchitem)
unfolding exec mark_queued scan_row
queue_row none = pure none
queue_row (some r) = exec (mark_queued r.id) >> pure (some (scan_row r))

-- The function that `FetchAndQueueNextWatchitem` runs in its transaction.
unfoldable pub fetch_and_queue_body : M (Option Watchitem)
unfolding exec select_next queue_row
fetch_and_queue_body = exec select_next >>= queue_row

-- `if item.ID == 0 { return nil, nil }`
abbrev pub item_or_nil : Option Watchitem → Option Watchitem
item_or_nil none = none
item_or_nil (some item) = if item.id == 0 then none else some item

-- `DB.FetchAndQueueNextWatchitem`
unfoldable pub fetch_and_queue_next_watchitem : M (Option Watchitem)
unfolding with_tx fetch_and_queue_body
fetch_and_queue_next_watchitem = with_tx fetch_and_queue_body >>= λ item. pure (item_or_nil item)

-- "UPDATE watchlist SET force_full_refresh = ? WHERE ticker = ?"
unfoldable pub set_force : String → Bool → Stmt (Unit {0})
unfolding update_where
set_force ticker force = on_watchlist λ _.
    update_where (has_ticker ticker) λ r. record r { force_full_refresh = if force then 1 else 0 }

-- `DB.SetWatchitemForceRefresh`
unfoldable pub set_watchitem_force_refresh : String → Bool → M (Unit {0})
unfolding with_tx exec normalize set_force
set_watchitem_force_refresh ticker force = with_tx (exec (set_force (normalize ticker) force))

-- "UPDATE watchlist SET force_full_refresh = ?, status = 'pending', last_updated = …"
unfoldable pub set_force_all : Bool → Stmt (Unit {0})
unfolding update_where
set_force_all force = on_watchlist λ n.
    update_where (λ _. true)
      λ r. record r {
        status = "pending";
        last_updated = n;
        force_full_refresh = if force then 1 else 0;
      }

-- `DB.SetWatchitemForceRefreshAll`
unfoldable pub set_watchitem_force_refresh_all : Bool → M (Unit {0})
unfolding with_tx exec set_force_all
set_watchitem_force_refresh_all force = with_tx (exec (set_force_all force))

-- "UPDATE watchlist SET priority = ?, status = 'pending', last_updated = … WHERE ticker = ?"
unfoldable pub set_priority : String → ℤ → Stmt (Unit {0})
unfolding update_where
set_priority ticker priority = on_watchlist λ n.
    update_where (has_ticker ticker)
      λ r. record r { priority = priority; status = "pending"; last_updated = n }

-- `DB.UpdateWatchitemPriority`
unfoldable pub update_watchitem_priority : String → ℤ → M (Unit {0})
unfolding with_tx exec normalize set_priority
update_watchitem_priority ticker priority =
    with_tx (exec (set_priority (normalize ticker) priority))

-- "UPDATE watchlist SET status = ?, last_updated = CURRENT_TIMESTAMP WHERE ticker = ?"
unfoldable pub set_status : String → String → Stmt (Unit {0})
unfolding update_where
set_status ticker status =
    on_watchlist
      λ n. update_where (has_ticker ticker) λ r. record r { status = status; last_updated = n }

-- `DB.UpdateWatchitemStatus`
unfoldable pub update_watchitem_status : String → String → M (Unit {0})
unfolding with_tx exec normalize set_status
update_watchitem_status ticker status = with_tx (exec (set_status (normalize ticker) status))

-- "DELETE FROM watchlist WHERE ticker = ?"
unfoldable pub delete_ticker : String → Stmt (Unit {0})
delete_ticker ticker = on_watchlist λ _. keep λ r. not (has_ticker ticker r)

-- `DB.DeleteWatchitem`
unfoldable pub delete_watchitem : String → M (Unit {0})
unfolding with_tx exec normalize delete_ticker
delete_watchitem ticker = with_tx (exec (delete_ticker (normalize ticker)))
