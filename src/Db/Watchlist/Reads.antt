-- ===== src/Db/Watchlist/Reads.antt =====
-- The plain reads of the watchlist and of the action history (db/db.go). A row that is read has a
-- valid timestamp, as SQLite writes it; 0 is the zero time.
pub mod Listing
use fin_base.Base.{
  ℕ, suc, ◌+◌, ◌-◌, String, str_eq, Bool, true, false, not, ◌&&◌, ◌||◌, List, [], ◌∷◌, Option, none,
  some, map, keep, if◌then◌else◌, ltb, leb, ◌==◌, length,
}
use fin_base.Base.Int.{ℤ, lt_int, pos, negsuc}
use fin_base.Base.Text.{to_lower}
use fin_base.Db.Models.{Watchitem, WatchRow, ActionHistory, JobStatusSummary, Tables}
use fin_base.Db.Tx.{Result, ok, err, World, M, ◌>>=◌, pure, query}
use fin_base.Db.Sorting.{sort_by, take}
use fin_base.Db.Watchlist.{is_eligible, precedes, first_by}

-- The five minutes after which a ticker is due.
abbrev pub due_from : ℕ → ℕ → ℕ
due_from now last_updated = if last_updated == 0 then now else last_updated + 300

unfoldable pub list_item : ℕ → WatchRow → Watchitem
list_item now r = record {
  id = r.id;
  ticker = r.ticker;
  priority = r.priority;
  status = r.status;
  last_updated = r.last_updated;
  next_update_time = due_from now r.last_updated;
  force_full_refresh = not (r.force_full_refresh == 0);
}

-- ORDER BY priority DESC, id ASC
unfoldable pub listed_before : WatchRow → WatchRow → Bool
listed_before r s =
    lt_int s.priority r.priority || not (lt_int r.priority s.priority) && ltb r.id s.id

-- `DB.GetWatchlist`
unfoldable pub get_watchlist : M (List Watchitem)
unfolding query sort_by listed_before list_item
get_watchlist = query λ now t. map (list_item now) (sort_by listed_before t.watchlist)

-- A row of "SELECT status, COUNT(*) … GROUP BY status"
pub record StatusCount : Type 0 where
  pub status : String
  pub count : ℕ

unfoldable pub count_in : String → List StatusCount → List StatusCount
count_in status [] = record { status = status; count = 1 } ∷ []
count_in status (g ∷ gs) =
    let rest = count_in status gs in
    if str_eq g.status status then record g { count = suc g.count } ∷ gs else g ∷ rest

unfoldable pub group_by_status : List WatchRow → List StatusCount
unfolding count_in
group_by_status [] = []
group_by_status (r ∷ rs) = count_in r.status (group_by_status rs)

-- The `switch` on a group's status.
unfoldable pub put_count : String → ℕ → JobStatusSummary → JobStatusSummary
put_count status count s =
    if str_eq status "pending"
    then record s { pending = count }
    else if str_eq status "queued"
    then record s { queued = count }
    else if str_eq status "processing"
    then record s { processing = count }
    else if str_eq status "completed"
    then record s { completed = count }
    else if str_eq status "error"
    then record s { error = count }
    else s

unfoldable pub summarise : List StatusCount → JobStatusSummary → JobStatusSummary
unfolding put_count
summarise [] s = s
summarise (g ∷ gs) s =
    summarise gs (put_count (to_lower g.status) g.count (record s { total = s.total + g.count }))

abbrev pub no_jobs : JobStatusSummary
no_jobs = record { pending = 0; queued = 0; processing = 0; completed = 0; error = 0; total = 0 }

-- `DB.GetJobStatusSummary`
unfoldable pub get_job_status_summary : M JobStatusSummary
unfolding query group_by_status summarise
get_job_status_summary = query λ _ t. summarise (group_by_status t.watchlist) no_jobs

-- The limit of the history, 50 where none is given.
abbrev pub history_limit : ℤ → ℕ
history_limit (pos n) = if n == 0 then 50 else n
history_limit (negsuc n) = 50

-- `DB.GetRecentActionHistory`
unfoldable pub get_recent_action_history : ℤ → M (List ActionHistory)
unfolding query sort_by take
get_recent_action_history limit =
    query
      λ _ t. take (history_limit limit) (sort_by (λ (x y : ActionHistory). ltb y.id x.id) t.history)

-- The scan without the force flag and the next update.
unfoldable pub scan_next : Option WatchRow → Option Watchitem
scan_next none = none
scan_next (some r) = some (record {
  id = r.id;
  ticker = r.ticker;
  priority = r.priority;
  status = r.status;
  last_updated = r.last_updated;
  next_update_time = 0;
  force_full_refresh = false;
})

-- `DB.FetchNextWatchitem`
unfoldable pub fetch_next_watchitem : M (Option Watchitem)
unfolding query first_by is_eligible precedes scan_next
fetch_next_watchitem =
    query λ now t. scan_next (first_by precedes (keep (is_eligible now) t.watchlist))

-- ORDER BY priority DESC, last_updated ASC
abbrev pub pending_before : WatchRow → WatchRow → Bool
pending_before r s =
    lt_int s.priority r.priority
    || not (lt_int r.priority s.priority) && ltb r.last_updated s.last_updated

-- `DB.FetchNextPendingWatchitem`
unfoldable pub fetch_next_pending_watchitem : M (Option Watchitem)
unfolding query first_by scan_next
fetch_next_pending_watchitem = query λ _ t.
    scan_next
      (first_by pending_before (keep (λ (r : WatchRow). str_eq r.status "pending") t.watchlist))
