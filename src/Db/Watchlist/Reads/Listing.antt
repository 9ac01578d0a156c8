-- ===== src/Db/Watchlist/Reads/Listing.antt =====
-- What the list and the summary of the watchlist promise.
use mathlib.Core.List.{Perm}
use fin_base.Base.{
  ℕ, suc, ◌+◌, ◌≡◌, ap, ◌∙◌, refl, inl, inr, String, str_eq, true, false, List, [], ◌∷◌, arith,
  length, map, keep, Option, Bool-cases,
}
use fin_base.Db.Models.{WatchRow, Watchitem, JobStatusSummary, Tables}
use fin_base.Base.Text.{to_lower}
use fin_base.Db.Tx.{Result, ok, err, World, committed}
use fin_base.Db.Tx.Laws.{Answers, query-Answers}
use fin_base.Db.Sorting.{sort_by}
use fin_base.Db.Sorting.Laws.{IsSorted, sort_by-Perm, sort_by-IsSorted}
use fin_base.Db.Watchlist.{is_eligible, precedes, first_by}
use fin_base.Db.Watchlist.Fetch.{IsNext, select-IsNext}
use fin_base.Db.Watchlist.Reads.{
  listed_before, list_item, get_watchlist, StatusCount, count_in, group_by_status, put_count,
  summarise, scan_next, fetch_next_watchitem, no_jobs, get_job_status_summary,
}

listed_before_asym : (r s : WatchRow) → listed_before r s ≡ true → listed_before s r ≡ false
unfolding listed_before
listed_before_asym r s h = ground arith

listed_before_chain :
    (r s t : WatchRow)
    → listed_before s r ≡ false
    → listed_before t s ≡ false
    → listed_before t r ≡ false
unfolding listed_before
listed_before_chain r s t h k = ground arith

total_of : List StatusCount → ℕ
total_of [] = 0
total_of (g ∷ gs) = g.count + total_of gs

total_of-count_in :
    (status : String) (gs : List StatusCount) → total_of (count_in status gs) ≡ suc (total_of gs)
unfolding total_of count_in
total_of-count_in status [] = refl
total_of-count_in status (g ∷ gs) = elim (Bool-cases (str_eq g.status status)) [
  | inl e ↦ rw e (omega arith)
  | inr e ↦ rw e (omega (arith, total_of-count_in status gs))
]

total_of-group_by_status : (rows : List WatchRow) → total_of (group_by_status rows) ≡ length rows
unfolding total_of group_by_status
total_of-group_by_status [] = refl
total_of-group_by_status (r ∷ rs) =
    total_of-count_in r.status (group_by_status rs) ∙ ap suc (total_of-group_by_status rs)

total-put_count :
    (status : String) (count : ℕ) (s : JobStatusSummary)
    → (put_count status count s).total ≡ s.total
unfolding put_count
total-put_count status count s = ground arith

total-summarise :
    (gs : List StatusCount) (s : JobStatusSummary) → (summarise gs s).total ≡ s.total + total_of gs
unfolding total_of summarise
total-summarise [] s = omega arith
total-summarise (g ∷ gs) s =
    let r : JobStatusSummary = record s { total = s.total + g.count } in
    omega (
      arith,
      total-summarise gs (put_count (to_lower g.status) g.count r),
      total-put_count (to_lower g.status) g.count r,
    )

-- The items are the rows of the table, each once, the higher priority first and the older row first
-- among equals.
abbrev pub Listed : World → Result (List Watchitem) × World → Type 0
Listed w (ok items, w') =
    (rows : List WatchRow) × (items ≡ map (list_item w.now) rows)
    × Perm rows (committed w).watchlist
    × IsSorted listed_before rows
    × (committed w' ≡ committed w)
Listed w (err e, w') = committed w' ≡ committed w

abbrev rows_query : ℕ → Tables → List Watchitem
rows_query = λ now t. map (list_item now) (sort_by listed_before t.watchlist)

read_rows-Listed :
    (w : World) (s : Result (List Watchitem) × World) → Answers rows_query w s → Listed w s
read_rows-Listed w (ok items, w') h = (
  sort_by listed_before (committed w).watchlist,
  h.0,
  sort_by-Perm listed_before (committed w).watchlist,
  sort_by-IsSorted listed_before listed_before_asym listed_before_chain (committed w).watchlist,
  h.1,
)
read_rows-Listed w (err e, w') h = h

-- `GetWatchlist` lists the committed rows, each exactly once, in the order of falling priority and,
-- among equals, of rising id; a failing query gives an error; and nothing is changed in either case.
pub get_watchlist-Listed : (w : World) → Listed w (get_watchlist w)
unfolding get_watchlist
get_watchlist-Listed w = read_rows-Listed w (get_watchlist w) (query-Answers rows_query w)

-- The summary counts every row once.
abbrev pub Summed : World → Result JobStatusSummary × World → Type 0
Summed w (ok s, w') = (s.total ≡ length (committed w).watchlist) × (committed w' ≡ committed w)
Summed w (err e, w') = committed w' ≡ committed w

abbrev summary_query : ℕ → Tables → JobStatusSummary
summary_query = λ _ t. summarise (group_by_status t.watchlist) no_jobs

read_counts-Summed :
    (w : World) (s : Result JobStatusSummary × World) → Answers summary_query w s → Summed w s
read_counts-Summed w (ok s, w') h =
    let total : s.total ≡ (summary_query w.now (committed w)).total =
      ap (λ (x : JobStatusSummary). x.total) h.0 in
    (
      omega (
        arith,
        total,
        total-summarise (group_by_status (committed w).watchlist) no_jobs,
        total_of-group_by_status (committed w).watchlist,
      ),
      h.1,
    )
read_counts-Summed w (err e, w') h = h

-- The total of `GetJobStatusSummary` is the number of committed rows, whatever their statuses; a
-- failing query gives an error; and nothing is changed in either case.
pub get_job_status_summary-Summed : (w : World) → Summed w (get_job_status_summary w)
unfolding get_job_status_summary
get_job_status_summary-Summed w =
    read_counts-Summed w (get_job_status_summary w) (query-Answers summary_query w)

-- The row that is returned is the next one, as it stands.
abbrev pub Peeked : World → Result (Option Watchitem) × World → Type 0
Peeked w (ok item, w') =
    (o : Option WatchRow) × (item ≡ scan_next o)
    × IsNext w.now (committed w).watchlist o
    × (committed w' ≡ committed w)
Peeked w (err e, w') = committed w' ≡ committed w

abbrev next_query : ℕ → Tables → Option Watchitem
next_query = λ now t. scan_next (first_by precedes (keep (is_eligible now) t.watchlist))

read_next-Peeked :
    (w : World) (s : Result (Option Watchitem) × World) → Answers next_query w s → Peeked w s
read_next-Peeked w (ok item, w') h = (
  first_by precedes (keep (is_eligible w.now) (committed w).watchlist),
  h.0,
  select-IsNext w.now (committed w).watchlist,
  h.1,
)
read_next-Peeked w (err e, w') h = h

-- `FetchNextWatchitem` returns an eligible row that no eligible row precedes, or nothing where no row
-- is eligible; a failing query gives an error; and nothing is changed in any case.
pub fetch_next_watchitem-Peeked : (w : World) → Peeked w (fetch_next_watchitem w)
unfolding fetch_next_watchitem
fetch_next_watchitem-Peeked w =
    read_next-Peeked w (fetch_next_watchitem w) (query-Answers next_query w)
