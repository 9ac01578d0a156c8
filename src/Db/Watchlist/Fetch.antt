-- ===== src/Db/Watchlist/Fetch.antt =====
-- Which row `FetchAndQueueNextWatchitem` takes, and what it does to the table.
use fin_base.Base.{
  ℕ, ◌<◌, ◌≡◌, sym, subst, refl, ◌⊎◌, inl, inr, true, false, List, [], ◌∷◌, Option, none, some,
  arith, All, keep, Bool-cases,
}
use fin_base.Db.Models.{WatchRow, Watchitem, Tables}
use fin_base.Db.Tx.{Result, ok, err, World, committed, exec, with_tx, pure}
use fin_base.Db.Tx.Laws.{
  Effect, of_stmt, then_effect, pure_effect, Runs, Ended, Commits, exec-Runs, bind-Runs, pure-Runs,
  with_tx-Commits,
}
use fin_base.Db.Watchlist.{
  is_eligible, precedes, better, first_by, select_next, mark_queued, queue_row,
  fetch_and_queue_body, fetch_and_queue_next_watchitem, scan_row, update_where, has_id, item_or_nil,
}

precedes_irrefl : (r : WatchRow) → precedes r r ≡ false
unfolding precedes
precedes_irrefl r = ground arith

-- If `s` is not after `r`, and `t` is not before `s`, then `t` is not before `r`.
precedes_chain :
    (r s t : WatchRow) → precedes r s ≡ false → precedes t r ≡ false → precedes t s ≡ false
unfolding precedes
precedes_chain r s t h k = ground arith

precedes_asym : (r s : WatchRow) → precedes r s ≡ true → precedes s r ≡ false
unfolding precedes
precedes_asym r s h = ground arith

-- `r` is a row of the list.
abbrev pub Occurs : WatchRow → List WatchRow → Type 0
Occurs r [] = ⊥
Occurs r (x ∷ xs) = (x ≡ r) ⊎ Occurs r xs

-- What a scheduler promises of the row that it takes at time `n`: it waits to be processed, and no
-- other row that waits should come first; or no row waits.
abbrev pub IsNext : ℕ → List WatchRow → Option WatchRow → Type 0
IsNext n rows none = All (λ s. is_eligible n s ≡ false) rows
IsNext n rows (some r) =
    Occurs r rows
    × (is_eligible n r ≡ true)
    × All (λ s. is_eligible n s ≡ true → precedes s r ≡ false) rows

All-none :
    (n : ℕ) (r : WatchRow) (rows : List WatchRow)
    → All (λ s. is_eligible n s ≡ false) rows
    → All (λ s. is_eligible n s ≡ true → precedes s r ≡ false) rows
All-none n r [] h = tt
All-none n r (x ∷ xs) h = (λ e. cc, All-none n r xs h.1)

All-worse :
    (n : ℕ) (r s : WatchRow) (rows : List WatchRow)
    → precedes s r ≡ false
    → All (λ t. is_eligible n t ≡ true → precedes t s ≡ false) rows
    → All (λ t. is_eligible n t ≡ true → precedes t r ≡ false) rows
All-worse n r s [] h k = tt
All-worse n r s (x ∷ xs) h k = (λ e. precedes_chain s r x h (k.0 e), All-worse n r s xs h k.1)

better-IsNext :
    (n : ℕ) (x : WatchRow) (xs : List WatchRow) (o : Option WatchRow)
    → is_eligible n x ≡ true
    → IsNext n xs o
    → IsNext n (x ∷ xs) (better precedes x o)
unfolding better
better-IsNext n x xs none e h = (inl refl, e, (λ _. precedes_irrefl x, All-none n x xs h))
better-IsNext n x xs (some s) e h = elim (Bool-cases (precedes s x)) [
  | inl first ↦ rw first (inr h.0, h.1, (λ _. precedes_asym s x first, h.2))
  | inr later ↦ rw later (inl refl, e, (λ _. precedes_irrefl x, All-worse n x s xs later h.2))
]

skip-IsNext :
    (n : ℕ) (x : WatchRow) (xs : List WatchRow) (o : Option WatchRow)
    → is_eligible n x ≡ false
    → IsNext n xs o
    → IsNext n (x ∷ xs) o
skip-IsNext n x xs none e h = (e, h)
skip-IsNext n x xs (some s) e h = (inr h.0, h.1, (λ k. cc, h.2))

pub select-IsNext :
    (n : ℕ) (rows : List WatchRow) → IsNext n rows (first_by precedes (keep (is_eligible n) rows))
unfolding first_by
select-IsNext n [] = tt
select-IsNext n (x ∷ xs) = elim (Bool-cases (is_eligible n x)) [
  | inl e ↦ rw e (better-IsNext n x xs _ e (select-IsNext n xs))
  | inr e ↦ rw e (skip-IsNext n x xs _ e (select-IsNext n xs))
]

-- The effects of the two statements of the transaction.
abbrev pub queue_effect : Option WatchRow → Effect (Option Watchitem)
queue_effect none = pure_effect none
queue_effect (some r) =
    then_effect (of_stmt (mark_queued r.id)) (λ _. pure_effect (some (scan_row r)))

abbrev pub fetch_effect : Effect (Option Watchitem)
fetch_effect = then_effect (of_stmt select_next) queue_effect

queue_row-Runs : (o : Option WatchRow) → Runs (queue_row o) (queue_effect o)
unfolding queue_row
queue_row-Runs none = pure-Runs none
queue_row-Runs (some r) =
    bind-Runs (exec (mark_queued r.id)) (λ _. pure (some (scan_row r))) (of_stmt (mark_queued r.id))
      (λ _. pure_effect (some (scan_row r))) (exec-Runs (mark_queued r.id))
      (λ _. pure-Runs (some (scan_row r)))

pub fetch-Commits : Commits (with_tx fetch_and_queue_body) fetch_effect
unfolding fetch_and_queue_body
fetch-Commits = with_tx-Commits fetch_and_queue_body fetch_effect (
    bind-Runs (exec select_next) queue_row (of_stmt select_next) queue_effect
      (exec-Runs select_next) queue_row-Runs)

-- The table behind the fetch: the row that was taken is queued, as of time `n`.
abbrev pub queued_table : ℕ → WatchRow → Tables → Tables
queued_table n r t = record t {
  watchlist =
      update_where (has_id r.id) (λ s. record s { status = "queued"; last_updated = n })
        t.watchlist;
}

-- What a fetch promises: the next row, queued and returned as it stood before; or nothing, if no row
-- waits; and an unchanged table if it returns an error.
abbrev pub Fetched : World → Result (Option Watchitem) × World → Type 0
Fetched w (ok none, w') = IsNext w.now (committed w).watchlist none × (committed w' ≡ committed w)
Fetched w (ok (some item), w') =
    (r : WatchRow) × IsNext w.now (committed w).watchlist (some r)
    × (item ≡ scan_row r)
    × (committed w' ≡ queued_table w.now r (committed w))
Fetched w (err e, w') = committed w' ≡ committed w

pub Occurs-All {κ} :
    (P : WatchRow → Type κ) (r : WatchRow) (rows : List WatchRow) → Occurs r rows → All P rows → P r
Occurs-All P r [] o h = absurd o
Occurs-All P r (x ∷ xs) (inl e) h = subst P e h.0
Occurs-All P r (x ∷ xs) (inr o) h = Occurs-All P r xs o h.1

nonzero_id : (r : WatchRow) → 0 < r.id → item_or_nil (some (scan_row r)) ≡ some (scan_row r)
unfolding scan_row
nonzero_id r h = ground arith

taken :
    (w : World) (o : Option WatchRow) (a : Option Watchitem) (w' : World)
    → IsNext w.now (committed w).watchlist o
    → All (λ r. 0 < r.id) (committed w).watchlist
    → queue_effect o w.now (committed w) a (committed w')
    → Fetched w (ok (item_or_nil a), w')
unfolding mark_queued
taken w none a w' next pos (e, f) =
    subst (λ b. Fetched w (ok (item_or_nil b), w')) (sym e) (next, f)
taken w (some r) a w' next pos (_, u, q, (e, f)) =
    let g : committed w' ≡ queued_table w.now r (committed w) = ground arith in
    subst (λ b. Fetched w (ok (item_or_nil b), w')) (sym e)
      (subst (λ b. Fetched w (ok b, w'))
        (sym (nonzero_id r (Occurs-All (λ s. 0 < s.id) r _ next.0 pos))) (r, next, refl, g))

fetched_go :
    (w : World) (s : Result (Option Watchitem) × World)
    → All (λ r. 0 < r.id) (committed w).watchlist
    → Ended fetch_effect w s
    → Fetched w
        (let (r, w') = s in elim r [ ok a ↦ (ok (item_or_nil a), w') | err e ↦ (err e, w') ])
unfolding select_next
fetched_go w (err e, w') pos h = h.0
fetched_go w (ok a, w') pos ((o, u, s, q), _, _) =
    taken w o a w'
      (subst (IsNext w.now (committed w).watchlist) (ground arith)
        (select-IsNext w.now (committed w).watchlist))
      pos (subst (λ v. queue_effect o w.now v a (committed w')) (ground arith) q)

-- The scheduler is right, whatever SQLite answers: where row ids are positive,
-- `FetchAndQueueNextWatchitem` returns, as it stood, an eligible row that no eligible row precedes
-- (pending first, then higher priority, then longer without an update) and queues it alone as of
-- now; it returns nothing exactly if no row is eligible, and changes nothing then or on an error.
pub fetch_and_queue-Fetched :
    (w : World)
    → All (λ r. 0 < r.id) (committed w).watchlist
    → Fetched w (fetch_and_queue_next_watchitem w)
unfolding fetch_and_queue_next_watchitem
fetch_and_queue-Fetched w pos = fetched_go w (with_tx fetch_and_queue_body w) pos (fetch-Commits w)
