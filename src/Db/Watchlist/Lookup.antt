-- ===== src/Db/Watchlist/Lookup.antt =====
-- The watchlist as a map from tickers: what each operation does to the row of its ticker, and that
-- it leaves the others alone.
use mathlib.Core.Option
use fin_base.Base.{
  ne-str_eq, ℕ, ◌≡◌, sym, refl, ap, ◌≢◌, ◌∙◌, inl, inr, String, str_eq, str_eq_iff, Bool, true,
  false, List, [], ◌∷◌, Option, none, some, arith, keep, find, not, if◌then◌else◌, Bool-cases,
}
use fin_base.Base.Int.{ℤ}
use fin_base.Base.Text.{normalize}
use fin_base.Db.Models.{WatchRow, Tables}
use fin_base.Db.Tx.{Stmt, exec, with_tx}
use fin_base.Db.Tx.Laws.{Effect, of_stmt, Commits, exec-Commits, Commits-weaken}
use fin_base.Db.Watchlist.{
  update_where, has_ticker, set_force, set_watchitem_force_refresh, set_priority,
  update_watchitem_priority, set_status, update_watchitem_status, delete_ticker, delete_watchitem,
  on_watchlist,
}

-- The row of a ticker.
abbrev pub row_of : String → Tables → Option WatchRow
row_of ticker t = find (has_ticker ticker) t.watchlist

module _ (ticker : String) (f : WatchRow → WatchRow)
    (same : (r : WatchRow) → (f r).ticker ≡ r.ticker) where
  pub find-update_self :
      (rows : List WatchRow)
      → find (has_ticker ticker) (update_where (has_ticker ticker) f rows)
        ≡ Option.map f (find (has_ticker ticker) rows)
  unfolding update_where
  find-update_self [] = refl
  find-update_self (r ∷ rs) = elim (Bool-cases (str_eq r.ticker ticker)) [
    | inl e ↦ rw (e, same r, e) refl
    | inr e ↦ rw (e, e) (find-update_self rs)
  ]

  pub find-update_ne :
      (other : String) (rows : List WatchRow)
      → other ≢ ticker
      → find (has_ticker other) (update_where (has_ticker ticker) f rows)
        ≡ find (has_ticker other) rows
  unfolding update_where
  find-update_ne other [] ne = refl
  find-update_ne other (r ∷ rs) ne = elim (Bool-cases (str_eq r.ticker ticker)) [
    | inl e ↦ rw (e, same r, differs r e) (find-update_ne other rs ne)
    | inr e ↦
        rw e (ap (λ o. if str_eq r.ticker other then some r else o) (find-update_ne other rs ne))
  ]
    where
      differs : (r : WatchRow) → str_eq r.ticker ticker ≡ true → str_eq r.ticker other ≡ false
      differs r e = ne-str_eq r.ticker other (λ q. ne (sym q ∙ (str_eq_iff r.ticker ticker).0 e))

-- One row is changed by `f`, which sees the time; every other ticker keeps its row.
abbrev pub Touches : String → (ℕ → WatchRow → WatchRow) → Effect (Unit {0})
Touches ticker f n t _ t' =
    (row_of ticker t' ≡ Option.map (f n) (row_of ticker t))
    × ((other : String) → other ≢ ticker → row_of other t' ≡ row_of other t)

update-Touches :
    (ticker : String) (f : ℕ → WatchRow → WatchRow)
    → ((n : ℕ) (r : WatchRow) → (f n r).ticker ≡ r.ticker)
    → (n : ℕ) (t : Tables) (a : Unit {0}) (u : Tables)
    → of_stmt (on_watchlist (λ m. update_where (has_ticker ticker) (f m))) n t a u
    → Touches ticker f n t a u
update-Touches ticker f same n t a u h =
    let e : u.watchlist ≡ update_where (has_ticker ticker) (f n) t.watchlist = ground arith in
    (
      ap (find (has_ticker ticker)) e ∙ find-update_self ticker (f n) (same n) t.watchlist,
      λ other ne.
          ap (find (has_ticker other)) e
          ∙ find-update_ne ticker (f n) (same n) other t.watchlist ne,
    )

touch-Commits :
    (ticker : String) (f : ℕ → WatchRow → WatchRow)
    → ((n : ℕ) (r : WatchRow) → (f n r).ticker ≡ r.ticker)
    → Commits
        (with_tx (exec (on_watchlist (λ m. update_where (has_ticker ticker) (f m)))))
        (Touches ticker f)
touch-Commits ticker f same =
    let st : Stmt (Unit {0}) = on_watchlist (λ m. update_where (has_ticker ticker) (f m)) in
    Commits-weaken (with_tx (exec st)) (of_stmt st) (Touches ticker f)
      (update-Touches ticker f same) (exec-Commits st)

-- The three updates by ticker, whatever SQLite answers: the row of the trimmed upper-case ticker, if
-- there is one, gets the new status and time, the new force flag alone, or the new priority with
-- status pending and the time; all other rows are kept; and an error changes nothing.
pub updates-Touches :
    (ticker status : String) (force : Bool) (priority : ℤ)
    → Commits
        (update_watchitem_status ticker status)
        (Touches (normalize ticker) (λ n r. record r { status = status; last_updated = n }))
      × Commits (set_watchitem_force_refresh ticker force) (
          Touches
            (normalize ticker)
            (λ n r. record r { force_full_refresh = if force then 1 else 0 }))
      × Commits (update_watchitem_priority ticker priority) (
          Touches
            (normalize ticker)
            (λ n r. record r { priority = priority; status = "pending"; last_updated = n }))
unfolding update_watchitem_status set_watchitem_force_refresh update_watchitem_priority set_status
    set_force set_priority
updates-Touches ticker status force priority = (
  touch-Commits (normalize ticker) (λ n r. record r { status = status; last_updated = n })
      (λ n r. refl),
  touch-Commits (normalize ticker) (λ n r. record r { force_full_refresh = if force then 1 else 0 })
      (λ n r. refl),
  touch-Commits (normalize ticker)
      (λ n r. record r { priority = priority; status = "pending"; last_updated = n }) (λ n r. refl),
)

find-drop_self :
    (ticker : String) (rows : List WatchRow)
    → find (has_ticker ticker) (keep (λ r. not (has_ticker ticker r)) rows) ≡ none
find-drop_self ticker [] = refl
find-drop_self ticker (r ∷ rs) = elim (Bool-cases (str_eq r.ticker ticker)) [
  | inl e ↦ rw e (find-drop_self ticker rs)
  | inr e ↦ rw (e, e) (find-drop_self ticker rs)
]

find-drop_ne :
    (ticker other : String) (rows : List WatchRow)
    → other ≢ ticker
    → find (has_ticker other) (keep (λ r. not (has_ticker ticker r)) rows)
      ≡ find (has_ticker other) rows
find-drop_ne ticker other [] ne = refl
find-drop_ne ticker other (r ∷ rs) ne = elim (Bool-cases (str_eq r.ticker ticker)) [
  | inl e ↦
      rw (e, ne-str_eq r.ticker other (λ q. ne (sym q ∙ (str_eq_iff r.ticker ticker).0 e)))
        (find-drop_ne ticker other rs ne)
  | inr e ↦
      rw e (ap (λ o. if str_eq r.ticker other then some r else o) (find-drop_ne ticker other rs ne))
]

abbrev pub Removes : String → Effect (Unit {0})
Removes ticker n t _ t' =
    (row_of ticker t' ≡ none)
    × ((other : String) → other ≢ ticker → row_of other t' ≡ row_of other t)

delete_ticker-Removes :
    (ticker : String) (n : ℕ) (t : Tables) (a : Unit {0}) (u : Tables)
    → of_stmt (delete_ticker ticker) n t a u
    → Removes ticker n t a u
unfolding delete_ticker
delete_ticker-Removes ticker n t a u h =
    let e : u.watchlist ≡ keep (λ r. not (has_ticker ticker r)) t.watchlist = ground arith in
    (
      ap (find (has_ticker ticker)) e ∙ find-drop_self ticker t.watchlist,
      λ other ne. ap (find (has_ticker other)) e ∙ find-drop_ne ticker other t.watchlist ne,
    )

-- After `DeleteWatchitem` the trimmed upper-case ticker has no row and every other ticker has its
-- row as before, whatever SQLite answers; an error changes nothing.
pub delete-Removes :
    (ticker : String) → Commits (delete_watchitem ticker) (Removes (normalize ticker))
unfolding delete_watchitem
delete-Removes ticker =
    Commits-weaken (with_tx (exec (delete_ticker (normalize ticker))))
      (of_stmt (delete_ticker (normalize ticker))) (Removes (normalize ticker))
      (delete_ticker-Removes (normalize ticker)) (exec-Commits (delete_ticker (normalize ticker)))
