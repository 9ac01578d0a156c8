-- ===== src/Db/Watchlist/Invariant.antt =====
-- What holds of the watchlist between operations: ids rise along the table from 1 and stay below the
-- sequence, and no ticker has two rows, as the schema's PRIMARY KEY AUTOINCREMENT and UNIQUE say.
use fin_base.Base.{
  ℕ, suc, ◌≤◌, ◌<◌, ◌≡◌, refl, String, str_eq, str_eq_iff, Bool, false, List, [], ◌∷◌, ◌++◌, arith,
  All, keep, any,
}
use fin_base.Db.Models.{WatchRow, Tables}
use fin_base.Db.Watchlist.{update_where, has_ticker}

abbrev pub Absent : String → List WatchRow → Type 0
Absent ticker rows = any (has_ticker ticker) rows ≡ false

abbrev pub InOrder : ℕ → ℕ → List WatchRow → Type 0
InOrder lo seq [] = lo ≤ seq
InOrder lo seq (r ∷ rs) = (lo < r.id) × Absent r.ticker rs × InOrder r.id seq rs

abbrev pub IsValid : Tables → Type 0
IsValid t = InOrder 0 t.watch_seq t.watchlist

any-update :
    (ticker : String) (p : WatchRow → Bool) (f : WatchRow → WatchRow) (rows : List WatchRow)
    → ((r : WatchRow) → (f r).ticker ≡ r.ticker)
    → any (has_ticker ticker) (update_where p f rows) ≡ any (has_ticker ticker) rows
unfolding update_where
any-update ticker p f [] same = refl
any-update ticker p f (r ∷ rs) same = ground (arith, any-update ticker p f rs same, same r)

pub update-InOrder :
    (lo seq : ℕ) (p : WatchRow → Bool) (f : WatchRow → WatchRow) (rows : List WatchRow)
    → ((r : WatchRow) → (f r).ticker ≡ r.ticker)
    → ((r : WatchRow) → (f r).id ≡ r.id)
    → InOrder lo seq rows
    → InOrder lo seq (update_where p f rows)
unfolding update_where
update-InOrder lo seq p f [] same kept h = h
update-InOrder lo seq p f (r ∷ rs) same kept h = ground (
  arith,
  update-InOrder r.id seq p f rs same kept,
  any-update r.ticker p f rs same,
  same r,
  kept r,
)

InOrder-lower :
    (lo lo' seq : ℕ) (rows : List WatchRow) → lo ≤ lo' → InOrder lo' seq rows → InOrder lo seq rows
InOrder-lower lo lo' seq [] h k = omega arith
InOrder-lower lo lo' seq (r ∷ rs) h k = (omega arith, k.1, k.2)

any-keep :
    (ticker : String) (p : WatchRow → Bool) (rows : List WatchRow)
    → Absent ticker rows
    → Absent ticker (keep p rows)
any-keep ticker p [] h = refl
any-keep ticker p (r ∷ rs) h = ground (arith, any-keep ticker p rs)

pub keep-InOrder :
    (lo seq : ℕ) (p : WatchRow → Bool) (rows : List WatchRow)
    → InOrder lo seq rows
    → InOrder lo seq (keep p rows)
keep-InOrder lo seq p [] h = h
keep-InOrder lo seq p (r ∷ rs) h = ground (
  arith,
  keep-InOrder r.id seq p rs,
  any-keep r.ticker p rs,
  InOrder-lower lo r.id seq (keep p rs),
)

any-append :
    (ticker : String) (rows : List WatchRow) (r : WatchRow)
    → Absent ticker rows
    → str_eq r.ticker ticker ≡ false
    → Absent ticker (rows ++ r ∷ [])
any-append ticker [] r h k = ground arith
any-append ticker (x ∷ xs) r h k = ground (arith, any-append ticker xs r)

pub append-InOrder :
    (lo seq : ℕ) (rows : List WatchRow) (r : WatchRow)
    → r.id ≡ suc seq
    → Absent r.ticker rows
    → InOrder lo seq rows
    → InOrder lo (suc seq) (rows ++ r ∷ [])
append-InOrder lo seq [] r e a h = (omega arith, refl, omega arith)
append-InOrder lo seq (x ∷ xs) r e a h = ground (
  arith,
  append-InOrder x.id seq xs r e,
  any-append x.ticker xs r,
  str_eq_iff x.ticker r.ticker,
  str_eq_iff r.ticker x.ticker,
)

pub positive_ids :
    (lo seq : ℕ) (rows : List WatchRow) → InOrder lo seq rows → All (λ r. 0 < r.id) rows
positive_ids lo seq [] h = tt
positive_ids lo seq (r ∷ rs) h = (omega arith, positive_ids r.id seq rs h.2)
