-- ===== src/Db/Safe.antt =====
-- The methods of db/db.go that a job calls leave the keys as they are and keep the watchlist in order.
pub mod Methods
use fin_base.Base.{
  ℕ, ◌≡◌, refl, sym, ap, subst, ◌∙◌, inl, inr, String, Bool, true, false, List, [], ◌∷◌, arith,
  Bool-cases, if◌then◌else◌, any,
}
use fin_base.Base.Float.{Float}
use fin_base.Base.Text.{normalize}
use fin_base.Db.Models.{
  Tables, Company, MarketData, ValuationRatio, Dividend, StockSplit, HistoricalPrice,
  AnalystEstimate, EarningsCalendar, CompanyNews, InsiderTransaction, InstitutionalOwnership,
  MacroIndicator,
}
use fin_base.Db.Tx.{Result, ok, err, World, committed, M, ◌>>=◌, ◌>>◌, pure, Stmt, exec, with_tx}
use fin_base.Db.Tx.Laws.{
  Effect, of_stmt, then_effect, pure_effect, Ended, Commits, Runs, with_tx-Commits, exec-Runs,
  bind-Runs, pure-Runs,
}
use fin_base.Db.Tx.Calm.{
  Works, IsCalm, exec-IsCalm, pure-IsCalm, bind-IsCalm, calm-Works, with_tx-Works,
}
use fin_base.Db.Quiet.{IsQuiet, get_consolidated_data-IsQuiet, query-IsQuiet}
use fin_base.Db.Companies.{
  company_exists, is_company, upsert_company_row, select_company_id, upsert_body, upsert_company,
  upsert_stamp, set_category_last_updated, get_category_last_updated, append_action, log_action,
}
use fin_base.Db.Consolidated.{get_consolidated_data}
use fin_base.Db.Series.{
  for_company, insert_each, insert_batch, FundamentalItem, append_dividends, insert_dividends_batch,
  append_stock_splits, insert_stock_splits_batch, append_analyst_estimates,
  insert_analyst_estimates_batch, append_earnings_calendar, insert_earnings_calendar_batch,
  append_company_news, insert_company_news_batch, append_insider_transactions,
  insert_insider_transactions_batch, append_institutional_ownership,
  insert_institutional_ownership_batch, append_fundamental, insert_fundamentals_batch,
  append_market_data, insert_market_data, append_valuation_ratios, insert_valuation_ratios,
  upsert_historical, insert_historical_prices_batch, upsert_macro, insert_macro_indicators_batch,
}
use fin_base.Db.Watchlist.{update_watchitem_status, set_watchitem_force_refresh}
use fin_base.Db.Watchlist.Invariant.{IsValid, InOrder}
use fin_base.Db.Watchlist.Runs.{perform, perform-IsValid, force, set_status_of}
use fin_base.Db.Watchlist.Frame.{perform-api_keys}

-- The keys and the rows of the watchlist are the same.
abbrev pub Leaves : Tables → Tables → Type 0
Leaves t u = (u.api_keys ≡ t.api_keys) × (u.watchlist ≡ t.watchlist) × (u.watch_seq ≡ t.watch_seq)

abbrev pub LeavesBy : {A : Type 0} → Effect A
LeavesBy n t a u = Leaves t u

pub record LeavesAll {A : Type 0} (st : Stmt A) : Type 0 where
  pub leaves : (n : ℕ) (t : Tables) (a : A) (u : Tables) → of_stmt st n t a u → Leaves t u

-- A method behind which the keys are as before, a watchlist in order is in order, and SQLite works where
-- it did before.
pub record IsSafe {A : Type 0} (m : M A) : Type 0 where
  pub keys : (w : World) → (committed (m w).1).api_keys ≡ (committed w).api_keys
  pub in_order : (w : World) → IsValid (committed w) → IsValid (committed (m w).1)
  pub works : (w : World) → Works w → Works (m w).1

Leaves-IsValid : (t u : Tables) → Leaves t u → IsValid t → IsValid u
Leaves-IsValid t u (keys, rows, seq) h =
    subst (λ n. InOrder 0 n u.watchlist) (sym seq) (subst (InOrder 0 t.watch_seq) (sym rows) h)

same_tables : (t u : Tables) → u ≡ t → Leaves t u
same_tables t u e = (
  ap (λ (x : Tables). x.api_keys) e,
  ap (λ (x : Tables). x.watchlist) e,
  ap (λ (x : Tables). x.watch_seq) e,
)

module _ {A : Type 0} where
  ended-Leaves :
      (R : Effect A) (w : World) (x : Result A × World)
      → ((n : ℕ) (t : Tables) (a : A) (u : Tables) → R n t a u → Leaves t u)
      → Ended R w x
      → Leaves (committed w) (committed x.1)
  ended-Leaves R w (ok a, w') k h = k _ _ _ _ h.0
  ended-Leaves R w (err e, w') k h = same_tables (committed w) (committed w') h.0

  leaving-IsSafe :
      (m : M A)
      → ((w : World) → Leaves (committed w) (committed (m w).1))
      → ((w : World) → Works w → Works (m w).1)
      → IsSafe m
  leaving-IsSafe m h works = record {
    keys = λ w. (h w).0;
    in_order = λ w. Leaves-IsValid (committed w) (committed (m w).1) (h w);
    works = works;
  }

  pub quiet-IsSafe : (m : M A) → IsQuiet m → IsCalm m → IsSafe m
  quiet-IsSafe m h calm =
      leaving-IsSafe m (λ w. same_tables (committed w) (committed (m w).1) (h w))
        (calm-Works m calm)

  pub Runs-IsSafe :
      (fn : M A) (R : Effect A)
      → ((n : ℕ) (t : Tables) (a : A) (u : Tables) → R n t a u → Leaves t u)
      → Runs fn R
      → IsCalm fn
      → IsSafe (with_tx fn)
  Runs-IsSafe fn R k h calm =
      leaving-IsSafe (with_tx fn)
        (λ w. ended-Leaves R w (with_tx fn w) k (with_tx-Commits fn R h w)) (with_tx-Works fn calm)

  pub exec-Leaves :
      {st : Stmt A}
      → LeavesAll st
      → (w : World) → Leaves (committed w) (committed (with_tx (exec st) w).1)
  exec-Leaves {st = st} h w =
      ended-Leaves (of_stmt st) w (with_tx (exec st) w) h.leaves
        (with_tx-Commits (exec st) (of_stmt st) (exec-Runs st) w)

  pub exec-IsSafe : {st : Stmt A} → LeavesAll st → IsSafe (with_tx (exec st))
  exec-IsSafe {st = st} h =
      Runs-IsSafe (exec st) (of_stmt st) h.leaves (exec-Runs st) (exec-IsCalm st)

module _ {A : Type 0} where
  -- The rows of a batch, one after another.
  AllLeave : (A → Stmt (Unit {0})) → List A → Effect (Unit {0})
  AllLeave insert [] = pure_effect tt
  AllLeave insert (x ∷ xs) = then_effect (of_stmt (insert x)) (λ _. AllLeave insert xs)

  insert_each-Runs :
      (insert : A → Stmt (Unit {0})) (xs : List A)
      → Runs (insert_each insert xs) (AllLeave insert xs)
  unfolding insert_each AllLeave
  insert_each-Runs insert [] = pure-Runs tt
  insert_each-Runs insert (x ∷ xs) =
      bind-Runs (exec (insert x)) (λ _. insert_each insert xs) (of_stmt (insert x))
        (λ _. AllLeave insert xs) (exec-Runs (insert x)) (λ _. insert_each-Runs insert xs)

  insert_each-IsCalm : (insert : A → Stmt (Unit {0})) (xs : List A) → IsCalm (insert_each insert xs)
  unfolding insert_each
  insert_each-IsCalm insert [] = pure-IsCalm tt
  insert_each-IsCalm insert (x ∷ xs) =
      bind-IsCalm (exec (insert x)) (λ _. insert_each insert xs) (exec-IsCalm (insert x))
        (λ _. insert_each-IsCalm insert xs)

  all-Leaves :
      (insert : A → Stmt (Unit {0})) (xs : List A)
      → ((x : A) → LeavesAll (insert x))
      → (n : ℕ) (t : Tables) (a : Unit {0}) (u : Tables) → AllLeave insert xs n t a u
      → Leaves t u
  unfolding AllLeave
  all-Leaves insert [] h n t a u (_, e) = same_tables t u e
  all-Leaves insert (x ∷ xs) h n t a u (b, v, r, rs) =
      let one = (h x).leaves n t b v r in
      let rest = all-Leaves insert xs h n v a u rs in
      (rest.0 ∙ one.0, rest.1 ∙ one.1, rest.2 ∙ one.2)

  pub batch-IsSafe :
      {insert : A → Stmt (Unit {0})}
      → ((x : A) → LeavesAll (insert x))
      → (xs : List A) → IsSafe (insert_batch insert xs)
  unfolding insert_batch
  batch-IsSafe {insert = insert} h [] =
      leaving-IsSafe (pure tt) (λ w. (refl, refl, refl)) (λ w h. h)
  batch-IsSafe {insert = insert} h (x ∷ xs) =
      Runs-IsSafe (insert_each insert (x ∷ xs)) (AllLeave insert (x ∷ xs))
        (all-Leaves insert (x ∷ xs) h) (insert_each-Runs insert (x ∷ xs))
        (insert_each-IsCalm insert (x ∷ xs))

pub for_company-LeavesAll :
    (id : ℕ) (f : ℕ → Tables → Tables)
    → ((n : ℕ) (t : Tables) → Leaves t (f n t))
    → LeavesAll (for_company id f)
for_company-LeavesAll id f h = record {
  leaves = λ n t a u k. elim (Bool-cases (company_exists id t)) [
    | inl q ↦ let e : f n t ≡ u = ground (arith, k, q) in subst (Leaves t) e (h n t)
    | inr q ↦ absurd (ground (arith, k, q))
  ];
}
