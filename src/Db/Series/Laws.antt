-- ===== src/Db/Series/Laws.antt =====
-- A batch is inserted whole, in order and with consecutive ids, or not at all.
use fin_base.Base.{
  ℕ, suc, ◌≡◌, sym, subst, refl, ap, ◌∙◌, ◌⊎◌, inl, inr, List, [], ◌∷◌, ◌++◌, arith, length,
  length-append,
}
use mathlib.Core.List.{append_assoc, append-nil}
use fin_base.Db.Models.{Dividend, Tables}
use fin_base.Db.Tx.{ok, World, Stmt, exec}
use fin_base.Db.Tx.Laws.{
  Effect, of_stmt, then_effect, pure_effect, Runs, Ended, Commits, exec-Runs, bind-Runs, pure-Runs,
  with_tx-Commits, Commits-weaken,
}
use fin_base.Db.Series.{insert_each, insert_batch, append_dividends, insert_dividends_batch}

module _ {A : Type 0} (insert : A → Stmt (Unit {0})) where
  -- The statements of a batch in turn.
  abbrev pub each_effect : List A → Effect (Unit {0})
  each_effect [] = pure_effect tt
  each_effect (x ∷ xs) = then_effect (of_stmt (insert x)) (λ _. each_effect xs)

  each-Runs : (xs : List A) → Runs (insert_each insert xs) (each_effect xs)
  unfolding insert_each
  each-Runs [] = pure-Runs tt
  each-Runs (x ∷ xs) =
      bind-Runs (exec (insert x)) (λ _. insert_each insert xs) (of_stmt (insert x))
        (λ _. each_effect xs) (exec-Runs (insert x)) (λ _. each-Runs xs)

  pub batch-Commits :
      (x : A) (xs : List A) → Commits (insert_batch insert (x ∷ xs)) (each_effect (x ∷ xs))
  unfolding insert_batch
  batch-Commits x xs =
      with_tx-Commits (insert_each insert (x ∷ xs)) (each_effect (x ∷ xs)) (each-Runs (x ∷ xs))

-- The rows of a batch, numbered from `id`.
abbrev pub numbered : ℕ → ℕ → List Dividend → List Dividend
numbered company_id id [] = []
numbered company_id id (x ∷ xs) =
    record x { id = id; company_id = company_id } ∷ numbered company_id (suc id) xs

-- The dividends grow by the batch at the end of their table, and the company is a known one.
abbrev pub Appends : ℕ → List Dividend → Effect (Unit {0})
Appends company_id xs n t _ t' =
    t' ≡ record t { dividends = t.dividends ++ numbered company_id (suc (length t.dividends)) xs }

append_one :
    (company_id n : ℕ) (x : Dividend) (t u : Tables) (a : Unit {0})
    → append_dividends company_id x n t ≡ ok (a, u)
    → u ≡ record t {
      dividends =
          t.dividends ++ record x { id = suc (length t.dividends); company_id = company_id } ∷ [];
    }
unfolding append_dividends
append_one company_id n x t u a h = ground arith

each-Appends :
    (company_id : ℕ) (xs : List Dividend) (n : ℕ) (t : Tables) (a : Unit {0}) (u : Tables)
    → each_effect (append_dividends company_id) xs n t a u
    → Appends company_id xs n t a u
each-Appends company_id [] n t a u (_, e) =
    e ∙ ap (λ l. record t { dividends = l }) (sym (append-nil _))
each-Appends company_id (x ∷ xs) n t a u (_, v, h, k) =
    let row : Dividend = record x { id = suc (length t.dividends); company_id = company_id } in
    subst
      (λ w.
        u
        ≡ record w { dividends = w.dividends ++ numbered company_id (suc (length w.dividends)) xs })
      (append_one company_id n x t v _ h) (each-Appends company_id xs n v a u k)
    ∙ ap (λ l. record t { dividends = l })
        (rw (length-one row t.dividends) (
          append_assoc t.dividends (row ∷ [])
            (numbered company_id (suc (suc (length t.dividends))) xs)))
  where
    length-one : (r : Dividend) (l : List Dividend) → length (l ++ r ∷ []) ≡ suc (length l)
    length-one r l = omega (arith, length-append {0} l (r ∷ []))

-- `InsertDividendsBatch`, whatever SQLite answers to any statement of it: without an error the table
-- has grown at its end by the whole batch, in order, under consecutive ids and for the company, and
-- no other table differs; an error leaves all tables as they were; an empty batch makes no call.
pub insert_dividends-Appends :
    (company_id : ℕ) (xs : List Dividend) (w : World)
    → Ended (Appends company_id xs) w (insert_dividends_batch company_id xs w)
      ⊎ ((xs ≡ []) × (insert_dividends_batch company_id xs w ≡ (ok tt, w)))
unfolding insert_dividends_batch insert_batch
insert_dividends-Appends company_id [] w = inr (refl, refl)
insert_dividends-Appends company_id (x ∷ xs) w = inl (
    Commits-weaken (insert_batch (append_dividends company_id) (x ∷ xs))
      (each_effect (append_dividends company_id) (x ∷ xs)) (Appends company_id (x ∷ xs))
      (each-Appends company_id (x ∷ xs)) (batch-Commits (append_dividends company_id) x xs) w)
