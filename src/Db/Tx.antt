-- ===== src/Db/Tx.antt =====
-- The write connection of db/db.go and `WithTx`. SQLite itself is outside the program: what each
-- call of it answers is a list of outcomes, and what a statement does is a function of the clock and
-- the tables. A transaction keeps the committed tables aside until it ends.
pub mod Laws
pub mod Closing
pub mod Calm
pub use fin_base.Base.{Result, ok, err}
use fin_base.Base.{ℕ, String, Bool, true, false, List, [], ◌∷◌, Option, none, some, if◌then◌else◌}
use fin_base.Base.Text.{concat}
use fin_base.Db.Models.{Tables}

-- The write connection: the tables as it sees them, the committed ones while a transaction is open,
-- what the next calls of SQLite answer (`none` and a call past the end of the list succeed), and
-- CURRENT_TIMESTAMP.
pub record World : Type 0 where
  pub tables : Tables
  pub saved : Option Tables
  pub outcomes : List (Option String)
  pub now : ℕ

-- What the read pool sees.
abbrev pub committed : World → Tables
committed w = elim w.saved [ none ↦ w.tables | some t ↦ t ]

abbrev pub M {ℓ} : Type ℓ → Type ℓ
M A = World → Result A × World

infixl 5 ◌>>=◌ ◌>>◌
abbrev pub ◌>>=◌ {ℓ κ} : {A : Type ℓ} {B : Type κ} → M A → (A → M B) → M B
◌>>=◌ m f w = let (r, w') = m w in elim r [ ok a ↦ f a w' | err e ↦ (err e, w') ]

abbrev pub ◌>>◌ {ℓ} : {B : Type ℓ} → M (Unit {0}) → M B → M B
m >> k = m >>= λ _. k

module _ {ℓ} {A : Type ℓ} where
  abbrev pub pure : A → M A
  pure a w = (ok a, w)

  abbrev pub raise : String → M A
  raise e w = (err e, w)

  -- `fmt.Errorf("…: %w", err)`
  abbrev pub wrap : String → Result A × World → Result A × World
  wrap s (ok a, w) = (ok a, w)
  wrap s (err e, w) = (err (concat (s ∷ ": " ∷ e ∷ [])), w)

  -- `_ = f(…)`: the error is dropped.
  abbrev pub ignore : M A → M (Unit {0})
  ignore m w = (ok tt, (m w).1)

-- What a statement does when SQLite runs it: `err` is a constraint that fails.
abbrev pub Stmt {ℓ} : Type ℓ → Type ℓ
Stmt A = ℕ → Tables → Result (A × Tables)

-- One call of SQLite that touches no table, such as taking the connection.
pub call : M (Unit {0})
call w = elim w.outcomes [
  | [] ↦ (ok tt, w)
  | o ∷ os ↦ elim o [
    | none ↦ (ok tt, record w { outcomes = os })
    | some e ↦ (err e, record w { outcomes = os })
  ]
]

module _ {ℓ} {A : Type ℓ} where
  abbrev pub applied : World → Result (A × Tables) → Result A × World
  applied w (ok (a, t)) = (ok a, record w { tables = t })
  applied w (err e) = (err e, w)

  -- `exec.ExecContext`, `exec.QueryRowContext`: a statement on the write connection.
  unfoldable pub exec : Stmt A → M A
  unfolding call
  exec st = call >> λ w. applied w (st w.now w.tables)

-- "BEGIN IMMEDIATE": SQLite refuses a transaction within a transaction.
pub begin : M (Unit {0})
unfolding call
begin = call >> λ w. elim w.saved [
  | none ↦ (ok tt, record w { saved = some w.tables })
  | some _ ↦ (err "cannot start a transaction within a transaction", w)
]

-- "COMMIT"
pub commit : M (Unit {0})
unfolding call
commit = call >> λ w. (ok tt, record w { saved = none })

-- "ROLLBACK"
pub rollback : M (Unit {0})
unfolding call
rollback = call >> λ w. (ok tt, record w { tables = committed w; saved = none })

module _ {ℓ} {A : Type ℓ} where
  -- The deferred function of `WithTx`: without success, roll back and drop the error of that.
  pub undo : Result A × World → Result A × World
  unfolding rollback
  undo (ok a, w) = (ok a, w)
  undo (err e, w) = (err e, (rollback w).1)

  -- The end of `WithTx`, behind what `fn` returned with the variables that it captures.
  pub close_tx : Result A × World → Result A × World
  unfolding commit
  close_tx (ok a, w) = wrap "failed to commit transaction" ((commit >> pure a) w)
  close_tx (err e, w) = (err e, w)

  -- `DB.WithTx`
  unfoldable pub with_tx : M A → M A
  unfolding call begin undo close_tx
  with_tx fn =
      (λ w. wrap "failed to acquire connection from write pool" (call w))
      >> (λ w. wrap "failed to begin immediate transaction" (begin w))
      >> λ w. undo (close_tx (fn w))

-- A query on the read pool: it sees the committed tables.
unfoldable pub query {ℓ} : {A : Type ℓ} → (ℕ → Tables → A) → M A
unfolding call
query q = call >> λ w. (ok (q w.now (committed w)), w)
