-- ===== src/Db/Tx/Closing.antt =====
-- The write connection comes back without a transaction while SQLite works.
use fin_base.Base.{◌≡◌, refl, sym, subst, [], none, some}
use fin_base.Db.Tx.{Result, ok, err, World, M, undo, close_tx, with_tx}
use fin_base.Db.Tx.Laws.{world_of}

module _ {A : Type 0} where
  -- No transaction is open, and no call of SQLite is going to fail.
  abbrev pub IsIdle : Result A × World → Type 0
  IsIdle r = (r.1.saved ≡ none) × (r.1.outcomes ≡ [])

  closing-IsIdle : (r : Result A × World) → r.1.outcomes ≡ [] → IsIdle (undo (close_tx r))
  unfolding undo close_tx
  closing-IsIdle (ok a, w) h =
      subst (λ os. IsIdle (undo {A = A} (close_tx (ok a, world_of w.tables w.saved os w.now))))
        (sym h) (refl, refl)
  closing-IsIdle (err e, w) h =
      subst (λ os. IsIdle (undo {A = A} (close_tx (err e, world_of w.tables w.saved os w.now))))
        (sym h) (refl, refl)

  -- While no call of SQLite fails, `WithTx` gives the connection back with no transaction open: also
  -- where a statement is refused, as by a constraint, or `fn` returns an error of its own.
  pub with_tx-IsIdle :
      (fn : M A) (w : World)
      → ((v : World) → v.outcomes ≡ [] → (fn v).1.outcomes ≡ [])
      → w.saved ≡ none
      → w.outcomes ≡ []
      → IsIdle (with_tx fn w)
  unfolding with_tx
  with_tx-IsIdle fn w calm s o =
      subst (λ s'. IsIdle (with_tx fn (world_of w.tables s' w.outcomes w.now))) (sym s)
        (subst (λ os. IsIdle (with_tx fn (world_of w.tables none os w.now))) (sym o)
          (closing-IsIdle (fn (world_of w.tables (some w.tables) [] w.now))
            (calm (world_of w.tables (some w.tables) [] w.now) refl)))
