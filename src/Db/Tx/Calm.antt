-- ===== src/Db/Tx/Calm.antt =====
-- Methods of db/db.go while SQLite works: none of its calls is going to fail, and none leaves one that is.
use fin_base.Base.{ℕ, ◌≡◌, refl, sym, subst, ◌∙◌, [], none}
use fin_base.Db.Models.{Tables}
use fin_base.Db.Tx.{Result, ok, err, World, M, ◌>>=◌, pure, Stmt, applied, exec, with_tx, query}
use fin_base.Db.Tx.Laws.{world_of}
use fin_base.Db.Tx.Closing.{with_tx-IsIdle}

-- SQLite works, and no transaction is open.
abbrev pub Works : World → Type 0
Works w = (w.saved ≡ none) × (w.outcomes ≡ [])

-- Where SQLite works it goes on to, and the transaction that is open stays so.
abbrev pub IsCalm : {A : Type 0} → M A → Type 0
IsCalm m = (w : World) → w.outcomes ≡ [] → ((m w).1.outcomes ≡ []) × ((m w).1.saved ≡ w.saved)

module _ {A : Type 0} where
  applied_calm :
      (w : World) (r : Result (A × Tables))
      → ((applied w r).1.outcomes ≡ w.outcomes) × ((applied w r).1.saved ≡ w.saved)
  applied_calm w (ok p) = (refl, refl)
  applied_calm w (err e) = (refl, refl)

  pub exec-IsCalm : (st : Stmt A) → IsCalm (exec st)
  unfolding exec
  exec-IsCalm st w o =
      subst
        (λ os.
          ((exec st (world_of w.tables w.saved os w.now)).1.outcomes ≡ [])
          × ((exec st (world_of w.tables w.saved os w.now)).1.saved ≡ w.saved))
        (sym o) (applied_calm (world_of w.tables w.saved [] w.now) (st w.now w.tables))

  pub query-IsCalm : (q : ℕ → Tables → A) → IsCalm (query q)
  unfolding query
  query-IsCalm q w o =
      subst
        (λ os.
          ((query q (world_of w.tables w.saved os w.now)).1.outcomes ≡ [])
          × ((query q (world_of w.tables w.saved os w.now)).1.saved ≡ w.saved))
        (sym o) (refl, refl)

  pub pure-IsCalm : (a : A) → IsCalm (pure a)
  pure-IsCalm a w o = (o, refl)

module _ {A B : Type 0} where
  bind_go :
      (f : A → M B) (w : World) (x : Result A × World)
      → (x.1.outcomes ≡ []) × (x.1.saved ≡ w.saved)
      → ((a : A) → IsCalm (f a))
      → let y =
          let (r, w') = x in
          elim r as (λ _. Result B × World) [ ok a ↦ f a w' | err e ↦ (err e, w') ] in
        (y.1.outcomes ≡ []) × (y.1.saved ≡ w.saved)
  bind_go f w (ok a, w') h k = let r = k a w' h.0 in (r.0, r.1 ∙ h.1)
  bind_go f w (err e, w') h k = h

  pub bind-IsCalm : (m : M A) (f : A → M B) → IsCalm m → ((a : A) → IsCalm (f a)) → IsCalm (m >>= f)
  bind-IsCalm m f h k w o = bind_go f w (m w) (h w o) k

module _ {A : Type 0} where
  pub calm-Works : (m : M A) → IsCalm m → (w : World) → Works w → Works (m w).1
  calm-Works m h w (s, o) = let r = h w o in (r.1 ∙ s, r.0)

  pub with_tx-Works : (fn : M A) → IsCalm fn → (w : World) → Works w → Works (with_tx fn w).1
  with_tx-Works fn h w (s, o) = with_tx-IsIdle fn w (λ v e. (h v e).0) s o
