-- ===== src/Db/Tx/Laws.antt =====
-- Transactions are atomic: `WithTx` commits what its function did to the committed tables, or they
-- stay as they were.
use mathlib.Core.Path.{subst₂}
use fin_base.Base.{subst, ℕ, String, ◌≡◌, refl, ◌∙◌, sym, List, [], ◌∷◌, Option, none, some}
use fin_base.Db.Models.{Tables}
use fin_base.Db.Tx.{
  Result, ok, err, World, committed, M, ◌>>=◌, Stmt, exec, undo, close_tx, with_tx, applied, pure,
  query,
}

-- What a transaction does: the time and the tables before, its result, the tables after.
abbrev pub Effect : Type 0 → Type 1
Effect A = ℕ → Tables → A → Tables → Type 0

-- The effect of a statement.
abbrev pub of_stmt : {A : Type 0} → Stmt A → Effect A
of_stmt st n t a t' = st n t ≡ ok (a, t')

-- One effect after another.
abbrev pub then_effect : {A B : Type 0} → Effect A → (A → Effect B) → Effect B
then_effect {A} R S n t b t' = (a : A) × (u : Tables) × R n t a u × S a n u b t'

module _ {A : Type 0} where
  -- How a call ended that ran inside a transaction, against the effect that it stands for.
  abbrev pub Ran : Effect A → World → Result A × World → Type 0
  Ran R w (ok a, w') = R w.now w.tables a w'.tables × (w'.saved ≡ w.saved) × (w'.now ≡ w.now)
  Ran R w (err e, w') = (w'.saved ≡ w.saved) × (w'.now ≡ w.now)

  abbrev pub Runs : M A → Effect A → Type 0
  Runs m R = (w : World) → Ran R w (m w)

  -- How a transaction ended: its effect was committed, or nothing was.
  abbrev pub Ended : Effect A → World → Result A × World → Type 0
  Ended R w (ok a, w') =
      R w.now (committed w) a (committed w') × (w'.saved ≡ none) × (w'.now ≡ w.now)
  Ended R w (err e, w') = (committed w' ≡ committed w) × (w'.now ≡ w.now)

  abbrev pub Commits : M A → Effect A → Type 0
  Commits m R = (w : World) → Ended R w (m w)

  -- How one statement ended: a statement that fails has changed nothing.
  abbrev pub Executed : Stmt A → World → Result A × World → Type 0
  Executed st w (ok a, w') = Ran (of_stmt st) w (ok a, w')
  Executed st w (err e, w') = (w'.tables ≡ w.tables) × (w'.saved ≡ w.saved) × (w'.now ≡ w.now)

  applied-Executed :
      (st : Stmt A) (w : World) (os : List (Option String)) (r : Result (A × Tables))
      → st w.now w.tables ≡ r
      → Executed st w (applied (record w { outcomes = os }) r)
  applied-Executed st w os (ok p) h = (h, refl, refl)
  applied-Executed st w os (err e) h = (refl, refl, refl)

  exec_go :
      (st : Stmt A) (w : World) (os : List (Option String))
      → w.outcomes ≡ os
      → Executed st w (exec st (record w { outcomes = os }))
  unfolding exec
  exec_go st w [] h = applied-Executed st w [] (st w.now w.tables) refl
  exec_go st w (none ∷ os) h = applied-Executed st w os (st w.now w.tables) refl
  exec_go st w (some e ∷ os) h = (refl, refl, refl)

  pub exec-Executed : (st : Stmt A) (w : World) → Executed st w (exec st w)
  exec-Executed st w = exec_go st w w.outcomes refl

  Executed-Ran :
      (st : Stmt A) (w : World) (r : Result A × World) → Executed st w r → Ran (of_stmt st) w r
  Executed-Ran st w (ok a, w') h = h
  Executed-Ran st w (err e, w') h = (h.1, h.2)

  pub exec-Runs : (st : Stmt A) → Runs (exec st) (of_stmt st)
  exec-Runs st w = Executed-Ran st w (exec st w) (exec-Executed st w)

module _ {A B : Type 0} where
  second_go :
      (R : Effect A) (S : A → Effect B) (w w' : World) (a : A) (s : Result B × World)
      → Ran R w (ok a, w')
      → Ran (S a) w' s
      → Ran (then_effect R S) w s
  second_go R S w w' a (ok b, w'') h (e, s, n) =
      ((a, w'.tables, h.0, subst (λ m. S a m w'.tables b w''.tables) h.2 e), s ∙ h.1, n ∙ h.2)
  second_go R S w w' a (err x, w'') h (s, n) = (s ∙ h.1, n ∙ h.2)

  bind_go :
      (f : A → M B) (R : Effect A) (S : A → Effect B) (w : World) (r : Result A × World)
      → Ran R w r
      → ((a : A) → Runs (f a) (S a))
      → Ran (then_effect R S) w (elim r.0 [ ok a ↦ f a r.1 | err e ↦ (err e, r.1) ])
  bind_go f R S w (ok a, w') h g = second_go R S w w' a (f a w') h (g a w')
  bind_go f R S w (err e, w') h g = h

  pub bind-Runs :
      (m : M A) (f : A → M B) (R : Effect A) (S : A → Effect B)
      → Runs m R
      → ((a : A) → Runs (f a) (S a))
      → Runs (m >>= f) (then_effect R S)
  bind-Runs m f R S h g w = bind_go f R S w (m w) (h w) g

module _ {A : Type 0} where
  abbrev pub pure_effect : A → Effect A
  pure_effect a n t b t' = (b ≡ a) × (t' ≡ t)

  pub pure-Runs : (a : A) → Runs (pure a) (pure_effect a)
  pure-Runs a w = ((refl, refl), refl, refl)

  weaken_go :
      (R S : Effect A) (w : World) (r : Result A × World)
      → ((n : ℕ) (t : Tables) (a : A) (u : Tables) → R n t a u → S n t a u)
      → Ended R w r
      → Ended S w r
  weaken_go R S w (ok a, w') h k = (h _ _ _ _ k.0, k.1, k.2)
  weaken_go R S w (err e, w') h k = k

  pub Commits-weaken :
      (m : M A) (R S : Effect A)
      → ((n : ℕ) (t : Tables) (a : A) (u : Tables) → R n t a u → S n t a u)
      → Commits m R
      → Commits m S
  Commits-weaken m R S h k w = weaken_go R S w (m w) h (k w)

-- A world by its parts.
abbrev pub world_of : Tables → Option Tables → List (Option String) → ℕ → World
world_of tables saved outcomes now = record {
  tables = tables;
  saved = saved;
  outcomes = outcomes;
  now = now;
}

module _ {A : Type 0} where
  -- COMMIT succeeds; or it fails, and then ROLLBACK succeeds or fails.
  settle :
      (R : Effect A) (w : World) (t u : Tables) (os : List (Option String)) (n : ℕ) (a : A)
      → committed w ≡ t
      → R w.now t a u
      → n ≡ w.now
      → Ended R w (undo (close_tx (ok a, world_of u (some t) os n)))
  unfolding undo close_tx
  settle R w t u [] n a c h e = (subst (λ v. R w.now v a u) (sym c) h, refl, e)
  settle R w t u (none ∷ os) n a c h e = (subst (λ v. R w.now v a u) (sym c) h, refl, e)
  settle R w t u (some x ∷ []) n a c h e = (sym c, e)
  settle R w t u (some x ∷ none ∷ os) n a c h e = (sym c, e)
  settle R w t u (some x ∷ some y ∷ os) n a c h e = (sym c, e)

  abandon :
      (R : Effect A) (w : World) (t u : Tables) (os : List (Option String)) (n : ℕ) (x : String)
      → committed w ≡ t
      → n ≡ w.now
      → Ended R w (undo (close_tx (err x, world_of u (some t) os n)))
  unfolding undo close_tx
  abandon R w t u [] n x c e = (sym c, e)
  abandon R w t u (none ∷ os) n x c e = (sym c, e)
  abandon R w t u (some y ∷ os) n x c e = (sym c, e)

  closing :
      (R : Effect A) (w w₀ : World) (r : Result A × World)
      → w₀.saved ≡ some (committed w)
      → w₀.tables ≡ committed w
      → w₀.now ≡ w.now
      → Ran R w₀ r
      → Ended R w (undo (close_tx r))
  closing R w w₀ (ok a, w') s b n (h, k, m) =
      subst (λ s'. Ended R w (undo (close_tx (ok a, world_of w'.tables s' w'.outcomes w'.now))))
        (sym (k ∙ s))
        (settle R w _ w'.tables w'.outcomes w'.now a refl (subst₂ (λ m v. R m v a w'.tables) n b h)
          (m ∙ n))
  closing R w w₀ (err x, w') s b n (k, m) =
      subst (λ s'. Ended R w (undo (close_tx (err x, world_of w'.tables s' w'.outcomes w'.now))))
        (sym (k ∙ s)) (abandon R w _ w'.tables w'.outcomes w'.now x refl (m ∙ n))

  open_go :
      (R : Effect A) (fn : M A) (u : Tables) (s : Option Tables) (os : List (Option String)) (n : ℕ)
      → Runs fn R
      → Ended R (world_of u s os n) (with_tx fn (world_of u s os n))
  unfolding with_tx
  open_go R fn u none [] n h =
      closing R (world_of u none [] n) (world_of u (some u) [] n) (fn (world_of u (some u) [] n))
        refl refl refl (h _)
  open_go R fn u none (some e ∷ os) n h = (refl, refl)
  open_go R fn u none (none ∷ []) n h =
      closing R (world_of u none [] n) (world_of u (some u) [] n) (fn (world_of u (some u) [] n))
        refl refl refl (h _)
  open_go R fn u none (none ∷ none ∷ os) n h =
      closing R (world_of u none os n) (world_of u (some u) os n) (fn (world_of u (some u) os n))
        refl refl refl (h _)
  open_go R fn u none (none ∷ some e ∷ os) n h = (refl, refl)
  open_go R fn u (some t) [] n h = (refl, refl)
  open_go R fn u (some t) (some e ∷ os) n h = (refl, refl)
  open_go R fn u (some t) (none ∷ []) n h = (refl, refl)
  open_go R fn u (some t) (none ∷ none ∷ os) n h = (refl, refl)
  open_go R fn u (some t) (none ∷ some e ∷ os) n h = (refl, refl)

  -- A transaction is atomic, whatever SQLite answers to any of its calls: where what `fn` does inside
  -- a transaction has the effect `R`, a `WithTx` without an error has that effect between the
  -- committed tables before and after, and leaves no transaction open; if it returns an error, the committed tables are those before.
  pub with_tx-Commits : (fn : M A) (R : Effect A) → Runs fn R → Commits (with_tx fn) R
  with_tx-Commits fn R h w = open_go R fn w.tables w.saved w.outcomes w.now h

module _ {A : Type 0} where
  -- A transaction of one statement commits that statement or nothing.
  pub exec-Commits : (st : Stmt A) → Commits (with_tx (exec st)) (of_stmt st)
  exec-Commits st = with_tx-Commits (exec st) (of_stmt st) (exec-Runs st)

  stuck_go :
      (fn : M A) (u t : Tables) (os : List (Option String)) (n : ℕ)
      → (e : String) × ((with_tx fn (world_of u (some t) os n)).0 ≡ err e)
        × ((with_tx fn (world_of u (some t) os n)).1.saved ≡ some t)
  unfolding with_tx
  stuck_go fn u t [] n = (_, refl, refl)
  stuck_go fn u t (some e ∷ os) n = (_, refl, refl)
  stuck_go fn u t (none ∷ []) n = (_, refl, refl)
  stuck_go fn u t (none ∷ none ∷ os) n = (_, refl, refl)
  stuck_go fn u t (none ∷ some e ∷ os) n = (_, refl, refl)

  -- While a transaction is left open on the write connection, every `WithTx` returns an error,
  -- whatever its function, and leaves that transaction open: so all later ones fail too.
  with_tx_stuck :
      (fn : M A) (w : World) (t : Tables)
      → w.saved ≡ some t
      → (e : String) × ((with_tx fn w).0 ≡ err e) × ((with_tx fn w).1.saved ≡ some t)
  with_tx_stuck fn w t h =
      subst
        (λ s.
          (e : String) × ((with_tx fn (world_of w.tables s w.outcomes w.now)).0 ≡ err e)
          × ((with_tx fn (world_of w.tables s w.outcomes w.now)).1.saved ≡ some t))
        (sym h) (stuck_go fn w.tables t w.outcomes w.now)

module _ {A : Type 0} where
  -- How a query on the read pool ended: it saw the committed tables, and changed nothing.
  abbrev pub Answers : (ℕ → Tables → A) → World → Result A × World → Type 0
  Answers q w (ok a, w') = (a ≡ q w.now (committed w)) × (committed w' ≡ committed w)
  Answers q w (err e, w') = committed w' ≡ committed w

  query_go :
      (q : ℕ → Tables → A) (t : Tables) (s : Option Tables) (os : List (Option String)) (n : ℕ)
      → Answers q (world_of t s os n) (query q (world_of t s os n))
  unfolding query
  query_go q t s [] n = (refl, refl)
  query_go q t s (none ∷ os) n = (refl, refl)
  query_go q t s (some e ∷ os) n = refl

  pub query-Answers : (q : ℕ → Tables → A) (w : World) → Answers q w (query q w)
  query-Answers q w = query_go q w.tables w.saved w.outcomes w.now
