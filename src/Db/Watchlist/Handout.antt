-- ===== src/Db/Watchlist/Handout.antt =====
-- Two fetches in turn never hand out one ticker twice.
use fin_base.Base.{
  ℕ, ◌≡◌, sym, subst, refl, ap, ◌≢◌, ◌∙◌, inl, inr, String, str_eq_iff, false, List, [], ◌∷◌, some,
  arith, All,
}
use fin_base.Db.Models.{WatchRow, Watchitem, Tables}
use fin_base.Db.Tx.{ok, World, committed}
use fin_base.Db.Watchlist.{
  update_where, has_id, fetch_and_queue_next_watchitem, scan_row, is_eligible,
}
use fin_base.Db.Watchlist.Fetch.{
  Occurs, IsNext, Fetched, queued_table, Occurs-All, fetch_and_queue-Fetched,
}
use fin_base.Db.Watchlist.Invariant.{Absent, InOrder, IsValid, positive_ids, update-InOrder}

abbrev queue_at : ℕ → WatchRow → WatchRow
queue_at n s = record s { status = "queued"; last_updated = n }

not_eligible : (m n : ℕ) (s : WatchRow) → is_eligible m (queue_at n s) ≡ false
unfolding is_eligible
not_eligible m n s = refl

-- A ticker that is absent is the ticker of no row, also behind an update.
Absent-All :
    (m n id : ℕ) (ticker : String) (rows : List WatchRow)
    → Absent ticker rows
    → All
        (λ s. s.ticker ≡ ticker → is_eligible m s ≡ false)
        (update_where (has_id id) (queue_at n) rows)
unfolding update_where
Absent-All m n id ticker [] h = tt
Absent-All m n id ticker (x ∷ xs) h =
    (ground (arith, str_eq_iff x.ticker ticker), Absent-All m n id ticker xs (ground arith))

Absent-Occurs :
    (r : WatchRow) (ticker : String) (rows : List WatchRow)
    → Absent ticker rows
    → Occurs r rows
    → r.ticker ≢ ticker
Absent-Occurs r ticker [] h o = absurd o
Absent-Occurs r ticker (x ∷ xs) h (inl e) =
    λ q. ground (arith, str_eq_iff x.ticker ticker, ap (λ (s : WatchRow). s.ticker) e)
Absent-Occurs r ticker (x ∷ xs) h (inr o) = Absent-Occurs r ticker xs (ground arith) o

handed_out :
    (m n lo seq : ℕ) (r : WatchRow) (rows : List WatchRow)
    → InOrder lo seq rows
    → Occurs r rows
    → All
        (λ s. s.ticker ≡ r.ticker → is_eligible m s ≡ false)
        (update_where (has_id r.id) (queue_at n) rows)
unfolding update_where
handed_out m n lo seq r [] h o = absurd o
handed_out m n lo seq r (x ∷ xs) h (inl e) = (
  ground (arith, not_eligible m n x, ap (λ (s : WatchRow). s.id) e),
  Absent-All m n r.id r.ticker xs
      (subst (λ s. Absent s xs) (ap (λ (s : WatchRow). s.ticker) e) h.1),
)
handed_out m n lo seq r (x ∷ xs) h (inr o) =
    (ground (arith, Absent-Occurs r x.ticker xs h.1 o), handed_out m n x.id seq r xs h.2 o)

item-ticker : (i : Watchitem) (r : WatchRow) → i ≡ scan_row r → i.ticker ≡ r.ticker
unfolding scan_row
item-ticker i r e = ap (λ (j : Watchitem). j.ticker) e

next_differs :
    (m n : ℕ) (t : Tables) (r s : WatchRow)
    → IsValid t
    → Occurs r t.watchlist
    → IsNext m (queued_table n r t).watchlist (some s)
    → s.ticker ≢ r.ticker
next_differs m n t r s v o (q, e, _) = λ same.
    let f : is_eligible m s ≡ false =
      Occurs-All (λ x. x.ticker ≡ r.ticker → is_eligible m x ≡ false) s _ q
        (handed_out m n 0 t.watch_seq r t.watchlist v o) same in
    cc

-- Two fetches without an operation between, at any two times and under any answers of SQLite, never
-- hand out the same ticker: the first one's row is queued, and stays ineligible at every later time.
pub fetch_twice_differs :
    (w : World) (i j : Watchitem) (w₁ w₂ w₃ : World)
    → IsValid (committed w)
    → fetch_and_queue_next_watchitem w ≡ (ok (some i), w₁)
    → committed w₂ ≡ committed w₁
    → fetch_and_queue_next_watchitem w₂ ≡ (ok (some j), w₃)
    → j.ticker ≢ i.ticker
fetch_twice_differs w i j w₁ w₂ w₃ v p c q =
    let (r, next, e, g) = subst (Fetched w) p (fetch_and_queue-Fetched w (positive_ids 0 _ _ v)) in
    let later : committed w₂ ≡ queued_table w.now r (committed w) = c ∙ g in
    let valid : IsValid (queued_table w.now r (committed w)) =
      update-InOrder 0 _ (has_id r.id) (queue_at w.now) _ (λ _. refl) (λ _. refl) v in
    let (s, next', e', _) =
      subst (Fetched w₂) q
        (fetch_and_queue-Fetched w₂ (positive_ids 0 _ _ (subst IsValid (sym later) valid))) in
    λ same.
      next_differs w₂.now w.now (committed w) r s v next.0
        (subst (λ t. IsNext w₂.now t.watchlist (some s)) later next')
        (sym (item-ticker j s e') ∙ same ∙ item-ticker i r e)
