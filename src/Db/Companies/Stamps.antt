-- ===== src/Db/Companies/Stamps.antt =====
-- What `SetCategoryLastUpdated` of db/db.go leaves in the table of update times.
use fin_base.Base.{
  ℕ, ◌≡◌, refl, ap, ◌∙◌, inl, inr, String, str_eq, str_eq_iff, str_eq_refl, Bool, true, false, ◌&&◌,
  List, [], ◌∷◌, ◌++◌, arith, Bool-cases, any, find, ◌==◌,
}
use fin_base.Db.Models.{StampRow, Tables}
use fin_base.Db.Tx.{exec, with_tx}
use fin_base.Db.Tx.Laws.{Effect, of_stmt, Commits, Commits-weaken, exec-Commits}
use fin_base.Db.Companies.{has_stamp, stamp_time, restamp, upsert_stamp, set_category_last_updated}

-- The update time that the table has for a category of a company, or 0.
abbrev pub time_in : ℕ → String → List StampRow → ℕ
time_in id category rows = stamp_time (find (has_stamp id category) rows)

abbrev pub stamp_of : ℕ → String → Tables → ℕ
stamp_of id category t = time_in id category t.stamps

abbrev pub is_same : ℕ → String → ℕ → String → Bool
is_same id category id' category' = id == id' && str_eq category category'

-- The category has the time of now, and every other category of every company its time as before.
abbrev pub Stamps : ℕ → String → Effect (Unit {0})
Stamps id category n t _ t' =
    (stamp_of id category t' ≡ n)
    × ((id' : ℕ) (category' : String)
        → is_same id category id' category' ≡ false
        → stamp_of id' category' t' ≡ stamp_of id' category' t)

module _ (id : ℕ) (category : String) (n : ℕ) where
  time-restamp_self :
      (rows : List StampRow)
      → any (has_stamp id category) rows ≡ true
      → time_in id category (restamp id category n rows) ≡ n
  unfolding restamp
  time-restamp_self [] h = cc
  time-restamp_self (r ∷ rs) h = elim (Bool-cases (has_stamp id category r)) [
    | inl q ↦ rw (q, q) refl
    | inr q ↦ rw (q, q) (time-restamp_self rs (rw q at h))
  ]

  time-restamp_ne :
      (id' : ℕ) (category' : String) (rows : List StampRow)
      → is_same id category id' category' ≡ false
      → time_in id' category' (restamp id category n rows) ≡ time_in id' category' rows
  unfolding restamp
  time-restamp_ne id' category' [] ne = refl
  time-restamp_ne id' category' (r ∷ rs) ne = ground (
    arith,
    ne,
    time-restamp_ne id' category' rs ne,
    str_eq_iff r.category category,
    str_eq_iff r.category category',
    str_eq_iff category category',
  )

  abbrev new_stamp : StampRow
  new_stamp = record { company_id = id; category = category; last_updated = n }

  time-append_self :
      (rows : List StampRow)
      → any (has_stamp id category) rows ≡ false
      → time_in id category (rows ++ new_stamp ∷ []) ≡ n
  time-append_self [] h = ground (arith, str_eq_refl category)
  time-append_self (r ∷ rs) h = ground (arith, h, time-append_self rs)

  time-append_ne :
      (id' : ℕ) (category' : String) (rows : List StampRow)
      → is_same id category id' category' ≡ false
      → time_in id' category' (rows ++ new_stamp ∷ []) ≡ time_in id' category' rows
  time-append_ne id' category' [] ne = ground (arith, ne)
  time-append_ne id' category' (r ∷ rs) ne = ground (arith, time-append_ne id' category' rs ne)

upsert_stamp-Stamps :
    (id : ℕ) (category : String) (n : ℕ) (t : Tables) (a : Unit {0}) (u : Tables)
    → of_stmt (upsert_stamp id category) n t a u
    → Stamps id category n t a u
unfolding upsert_stamp
upsert_stamp-Stamps id category n t a u h =
    elim (Bool-cases (any (has_stamp id category) t.stamps)) [
      | inl there ↦
          let e : u.stamps ≡ restamp id category n t.stamps = ground (arith, h, there) in
          (
            ap (time_in id category) e ∙ time-restamp_self id category n t.stamps there,
            λ id' category' ne.
                ap (time_in id' category') e
                ∙ time-restamp_ne id category n id' category' t.stamps ne,
          )
      | inr fresh ↦
          let e : u.stamps ≡ t.stamps ++ new_stamp id category n ∷ [] = ground (arith, h, fresh) in
          (
            ap (time_in id category) e ∙ time-append_self id category n t.stamps fresh,
            λ id' category' ne.
                ap (time_in id' category') e
                ∙ time-append_ne id category n id' category' t.stamps ne,
          )
    ]

-- `SetCategoryLastUpdated` stamps that category of that company with the time of now and no other,
-- or changes nothing, whatever SQLite answers.
pub set_category-Stamps :
    (id : ℕ) (category : String)
    → Commits (set_category_last_updated id category) (Stamps id category)
unfolding set_category_last_updated
set_category-Stamps id category =
    Commits-weaken (with_tx (exec (upsert_stamp id category))) (of_stmt (upsert_stamp id category))
      (Stamps id category) (upsert_stamp-Stamps id category)
      (exec-Commits (upsert_stamp id category))
