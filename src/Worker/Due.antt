-- ===== src/Worker/Due.antt =====
-- When a job updates a category again: `shouldUpdateCategory` of worker/worker.go against the stamp that
-- `SetCategoryLastUpdated` left.
use fin_base.Base.{
  ℕ, ◌+◌, ◌*◌, ◌/◌, ◌≡◌, ◌≢◌, refl, ap, ◌∙◌, ◌⊎◌, inl, inr, String, Bool, true, false, arith, leb,
  ◌==◌, Result, ok, err,
}
use fin_base.Base.Int.{pos}
use fin_base.Db.Tx.{World, committed}
use fin_base.Db.Tx.Laws.{Ended, Answers, query-Answers}
use fin_base.Db.Companies.{get_category_last_updated, set_category_last_updated}
use fin_base.Db.Companies.Stamps.{Stamps, stamp_of, set_category-Stamps}
use fin_base.Worker.Site.{Site, should_update_category, is_due, db_call, now}

-- Whether a time to live has passed since a second, by a clock in nanoseconds.
abbrev pub has_passed : ℕ → ℕ → ℕ → Bool
has_passed ttl last clock = leb (last * 1_000_000_000 + ttl) clock

-- The world in which a category's time is read.
abbrev pub reading : Site → World
reading s = record s.db { now = now s.client / 1_000_000_000 }

-- The answer to whether a category is due: whether its time to live has passed, or yes where its time
-- cannot be read.
abbrev pub Judges : ℕ → ℕ → ℕ → String → Site → Bool → Type 0
Judges ttl last id category s due =
    (due ≡ has_passed ttl last s.client.wire.clock)
    ⊎ ((e : String) × ((get_category_last_updated id category (reading s)).0 ≡ err e)
        × (due ≡ true))

read-Answers :
    (id : ℕ) (category : String) (w : World)
    → Answers (λ _ t. stamp_of id category t) w (get_category_last_updated id category w)
unfolding get_category_last_updated
read-Answers id category w = query-Answers (λ _ t. stamp_of id category t) w

is_due-Judges :
    (ttl last id : ℕ) (category : String) (s : Site) (r : Result ℕ × World)
    → last ≢ 0
    → (get_category_last_updated id category (reading s)).0 ≡ r.0
    → stamp_of id category (committed s.db) ≡ last
    → Answers (λ _ t. stamp_of id category t) (reading s) r
    → Judges ttl last id category s (is_due (pos ttl) s.client.wire.clock r.0)
unfolding is_due
is_due-Judges ttl last id category s (ok a, w) nz q st h =
    let e : a ≡ last = h.0 ∙ st in inl (ground (arith, e, nz))
is_due-Judges ttl last id category s (err e, w) nz q st h = inr (e, q, refl)

ended_stamp :
    (id : ℕ) (category : String) (w : World) (r : Result (Unit {0}) × World)
    → Ended (Stamps id category) w r
    → r.0 ≡ ok tt
    → stamp_of id category (committed r.1) ≡ w.now
ended_stamp id category w (ok a, w') h q = h.0.0
ended_stamp id category w (err e, w') h q = cc

-- After a category has been stamped, a job that is not forced finds it due again exactly from its time to
-- live on, as long as the tables are those of the stamp; where SQLite cannot read the stamp the category
-- counts as due. The company's id and the time of the stamp are not 0.
pub stamped-Judges :
    (id : ℕ) (category : String) (ttl : ℕ) (w : World) (s : Site)
    → id ≢ 0
    → w.now ≢ 0
    → (set_category_last_updated id category w).0 ≡ ok tt
    → committed s.db ≡ committed (set_category_last_updated id category w).1
    → Judges ttl w.now id category s (should_update_category id category (pos ttl) false s).0
unfolding should_update_category db_call
stamped-Judges id category ttl w s nz set done same =
    let st : stamp_of id category (committed s.db) ≡ w.now =
      ap (stamp_of id category) same
      ∙ ended_stamp id category w (set_category_last_updated id category w)
          (set_category-Stamps id category w) done in
    let no : (id == 0) ≡ false = ground (arith, nz) in
    rw no (
      is_due-Judges ttl w.now id category s (get_category_last_updated id category (reading s)) set
        refl st (read-Answers id category (reading s)))
