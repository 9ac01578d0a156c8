-- ===== src/Worker/Job/Laws.antt =====
-- What a job tells the dashboard: the categories are silent, and a job has one beginning and one end.
use fin_base.Base.{
  ℕ, ◌≡◌, refl, ◌∙◌, inl, inr, String, Bool, true, false, List, [], ◌∷◌, Option, none, some, Result,
  ok, err, Bool-cases, ◌==◌, ◌||◌,
}
use fin_base.Base.Int.{ℤ}
use fin_base.Db.Tx.{M}
use fin_base.Clients.Http.{Client, Fetched}
use fin_base.Worker.Site.{
  Site, J, ◌>>=◌, ◌>>◌, db_call, db_ignore, fetched, should_update_category, if_due, when_due, note,
  stamp, set_job_status,
}
use fin_base.Worker.Job.{after_insert, store_items, take_items}

-- A step that broadcasts nothing.
abbrev pub Silent : {A : Type 0} → J A → Type 0
Silent m = (s : Site) → (m s).1.broadcasts ≡ s.broadcasts

module _ {A : Type 0} where
  pub db_call-Silent : (m : M A) → Silent (db_call m)
  unfolding db_call
  db_call-Silent m s = refl

  pub db_ignore-Silent : (m : M A) → Silent (db_ignore m)
  unfolding db_ignore
  db_ignore-Silent m s = refl

  pub fetched-Silent : (f : Client → Fetched A) → Silent (fetched f)
  unfolding fetched
  fetched-Silent f s = refl

  pub bind-Silent :
      {B : Type 0} (m : J A) (f : A → J B) → Silent m → ((a : A) → Silent (f a)) → Silent (m >>= f)
  bind-Silent m f h k s = k (m s).0 (m s).1 ∙ h s

after_insert-Silent :
    (next : J (Unit {0})) (r : Result (Unit {0})) → Silent next → Silent (after_insert next r)
unfolding after_insert
after_insert-Silent next (ok _) h s = h s
after_insert-Silent next (err e) h s = refl

module _ {A : Type 0} where
  pub store_items-Silent :
      (r : List A × Option String) (insert : List A → M (Unit {0}))
      (success : List A → J (Unit {0}))
      → ((xs : List A) → Silent (success xs))
      → Silent (store_items r insert success)
  unfolding store_items
  store_items-Silent (xs, some e) insert success h s = refl
  store_items-Silent ([], none) insert success h s = refl
  store_items-Silent (x ∷ xs, none) insert success h s =
      bind-Silent (db_call (insert (x ∷ xs))) (after_insert (success (x ∷ xs)))
        (db_call-Silent (insert (x ∷ xs)))
        (λ r. after_insert-Silent (success (x ∷ xs)) r (h (x ∷ xs))) s

  pub take_items-Silent :
      (f : Client → Fetched (List A)) (insert : List A → M (Unit {0}))
      (success : List A → J (Unit {0}))
      → ((xs : List A) → Silent (success xs))
      → Silent (take_items f insert success)
  unfolding take_items
  take_items-Silent f insert success h =
      bind-Silent (fetched f) (λ r. store_items r insert success) (fetched-Silent f)
        (λ r. store_items-Silent r insert success h)

pub seq-Silent : {B : Type 0} (m : J (Unit {0})) (k : J B) → Silent m → Silent k → Silent (m >> k)
seq-Silent m k h h' s = h' (m s).1 ∙ h s

pub note-Silent : (t a st msg : String) → Silent (note t a st msg)
unfolding note
note-Silent t a st msg s = refl

pub stamp-Silent : (id : ℕ) (category : String) → Silent (stamp id category)
unfolding stamp
stamp-Silent id category s = refl

pub set_job_status-Silent : (t st : String) → Silent (set_job_status t st)
unfolding set_job_status
set_job_status-Silent t st s = refl

pub should-Silent :
    (id : ℕ) (category : String) (ttl : ℤ) (force : Bool)
    → Silent (should_update_category id category ttl force)
unfolding should_update_category
should-Silent id category ttl force s = elim (Bool-cases (force || id == 0)) [
  | inl q ↦ rw q refl
  | inr q ↦ rw q refl
]

if_due-Silent : (step : J (Unit {0})) (due : Bool) → Silent step → Silent (if_due step due)
if_due-Silent step true h = h
if_due-Silent step false h = λ s. refl

pub when_due-Silent :
    (id : ℕ) (category : String) (ttl : ℤ) (force : Bool) (step : J (Unit {0}))
    → Silent step
    → Silent (when_due id category ttl force step)
when_due-Silent id category ttl force step h =
    bind-Silent (should_update_category id category ttl force) (if_due step)
      (should-Silent id category ttl force) (λ due. if_due-Silent step due h)
