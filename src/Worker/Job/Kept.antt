-- ===== src/Worker/Job/Kept.antt =====
-- Jobs leave the keys, those in the table and those of the clients, and keep the watchlist in order.
use fin_base.Base.{
  ℕ, ◌≡◌, refl, ◌∙◌, inl, inr, String, Bool, true, false, List, [], ◌∷◌, Option, none, some, Result,
  ok, err, Bool-cases, ◌||◌, ◌==◌,
}
use fin_base.Base.Int.{ℤ}
use fin_base.Db.Tx.{M, committed}
use fin_base.Db.Watchlist.Invariant.{IsValid}
use fin_base.Db.Safe.{IsSafe}
use fin_base.Db.Tx.Calm.{Works}
use fin_base.Db.Safe.Methods.{
  set_category_last_updated-IsSafe, get_category_last_updated-IsSafe, log_action-IsSafe,
  update_watchitem_status-IsSafe,
}
use fin_base.Clients.Http.{Client, Fetched}
use fin_base.Env.Probing.{SameKeys}
use fin_base.Db.Companies.{get_category_last_updated, set_category_last_updated, log_action}
use fin_base.Db.Watchlist.{update_watchitem_status}
use fin_base.Worker.Site.{
  Services, Broadcast, Site, J, db_call, db_ignore, fetched, broadcast, should_update_category,
  if_due, when_due, note, stamp, set_job_status,
}
use fin_base.Worker.Job.{after_insert, store_items, take_items}

-- A fetch leaves the keys of the clients.
pub record KeepsKeys {A : Type 0} (f : Client → Fetched A) : Type 0 where
  pub keeps : (c : Client) → SameKeys c.manager (f c).1.manager

-- What a job asks of the services.
pub record Serves (services : Services) : Type 0 where
  pub profile : (t : String) → KeepsKeys (services.profile t)
  pub open_figi : (t : String) → KeepsKeys (services.open_figi t)
  pub sec_cik_for_ticker : (t : String) → KeepsKeys (services.sec_cik_for_ticker t)
  pub market_data_waterfall : (t : String) → KeepsKeys (services.market_data_waterfall t)
  pub sec_facts : (t : String) → KeepsKeys (services.sec_facts t)
  pub income_statement : (t : String) → KeepsKeys (services.income_statement t)
  pub valuation_ratios : (t : String) → KeepsKeys (services.valuation_ratios t)
  pub dividends : (t : String) → KeepsKeys (services.dividends t)
  pub splits : (t : String) → KeepsKeys (services.splits t)
  pub historical_prices : (t from to : String) → KeepsKeys (services.historical_prices t from to)
  pub analyst_estimates : (t : String) → KeepsKeys (services.analyst_estimates t)
  pub earnings_calendar : (t : String) → KeepsKeys (services.earnings_calendar t)
  pub company_news : (t from to : String) → KeepsKeys (services.company_news t from to)
  pub insider_transactions : (t : String) → KeepsKeys (services.insider_transactions t)
  pub institutional_ownership : (t : String) → KeepsKeys (services.institutional_ownership t)
  pub fred_series : (id name : String) → KeepsKeys (services.fred_series id name)

-- From one site to another: the keys are the same, a watchlist in order stays in order, and SQLite works
-- where it did before.
pub record Keeps (s s' : Site) : Type 0 where
  pub table_keys : (committed s'.db).api_keys ≡ (committed s.db).api_keys
  pub in_order : IsValid (committed s.db) → IsValid (committed s'.db)
  pub works : Works s.db → Works s'.db
  pub client_keys : SameKeys s.client.manager s'.client.manager

module _ {s : Site} where
  pub here-Keeps : Keeps s s
  here-Keeps = record {
    table_keys = refl;
    in_order = λ v. v;
    works = λ h. h;
    client_keys = record { same = λ p. refl };
  }

  pub db_call-Keeps :
      {A : Type 0} (m : M A) (t : Site) → IsSafe m → Keeps s t → Keeps s (db_call m t).1
  unfolding db_call
  db_call-Keeps m t safe k = record {
    table_keys = safe.keys _ ∙ k.table_keys;
    in_order = λ v. safe.in_order _ (k.in_order v);
    works = λ h. safe.works _ (k.works h);
    client_keys = k.client_keys;
  }

  pub db_ignore-Keeps :
      {A : Type 0} (m : M A) (t : Site) → IsSafe m → Keeps s t → Keeps s (db_ignore m t).1
  unfolding db_ignore
  db_ignore-Keeps m t safe k = db_call-Keeps m t safe k

  pub fetched-Keeps :
      {A : Type 0} (f : Client → Fetched A) (t : Site)
      → KeepsKeys f
      → Keeps s t
      → Keeps s (fetched f t).1
  unfolding fetched
  fetched-Keeps f t h k = record {
    table_keys = k.table_keys;
    in_order = k.in_order;
    works = k.works;
    client_keys = record { same = λ p. (h.keeps t.client).same p ∙ k.client_keys.same p };
  }

  pub broadcast-Keeps : (b : Broadcast) (t : Site) → Keeps s t → Keeps s (broadcast b t).1
  unfolding broadcast
  broadcast-Keeps b t k = record {
    table_keys = k.table_keys;
    in_order = k.in_order;
    works = k.works;
    client_keys = k.client_keys;
  }

  pub note-Keeps :
      (ticker action status msg : String) (t : Site)
      → Keeps s t
      → Keeps s (note ticker action status msg t).1
  unfolding note
  note-Keeps ticker action status msg t k =
      db_ignore-Keeps (log_action ticker action status msg) t
        (log_action-IsSafe ticker action status msg) k

  pub stamp-Keeps :
      (id : ℕ) (category : String) (t : Site) → Keeps s t → Keeps s (stamp id category t).1
  unfolding stamp
  stamp-Keeps id category t k =
      db_ignore-Keeps (set_category_last_updated id category) t
        (set_category_last_updated-IsSafe id category) k

  pub set_job_status-Keeps :
      (ticker status : String) (t : Site) → Keeps s t → Keeps s (set_job_status ticker status t).1
  unfolding set_job_status
  set_job_status-Keeps ticker status t k =
      db_ignore-Keeps (update_watchitem_status ticker status) t
        (update_watchitem_status-IsSafe ticker status) k

  pub should-Keeps :
      (id : ℕ) (category : String) (ttl : ℤ) (force : Bool) (t : Site)
      → Keeps s t
      → Keeps s (should_update_category id category ttl force t).1
  unfolding should_update_category
  should-Keeps id category ttl force t k = elim (Bool-cases (force || id == 0)) [
    | inl q ↦ rw q k
    | inr q ↦ rw q (
        db_call-Keeps (get_category_last_updated id category) t
          (get_category_last_updated-IsSafe id category) k)
  ]

-- A step of a job, from any site that is behind another.
abbrev pub Kept : {A : Type 0} → J A → Type 0
Kept m = (s t : Site) → Keeps s t → Keeps s (m t).1

after_insert-Kept :
    (next : J (Unit {0})) (r : Result (Unit {0})) → Kept next → Kept (after_insert next r)
unfolding after_insert
after_insert-Kept next (ok _) h s t k = h s t k
after_insert-Kept next (err e) h s t k = k

module _ {A : Type 0} where
  pub store_items-Kept :
      (r : List A × Option String) (insert : List A → M (Unit {0}))
      (success : List A → J (Unit {0}))
      → ((xs : List A) → IsSafe (insert xs))
      → ((xs : List A) → Kept (success xs))
      → Kept (store_items r insert success)
  unfolding store_items
  store_items-Kept (xs, some e) insert success safe h s t k = k
  store_items-Kept ([], none) insert success safe h s t k = k
  store_items-Kept (x ∷ xs, none) insert success safe h s t k =
      after_insert-Kept (success (x ∷ xs)) (db_call (insert (x ∷ xs)) t).0 (h (x ∷ xs)) s
        (db_call (insert (x ∷ xs)) t).1 (db_call-Keeps (insert (x ∷ xs)) t (safe (x ∷ xs)) k)

  pub take_items-Kept :
      (f : Client → Fetched (List A)) (insert : List A → M (Unit {0}))
      (success : List A → J (Unit {0}))
      → KeepsKeys f
      → ((xs : List A) → IsSafe (insert xs))
      → ((xs : List A) → Kept (success xs))
      → Kept (take_items f insert success)
  unfolding take_items
  take_items-Kept f insert success keys safe h s t k =
      store_items-Kept (fetched f t).0 insert success safe h s (fetched f t).1
        (fetched-Keeps f t keys k)

if_due-Kept : (step : J (Unit {0})) (due : Bool) → Kept step → Kept (if_due step due)
if_due-Kept step true h = h
if_due-Kept step false h = λ s t k. k

pub when_due-Kept :
    (id : ℕ) (category : String) (ttl : ℤ) (force : Bool) (step : J (Unit {0}))
    → Kept step
    → Kept (when_due id category ttl force step)
when_due-Kept id category ttl force step h s t k =
    let due = should_update_category id category ttl force t in
    if_due-Kept step due.0 h s due.1 (should-Keeps id category ttl force t k)
