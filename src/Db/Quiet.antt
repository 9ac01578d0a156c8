-- ===== src/Db/Quiet.antt =====
-- The reads of db/db.go change nothing that is committed.
use fin_base.Base.{ℕ, zero, suc, ◌≡◌, refl, ap, ◌∙◌, [], String, List}
use fin_base.Db.Models.{Tables}
use fin_base.Db.Tx.{Result, ok, err, World, committed, M, ◌>>=◌, pure, query}
use fin_base.Db.Tx.Laws.{Answers, query-Answers}
use fin_base.Db.Keys.{get_api_keys_map}
use fin_base.Db.Consolidated.{
  or_default, rows_or_empty, watch_entry, if_stored, get_consolidated_data,
}
use fin_base.Db.Watchlist.Reads.{get_watchlist, get_job_status_summary, get_recent_action_history}
use fin_base.Base.Int.{ℤ}

abbrev pub IsQuiet : {A : Type 0} → M A → Type 0
IsQuiet m = (w : World) → committed (m w).1 ≡ committed w

module _ {A : Type 0} where
  Answers-committed :
      (q : ℕ → Tables → A) (w : World) (x : Result A × World)
      → Answers q w x
      → committed x.1 ≡ committed w
  Answers-committed q w (ok a, w') h = h.1
  Answers-committed q w (err e, w') h = h

  pub query-IsQuiet : (q : ℕ → Tables → A) → IsQuiet (query q)
  query-IsQuiet q w = Answers-committed q w (query q w) (query-Answers q w)

  pub pure-IsQuiet : (a : A) → IsQuiet (pure a)
  pure-IsQuiet a w = refl

  pub default_world : (d : A) (x : Result A × World) → (or_default d x).1 ≡ x.1
  default_world d (ok a, w) = refl
  default_world d (err e, w) = refl

  default-IsQuiet : (d : A) (m : M A) → IsQuiet m → IsQuiet (λ w. or_default d (m w))
  default-IsQuiet d m h w = ap committed (default_world d (m w)) ∙ h w

module _ {A B : Type 0} where
  bind_go :
      (f : A → M B) (w : World) (x : Result A × World)
      → committed x.1 ≡ committed w
      → ((a : A) → IsQuiet (f a))
      → committed
          (let (r, w') = x in
            elim r as (λ _. Result B × World) [ ok a ↦ f a w' | err e ↦ (err e, w') ]).1
        ≡ committed w
  bind_go f w (ok a, w') h k = k a w' ∙ h
  bind_go f w (err e, w') h k = h

  pub bind-IsQuiet :
      (m : M A) (f : A → M B) → IsQuiet m → ((a : A) → IsQuiet (f a)) → IsQuiet (m >>= f)
  bind-IsQuiet m f h k w = bind_go f w (m w) (h w) k

rows-IsQuiet : {A : Type 0} (q : Tables → List A) → IsQuiet (rows_or_empty q)
unfolding rows_or_empty
rows-IsQuiet q = default-IsQuiet [] (query (λ _ t. q t)) (query-IsQuiet (λ _ t. q t))

stored-IsQuiet : {A : Type 0} (id : ℕ) (q : ℕ → Tables → List A) → IsQuiet (if_stored id q)
unfolding if_stored
stored-IsQuiet zero q w = refl
stored-IsQuiet (suc id) q w = rows-IsQuiet (q (suc id)) w

entry-IsQuiet : (ticker : String) → IsQuiet (watch_entry ticker)
unfolding watch_entry
entry-IsQuiet ticker = search (default-IsQuiet, query-IsQuiet)

pub get_watchlist-IsQuiet : IsQuiet get_watchlist
unfolding get_watchlist
get_watchlist-IsQuiet = search query-IsQuiet

pub get_job_status_summary-IsQuiet : IsQuiet get_job_status_summary
unfolding get_job_status_summary
get_job_status_summary-IsQuiet = search query-IsQuiet

pub get_recent_action_history-IsQuiet : (limit : ℤ) → IsQuiet (get_recent_action_history limit)
unfolding get_recent_action_history
get_recent_action_history-IsQuiet limit = search query-IsQuiet

pub get_api_keys_map-IsQuiet : IsQuiet get_api_keys_map
unfolding get_api_keys_map
get_api_keys_map-IsQuiet = search query-IsQuiet

-- `GetConsolidatedData` reads all its tables and changes nothing, whichever of its queries fail.
pub get_consolidated_data-IsQuiet : (name : String) → IsQuiet (get_consolidated_data name)
unfolding get_consolidated_data
get_consolidated_data-IsQuiet name =
    search (bind-IsQuiet, query-IsQuiet, pure-IsQuiet, entry-IsQuiet, stored-IsQuiet, rows-IsQuiet)
      depth 40 fits 5000
