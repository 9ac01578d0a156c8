-- ===== src/Env/Load.antt =====
-- `LoadAndApplyKeys` makes the keys in use agree with the table and the environment.
use fin_base.Base.{
  ◌≡◌, refl, sym, ap, ◌∙◌, ◌≢◌, String, str_eq_iff, List, [], ◌∷◌, Option, none, some, arith,
}
use fin_base.Db.Tx.{Result, ok, err, World, committed}
use fin_base.Db.Keys.{KeyMap, key_in, get_api_keys_map, collect_keys}
use fin_base.Db.Keys.Laws.{IsUnique, collect_keys-eq-key_in}
use fin_base.Env.{Environment, EnvService, override, or_keep, loaded, load_and_apply_keys}
use fin_base.Env.Laws.{name_of, held-apply_all, intended, override-eq, Agrees}

-- What a query of all keys answers: the map of the committed table, which stays as it is.
Answers : World → Result KeyMap × World → Type 0
Answers w (ok keys, w') =
    (keys ≡ collect_keys (committed w).api_keys (λ _. none)) × (committed w' ≡ committed w)
Answers w (err e, w') = committed w' ≡ committed w

Answers-go :
    (w : World) (os : List (Option String))
    → w.outcomes ≡ os
    → Answers w (get_api_keys_map (record w { outcomes = os }))
unfolding Answers get_api_keys_map
Answers-go w [] e = (refl, refl)
Answers-go w (none ∷ os) e = (refl, refl)
Answers-go w (some x ∷ os) e = refl

or_keep-eq : (v old : String) → v ≢ "" → or_keep v old ≡ v
or_keep-eq v old ne = ground (arith, str_eq_iff v "")

loaded-Agrees :
    (getenv : Environment) (s : EnvService) (r : Result KeyMap × World)
    → IsUnique (committed s.db).api_keys
    → Answers s.db r
    → (loaded getenv s r).0 ≡ ok tt
    → Agrees getenv (loaded getenv s r).1
unfolding loaded Answers Agrees
loaded-Agrees getenv s (ok keys, w) u (k, c) h = (
  λ key. held-apply_all key (override getenv keys) s.client_mgr ∙ same (name_of key),
  λ ne.
      or_keep-eq (override getenv keys "API_KEY") _ (λ z. ne (sym (same "API_KEY") ∙ z))
      ∙ same "API_KEY",
)
  where
    same : (n : String) → override getenv keys n ≡ intended getenv (committed w) n
    same n =
        override-eq getenv keys (λ m. key_in m (committed w)) n
          (ap (λ f. f n) k ∙ collect_keys-eq-key_in (committed s.db) n u ∙ ap (key_in n) (sym c))
loaded-Agrees getenv s (err e, w) u a h = absurd (ground (arith, h))

-- Where no key name has two rows in the table, `LoadAndApplyKeys` without an error makes the keys in
-- use agree with the table and the environment, whatever keys were in use before.
pub load-Agrees :
    (getenv : Environment) (s : EnvService)
    → IsUnique (committed s.db).api_keys
    → (load_and_apply_keys getenv s).0 ≡ ok tt
    → Agrees getenv (load_and_apply_keys getenv s).1
unfolding load_and_apply_keys
load-Agrees getenv s u h =
    loaded-Agrees getenv s (get_api_keys_map s.db) u (Answers-go s.db s.db.outcomes refl) h
