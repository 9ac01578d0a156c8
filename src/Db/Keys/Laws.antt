-- ===== src/Db/Keys/Laws.antt =====
-- The table of keys as a map from names to values.
use fin_base.Base.{
  ne-str_eq, ℕ, ◌≡◌, sym, subst, refl, ap, ◌≢◌, ◌∙◌, inl, inr, String, str_eq, str_eq_iff,
  str_eq_refl, true, false, not, List, [], ◌∷◌, ◌++◌, Option, none, some, arith, find, any, keep,
  if◌then◌else◌, Bool-cases,
}
use fin_base.Base.Text.{trim_space}
use fin_base.Db.Models.{ApiKeyRow, Tables}
use fin_base.Db.Tx.{exec, with_tx}
use fin_base.Db.Tx.Laws.{Effect, of_stmt, Commits, exec-Commits, Commits-weaken}
use fin_base.Db.Keys.{
  KeyMap, has_name, overwrite, upsert_key, set_api_key, value_of, key_in, collect_keys, delete_key,
  delete_api_key,
}

-- The value that a list of rows has for a name.
abbrev lookup : String → List ApiKeyRow → Option String
lookup name rows = value_of (find (has_name name) rows)

lookup-overwrite_ne :
    (name : String) (new : ApiKeyRow) (rows : List ApiKeyRow)
    → str_eq new.key_name name ≡ false
    → lookup name (overwrite new rows) ≡ lookup name rows
unfolding overwrite
lookup-overwrite_ne name new [] h = refl
lookup-overwrite_ne name new (r ∷ rs) h = ground (
  arith,
  lookup-overwrite_ne name new rs,
  str_eq_iff r.key_name new.key_name,
  str_eq_iff new.key_name name,
  str_eq_iff r.key_name name,
)

lookup-overwrite_self :
    (new : ApiKeyRow) (rows : List ApiKeyRow)
    → any (has_name new.key_name) rows ≡ true
    → lookup new.key_name (overwrite new rows) ≡ some new.key_value
unfolding overwrite
lookup-overwrite_self new [] h = cc
lookup-overwrite_self new (r ∷ rs) h = elim (Bool-cases (str_eq r.key_name new.key_name)) [
  | inl e ↦ rw (e, str_eq_refl new.key_name) refl
  | inr e ↦ rw (e, e) (lookup-overwrite_self new rs (rw e at h))
]

lookup-append :
    (name : String) (new : ApiKeyRow) (rows : List ApiKeyRow)
    → any (has_name new.key_name) rows ≡ false
    → lookup name (rows ++ new ∷ [])
      ≡ (if str_eq new.key_name name then some new.key_value else lookup name rows)
lookup-append name new [] h = ground arith
lookup-append name new (r ∷ rs) h = ground (
  arith,
  lookup-append name new rs,
  str_eq_iff new.key_name name,
  str_eq_iff r.key_name name,
  str_eq_iff r.key_name new.key_name,
)

lookup-drop_self :
    (name : String) (rows : List ApiKeyRow)
    → lookup name (keep (λ r. not (has_name name r)) rows) ≡ none
lookup-drop_self name [] = refl
lookup-drop_self name (r ∷ rs) = ground (arith, lookup-drop_self name rs)

lookup-drop_ne :
    (name other : String) (rows : List ApiKeyRow)
    → other ≢ name
    → lookup other (keep (λ r. not (has_name name r)) rows) ≡ lookup other rows
lookup-drop_ne name other [] h = refl
lookup-drop_ne name other (r ∷ rs) h =
    ground
      (arith, lookup-drop_ne name other rs, str_eq_iff r.key_name name, str_eq_iff r.key_name other)

-- The table has a new value for a name, or none, and its old one for every other name.
abbrev pub Assigns : String → Option String → Effect (Unit {0})
Assigns name value n t _ t' =
    (key_in name t' ≡ value) × ((other : String) → other ≢ name → key_in other t' ≡ key_in other t)

upsert-Assigns :
    (name value : String) (n : ℕ) (t : Tables) (a : Unit {0}) (u : Tables)
    → of_stmt (upsert_key name value) n t a u
    → Assigns name (some value) n t a u
unfolding upsert_key
upsert-Assigns name value n t a u h = elim (Bool-cases (any (has_name name) t.api_keys)) [
  | inl there ↦
      let new : ApiKeyRow = record { key_name = name; key_value = value; updated_at = n } in
      let e : u.api_keys ≡ overwrite new t.api_keys = ground arith in
      (
        ap (lookup name) e ∙ lookup-overwrite_self new t.api_keys there,
        λ other ne.
            ap (lookup other) e
            ∙ lookup-overwrite_ne other new t.api_keys (ne-str_eq name other (λ q. ne (sym q))),
      )
  | inr fresh ↦
      let new : ApiKeyRow = record { key_name = name; key_value = value; updated_at = n } in
      let e : u.api_keys ≡ t.api_keys ++ new ∷ [] = ground arith in
      (
        ap (lookup name) e
            ∙ lookup-append name new t.api_keys fresh
            ∙ ap (λ b. if b then some value else lookup name t.api_keys) (str_eq_refl name),
        λ other ne.
            ap (lookup other) e
            ∙ lookup-append other new t.api_keys fresh
            ∙ ap (λ b. if b then some value else lookup other t.api_keys)
                (ne-str_eq name other (λ q. ne (sym q))),
      )
]

delete-Assigns :
    (name : String) (n : ℕ) (t : Tables) (a : Unit {0}) (u : Tables)
    → of_stmt (delete_key name) n t a u
    → Assigns name none n t a u
unfolding delete_key
delete-Assigns name n t a u h =
    let e : u.api_keys ≡ keep (λ r. not (has_name name r)) t.api_keys = ground arith in
    (
      ap (lookup name) e ∙ lookup-drop_self name t.api_keys,
      λ other ne. ap (lookup other) e ∙ lookup-drop_ne name other t.api_keys ne,
    )

-- `SetAPIKey` gives the trimmed name its value and `DeleteAPIKey` takes the trimmed name out, whether
-- it was there or not and whatever SQLite answers; all other names keep their values, and an error
-- changes nothing.
pub keys-Assigns :
    (name value : String)
    → Commits (set_api_key name value) (Assigns (trim_space name) (some value))
      × Commits (delete_api_key name) (Assigns (trim_space name) none)
unfolding set_api_key delete_api_key
keys-Assigns name value = (
  Commits-weaken (with_tx (exec (upsert_key (trim_space name) value)))
      (of_stmt (upsert_key (trim_space name) value)) (Assigns (trim_space name) (some value))
      (upsert-Assigns (trim_space name) value) (exec-Commits (upsert_key (trim_space name) value)),
  Commits-weaken (with_tx (exec (delete_key (trim_space name))))
      (of_stmt (delete_key (trim_space name))) (Assigns (trim_space name) none)
      (delete-Assigns (trim_space name)) (exec-Commits (delete_key (trim_space name))),
)

-- No name has two rows.
abbrev pub IsUnique : List ApiKeyRow → Type 0
IsUnique [] = Unit
IsUnique (r ∷ rs) = (any (has_name r.key_name) rs ≡ false) × IsUnique rs

lookup_absent :
    (name : String) (rows : List ApiKeyRow)
    → any (has_name name) rows ≡ false
    → lookup name rows ≡ none
lookup_absent name [] h = refl
lookup_absent name (r ∷ rs) h = ground (arith, lookup_absent name rs)

abbrev or_keys : Option String → Option String → Option String
or_keys none o = o
or_keys (some v) o = some v

collect_go :
    (name : String) (rows : List ApiKeyRow) (keys : KeyMap)
    → IsUnique rows
    → collect_keys rows keys name ≡ or_keys (lookup name rows) (keys name)
unfolding collect_keys
collect_go name [] keys u = refl
collect_go name (r ∷ rs) keys u = elim (Bool-cases (str_eq r.key_name name)) [
  | inl e ↦
      let gone : lookup name rs ≡ none =
        lookup_absent name rs
          (subst (λ s. any (has_name s) rs ≡ false) ((str_eq_iff r.key_name name).0 e) u.0) in
      collect_go name rs _ u.1 ∙ rw (gone, e) refl
  | inr e ↦ collect_go name rs _ u.1 ∙ rw e refl
]

-- Where no name has two rows, as the primary key says, the map of `GetAPIKeysMap` has the value of
-- each name in the table, and nothing else.
pub collect_keys-eq-key_in :
    (t : Tables) (name : String)
    → IsUnique t.api_keys
    → collect_keys t.api_keys (λ _. none) name ≡ key_in name t
collect_keys-eq-key_in t name u = collect_go name t.api_keys (λ _. none) u ∙ same (key_in name t)
  where
    same : (o : Option String) → or_keys o none ≡ o
    same none = refl
    same (some v) = refl
