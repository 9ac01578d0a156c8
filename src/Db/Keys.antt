-- ===== src/Db/Keys.antt =====
-- The table of API keys (db/db.go, SetAPIKey to DeleteAPIKey). A Go map from names to values is a
-- function into options.
pub mod Laws
use fin_base.Base.{
  ℕ, String, str_eq, Bool, not, List, [], ◌∷◌, ◌++◌, Option, none, some, if◌then◌else◌, keep, any,
  find, or_else,
}
use fin_base.Base.Text.{trim_space}
use fin_base.Db.Models.{ApiKeyRow, Tables}
use fin_base.Db.Tx.{ok, World, M, ◌>>=◌, pure, Stmt, exec, with_tx, query}

abbrev pub KeyMap : Type 0
KeyMap = String → Option String

abbrev pub has_name : String → ApiKeyRow → Bool
has_name name r = str_eq r.key_name name

-- "ON CONFLICT(key_name) DO UPDATE SET key_value=excluded.key_value, …"
unfoldable pub overwrite : ApiKeyRow → List ApiKeyRow → List ApiKeyRow
overwrite new [] = []
overwrite new (r ∷ rs) = (if has_name new.key_name r then new else r) ∷ overwrite new rs

unfoldable pub upsert_key : String → String → Stmt (Unit {0})
unfolding overwrite
upsert_key name value n t =
    let new : ApiKeyRow = record { key_name = name; key_value = value; updated_at = n } in
    ok (
      tt,
      record t {
        api_keys =
            if any (has_name name) t.api_keys
            then overwrite new t.api_keys
            else t.api_keys ++ new ∷ [];
      },
    )

-- `DB.SetAPIKey`
unfoldable pub set_api_key : String → String → M (Unit {0})
unfolding with_tx exec trim_space upsert_key
set_api_key name value = with_tx (exec (upsert_key (trim_space name) value))

abbrev pub value_of : Option ApiKeyRow → Option String
value_of none = none
value_of (some r) = some r.key_value

-- The value of a key in the table.
abbrev pub key_in : String → Tables → Option String
key_in name t = value_of (find (has_name name) t.api_keys)

-- `DB.GetAPIKey`: no row is the empty text.
unfoldable pub get_api_key : String → M String
unfolding query trim_space
get_api_key name = query λ _ t. or_else (key_in (trim_space name) t) ""

-- The loop of `GetAPIKeysMap`: a later row overwrites an earlier one of its name.
unfoldable pub collect_keys : List ApiKeyRow → KeyMap → KeyMap
collect_keys [] keys = keys
collect_keys (r ∷ rs) keys =
    collect_keys rs λ name. if str_eq r.key_name name then some r.key_value else keys name

-- `DB.GetAPIKeysMap`
unfoldable pub get_api_keys_map : M KeyMap
unfolding query collect_keys
get_api_keys_map = query λ _ t. collect_keys t.api_keys λ _. none

unfoldable pub delete_key : String → Stmt (Unit {0})
delete_key name n t = ok (tt, record t { api_keys = keep (λ r. not (has_name name r)) t.api_keys })

-- `DB.DeleteAPIKey`
unfoldable pub delete_api_key : String → M (Unit {0})
unfolding with_tx exec trim_space delete_key
delete_api_key name = with_tx (exec (delete_key (trim_space name)))
