-- ===== src/Clients/Redact.antt =====
-- `RedactString` and `RedactError` of clients/clients.go: keys and key parameters are taken out of
-- error texts. The scans recur on fuel, one unit a character.
pub mod Laws
pub mod Fuel
use Prim.Native.Char.{Char, code}
use Prim.Native.String
use fin_base.Base.{
  ℕ, zero, suc, String, str_eq, Bool, not, ◌&&◌, ◌||◌, List, [], ◌∷◌, Option, none, some,
  if◌then◌else◌, leb, ◌==◌,
}
use fin_base.Base.Text.{lower_char}

abbrev pub mark : String
mark = "[REDACTED]"

-- What follows a prefix.
unfoldable pub strip_prefix : String → String → Option String
strip_prefix String.[] s = some s
strip_prefix (String.◌∷◌ p ps) String.[] = none
strip_prefix (String.◌∷◌ p ps) (String.◌∷◌ c s) =
    if code p == code c then strip_prefix ps s else none

unfoldable pub replace_from : ℕ → String → String → String
unfolding strip_prefix
replace_from zero old s = s
replace_from (suc f) old String.[] = ""
replace_from (suc f) old (String.◌∷◌ c s) = elim (strip_prefix old (String.◌∷◌ c s)) [
  | some rest ↦ String.◌++◌ mark (replace_from f old rest)
  | none ↦ String.◌∷◌ c (replace_from f old s)
]

-- `strings.ReplaceAll(s, key, "[REDACTED]")`
unfoldable pub replace_all : String → String → String
unfolding replace_from
replace_all old s = replace_from (String.count s) old s

-- The letter `p` of `(?i)`: any case, and for `k` the Kelvin sign too.
unfoldable pub folds_to : Char → Char → Bool
unfolding lower_char
folds_to p c = code (lower_char c) == code p || (code p == b'k' && code c == 0x212a)

-- A word of the expression at the front of a text: the text of it, and what follows.
unfoldable pub word_prefix : String → String → Option (String × String)
unfolding folds_to
word_prefix String.[] s = some ("", s)
word_prefix (String.◌∷◌ p ps) String.[] = none
word_prefix (String.◌∷◌ p ps) (String.◌∷◌ c s) = elim (word_prefix ps s) [
  | none ↦ none
  | some (w, rest) ↦ if folds_to p c then some (String.◌∷◌ c w, rest) else none
]

-- `[^&\s]`
unfoldable pub is_value_char : Char → Bool
is_value_char c =
    not (
      code c == b'&' || code c == 9 || code c == 10 || code c == 12 || code c == 13 || code c == 32)

unfoldable pub drop_value : String → String
unfolding is_value_char
drop_value String.[] = ""
drop_value (String.◌∷◌ c s) = if is_value_char c then drop_value s else String.◌∷◌ c s

-- A value of one character or more: what follows it.
abbrev pub value_prefix : String → Option String
value_prefix String.[] = none
value_prefix (String.◌∷◌ c s) = if is_value_char c then some (drop_value s) else none

-- `=` and a value
abbrev pub assigned : Option (String × String) → Option (String × String)
assigned none = none
assigned (some (w, String.[])) = none
assigned (some (w, String.◌∷◌ c s)) =
    if code c == b'='
    then elim (value_prefix s) [ none ↦ none | some rest ↦ some (w, rest) ]
    else none

abbrev pub first_of_two :
    Option (String × String) → Option (String × String) → Option (String × String)
first_of_two none o = o
first_of_two (some m) o = some m

-- `(apikey|api_key|token)=([^&\s]+)` at the front of a text: the name, and what follows.
unfoldable pub parameter_prefix : String → Option (String × String)
unfolding word_prefix drop_value
parameter_prefix s =
    first_of_two (assigned (word_prefix "apikey" s))
      (first_of_two (assigned (word_prefix "api_key" s)) (assigned (word_prefix "token" s)))

unfoldable pub redact_parameters_from : ℕ → String → String
unfolding parameter_prefix
redact_parameters_from zero s = s
redact_parameters_from (suc f) String.[] = ""
redact_parameters_from (suc f) (String.◌∷◌ c s) = elim (parameter_prefix (String.◌∷◌ c s)) [
  | some (name, rest) ↦ String.◌++◌ name (String.◌++◌ "=[REDACTED]" (redact_parameters_from f rest))
  | none ↦ String.◌∷◌ c (redact_parameters_from f s)
]

-- `paramRedactRegex.ReplaceAllString(s, "$1=[REDACTED]")`
unfoldable pub redact_parameters : String → String
unfolding redact_parameters_from
redact_parameters s = redact_parameters_from (String.count s) s

unfoldable pub redact_keys : List String → String → String
unfolding replace_all
redact_keys [] s = s
redact_keys (key ∷ keys) s =
    redact_keys keys
      (if not (str_eq key "") && leb 2 (String.len key) then replace_all key s else s)

-- `RedactString`
unfoldable pub redact_string : String → List String → String
unfolding redact_keys redact_parameters
redact_string s keys = if str_eq s "" then "" else redact_parameters (redact_keys keys s)

-- `RedactError`
unfoldable pub redact_error : Option String → List String → Option String
unfolding redact_string
redact_error none keys = none
redact_error (some e) keys = some (redact_string e keys)
