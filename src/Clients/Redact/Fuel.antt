-- ===== src/Clients/Redact/Fuel.antt =====
-- The scans of `RedactString` are loops without a bound in the source; each step takes a character at
-- least, so one unit of fuel a character is enough.
use Prim.Native.Char.{Char}
use Prim.Native.String
use fin_base.Base.{ℕ, suc, ◌≤◌, String, Option, none, some}

-- What is left behind a match is no longer than `n`.
abbrev LeftBy : ℕ → Option (String × String) → Type 0
LeftBy n none = Unit
LeftBy n (some (w, rest)) = String.count rest ≤ n

-- An assignment takes two characters behind its name.
abbrev Takes : ℕ → Option (String × String) → Type 0
Takes n none = Unit
Takes n (some (w, rest)) = suc (String.count rest) ≤ n
