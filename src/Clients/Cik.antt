-- ===== src/Clients/Cik.antt =====
-- `FormatCIK` of clients/clients.go. `%010s` fills a text with zeros up to ten characters.
pub mod Laws
use Prim.Native.Char.{Char, code}
use Prim.Native.String
use fin_base.Base.{ℕ, zero, suc, ◌-◌, String, str_eq, Bool, ◌&&◌, if◌then◌else◌, leb, ◌==◌}

-- `r >= '0' && r <= '9'`
abbrev pub is_digit : Char → Bool
is_digit c = leb b'0' (code c) && leb (code c) b'9'

-- The characters that the loop writes.
unfoldable pub digits : String → String
digits String.[] = ""
digits (String.◌∷◌ c s) = let rest = digits s in if is_digit c then String.◌∷◌ c rest else rest

-- `strings.TrimLeft(s, "0")`
unfoldable pub trim_zeros : String → String
trim_zeros String.[] = ""
trim_zeros (String.◌∷◌ c s) =
    let rest = trim_zeros s in if code c == b'0' then rest else String.◌∷◌ c s

-- The number of characters, in place of `len`: digits are one byte each.
unfoldable pub size : String → ℕ
size String.[] = 0
size (String.◌∷◌ c s) = suc (size s)

unfoldable pub drop_chars : ℕ → String → String
drop_chars zero s = s
drop_chars (suc n) String.[] = ""
drop_chars (suc n) (String.◌∷◌ c s) = drop_chars n s

unfoldable pub pad_zeros : ℕ → String → String
pad_zeros zero s = s
pad_zeros (suc n) s = String.◌∷◌ "0" (pad_zeros n s)

-- The text of at most ten digits, or the last ten of more.
unfoldable pub ten_of : String → String
unfolding size drop_chars pad_zeros
ten_of s =
    if str_eq s ""
    then "0000000000"
    else (if leb 10 (size s) then drop_chars (size s - 10) s else pad_zeros (10 - size s) s)

unfoldable pub format_cik : String → String
unfolding digits trim_zeros ten_of
format_cik cik = ten_of (trim_zeros (digits cik))
