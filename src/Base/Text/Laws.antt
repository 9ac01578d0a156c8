-- ===== src/Base/Text/Laws.antt =====
-- Laws of the text functions: trimming and upper case commute, and both are idempotent.
use Prim.Native.Nat.{ℕ, zero, suc, ◌+◌, ◌-◌, ◌<◌, ◌≤◌}
use Prim.Native.Char.{Char, code}
use Prim.Native.String.{String, char_at}
use mathlib.Core.Path.{◌≡◌, refl, ap, ◌∙◌, subst}
use mathlib.Core.Logic.{inl, inr}
use mathlib.Core.Bool.{Bool, true, false, ◌&&◌}
use native.Mathlib.Omega.{arith}
use text.Mathlib.TextEquality.{Char-path}
use fin_base.Base.Tests.{leb, ◌==◌, if◌then◌else◌, Bool-cases}
use fin_base.Base.Text.{
  is_space, trim_space, trim_left, trim_right, hold, upper_char, to_upper, normalize,
}

abbrev capital : ℕ → ℕ
capital k = code (char_at "ABCDEFGHIJKLMNOPQRSTUVWXYZ" k)

-- The `count` capitals from the one at `start` on stand `b'A'` above their places.
in_place : ℕ → ℕ → Bool
in_place start zero = true
in_place start (suc count) =
    let later = in_place (suc start) count in capital start == start + b'A' && later

alphabet : in_place 0 26 ≡ true
unfolding in_place
alphabet = refl

capital_place :
    (start count k : ℕ)
    → in_place start count ≡ true
    → start ≤ k
    → k < start + count
    → capital k ≡ k + b'A'
unfolding in_place
capital_place start zero k h lo hi = absurd (omega arith)
capital_place start (suc count) k h lo hi = elim (Bool-cases (k == start)) [
  | inl here ↦
      let e : start ≡ k = ground arith in subst (λ i. capital i ≡ i + b'A') e (ground arith)
  | inr above ↦ capital_place (suc start) count k (ground arith) (ground arith) (omega arith)
]

code-letter : (k : ℕ) → k < 26 → capital k ≡ k + b'A'
code-letter k h = capital_place 0 26 k alphabet (omega arith) h

pub code-upper_char :
    (c : Char)
    → code (upper_char c) ≡ (if leb b'a' (code c) && leb (code c) b'z' then code c - 32 else code c)
unfolding upper_char
code-upper_char c = ground (arith, code-letter (code c - b'a'))

upper_char_idem : (c : Char) → upper_char (upper_char c) ≡ upper_char c
upper_char_idem c =
    Char-path _ _ (ground (arith, code-upper_char c, code-upper_char (upper_char c)))

pub to_upper_idem : (s : String) → to_upper (to_upper s) ≡ to_upper s
unfolding to_upper
to_upper_idem String.[] = refl
to_upper_idem (String.◌∷◌ c s) = cc (upper_char_idem c, to_upper_idem s)

is_space-upper_char : (c : Char) → is_space (code (upper_char c)) ≡ is_space (code c)
unfolding is_space
is_space-upper_char c = ground (arith, code-upper_char c)

hold-keep : (c : Char) (t : String) → is_space (code c) ≡ false → hold c t ≡ String.◌∷◌ c t
unfolding hold
hold-keep c String.[] h = rw h
hold-keep c (String.◌∷◌ d t) h = refl

to_upper-hold : (c : Char) (t : String) → to_upper (hold c t) ≡ hold (upper_char c) (to_upper t)
unfolding hold to_upper
to_upper-hold c String.[] =
    rw (is_space-upper_char c)
      (elim (is_space (code c))
        as (λ b.
          to_upper (if b then "" else String.◌∷◌ c "")
          ≡ (if b then "" else String.◌∷◌ (upper_char c) "")) [ true ↦ refl | false ↦ refl ])
to_upper-hold c (String.◌∷◌ d t) = refl

to_upper-trim_right : (s : String) → to_upper (trim_right s) ≡ trim_right (to_upper s)
unfolding trim_right to_upper
to_upper-trim_right String.[] = refl
to_upper-trim_right (String.◌∷◌ c s) =
    to_upper-hold c (trim_right s) ∙ ap (hold (upper_char c)) (to_upper-trim_right s)

to_upper-trim_left : (s : String) → to_upper (trim_left s) ≡ trim_left (to_upper s)
unfolding trim_left to_upper
to_upper-trim_left String.[] = refl
to_upper-trim_left (String.◌∷◌ c s) = elim (Bool-cases (is_space (code c))) [
  | inl blank ↦ rw (is_space-upper_char c, blank) (to_upper-trim_left s)
  | inr solid ↦ rw (is_space-upper_char c, solid) refl
]

hold-blank : (c : Char) → is_space (code c) ≡ true → hold c "" ≡ ""
unfolding hold
hold-blank c h = rw h

trim_right-hold_nil : (c : Char) → trim_right (hold c "") ≡ hold c ""
unfolding trim_right
trim_right-hold_nil c = elim (Bool-cases (is_space (code c))) [
  | inl blank ↦ rw (hold-blank c blank) refl
  | inr solid ↦ rw (hold-keep c "" solid) (hold-keep c "" solid)
]

trim_right-hold : (c : Char) (t : String) → trim_right t ≡ t → trim_right (hold c t) ≡ hold c t
unfolding hold trim_right
trim_right-hold c String.[] h = trim_right-hold_nil c
trim_right-hold c (String.◌∷◌ d t) h = ap (hold c) h

trim_right_idem : (s : String) → trim_right (trim_right s) ≡ trim_right s
unfolding trim_right
trim_right_idem String.[] = refl
trim_right_idem (String.◌∷◌ c s) = trim_right-hold c (trim_right s) (trim_right_idem s)

-- Trimming the end leaves a trimmed start trimmed.
trim_space_start : (s : String) → trim_left (trim_right (trim_left s)) ≡ trim_right (trim_left s)
unfolding trim_left trim_right
trim_space_start String.[] = refl
trim_space_start (String.◌∷◌ c s) = elim (Bool-cases (is_space (code c))) [
  | inl blank ↦ rw blank (trim_space_start s)
  | inr solid ↦ rw (solid, hold-keep c (trim_right s) solid, trim_left, solid) refl
]

-- What is stored is its own normal form: a second pass through any operation changes nothing.
normalize_idem : (s : String) → normalize (normalize s) ≡ normalize s
unfolding normalize
normalize_idem s =
    simp (to_upper-trim_right, to_upper-trim_left, to_upper_idem, trim_space_start, trim_right_idem)

-- A normal form has no blanks at its ends.
pub trim-normalize : (s : String) → trim_space (normalize s) ≡ normalize s
unfolding normalize
trim-normalize s = simp (to_upper-trim_right, to_upper-trim_left, trim_space_start, trim_right_idem)
