-- ===== src/Clients/Cik/Laws.antt =====
-- A formatted CIK has ten digits, and formatting it again changes nothing: the worker formats a CIK
-- that is formatted already.
use Prim.Native.Char.{code}
use text.Mathlib.TextEquality.{Char-path}
use fin_base.Base.{
  ℕ, zero, suc, ◌+◌, ◌-◌, ◌≤◌, ◌≡◌, refl, sym, ap, ◌∙◌, ◌⊎◌, inl, inr, String, str_eq_iff, true,
  arith, ◌==◌, Bool-cases,
}
use fin_base.Clients.Cik.{
  is_digit, digits, trim_zeros, size, drop_chars, pad_zeros, ten_of, format_cik,
}

-- Every character is a digit.
unfoldable pub IsDigits : String → Type 0
IsDigits String.[] = Unit
IsDigits (String.◌∷◌ c s) = (is_digit c ≡ true) × IsDigits s

digits-IsDigits : (s : String) → IsDigits (digits s)
unfolding digits IsDigits
digits-IsDigits String.[] = tt
digits-IsDigits (String.◌∷◌ c s) = elim (Bool-cases (is_digit c)) [
  | inl q ↦ rw q (q, digits-IsDigits s)
  | inr q ↦ rw q (digits-IsDigits s)
]

trim_zeros-IsDigits : (s : String) → IsDigits s → IsDigits (trim_zeros s)
unfolding trim_zeros IsDigits
trim_zeros-IsDigits String.[] h = tt
trim_zeros-IsDigits (String.◌∷◌ c s) h = elim (Bool-cases (code c == b'0')) [
  | inl q ↦ rw q (trim_zeros-IsDigits s h.1)
  | inr q ↦ rw q h
]

drop_chars-IsDigits : (n : ℕ) (s : String) → IsDigits s → IsDigits (drop_chars n s)
unfolding drop_chars IsDigits
drop_chars-IsDigits zero s h = h
drop_chars-IsDigits (suc n) String.[] h = tt
drop_chars-IsDigits (suc n) (String.◌∷◌ c s) h = drop_chars-IsDigits n s h.1

pad_zeros-IsDigits : (n : ℕ) (s : String) → IsDigits s → IsDigits (pad_zeros n s)
unfolding pad_zeros IsDigits
pad_zeros-IsDigits zero s h = h
pad_zeros-IsDigits (suc n) s h = (refl, pad_zeros-IsDigits n s h)

size-drop : (n : ℕ) (s : String) → n ≤ size s → size (drop_chars n s) ≡ size s - n
unfolding drop_chars size
size-drop zero s h = omega arith
size-drop (suc n) String.[] h = omega arith
size-drop (suc n) (String.◌∷◌ c s) h = size-drop n s (omega arith) ∙ omega arith

size-pad : (n : ℕ) (s : String) → size (pad_zeros n s) ≡ n + size s
unfolding pad_zeros size
size-pad zero s = omega arith
size-pad (suc n) s = ap suc (size-pad n s) ∙ omega arith

-- `ten_of` by its three cases.
ten_of-cases :
    (s : String)
    → ((s ≡ "") × (ten_of s ≡ "0000000000"))
      ⊎ ((10 ≤ size s) × (ten_of s ≡ drop_chars (size s - 10) s))
      ⊎ ((size s ≤ 10) × (ten_of s ≡ pad_zeros (10 - size s) s))
unfolding ten_of
ten_of-cases s = ground (arith, str_eq_iff s "")

size-zeros : size "0000000000" ≡ 10
unfolding size
size-zeros = refl

zeros-IsDigits : IsDigits "0000000000"
unfolding IsDigits
zeros-IsDigits = (refl, (refl, (refl, (refl, (refl, (refl, (refl, (refl, (refl, (refl, tt))))))))))

-- A formatted CIK is ten characters long, all of them digits, whatever the text was.
pub format_cik-ten-IsDigits :
    (cik : String) → (size (format_cik cik) ≡ 10) × IsDigits (format_cik cik)
unfolding format_cik
format_cik-ten-IsDigits cik =
    let t = trim_zeros (digits cik) in
    let h = trim_zeros-IsDigits (digits cik) (digits-IsDigits cik) in
    elim (ten_of-cases t) [
      | inl (_, q) ↦ rw q (size-zeros, zeros-IsDigits)
      | inr (inl (le, q)) ↦ rw q (
        size-drop (size t - 10) t (omega arith) ∙ omega arith,
        drop_chars-IsDigits (size t - 10) t h,
      )
      | inr (inr (le, q)) ↦
          rw q (size-pad (10 - size t) t ∙ omega arith, pad_zeros-IsDigits (10 - size t) t h)
    ]

digits-id : (s : String) → IsDigits s → digits s ≡ s
unfolding digits IsDigits
digits-id String.[] h = refl
digits-id (String.◌∷◌ c s) h = let q = h.0 in rw q (ap (String.◌∷◌ c) (digits-id s h.1))

size-trim-le : (s : String) → size (trim_zeros s) ≤ size s
unfolding size trim_zeros
size-trim-le String.[] = omega arith
size-trim-le (String.◌∷◌ c s) = elim (Bool-cases (code c == b'0')) [
  | inl q ↦ rw q (omega (arith, size-trim-le s))
  | inr q ↦ rw q (omega arith)
]

-- What `trim_zeros` takes, zeros put back.
pad_trim : (s : String) → pad_zeros (size s - size (trim_zeros s)) (trim_zeros s) ≡ s
unfolding size trim_zeros pad_zeros
pad_trim String.[] = refl
pad_trim (String.◌∷◌ c s) = elim (Bool-cases (code c == b'0')) [
  | inl q ↦
      let e : suc (size s) - size (trim_zeros s) ≡ suc (size s - size (trim_zeros s)) =
        omega (arith, size-trim-le s) in
      rw q (
        ap (λ k. pad_zeros k (trim_zeros s)) e
        ∙ ap (String.◌∷◌ "0") (pad_trim s)
        ∙ ap (λ d. String.◌∷◌ d s) (Char-path "0" c (ground (arith))))
  | inr q ↦
      let e : suc (size s) - suc (size s) ≡ 0 = omega arith in
      rw q (ap (λ k. pad_zeros k (String.◌∷◌ c s)) e)
]

zeros-pad : (s : String) → size s ≡ 10 → trim_zeros s ≡ "" → "0000000000" ≡ s
unfolding size pad_zeros
zeros-pad s ten e =
    ap (λ k. pad_zeros k "") ten_less ∙ ap (λ t. pad_zeros (size s - size t) t) (sym e) ∙ pad_trim s
  where
    ten_less : 10 ≡ size s - size ""
    ten_less = omega (arith, ten)

none_dropped : (s : String) → drop_chars 0 s ≡ pad_zeros 0 s
unfolding drop_chars pad_zeros
none_dropped s = refl

ten_of-trim : (s : String) → size s ≡ 10 → ten_of (trim_zeros s) ≡ s
ten_of-trim s ten = elim (ten_of-cases (trim_zeros s)) [
  | inl (e, q) ↦ q ∙ zeros-pad s ten e
  | inr (inl (le, q)) ↦
      q
      ∙ ap (λ k. drop_chars k (trim_zeros s)) (omega (arith, size-trim-le s))
      ∙ none_dropped (trim_zeros s)
      ∙ ap (λ k. pad_zeros k (trim_zeros s)) (omega (arith, size-trim-le s))
      ∙ pad_trim s
  | inr (inr (le, q)) ↦
      q ∙ ap (λ k. pad_zeros (k - size (trim_zeros s)) (trim_zeros s)) (sym ten) ∙ pad_trim s
]

format_cik-digits : (s : String) → IsDigits s → format_cik s ≡ ten_of (trim_zeros s)
unfolding format_cik
format_cik-digits s h = ap (λ d. ten_of (trim_zeros d)) (digits-id s h)

-- Formatting a formatted CIK changes nothing.
format_cik_idem : (cik : String) → format_cik (format_cik cik) ≡ format_cik cik
format_cik_idem cik =
    let t = format_cik-ten-IsDigits cik in
    format_cik-digits (format_cik cik) t.1 ∙ ten_of-trim (format_cik cik) t.0
