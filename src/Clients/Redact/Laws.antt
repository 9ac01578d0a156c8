-- ===== src/Clients/Redact/Laws.antt =====
-- The redaction of `RedactString`: what becomes of a key's occurrences, and that the scans reach the end
-- of their text.
use Prim.Native.Char.{Char, code}
use Prim.Native.String
use Prim.Native.String.append
use Prim.Native.String.count
use text.Mathlib.TextEquality.{Char-path}
use fin_base.Base.{
  ℕ, zero, suc, ◌+◌, ◌≤◌, ◌<◌, ◌≡◌, ◌≢◌, refl, sym, ap, subst, ◌∙◌, inl, inr, String, str_eq,
  str_eq_iff, false, not, ◌&&◌, List, [], ◌∷◌, Option, none, some, arith, Bool-cases, leb, ◌==◌,
}
use fin_base.Clients.Redact.{mark, strip_prefix, replace_from, replace_all, redact_keys}

pub append_cons :
    (c : Char) (s t : String) → String.◌++◌ (String.◌∷◌ c s) t ≡ String.◌∷◌ c (String.◌++◌ s t)
append_cons c s t i = append.cons c s t i

pub count_cons : (c : Char) (s : String) → String.count (String.◌∷◌ c s) ≡ suc (String.count s)
count_cons c s i = count.cons c s i

-- What a prefix test answers.
abbrev pub Strips : String → String → Option String → Type 0
Strips p s (some rest) = s ≡ String.◌++◌ p rest
Strips p s none = (rest : String) → s ≢ String.◌++◌ p rest

cons_head : (c d : Char) (s t : String) → String.◌∷◌ c s ≡ String.◌∷◌ d t → code c ≡ code d
cons_head c d s t e = ground (arith, e)

cons_tail : (c d : Char) (s t : String) → String.◌∷◌ c s ≡ String.◌∷◌ d t → s ≡ t
cons_tail c d s t e = ground (arith, e)

cons-Strips :
    (p c : Char) (ps s : String) (o : Option String)
    → code p ≡ code c
    → Strips ps s o
    → Strips (String.◌∷◌ p ps) (String.◌∷◌ c s) o
cons-Strips p c ps s (some rest) same h = cc (Char-path p c same, h, append_cons p ps rest)
cons-Strips p c ps s none same h =
    λ rest e. h rest (cons_tail c p s (String.◌++◌ ps rest) (e ∙ append_cons p ps rest))

pub strip_prefix-Strips : (p s : String) → Strips p s (strip_prefix p s)
unfolding strip_prefix
strip_prefix-Strips String.[] s = sym (λ i. append.nil s i)
strip_prefix-Strips (String.◌∷◌ p ps) String.[] = λ rest e. cc (e, append_cons p ps rest)
strip_prefix-Strips (String.◌∷◌ p ps) (String.◌∷◌ c s) = elim (Bool-cases (code p == code c)) [
  | inl same ↦
      rw same (cons-Strips p c ps s (strip_prefix ps s) (ground arith) (strip_prefix-Strips ps s))
  | inr other ↦ rw other (λ rest e.
      ground (arith, other, cons_head c p s (String.◌++◌ ps rest) (e ∙ append_cons p ps rest)))
]

-- A text with every occurrence of a key replaced, from the left, none within another.
pub data Replaced (old : String) : String → String → Type 0 where
  ends : Replaced old "" ""
  hit :
      {s rest t : String}
      → s ≡ String.◌++◌ old rest
      → Replaced old rest t
      → Replaced old s (String.◌++◌ mark t)
  miss :
      {c : Char} {s t : String}
      → ((rest : String) → String.◌∷◌ c s ≢ String.◌++◌ old rest)
      → Replaced old s t
      → Replaced old (String.◌∷◌ c s) (String.◌∷◌ c t)

pub count_append : (s t : String) → String.count (String.◌++◌ s t) ≡ String.count s + String.count t
count_append String.[] t = ap String.count (λ i. append.nil t i) ∙ omega arith
count_append (String.◌∷◌ c s) t =
    ap String.count (append_cons c s t)
    ∙ ground (arith, count_cons c (String.◌++◌ s t), count_cons c s, count_append s t)

count_pos : (s : String) → s ≢ "" → 0 < String.count s
count_pos String.[] ne = absurd (ne refl)
count_pos (String.◌∷◌ c s) ne = ground (arith, count_cons c s)

module _ (old : String) (nonempty : old ≢ "") where
  pub shorter :
      (s rest : String) → s ≡ String.◌++◌ old rest → suc (String.count rest) ≤ String.count s
  shorter s rest e =
      ground (arith, ap String.count e, count_append old rest, count_pos old nonempty)

  scan_step :
      (f : ℕ) (c : Char) (s : String) (o : Option String)
      → String.count (String.◌∷◌ c s) ≤ suc f
      → Strips old (String.◌∷◌ c s) o
      → ((t : String) → String.count t ≤ f → Replaced old t (replace_from f old t))
      → Replaced old (String.◌∷◌ c s) (elim o [
        | some rest ↦ String.◌++◌ mark (replace_from f old rest)
        | none ↦ String.◌∷◌ c (replace_from f old s)
      ])
  scan_step f c s (some rest) le h later =
      hit h (later rest (ground (arith, shorter (String.◌∷◌ c s) rest h, le)))
  scan_step f c s none le h later = miss h (later s (ground (arith, le, count_cons c s)))

  replace_from-Replaced :
      (f : ℕ) (s : String) → String.count s ≤ f → Replaced old s (replace_from f old s)
  unfolding replace_from
  replace_from-Replaced zero String.[] le = ends
  replace_from-Replaced zero (String.◌∷◌ c s) le = absurd (ground (arith, le, count_cons c s))
  replace_from-Replaced (suc f) String.[] le = ends
  replace_from-Replaced (suc f) (String.◌∷◌ c s) le =
      scan_step f c s (strip_prefix old (String.◌∷◌ c s)) le
        (strip_prefix-Strips old (String.◌∷◌ c s)) (replace_from-Replaced f)

  replace_all-Replaced : (s : String) → Replaced old s (replace_all old s)
  unfolding replace_all
  replace_all-Replaced s = replace_from-Replaced (String.count s) s (omega arith)

-- A text with the keys of two bytes or more replaced, one key after another.
pub data Redacted : List String → String → String → Type 0 where
  unchanged : {s : String} → Redacted [] s s
  passed :
      {key s t : String} {keys : List String}
      → String.len key < 2
      → Redacted keys s t
      → Redacted (key ∷ keys) s t
  taken :
      {key s t u : String} {keys : List String}
      → 2 ≤ String.len key
      → Replaced key s t
      → Redacted keys t u
      → Redacted (key ∷ keys) s u

too_short :
    (key : String) → (not (str_eq key "") && leb 2 (String.len key)) ≡ false → String.len key < 2
too_short key h = elim (Bool-cases (str_eq key "")) [
  | inl e ↦ subst (λ k. String.len k < 2) (sym ((str_eq_iff key "").0 e)) (omega arith)
  | inr e ↦ ground (arith, h, e)
]

-- The keys of two bytes or more are taken out of a text one after another: every occurrence of a key,
-- from the left, becomes the mark and every other character stays, up to the end of the text.
pub redact_keys-Redacted : (keys : List String) (s : String) → Redacted keys s (redact_keys keys s)
unfolding redact_keys
redact_keys-Redacted [] s = unchanged
redact_keys-Redacted (key ∷ keys) s =
    elim (Bool-cases (not (str_eq key "") && leb 2 (String.len key))) [
      | inl q ↦ rw q (
          taken (ground (arith, q))
            (replace_all-Replaced key (ground (arith, q, str_eq_iff key "")) s)
            (redact_keys-Redacted keys (replace_all key s)))
      | inr q ↦ rw q (passed (too_short key q) (redact_keys-Redacted keys s))
    ]
