-- ===== src/Api/Auth/Laws.antt =====
-- A token of `GenerateJWT` passes `ValidateJWT` under its own secret until it expires.
use Prim.Native.Char.{Char, code}
use fin_base.Base.{
  ℕ, zero, suc, ◌+◌, ◌-◌, ◌%◌, ◌<◌, ◌≡◌, refl, sym, ap, ◌∙◌, inl, inr, String, str_eq, str_eq_refl,
  false, not, ◌&&◌, [], ◌∷◌, if◌then◌else◌, ltb, ◌==◌, arith, Bool-cases, Result, ok,
}
use fin_base.Api.Auth.{
  Codec, hold_padding, trim_padding, byte_len, with_padding, dotted, split_dots, base64_url_encode,
  base64_url_decode, header_json, claims_at, unsigned, signature, generate_jwt, unexpired,
  check_claims, validate_parts, validate_jwt,
}

-- No character of a text is the byte `b`.
unfoldable pub Lacks : ℕ → String → Type 0
Lacks b String.[] = Unit
Lacks b (String.◌∷◌ c s) = ((code c == b) ≡ false) × Lacks b s

-- What base64 makes of the bytes `bytes`: `body`, without a dot or an equals sign, and as many equals
-- signs as fill it up to a multiple of four.
pub record IsEncoding (codec : Codec) (bytes body : String) (fill : ℕ) : Type 0 where
  pub encodes : codec.encode bytes ≡ with_padding body fill
  pub no_padding : Lacks b'=' body
  pub no_dot : Lacks b'.' body
  pub fill_bound : fill < 4
  pub fills : (byte_len body + fill) % 4 ≡ 0

hold_padding-keep :
    (c : Char) (s : String) → (code c == b'=') ≡ false → hold_padding c s ≡ String.◌∷◌ c s
unfolding hold_padding
hold_padding-keep c String.[] h = rw h refl
hold_padding-keep c (String.◌∷◌ d t) h = refl

trim-with_padding : (b : String) (k : ℕ) → Lacks b'=' b → trim_padding (with_padding b k) ≡ b
unfolding trim_padding with_padding Lacks
trim-with_padding String.[] zero h = refl
trim-with_padding String.[] (suc k) h = rw (trim-with_padding "" k tt) fill_gone
  where
    fill_gone : hold_padding "=" "" ≡ ""
    fill_gone = refl
trim-with_padding (String.◌∷◌ c s) k h =
    ap (hold_padding c) (trim-with_padding s k h.1) ∙ hold_padding-keep c s h.0

with_padding-zero : (s : String) → with_padding s 0 ≡ s
unfolding with_padding
with_padding-zero String.[] = refl
with_padding-zero (String.◌∷◌ c s) = ap (String.◌∷◌ c) (with_padding-zero s)

dotted_assoc : (a b c : String) → dotted (dotted a b) c ≡ dotted a (dotted b c)
unfolding dotted
dotted_assoc String.[] b c = refl
dotted_assoc (String.◌∷◌ x a) b c = ap (String.◌∷◌ x) (dotted_assoc a b c)

split-dotted : (a t : String) → Lacks b'.' a → split_dots (dotted a t) ≡ a ∷ split_dots t
unfolding split_dots dotted Lacks
split-dotted String.[] t h = refl
split-dotted (String.◌∷◌ c a) t h = let e = h.0 in rw (e, split-dotted a t h.1) refl

split_whole : (a : String) → Lacks b'.' a → split_dots a ≡ a ∷ []
unfolding split_dots Lacks
split_whole String.[] h = refl
split_whole (String.◌∷◌ c a) h = let e = h.0 in rw (e, split_whole a h.1) refl

module _ (codec : Codec) where
  encode-body :
      (bytes body : String) (fill : ℕ)
      → IsEncoding codec bytes body fill
      → base64_url_encode codec bytes ≡ body
  unfolding base64_url_encode
  encode-body bytes body fill h =
      ap trim_padding h.encodes ∙ trim-with_padding body fill h.no_padding

  -- `base64URLDecode` puts the padding back that `base64URLEncode` takes off: it reads what it made.
  decode-encode :
      (bytes body : String) (fill : ℕ)
      → IsEncoding codec bytes body fill
      → base64_url_decode codec (base64_url_encode codec bytes) ≡ codec.decode (codec.encode bytes)
  unfolding base64_url_decode
  decode-encode bytes body fill h =
      rw (encode-body bytes body fill h) (padded ∙ ap codec.decode (sym h.encodes))
    where
      padded :
          codec.decode
            (if ltb 0 (byte_len body % 4) then with_padding body (4 - byte_len body % 4) else body)
          ≡ codec.decode (with_padding body fill)
      padded = elim (Bool-cases (ltb 0 (byte_len body % 4))) [
        | inl q ↦
            let e : 4 - byte_len body % 4 ≡ fill = ground (arith, h.fills, h.fill_bound) in
            rw (q, e) refl
        | inr q ↦
            let e : fill ≡ 0 = ground (arith, h.fills, h.fill_bound) in
            rw (q, e) (ap codec.decode (sym (with_padding-zero body)))
      ]

  parts-eq :
      (secret : String) (now duration : ℕ) (h c s : String)
      → Lacks b'.' h
      → Lacks b'.' c
      → Lacks b'.' s
      → base64_url_encode codec header_json ≡ h
      → base64_url_encode codec (codec.marshal (claims_at now duration)) ≡ c
      → signature codec secret (unsigned codec now duration) ≡ s
      → split_dots (generate_jwt codec secret now duration) ≡ h ∷ c ∷ s ∷ []
  unfolding generate_jwt unsigned
  parts-eq secret now duration h c s nh nc ns eh ec es =
      ap (λ x. split_dots (dotted (unsigned codec now duration) x)) es
      ∙ ap
          (λ x. split_dots (
            dotted (dotted x (base64_url_encode codec (codec.marshal (claims_at now duration)))) s))
          eh
      ∙ ap (λ x. split_dots (dotted (dotted h x) s)) ec
      ∙ ap split_dots (dotted_assoc h c s)
      ∙ split-dotted h (dotted c s) nh
      ∙ ap (λ x. h ∷ x) (split-dotted c s nc ∙ ap (λ x. c ∷ x) (split_whole s ns))

  check-eq :
      (now duration later : ℕ) (r : Result String)
      → r ≡ ok (codec.marshal (claims_at now duration))
      → codec.unmarshal (codec.marshal (claims_at now duration)) ≡ ok (claims_at now duration)
      → check_claims codec later r ≡ not (ltb (now + duration) later)
  unfolding check_claims unexpired
  check-eq now duration later r e u = ap (check_claims codec later) e ∙ ap (unexpired codec later) u

  -- A token made at time `now` for `duration` seconds is valid under the same secret at exactly the
  -- times up to `now + duration`, where base64 and JSON read back what they write of its parts.
  pub generated_token-valid :
      (secret : String) (now duration later : ℕ) (header claims sig : String) (i j k : ℕ)
      → IsEncoding codec header_json header i
      → IsEncoding codec (codec.marshal (claims_at now duration)) claims j
      → IsEncoding codec (codec.mac secret (unsigned codec now duration)) sig k
      → codec.decode (codec.encode (codec.marshal (claims_at now duration)))
        ≡ ok (codec.marshal (claims_at now duration))
      → codec.unmarshal (codec.marshal (claims_at now duration)) ≡ ok (claims_at now duration)
      → validate_jwt codec (generate_jwt codec secret now duration) secret later
        ≡ not (ltb (now + duration) later)
  unfolding validate_jwt validate_parts signature unsigned
  generated_token-valid secret now duration later header claims sig i j k eh ec es d u =
      let h = encode-body header_json header i eh in
      let c = encode-body (codec.marshal (claims_at now duration)) claims j ec in
      let s = encode-body (codec.mac secret (unsigned codec now duration)) sig k es in
      ap (validate_parts codec secret later)
        (parts-eq secret now duration header claims sig eh.no_dot ec.no_dot es.no_dot h c s)
      ∙ ap
          (λ x.
            str_eq sig (signature codec secret (dotted x claims))
            && check_claims codec later (base64_url_decode codec claims))
          (sym h)
      ∙ ap
          (λ x.
            str_eq sig (signature codec secret (dotted (base64_url_encode codec header_json) x))
            && check_claims codec later (base64_url_decode codec claims))
          (sym c)
      ∙ ap (λ x. str_eq sig x && check_claims codec later (base64_url_decode codec claims)) s
      ∙ ap (λ b. b && check_claims codec later (base64_url_decode codec claims)) (str_eq_refl sig)
      ∙ check-eq now duration later (base64_url_decode codec claims)
          (ap (base64_url_decode codec) (sym c)
            ∙ decode-encode (codec.marshal (claims_at now duration)) claims j ec
            ∙ d)
          u
