-- ===== src/Clients/Sec/Laws.antt =====
-- The SEC's answers: facts in every encoding, and the CIK of a ticker.
use fin_base.Base.{
  ◌≡◌, ◌≢◌, refl, sym, subst, ◌==◌, ap, ◌∙◌, ◌⊎◌, inl, inr, String, str_eq, str_eq_iff, true, false,
  List, [], ◌∷◌, Option, none, some, Result, ok, err, arith, Bool-cases,
}
use fin_base.Base.Text.{to_upper, contains, show_nat}
use fin_base.Clients.Cik.{format_cik, size}
use fin_base.Clients.Cik.Laws.{IsDigits, format_cik-ten-IsDigits}
use fin_base.Clients.Http.{Reply, decoded}
use fin_base.Clients.Quotes.{address}
use fin_base.Clients.Sec.{
  Inflate, encoding_of, sec_body, facts_outcome, find_cik, cik_outcome, cik_of, found_or_error,
  unless,
}
use fin_base.Clients.Payloads.{TickerEntry, Codec}

-- Compression that the readers undo. The raw format is never taken for zlib's, whose header it lacks.
pub record Compression (z : Inflate) : Type 0 where
  pub gzip : String → String
  pub zlib : String → String
  pub raw : String → String
  pub gunzips : (s : String) → z.gzip_reader (gzip s) none ≡ ok (ok s)
  pub unzips : (s : String) → z.zlib_reader (zlib s) ≡ ok (ok s)
  pub inflates : (s : String) → z.flate_reader (raw s) ≡ ok s
  pub no_header : (s : String) → (e : String) × (z.zlib_reader (raw s) ≡ err e)

pub data Encoding : Type 0 where
  plain gzipped zlibbed deflated : Encoding

module _ {z : Inflate} (k : Compression z) where
  -- How a server sends a text in an encoding.
  abbrev pub Sends : Encoding → String → Reply → Type 0
  Sends plain s r =
      (r.body ≡ s)
      × ((r.uncompressed ≡ true)
          ⊎ ((contains (encoding_of r) "gzip" ≡ false)
              × (contains (encoding_of r) "deflate" ≡ false)))
  Sends gzipped s r =
      (r.body ≡ k.gzip s) × (r.uncompressed ≡ false) × (contains (encoding_of r) "gzip" ≡ true)
  Sends zlibbed s r =
      (r.body ≡ k.zlib s)
      × (r.uncompressed ≡ false)
      × (contains (encoding_of r) "gzip" ≡ false)
      × (contains (encoding_of r) "deflate" ≡ true)
  Sends deflated s r =
      (r.body ≡ k.raw s)
      × (r.uncompressed ≡ false)
      × (contains (encoding_of r) "gzip" ≡ false)
      × (contains (encoding_of r) "deflate" ≡ true)

  sec_body-Sends :
      (enc : Encoding) (s : String) (r : Reply)
      → r.broken ≡ none
      → Sends enc s r
      → sec_body z r ≡ ok s
  unfolding sec_body
  sec_body-Sends plain s r b (q, inl u) = ground (arith, q, b, u)
  sec_body-Sends plain s r b (q, inr (g, d)) = ground (arith, q, b, g, d)
  sec_body-Sends gzipped s r b (q, u, g) = ground (arith, q, b, u, g, k.gunzips s)
  sec_body-Sends zlibbed s r b (q, u, g, d) = ground (arith, q, b, u, g, d, k.unzips s)
  sec_body-Sends deflated s r b (q, u, g, d) =
      ground (arith, q, b, u, g, d, k.inflates s, k.no_header s)

  -- Where the SEC's answer comes through with status 200, plain, gzipped, in the zlib format or in the
  -- raw deflate format, the facts are those decoded from the text that was sent.
  pub facts-Sends :
      (json : Codec) (enc : Encoding) (s : String) (r : Reply)
      → r.created ≡ none
      → r.sent ≡ none
      → r.status_code ≡ 200
      → r.broken ≡ none
      → Sends enc s r
      → facts_outcome json z r ≡ decoded "sec decode error" (json.facts s) address
  unfolding facts_outcome
  facts-Sends json enc s r c t st b h = ground (arith, c, t, st, sec_body-Sends enc s r b h)

abbrev pub Occurs : TickerEntry → List TickerEntry → Type 0
Occurs e [] = ⊥
Occurs e (x ∷ xs) = (x ≡ e) ⊎ Occurs e xs

-- What a lookup found: an entry of the ticker, or that there is none.
abbrev pub Found : String → List TickerEntry → Option String → Type 0
Found target es (some cik) =
    (e : TickerEntry) × Occurs e es
    × (to_upper e.ticker ≡ target)
    × (cik ≡ format_cik (show_nat e.cik))
Found target es none = (e : TickerEntry) → Occurs e es → to_upper e.ticker ≢ target

later-Found :
    (target : String) (x : TickerEntry) (xs : List TickerEntry) (o : Option String)
    → str_eq (to_upper x.ticker) target ≡ false
    → Found target xs o
    → Found target (x ∷ xs) o
later-Found target x xs (some cik) q h = (h.0, inr h.1, h.2, h.3)
later-Found target x xs none q h = λ e o t. elim o [
  | inl same ↦ ground (
    arith,
    q,
    str_eq_iff (to_upper x.ticker) target,
    ap (λ (y : TickerEntry). to_upper y.ticker) same ∙ t,
  )
  | inr later ↦ h e later t
]

find_cik-Found : (target : String) (es : List TickerEntry) → Found target es (find_cik target es)
unfolding find_cik
find_cik-Found target [] = λ e o. absurd o
find_cik-Found target (x ∷ xs) = elim (Bool-cases (str_eq (to_upper x.ticker) target)) [
  | inl q ↦ rw q (x, inl refl, (str_eq_iff (to_upper x.ticker) target).0 q, refl)
  | inr q ↦ rw q (later-Found target x xs (find_cik target xs) q (find_cik-Found target xs))
]

-- What the answer of the SEC says of a ticker. An error in spite of a good answer means that the ticker
-- is not listed.
abbrev pub Answers : Codec → String → Reply → Result String → Type 0
Answers json ticker r (ok cik) =
    (es : List TickerEntry) × (json.tickers r.body ≡ ok es)
    × (r.status_code ≡ 200)
    × Found (to_upper ticker) es (some cik)
    × (size cik ≡ 10)
    × IsDigits cik
Answers json ticker r (err e) =
    (es : List TickerEntry)
    → r.created ≡ none
    → r.sent ≡ none
    → r.status_code ≡ 200
    → r.broken ≡ none
    → json.tickers r.body ≡ ok es
    → Found (to_upper ticker) es none

listed-Answers :
    (json : Codec) (ticker : String) (r : Reply) (es : List TickerEntry) (o : Option String)
    → r.status_code ≡ 200
    → json.tickers r.body ≡ ok es
    → Found (to_upper ticker) es o
    → Answers json ticker r (found_or_error ticker o)
listed-Answers json ticker r es (some cik) st d f =
    let ten = format_cik-ten-IsDigits (show_nat f.0.cik) in
    (es, d, st, f, subst (λ s. size s ≡ 10) (sym f.3) ten.0, subst IsDigits (sym f.3) ten.1)
listed-Answers json ticker r es none st d f =
    λ es' c s st' b d'. subst (λ l. Found (to_upper ticker) l none) (cc) f

read-Answers :
    (json : Codec) (ticker : String) (r : Reply) (d : Result (List TickerEntry))
    → r.status_code ≡ 200
    → json.tickers r.body ≡ d
    → Answers json ticker r (cik_of ticker d)
read-Answers json ticker r (ok es) st d =
    listed-Answers json ticker r es (find_cik (to_upper ticker) es) st d
      (find_cik-Found (to_upper ticker) es)
read-Answers json ticker r (err e) st d = λ es c s st' b d'. cc

unless-Answers :
    (json : Codec) (ticker : String) (r : Reply) (o : Option String) (a : Result String)
    → ((r.created ≡ none) × (r.sent ≡ none) × (r.broken ≡ none) → o ≡ none)
    → Answers json ticker r a
    → Answers json ticker r (unless o a)
unless-Answers json ticker r none a fine h = h
unless-Answers json ticker r (some e) a fine h = λ es c s st b d. let bad = fine (c, s, b) in cc

-- `FetchSECCIKForTicker` makes ten digits of the CIK of a listed entry whose ticker is the one asked for
-- but for its case; and where the SEC's list comes through and gives an error, no entry has the ticker.
pub cik_outcome-Answers :
    (json : Codec) (ticker : String) (r : Reply) → Answers json ticker r (cik_outcome json ticker r)
unfolding cik_outcome
cik_outcome-Answers json ticker r =
    unless-Answers json ticker r r.created _ (λ h. h.0)
      (unless-Answers json ticker r r.sent _ (λ h. h.1)
        (elim (Bool-cases (r.status_code == 200)) [
          | inl good ↦ rw good (
              unless-Answers json ticker r r.broken _ (λ h. h.2)
                (read-Answers json ticker r (json.tickers r.body) (ground arith) refl))
          | inr bad ↦ rw bad (λ es c s st b d. ground arith)
        ]))
