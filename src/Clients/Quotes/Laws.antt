-- ===== src/Clients/Quotes/Laws.antt =====
-- The order of the market data fetchers, and what the last error says.
use fin_base.Base.{
  ◌≡◌, refl, ap, sym, subst, ◌⊎◌, inl, inr, String, true, List, [], ◌∷◌, ◌++◌, Option, none, some,
  arith, Bool-cases,
}
use fin_base.Base.Float.{is_positive}
use fin_base.Clients.Http.{Client, Fetched}
use fin_base.Clients.Payloads.{MarketQuote, Codec}
use fin_base.Clients.Quotes.{
  priced, reason, first_priced, fetch_finnhub_market_data, fetch_tiingo_market_data,
  fetch_twelve_data_market_data, fetch_market_data_waterfall,
}

abbrev pub Fetcher : Type 0
Fetcher = Client → Fetched (Option MarketQuote)

-- A quote without error whose price is above zero.
HasPrice : Option MarketQuote × Option String → MarketQuote → Type 0
HasPrice r q = (r ≡ (some q, none)) × (is_positive q.current_price ≡ true)

-- `out` is the answer of the first fetcher, tried in order from `c`, that has a price; the fetchers
-- after it are not called. Where none has, it is an error without a quote.
unfoldable pub FirstOf : List (String × Fetcher) → Client → Fetched (Option MarketQuote) → Type 0
unfolding HasPrice
FirstOf [] c out = (e : String) × out ≡ ((none, some e), c)
FirstOf (f ∷ fs) c out =
    ((q : MarketQuote) × HasPrice (f.1 c).0 q × (out ≡ f.1 c))
    ⊎ (((q : MarketQuote) → HasPrice (f.1 c).0 q → ⊥) × FirstOf fs (f.1 c).1 out)

priced-cases :
    (r : Option MarketQuote × Option String)
    → ((q : MarketQuote) × HasPrice r q × (priced r ≡ some q))
      ⊎ (((q : MarketQuote) → HasPrice r q → ⊥) × (priced r ≡ none))
unfolding priced HasPrice
priced-cases (q, some e) = inr (λ q h. ground (arith, h.0), refl)
priced-cases (none, none) = inr (λ q h. ground (arith, h.0), refl)
priced-cases (some q, none) = elim (Bool-cases (is_positive q.current_price)) [
  | inl p ↦ inl (q, (refl, p), rw p refl)
  | inr p ↦ inr (λ q' h. ground (arith, h.0, h.1), rw p refl)
]

first_priced-step :
    (ticker : String) (f : String × Fetcher) (fs : List (String × Fetcher)) (errs : List String)
    (c : Client)
    → (priced (f.1 c).0 ≡ none)
    → first_priced ticker (f ∷ fs) errs c
      ≡ first_priced ticker fs (errs ++ reason f.0 (f.1 c).0.1 ∷ []) (f.1 c).1
unfolding first_priced
first_priced-step ticker f fs errs c p = rw (p, first_priced)

first_priced-hit :
    (ticker : String) (f : String × Fetcher) (fs : List (String × Fetcher)) (errs : List String)
    (c : Client) (q : MarketQuote)
    → HasPrice (f.1 c).0 q
    → (priced (f.1 c).0 ≡ some q)
    → first_priced ticker (f ∷ fs) errs c ≡ f.1 c
unfolding first_priced HasPrice
first_priced-hit ticker f fs errs c q h p =
    rw (p, first_priced) (ap (λ r. (r, (f.1 c).1)) (sym h.0))

first_priced-FirstOf :
    (ticker : String) (fs : List (String × Fetcher)) (errs : List String) (c : Client)
    → FirstOf fs c (first_priced ticker fs errs c)
unfolding first_priced FirstOf
first_priced-FirstOf ticker [] errs c = (_, refl)
first_priced-FirstOf ticker (f ∷ fs) errs c = elim (priced-cases (f.1 c).0) [
  | inl (q, h, p) ↦ inl (q, h, first_priced-hit ticker f fs errs c q h p)
  | inr (unpriced, p) ↦ inr (
    unpriced,
    subst (FirstOf fs (f.1 c).1) (sym (first_priced-step ticker f fs errs c p))
        (first_priced-FirstOf ticker fs (errs ++ reason f.0 (f.1 c).0.1 ∷ []) (f.1 c).1),
  )
]

-- The waterfall returns the answer of the first of Finnhub, Tiingo and Twelve Data, called in this
-- order, that answers without error and with a price above zero, and calls none after it; where none
-- of the three does, it returns an error and no quote.
pub waterfall-FirstOf :
    (json : Codec) (ticker : String) (c : Client)
    → FirstOf
        (("Finnhub", fetch_finnhub_market_data json ticker)
          ∷ ("Tiingo", fetch_tiingo_market_data json ticker)
          ∷ ("Twelve Data", fetch_twelve_data_market_data json ticker)
          ∷ [])
        c
        (fetch_market_data_waterfall json ticker c)
unfolding fetch_market_data_waterfall
waterfall-FirstOf json ticker c = first_priced-FirstOf ticker _ [] c
