-- ===== src/Worker/Wiring.antt =====
-- The services of a job as main.go wires them: the fetchers of the client manager.
use fin_base.Base.{
  String, refl, Bool-cases, inl, inr, ◌≡◌, ◌∙◌, sym, subst, List, [], ◌∷◌, ◌++◌, Option, none, some,
}
use fin_base.Clients.Payloads.{Codec}
use fin_base.Clients.Sec.{Inflate, fetch_sec_facts, fetch_sec_cik_for_ticker, fetch_open_figi}
use fin_base.Clients.Quotes.{fetch_market_data_waterfall}
use fin_base.Clients.Facts.{
  fetch_finnhub_profile, fetch_finnhub_dividends, fetch_finnhub_analyst_estimates,
  fetch_finnhub_earnings_calendar, fetch_finnhub_institutional_ownership,
  fetch_finnhub_insider_transactions, fetch_finnhub_splits, fetch_fred_series,
  fetch_tiingo_historical_prices, fetch_fmp_income_statement, fetch_finnhub_company_news,
  fetch_finnhub_valuation_ratios,
}
use fin_base.Clients.Http.{Client, Fetched, fetch, fetch_raw}
use fin_base.Clients.Payloads.{MarketQuote, FinnhubQuote}
use fin_base.Base.Float.{is_zero}
use fin_base.Clients.Manager.{ClientManager}
use fin_base.Clients.Quotes.{
  fetch_finnhub_quote, fetch_finnhub_market_data, fetch_tiingo_market_data,
  fetch_twelve_data_market_data, from_quote, first_priced, priced, reason,
}
use fin_base.Env.Probing.{SameKeys, run_call-SameKeys}
use fin_base.Worker.Site.{Services}
use fin_base.Worker.Job.Kept.{KeepsKeys, Serves}

unfoldable pub client_services : Codec → Inflate → Services
unfolding fetch_market_data_waterfall
client_services json z = record {
  profile = fetch_finnhub_profile json;
  open_figi = fetch_open_figi json;
  sec_cik_for_ticker = fetch_sec_cik_for_ticker json;
  market_data_waterfall = fetch_market_data_waterfall json;
  sec_facts = fetch_sec_facts json z;
  income_statement = fetch_fmp_income_statement json;
  valuation_ratios = fetch_finnhub_valuation_ratios json;
  dividends = fetch_finnhub_dividends json;
  splits = fetch_finnhub_splits json;
  historical_prices = fetch_tiingo_historical_prices json;
  analyst_estimates = fetch_finnhub_analyst_estimates json;
  earnings_calendar = fetch_finnhub_earnings_calendar json;
  company_news = fetch_finnhub_company_news json;
  insider_transactions = fetch_finnhub_insider_transactions json;
  institutional_ownership = fetch_finnhub_institutional_ownership json;
  fred_series = fetch_fred_series json;
}

from_quote-client :
    (ticker : String) (f : Fetched (Option FinnhubQuote)) → (from_quote ticker f).1 ≡ f.1
unfolding from_quote
from_quote-client ticker ((q, some e), c) = refl
from_quote-client ticker ((none, none), c) = refl
from_quote-client ticker ((some q, none), c) = elim (Bool-cases (is_zero q.current_price)) [
  | inl h ↦ rw h refl
  | inr h ↦ rw h refl
]

trans-SameKeys : (x y z : ClientManager) → SameKeys x y → SameKeys y z → SameKeys x z
trans-SameKeys x y z h k = record { same = λ p. k.same p ∙ h.same p }

-- Every fetcher on a list leaves the keys.
abbrev AllKeep : List (String × (Client → Fetched (Option MarketQuote))) → Type 0
AllKeep [] = Unit
AllKeep (f ∷ fs) = KeepsKeys f.1 × AllKeep fs

-- Both ways on from a fetcher: it has a price, or the others are asked.
answered_keys :
    (c : Client) (o : Option MarketQuote) (c' : Client) (x : Fetched (Option MarketQuote))
    → SameKeys c.manager c'.manager
    → SameKeys c.manager x.1.manager
    → SameKeys c.manager
        (elim o as (λ _. Fetched (Option MarketQuote)) [
          | some q ↦ ((some q, none), c')
          | none ↦ x
        ]).1.manager
answered_keys c (some q) c' x h k = h
answered_keys c none c' x h k = k

first_priced-SameKeys :
    (ticker : String) (fs : List (String × (Client → Fetched (Option MarketQuote))))
    (errs : List String)
    → AllKeep fs
    → (c : Client) → SameKeys c.manager (first_priced ticker fs errs c).1.manager
unfolding first_priced
first_priced-SameKeys ticker [] errs h c = record { same = λ p. refl }
first_priced-SameKeys ticker (f ∷ fs) errs h c =
    let r = f.1 c in
    let one = h.0.keeps c in
    let rest =
      trans-SameKeys c.manager r.1.manager _ one
        (first_priced-SameKeys ticker fs (errs ++ reason f.0 r.0.1 ∷ []) h.1 r.1) in
    answered_keys c (priced r.0) r.1 (first_priced ticker fs (errs ++ reason f.0 r.0.1 ∷ []) r.1)
      one rest

module _ (json : Codec) (z : Inflate) where
  profile-KeepsKeys : (t : String) → KeepsKeys (fetch_finnhub_profile json t)
  unfolding fetch_finnhub_profile fetch fetch_raw
  profile-KeepsKeys t = record { keeps = λ c. search run_call-SameKeys }

  open_figi-KeepsKeys : (t : String) → KeepsKeys (fetch_open_figi json t)
  unfolding fetch_open_figi
  open_figi-KeepsKeys t = record { keeps = λ c. search run_call-SameKeys }

  sec_cik_for_ticker-KeepsKeys : (t : String) → KeepsKeys (fetch_sec_cik_for_ticker json t)
  unfolding fetch_sec_cik_for_ticker
  sec_cik_for_ticker-KeepsKeys t = record { keeps = λ c. search run_call-SameKeys }

  sec_facts-KeepsKeys : (t : String) → KeepsKeys (fetch_sec_facts json z t)
  unfolding fetch_sec_facts
  sec_facts-KeepsKeys t = record { keeps = λ c. search run_call-SameKeys }

  income_statement-KeepsKeys : (t : String) → KeepsKeys (fetch_fmp_income_statement json t)
  unfolding fetch_fmp_income_statement fetch fetch_raw
  income_statement-KeepsKeys t = record { keeps = λ c. search run_call-SameKeys }

  valuation_ratios-KeepsKeys : (t : String) → KeepsKeys (fetch_finnhub_valuation_ratios json t)
  unfolding fetch_finnhub_valuation_ratios fetch fetch_raw
  valuation_ratios-KeepsKeys t = record { keeps = λ c. search run_call-SameKeys }

  dividends-KeepsKeys : (t : String) → KeepsKeys (fetch_finnhub_dividends json t)
  unfolding fetch_finnhub_dividends fetch fetch_raw
  dividends-KeepsKeys t = record { keeps = λ c. search run_call-SameKeys }

  splits-KeepsKeys : (t : String) → KeepsKeys (fetch_finnhub_splits json t)
  unfolding fetch_finnhub_splits fetch fetch_raw
  splits-KeepsKeys t = record { keeps = λ c. search run_call-SameKeys }

  historical_prices-KeepsKeys :
      (t from to : String) → KeepsKeys (fetch_tiingo_historical_prices json t from to)
  unfolding fetch_tiingo_historical_prices fetch fetch_raw
  historical_prices-KeepsKeys t from to = record { keeps = λ c. search run_call-SameKeys }

  analyst_estimates-KeepsKeys : (t : String) → KeepsKeys (fetch_finnhub_analyst_estimates json t)
  unfolding fetch_finnhub_analyst_estimates fetch fetch_raw
  analyst_estimates-KeepsKeys t = record { keeps = λ c. search run_call-SameKeys }

  earnings_calendar-KeepsKeys : (t : String) → KeepsKeys (fetch_finnhub_earnings_calendar json t)
  unfolding fetch_finnhub_earnings_calendar fetch fetch_raw
  earnings_calendar-KeepsKeys t = record { keeps = λ c. search run_call-SameKeys }

  company_news-KeepsKeys :
      (t from to : String) → KeepsKeys (fetch_finnhub_company_news json t from to)
  unfolding fetch_finnhub_company_news fetch fetch_raw
  company_news-KeepsKeys t from to = record { keeps = λ c. search run_call-SameKeys }

  insider_transactions-KeepsKeys :
      (t : String) → KeepsKeys (fetch_finnhub_insider_transactions json t)
  unfolding fetch_finnhub_insider_transactions fetch fetch_raw
  insider_transactions-KeepsKeys t = record { keeps = λ c. search run_call-SameKeys }

  institutional_ownership-KeepsKeys :
      (t : String) → KeepsKeys (fetch_finnhub_institutional_ownership json t)
  unfolding fetch_finnhub_institutional_ownership fetch fetch_raw
  institutional_ownership-KeepsKeys t = record { keeps = λ c. search run_call-SameKeys }

  fred_series-KeepsKeys : (t name : String) → KeepsKeys (fetch_fred_series json t name)
  unfolding fetch_fred_series fetch fetch_raw
  fred_series-KeepsKeys t name = record { keeps = λ c. search run_call-SameKeys }

  tiingo_quote-KeepsKeys : (t : String) → KeepsKeys (fetch_tiingo_market_data json t)
  unfolding fetch_tiingo_market_data fetch fetch_raw
  tiingo_quote-KeepsKeys t = record { keeps = λ c. search run_call-SameKeys }

  twelve_data_quote-KeepsKeys : (t : String) → KeepsKeys (fetch_twelve_data_market_data json t)
  unfolding fetch_twelve_data_market_data fetch_raw
  twelve_data_quote-KeepsKeys t = record { keeps = λ c. search run_call-SameKeys }

  finnhub_quote-KeepsKeys : (t : String) → KeepsKeys (fetch_finnhub_quote json t)
  unfolding fetch_finnhub_quote fetch fetch_raw
  finnhub_quote-KeepsKeys t = record { keeps = λ c. search run_call-SameKeys }

  finnhub_market_data-KeepsKeys : (t : String) → KeepsKeys (fetch_finnhub_market_data json t)
  unfolding fetch_finnhub_market_data
  finnhub_market_data-KeepsKeys t = record {
    keeps = λ c.
        subst (λ (x : Client). SameKeys c.manager x.manager)
          (sym (from_quote-client t (fetch_finnhub_quote json t c)))
          ((finnhub_quote-KeepsKeys t).keeps c);
  }

  waterfall-KeepsKeys : (t : String) → KeepsKeys (fetch_market_data_waterfall json t)
  unfolding fetch_market_data_waterfall
  waterfall-KeepsKeys t = record {
    keeps =
        first_priced-SameKeys t
          (("Finnhub", fetch_finnhub_market_data json t)
            ∷ ("Tiingo", fetch_tiingo_market_data json t)
            ∷ ("Twelve Data", fetch_twelve_data_market_data json t)
            ∷ [])
          []
          (
            finnhub_market_data-KeepsKeys t,
            (tiingo_quote-KeepsKeys t, (twelve_data_quote-KeepsKeys t, tt)),
          );
  }

  -- The fetchers of the client manager leave its keys, whatever the network answers.
  pub client_services-Serves : Serves (client_services json z)
  unfolding client_services
  client_services-Serves = record {
    profile = profile-KeepsKeys;
    open_figi = open_figi-KeepsKeys;
    sec_cik_for_ticker = sec_cik_for_ticker-KeepsKeys;
    market_data_waterfall = waterfall-KeepsKeys;
    sec_facts = sec_facts-KeepsKeys;
    income_statement = income_statement-KeepsKeys;
    valuation_ratios = valuation_ratios-KeepsKeys;
    dividends = dividends-KeepsKeys;
    splits = splits-KeepsKeys;
    historical_prices = historical_prices-KeepsKeys;
    analyst_estimates = analyst_estimates-KeepsKeys;
    earnings_calendar = earnings_calendar-KeepsKeys;
    company_news = company_news-KeepsKeys;
    insider_transactions = insider_transactions-KeepsKeys;
    institutional_ownership = institutional_ownership-KeepsKeys;
    fred_series = fred_series-KeepsKeys;
  }
