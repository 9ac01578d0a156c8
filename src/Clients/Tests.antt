-- ===== src/Clients/Tests.antt =====
-- Tests of the clients and witnesses of their theorems.
use fin_base.Base.{ℕ, ◌+◌, ◌<◌, ◌≡◌, refl, String, List, [], ◌∷◌, Option, none, some, arith, ok}
use fin_base.Base.Text.{contains}
use fin_base.Clients.Breaker.{CircuitBreaker, closed, opened, execute}
use fin_base.Clients.Breaker.Laws.{execute_probe}
use fin_base.Clients.Breaker.Interleaving.{CallStep, asks, ends}
use fin_base.Clients.Redact.{redact_keys}
use fin_base.Clients.Redact.Laws.{Redacted, redact_keys-Redacted}
use fin_base.Clients.Manager.{new_client_manager, redact}
use fin_base.Clients.Http.{Client, Reply, fmp, fetch, breaker_of, decoded}
use fin_base.Clients.Http.Laws.{fetch_open}
use fin_base.Clients.Samples.{codec, reply, client, inflate, compression}
use fin_base.Clients.Payloads.{Codec}
use fin_base.Clients.Sec.{facts_outcome, encoding_of, cik_outcome}
use fin_base.Clients.Sec.Laws.{Sends, zlibbed, facts-Sends, Answers, cik_outcome-Answers}
use fin_base.Clients.Cik.{size, format_cik}
use fin_base.Clients.Cik.Laws.{IsDigits, format_cik-ten-IsDigits}
use fin_base.Clients.Quotes.{
  labels, address, fetch_finnhub_market_data, fetch_tiingo_market_data,
  fetch_twelve_data_market_data, fetch_market_data_waterfall,
}
use fin_base.Clients.Quotes.Laws.{FirstOf, waterfall-FirstOf}
use fin_base.Clients.Facts.{fmp_request}

ciks : format_cik "CIK 320193" ≡ "0000320193"
unfolding format_cik
ciks = refl

long_cik : format_cik "00123456789012" ≡ "3456789012"
unfolding format_cik
long_cik = refl

format_cik-ten-IsDigits_example :
    (size (format_cik "CIK 320193") ≡ 10) × IsDigits (format_cik "CIK 320193")
format_cik-ten-IsDigits_example = format_cik-ten-IsDigits "CIK 320193"

abbrev tripped : CircuitBreaker
tripped = record {
  state = opened;
  failure_count = 5;
  threshold = 5;
  cooldown = 30;
  last_state_change = 100;
}

-- A call that counts how often it is made.
abbrev counted : Option String → ℕ → Option String × ℕ
counted e n = (e, n + 1)

execute_probe_example :
    let (e, cb', s') = execute 130 131 (counted none) tripped 7 in
    (e ≡ (counted none 7).0)
    × (s' ≡ (counted none 7).1)
    × ((counted none 7).0 ≡ none → (cb'.state ≡ closed) × (cb'.failure_count ≡ 0))
    × ((x : String)
        → (counted none 7).0 ≡ some x
        → (cb'.state ≡ opened) × (cb'.last_state_change ≡ 131))
execute_probe_example = execute_probe 130 131 (counted none) tripped 7 refl (omega arith)

abbrev overlapping : List CallStep
overlapping = asks 1 ∷ asks 2 ∷ ends 3 (some "timeout") ∷ ends 4 (some "timeout") ∷ []

finnhub_first :
    (fetch_market_data_waterfall codec "AAPL"
      (client (reply 200 101 ∷ reply 200 102 ∷ []))).1.wire.clock
    ≡ 101
unfolding fetch_market_data_waterfall new_client_manager
finnhub_first = refl

waterfall-FirstOf_example :
    FirstOf
      (("Finnhub", fetch_finnhub_market_data codec "AAPL")
        ∷ ("Tiingo", fetch_tiingo_market_data codec "AAPL")
        ∷ ("Twelve Data", fetch_twelve_data_market_data codec "AAPL")
        ∷ [])
      (client (reply 429 101 ∷ reply 200 102 ∷ []))
      (fetch_market_data_waterfall codec "AAPL" (client (reply 429 101 ∷ reply 200 102 ∷ [])))
waterfall-FirstOf_example =
    waterfall-FirstOf codec "AAPL" (client (reply 429 101 ∷ reply 200 102 ∷ []))

abbrev shut : Client
shut = record (client []) { manager = record (client []).manager { fmp_cb = tripped } }

shut_open : (breaker_of fmp shut.manager).state ≡ opened
unfolding breaker_of
shut_open = refl

shut_early :
    100 < (breaker_of fmp shut.manager).last_state_change + (breaker_of fmp shut.manager).cooldown
unfolding breaker_of
shut_early = omega arith

fetch_open_example :
    fetch fmp (labels (some "fmp") "fmp") (fmp_request "AAPL") codec.income_statements ok [] shut
    ≡ (([], redact shut.manager (some "circuit breaker open")), shut)
fetch_open_example =
    fetch_open fmp (labels (some "fmp") "fmp") (fmp_request "AAPL") codec.income_statements ok []
      shut shut_open shut_early

-- The SEC's answer in the zlib format.
abbrev zlib_reply : Reply
zlib_reply = record (reply 200 101) { body = "z{}"; content_encoding = " Deflate " }

zlib_reply-Sends : Sends compression zlibbed "{}" zlib_reply
unfolding encoding_of contains
zlib_reply-Sends = (refl, refl, refl, refl)

facts-Sends_example :
    facts_outcome codec inflate zlib_reply ≡ decoded "sec decode error" (codec.facts "{}") address
facts-Sends_example =
    facts-Sends compression codec zlibbed "{}" zlib_reply refl refl refl refl zlib_reply-Sends

abbrev listing : Codec
listing = record codec {
  tickers = λ _. ok (record { cik = 320193; ticker = "aapl"; title = "Apple Inc." } ∷ []);
}

apple_listed : cik_outcome listing "Aapl" (reply 200 101) ≡ ok "0000320193"
unfolding cik_outcome
apple_listed = refl

cik_outcome-Answers_example :
    Answers listing "Aapl" (reply 200 101) (cik_outcome listing "Aapl" (reply 200 101))
cik_outcome-Answers_example = cik_outcome-Answers listing "Aapl" (reply 200 101)

abbrev answering : Client
answering = client (reply 200 101 ∷ [])

redact_keys-Redacted_example :
    Redacted
      ("k-1" ∷ "" ∷ [])
      "?apikey=k-1&x=k-1"
      (redact_keys ("k-1" ∷ "" ∷ []) "?apikey=k-1&x=k-1")
redact_keys-Redacted_example = redact_keys-Redacted ("k-1" ∷ "" ∷ []) "?apikey=k-1&x=k-1"
