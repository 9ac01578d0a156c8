-- ===== src/Clients/Sec.antt =====
-- `FetchSECFacts` with the encodings of its reply, `FetchSECCIKForTicker` and `FetchOpenFIGI` of
-- clients/clients.go. A body is a text with one character a byte.
pub mod Laws
use fin_base.Base.{
  ℕ, String, str_eq, Bool, not, ◌&&◌, List, [], ◌∷◌, Option, none, some, if◌then◌else◌, ◌==◌,
  Result, ok, err,
}
use fin_base.Base.Text.{concat, show_nat, trim_space, to_lower, to_upper, contains}
use fin_base.Clients.Cik.{format_cik}
use fin_base.Clients.Manager.{ClientManager}
use fin_base.Clients.Http.{
  Request, Reply, Wire, Client, Fetched, sec, open_figi, checked, decoded, prefixed, assign,
  receive_by, transact, transact_by, run_call, redacted, next_reply,
}
use fin_base.Clients.Quotes.{get_from, key_header, labels, address}
use fin_base.Clients.Payloads.{
  SecCompanyFacts, TickerEntry, OpenFigiMappingRequest, OpenFigiResult, Codec,
}

-- Packages compress/gzip, compress/zlib and compress/flate. A reader is made of a stream, which is a
-- text and the error that it breaks off with; that may fail, and so may reading it to the end.
pub record Inflate : Type 0 where
  pub gzip_reader : String → Option String → Result (Result String)
  pub zlib_reader : String → Result (Result String)
  pub flate_reader : String → Result String

abbrev pub read_from : String → Result String → Result String
read_from s (ok t) = ok t
read_from s (err e) = err (prefixed s e)

abbrev pub opened_gzip : Result (Result String) → Result String
opened_gzip (ok r) = read_from "sec read body error" r
opened_gzip (err e) = err (prefixed "sec gzip decode error" e)

-- zlib first, and the raw format if that fails.
abbrev pub or_raw : Result (Result String) → Result String → Result String
or_raw (ok (ok t)) raw = ok t
or_raw (ok (err e)) raw = read_from "sec deflate decode error" raw
or_raw (err e) raw = read_from "sec deflate decode error" raw

-- `strings.ToLower(strings.TrimSpace(resp.Header.Get("Content-Encoding")))`
unfoldable pub encoding_of : Reply → String
unfolding trim_space to_lower
encoding_of r = to_lower (trim_space r.content_encoding)

unfoldable pub sec_body : Inflate → Reply → Result String
unfolding encoding_of contains
sec_body z r =
    if not r.uncompressed && contains (encoding_of r) "gzip"
    then opened_gzip (z.gzip_reader r.body r.broken)
    else (if not r.uncompressed && contains (encoding_of r) "deflate"
        then checked "sec read body error" r.broken
            (or_raw (z.zlib_reader r.body) (z.flate_reader r.body))
        else checked "sec read body error" r.broken (ok r.body))

abbrev pub decode_facts : Codec → Result String → Result (Option SecCompanyFacts)
decode_facts json (ok body) = decoded "sec decode error" (json.facts body) address
decode_facts json (err e) = err e

unfoldable pub facts_request : String → ClientManager → Request
unfolding format_cik
facts_request cik cm =
    get_from
      (concat ("https://data.sec.gov/api/xbrl/companyfacts/CIK" ∷ format_cik cik ∷ ".json" ∷ []))
      (("User-Agent", cm.sec_user_agent) ∷ ("Accept-Encoding", "gzip, deflate") ∷ [])

unfoldable pub facts_outcome : Codec → Inflate → Reply → Result (Option SecCompanyFacts)
unfolding receive_by sec_body
facts_outcome json z = receive_by (labels none "sec") (λ r. decode_facts json (sec_body z r))

unfoldable pub fetch_sec_facts :
    Codec → Inflate → String → Client → Fetched (Option SecCompanyFacts)
unfolding run_call redacted transact_by facts_request facts_outcome
fetch_sec_facts json z cik c = redacted (
    run_call sec
      (λ cm. transact_by (labels none "sec") (facts_request cik cm) (facts_outcome json z)) none c)

-- `if err != nil { return err }`
abbrev pub unless : {A : Type 0} → Option String → Result A → Result A
unless none r = r
unless (some e) r = err e

-- The loop over the tickers: the first with the ticker, in upper case.
unfoldable pub find_cik : String → List TickerEntry → Option String
unfolding format_cik show_nat to_upper
find_cik target [] = none
find_cik target (e ∷ es) =
    let rest = find_cik target es in
    if str_eq (to_upper e.ticker) target then some (format_cik (show_nat e.cik)) else rest

abbrev pub found_or_error : String → Option String → Result String
found_or_error ticker (some cik) = ok cik
found_or_error ticker none = err (concat ("CIK not found for ticker " ∷ ticker ∷ []))

abbrev pub cik_of : String → Result (List TickerEntry) → Result String
cik_of ticker (err e) = err e
cik_of ticker (ok es) = found_or_error ticker (find_cik (to_upper ticker) es)

unfoldable pub cik_outcome : Codec → String → Reply → Result String
unfolding find_cik to_upper
cik_outcome json ticker r = unless r.created (
    unless r.sent (
      if r.status_code == 200
      then unless r.broken (cik_of ticker (json.tickers r.body))
      else err (concat ("SEC tickers HTTP status " ∷ show_nat r.status_code ∷ []))))

abbrev pub tickers_request : ClientManager → Request
tickers_request cm =
    get_from "https://www.sec.gov/files/company_tickers.json"
      (("User-Agent", cm.sec_user_agent) ∷ [])

unfoldable pub fetch_sec_cik_for_ticker : Codec → String → Client → Fetched String
unfolding run_call redacted transact_by cik_outcome
fetch_sec_cik_for_ticker json ticker c = redacted (
    run_call sec (λ cm. transact_by (labels none "") (tickers_request cm) (cik_outcome json ticker))
      "" c)

abbrev pub first_result : String → List OpenFigiResult → Result (Option OpenFigiResult)
first_result ticker [] = err (concat ("openfigi returned empty results for ticker " ∷ ticker ∷ []))
first_result ticker (r ∷ rs) = address r

abbrev pub figi_request : String → ClientManager → Request
figi_request body cm = record {
  method = "POST";
  url = "https://api.openfigi.com/v3/mapping";
  headers =
      ("Content-Type", "application/json") ∷ key_header "X-OPENFIGI-KEY" "" cm.open_figi_api_key;
  body = body;
}

-- Where the request's body cannot be encoded, nothing is sent.
unfoldable pub figi_call :
    Codec
    → String
    → Result String
    → ClientManager
    → Option OpenFigiResult × Wire
    → Option String × (Option OpenFigiResult × Wire)
unfolding transact
figi_call json ticker (err e) cm (zero, w) = (some (prefixed "openfigi encode error" e), (zero, w))
figi_call json ticker (ok body) cm s =
    transact (labels none "openfigi") (figi_request body cm) json.figi_results (first_result ticker)
      s

unfoldable pub fetch_open_figi : Codec → String → Client → Fetched (Option OpenFigiResult)
unfolding run_call redacted figi_call
fetch_open_figi json ticker c =
    let body = json.mapping_body (record { id_type = "TICKER"; id_value = ticker } ∷ []) in
    redacted (run_call open_figi (figi_call json ticker body) none c)
