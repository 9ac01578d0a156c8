-- ===== src/Clients/Probe.antt =====
-- `TestKeyFunctionality` of clients/clients.go: a call of a service shows whether its key works.
pub mod Laws
use fin_base.Base.{
  String, str_eq, Bool, true, false, List, [], ◌∷◌, Option, none, some, if◌then◌else◌, any,
}
use fin_base.Base.Text.{concat, to_lower}
use fin_base.Clients.Manager.{ClientManager}
use fin_base.Clients.Http.{
  Client, Fetched, Provider, open_figi, sec, finnhub, tiingo, twelve_data, fmp, fred,
}
use fin_base.Clients.Quotes.{
  fetch_finnhub_quote, fetch_tiingo_market_data, fetch_twelve_data_market_data,
}
use fin_base.Clients.Facts.{fetch_fmp_income_statement, fetch_fred_series}
use fin_base.Clients.Sec.{Inflate, fetch_sec_facts, fetch_open_figi}
use fin_base.Clients.Payloads.{Codec}

abbrev pub is_one_of : List String → String → Bool
is_one_of names s = any (str_eq s) names

-- The cases of the switch, on a name in lower case.
unfoldable pub service_of : String → Option Provider
service_of s =
    if is_one_of ("sec_user_agent" ∷ "sec" ∷ "sec edgar" ∷ []) s
    then some sec
    else (if is_one_of ("finnhub_api_key" ∷ "finnhub" ∷ []) s
        then some finnhub
        else (if is_one_of ("openfigi_api_key" ∷ "openfigi" ∷ []) s
            then some open_figi
            else (if is_one_of ("tiingo_api_key" ∷ "tiingo" ∷ []) s
                then some tiingo
                else (if is_one_of ("twelve_data_api_key" ∷ "twelvedata" ∷ "twelve data" ∷ []) s
                    then some twelve_data
                    else (if is_one_of ("fmp_api_key" ∷ "fmp" ∷ "financial modeling prep" ∷ []) s
                        then some fmp
                        else (if is_one_of ("fred_api_key" ∷ "fred" ∷ "fred macro" ∷ []) s
                            then some fred
                            else none))))))

-- `GetFinnhubAPIKey` and the like.
unfoldable pub key_of : Provider → ClientManager → String
key_of open_figi cm = cm.open_figi_api_key
key_of sec cm = cm.sec_user_agent
key_of finnhub cm = cm.finnhub_api_key
key_of tiingo cm = cm.tiingo_api_key
key_of twelve_data cm = cm.twelve_data_api_key
key_of fmp cm = cm.fmp_api_key
key_of fred cm = cm.fred_api_key

abbrev pub unset_text : Provider → String
unset_text sec = "User-Agent is not set"
unset_text _ = "API key is not set"

abbrev pub functional_text : Provider → String
functional_text open_figi = "OpenFIGI API is functional"
functional_text sec = "SEC EDGAR API is functional"
functional_text finnhub = "Finnhub API is functional"
functional_text tiingo = "Tiingo API is functional"
functional_text twelve_data = "Twelve Data API is functional"
functional_text fmp = "FMP API is functional"
functional_text fred = "FRED API is functional"

-- `if err != nil { return false, err.Error() }`, and else true.
abbrev pub judged : {A : Type 0} → String → Fetched A → (Bool × String) × Client
judged text ((a, none), c) = ((true, text), c)
judged text ((a, some e), c) = ((false, e), c)

module _ (json : Codec) (z : Inflate) where
  -- The call that shows whether the key works.
  unfoldable pub try_service : Provider → Client → (Bool × String) × Client
  unfolding fetch_open_figi fetch_sec_facts fetch_finnhub_quote fetch_tiingo_market_data
      fetch_twelve_data_market_data fetch_fmp_income_statement fetch_fred_series
  try_service open_figi c = judged (functional_text open_figi) (fetch_open_figi json "AAPL" c)
  try_service sec c = judged (functional_text sec) (fetch_sec_facts json z "0000320193" c)
  try_service finnhub c = judged (functional_text finnhub) (fetch_finnhub_quote json "AAPL" c)
  try_service tiingo c = judged (functional_text tiingo) (fetch_tiingo_market_data json "AAPL" c)
  try_service twelve_data c =
      judged (functional_text twelve_data) (fetch_twelve_data_market_data json "AAPL" c)
  try_service fmp c = judged (functional_text fmp) (fetch_fmp_income_statement json "AAPL" c)
  try_service fred c =
      judged (functional_text fred) (fetch_fred_series json "DGS10" "10-Year Treasury" c)

  unfoldable pub probe : Provider → Client → (Bool × String) × Client
  unfolding key_of try_service
  probe p c = if str_eq (key_of p c.manager) "" then ((false, unset_text p), c) else try_service p c

  abbrev pub probe_named : String → Option Provider → Client → (Bool × String) × Client
  probe_named name none c = ((false, concat ("Unknown service: " ∷ name ∷ [])), c)
  probe_named name (some p) c = probe p c

  unfoldable pub test_key_functionality : String → Client → (Bool × String) × Client
  unfolding service_of probe to_lower
  test_key_functionality name c = probe_named name (service_of (to_lower name)) c
