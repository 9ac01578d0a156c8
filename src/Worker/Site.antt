-- ===== src/Worker/Site.antt =====
-- What a job works on: the database, the clients and the broadcaster, and what it takes from the Go
-- runtime. A method of the database or of the clients is a step of a `Site`; its error is a value.
use fin_base.Base.{
  ℕ, ◌+◌, ◌*◌, ◌/◌, String, str_eq, Bool, true, false, ◌||◌, List, [], ◌∷◌, ◌++◌, Option,
  if◌then◌else◌, leb, ◌==◌, Result, ok, err,
}
use fin_base.Base.Float.{Float, FloatOps}
use fin_base.Base.Int.{ℤ, pos, pos_part, neg_part}
use fin_base.Db.Tx.{World, M}
use fin_base.Db.Companies.{get_category_last_updated, set_category_last_updated, log_action}
use fin_base.Db.Consolidated.{ConsolidatedCompanyData}
use fin_base.Db.Watchlist.{update_watchitem_status}
use fin_base.Clients.Http.{Client, Fetched}
use fin_base.Clients.Payloads.{
  MarketQuote, FinnhubProfile, FmpIncomeStatement, DividendItem, StockSplitItem,
  HistoricalPriceItem, AnalystEstimateItem, EarningsCalendarItem, CompanyNewsItem,
  InsiderTransactionItem, InstitutionalOwnershipItem, MacroIndicatorItem, FinnhubValuationRatios,
  OpenFigiResult, SecCompanyFacts,
}

-- The fetch functions of the client manager that a job calls.
pub record Services : Type 0 where
  pub profile : String → Client → Fetched (Option FinnhubProfile)
  pub open_figi : String → Client → Fetched (Option OpenFigiResult)
  pub sec_cik_for_ticker : String → Client → Fetched String
  pub market_data_waterfall : String → Client → Fetched (Option MarketQuote)
  pub sec_facts : String → Client → Fetched (Option SecCompanyFacts)
  pub income_statement : String → Client → Fetched (List FmpIncomeStatement)
  pub valuation_ratios : String → Client → Fetched (Option FinnhubValuationRatios)
  pub dividends : String → Client → Fetched (List DividendItem)
  pub splits : String → Client → Fetched (List StockSplitItem)
  pub historical_prices : String → String → String → Client → Fetched (List HistoricalPriceItem)
  pub analyst_estimates : String → Client → Fetched (List AnalystEstimateItem)
  pub earnings_calendar : String → Client → Fetched (List EarningsCalendarItem)
  pub company_news : String → String → String → Client → Fetched (List CompanyNewsItem)
  pub insider_transactions : String → Client → Fetched (List InsiderTransactionItem)
  pub institutional_ownership : String → Client → Fetched (List InstitutionalOwnershipItem)
  pub fred_series : String → String → Client → Fetched (List MacroIndicatorItem)

-- `os.Getenv`, `time.ParseDuration` in nanoseconds, the verb `%.2f` and the like, and the dates of
-- package time: a day's text, one year before and thirty days before.
pub record Runtime : Type 0 where
  pub getenv : String → String
  pub parse_duration : String → Result ℤ
  pub format_float : ℕ → Float → String
  pub day : ℕ → String
  pub day_a_year_before : ℕ → String
  pub day_thirty_days_before : ℕ → String
  pub floats : FloatOps
  pub is_less_than_1e8 : Float → Bool
  pub times_1e6 : Float → Float

pub data Broadcast : Type 0 where
  log : String → String → String → Broadcast
  company_update : String → ConsolidatedCompanyData → Broadcast

-- The clock of the client's wire is in nanoseconds.
pub record Site : Type 0 where
  pub db : World
  pub client : Client
  pub broadcasts : List Broadcast

abbrev pub J {ℓ} : Type ℓ → Type ℓ
J A = Site → A × Site

infixl 5 ◌>>=◌ ◌>>◌
abbrev pub ◌>>=◌ {ℓ κ} : {A : Type ℓ} {B : Type κ} → J A → (A → J B) → J B
◌>>=◌ m f s = f (m s).0 (m s).1

abbrev pub ◌>>◌ {ℓ} : {B : Type ℓ} → J (Unit {0}) → J B → J B
m >> k = m >>= λ _. k

abbrev pub done {ℓ} : {A : Type ℓ} → A → J A
done a s = (a, s)

-- The seconds of the clock.
abbrev pub now : Client → ℕ
now c = c.wire.clock

-- A method of the database, at the time of the clock.
unfoldable pub db_call : {A : Type 0} → M A → J (Result A)
db_call m s =
    let (r, w) = m (record s.db { now = now s.client / 1_000_000_000 }) in (r, record s { db = w })

-- `_ = wp.db.…`
unfoldable pub db_ignore : {A : Type 0} → M A → J (Unit {0})
unfolding db_call
db_ignore m s = (tt, (db_call m s).1)

unfoldable pub fetched : {A : Type 0} → (Client → Fetched A) → J (A × Option String)
fetched f s = let (r, c) = f s.client in (r, record s { client = c })

-- `if wp.broadcaster != nil`: the application sets one.
unfoldable pub broadcast : Broadcast → J (Unit {0})
broadcast b s = (tt, record s { broadcasts = s.broadcasts ++ b ∷ [] })

-- `getEnvDuration`
unfoldable pub get_env_duration : Runtime → String → ℕ → ℤ
get_env_duration go key default =
    if str_eq (go.getenv key) ""
    then pos default
    else elim (go.parse_duration (go.getenv key)) [ ok d ↦ d | err e ↦ pos default ]

-- `lastUpdated.IsZero()`, or `time.Since(lastUpdated) >= ttl`.
unfoldable pub is_due : ℤ → ℕ → Result ℕ → Bool
is_due ttl clock (err e) = true
is_due ttl clock (ok last) =
    last == 0 || leb (last * 1_000_000_000 + pos_part ttl) (clock + neg_part ttl)

-- `shouldUpdateCategory`
unfoldable pub should_update_category : ℕ → String → ℤ → Bool → J Bool
unfolding db_call get_category_last_updated is_due
should_update_category company_id category ttl force =
    if force || company_id == 0
    then done true
    else db_call (get_category_last_updated company_id category) >>= λ r s.
        (is_due ttl (now s.client) r, s)

abbrev pub if_due : J (Unit {0}) → Bool → J (Unit {0})
if_due step true = step
if_due step false = done tt

-- `if wp.shouldUpdateCategory(…) { … }`
abbrev pub when_due : ℕ → String → ℤ → Bool → J (Unit {0}) → J (Unit {0})
when_due company_id category ttl force step =
    should_update_category company_id category ttl force >>= if_due step

-- `_ = wp.db.LogAction(…)`
unfoldable pub note : String → String → String → String → J (Unit {0})
unfolding db_ignore log_action
note ticker action status message = db_ignore (log_action ticker action status message)

-- `_ = wp.db.SetCategoryLastUpdated(…)`
unfoldable pub stamp : ℕ → String → J (Unit {0})
unfolding db_ignore set_category_last_updated
stamp company_id category = db_ignore (set_category_last_updated company_id category)

-- `_ = wp.db.UpdateWatchitemStatus(…)`
unfoldable pub set_job_status : String → String → J (Unit {0})
unfolding db_ignore update_watchitem_status
set_job_status ticker status = db_ignore (update_watchitem_status ticker status)
