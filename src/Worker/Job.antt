-- ===== src/Worker/Job.antt =====
-- The parts of a job: what `processJob` of worker/worker.go reads, and how it stores what it fetched.
pub mod Rows
pub mod Steps
pub mod Process
pub mod Broadcasts
pub mod Laws
pub mod Kept
pub mod Keeping
pub mod Settled
pub mod Settling
use fin_base.Base.{
  ℕ, String, str_eq, Bool, true, false, not, ◌&&◌, List, [], ◌∷◌, map, Option, none, some,
  if◌then◌else◌, ltb, length, Result, ok, err,
}
use fin_base.Base.Text.{concat, show_nat}
use fin_base.Base.Float.{Float, is_positive}
use fin_base.Base.Int.{ℤ}
use fin_base.Db.Models.{
  Company, MarketData, ValuationRatio, Dividend, StockSplit, HistoricalPrice, AnalystEstimate,
  EarningsCalendar, CompanyNews, InsiderTransaction, InstitutionalOwnership,
}
use fin_base.Db.Tx.{M}
use fin_base.Db.Companies.{upsert_company}
use fin_base.Db.Series.{
  insert_market_data, insert_valuation_ratios, insert_dividends_batch, insert_stock_splits_batch,
  insert_historical_prices_batch, insert_analyst_estimates_batch, insert_earnings_calendar_batch,
  insert_company_news_batch, insert_insider_transactions_batch,
  insert_institutional_ownership_batch,
}
use fin_base.Db.Watchlist.{set_watchitem_force_refresh}
use fin_base.Db.Consolidated.{ConsolidatedCompanyData, get_consolidated_data}
use fin_base.Clients.Cik.{format_cik}
use fin_base.Clients.Http.{Client, Fetched}
use fin_base.Clients.Payloads.{
  MarketQuote, FinnhubProfile, FinnhubValuationRatios, FigiEntry, OpenFigiResult, SecCompanyFacts,
  FmpIncomeStatement, DividendItem, StockSplitItem, HistoricalPriceItem, AnalystEstimateItem,
  EarningsCalendarItem, CompanyNewsItem, InsiderTransactionItem, InstitutionalOwnershipItem,
}
use fin_base.Worker.Site.{
  Services, Runtime, Broadcast, log, company_update, Site, J, ◌>>=◌, ◌>>◌, done, now, db_call,
  db_ignore, fetched, broadcast, get_env_duration, when_due, note, stamp, set_job_status,
  should_update_category,
}
use fin_base.Worker.Fundamentals.{extract_and_store_sec_facts, extract_and_store_fmp_facts}

pub record Job : Type 0 where
  pub ticker : String
  pub priority : ℤ
  pub force_full_refresh : Bool

-- The variables of `processJob`.
pub record Details : Type 0 where
  pub company_id : ℕ
  pub cik : String
  pub name : String
  pub sector : String
  pub exchange : String
  pub logo_url : String
  pub outstanding_shares : Float

abbrev pub no_details : Details
no_details = record {
  company_id = 0;
  cik = "";
  name = "";
  sector = "";
  exchange = "";
  logo_url = "";
  outstanding_shares = 0;
}

-- What is stored of the company already.
unfoldable pub known_details : Result ConsolidatedCompanyData → Details
known_details (err e) = no_details
known_details (ok stored) =
    if ltb 0 stored.company.id
    then record {
      company_id = stored.company.id;
      cik = stored.company.cik;
      name = stored.company.name;
      sector = stored.company.sector;
      exchange = stored.company.exchange;
      logo_url = stored.company.logo_url;
      outstanding_shares = stored.company.outstanding_shares;
    }
    else no_details

abbrev pub text_or : String → String → String
text_or s t = if str_eq s "" then t else s

-- The verb `%v` of a Boolean.
abbrev pub show_bool : Bool → String
show_bool true = "true"
show_bool false = "false"

module _ (go : Runtime) where
  -- Shares below 1e8 are given in millions.
  unfoldable pub from_profile : Option FinnhubProfile × Option String → Details → Details
  from_profile (p, some e) d = d
  from_profile (none, none) d = d
  from_profile (some p, none) d = record d {
    name = p.name;
    sector = p.finnhub_industry;
    exchange = p.exchange;
    logo_url = p.logo;
    outstanding_shares =
        if is_positive p.share_outstanding
        then (if go.is_less_than_1e8 p.share_outstanding
            then go.times_1e6 p.share_outstanding
            else p.share_outstanding)
        else d.outstanding_shares;
  }

-- OpenFIGI fills what is missing.
unfoldable pub from_entries : List FigiEntry → Details → Details
from_entries [] d = d
from_entries (f ∷ fs) d = record d {
  name = text_or d.name f.name;
  sector = text_or d.sector f.market_sector;
  exchange = text_or d.exchange f.exch_code;
}

unfoldable pub from_figi : Option OpenFigiResult × Option String → Details → Details
unfolding from_entries
from_figi (r, some e) d = d
from_figi (none, none) d = d
from_figi (some r, none) d = from_entries r.entries d

-- `stored_cik` is the stored company's.
unfoldable pub from_sec : String → String × Option String → Details → Details
unfolding format_cik
from_sec stored_cik (c, some e) d = record d {
  cik =
      if str_eq d.cik ""
      then (if str_eq stored_cik "" then "" else format_cik stored_cik)
      else d.cik;
}
from_sec stored_cik (c, none) d =
    if str_eq c ""
    then record d {
      cik =
          if str_eq d.cik ""
          then (if str_eq stored_cik "" then "" else format_cik stored_cik)
          else d.cik;
    }
    else record d { cik = format_cik c }

abbrev pub stored_cik_of : Result ConsolidatedCompanyData → String
stored_cik_of (ok stored) = stored.company.cik
stored_cik_of (err e) = ""

unfoldable pub company_of : String → Details → Company
company_of ticker d = record {
  id = 0;
  ticker = ticker;
  cik = d.cik;
  isin = "";
  name = d.name;
  sector = d.sector;
  exchange = d.exchange;
  outstanding_shares = d.outstanding_shares;
  logo_url = d.logo_url;
}

-- `if err := insert(…); err == nil { … }`
unfoldable pub after_insert : J (Unit {0}) → Result (Unit {0}) → J (Unit {0})
after_insert next (ok _) = next
after_insert next (err e) = done tt

-- `if err == nil && len(items) > 0`: store the items, and where that has no error go on.
unfoldable pub store_items :
    {A : Type 0}
    → List A × Option String
    → (List A → M (Unit {0}))
    → (List A → J (Unit {0}))
    → J (Unit {0})
unfolding db_call after_insert
store_items (xs, some e) insert success = done tt
store_items ([], none) insert success = done tt
store_items (x ∷ xs, none) insert success =
    db_call (insert (x ∷ xs)) >>= after_insert (success (x ∷ xs))

-- Fetch a list and store it.
unfoldable pub take_items :
    {A : Type 0}
    → (Client → Fetched (List A))
    → (List A → M (Unit {0}))
    → (List A → J (Unit {0}))
    → J (Unit {0})
unfolding fetched store_items
take_items f insert success = fetched f >>= λ r. store_items r insert success

abbrev pub stored_note : {A : Type 0} → String → String → String → List A → J (Unit {0})
stored_note ticker action what xs =
    note ticker action "SUCCESS" (concat ("Stored " ∷ show_nat (length xs) ∷ what ∷ []))
