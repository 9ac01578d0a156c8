-- ===== src/Db/Models.antt =====
-- The models of db/db.go: a row of each table, as the program reads and writes it. Times are whole
-- seconds, the resolution of SQLite's CURRENT_TIMESTAMP, counted from Go's zero time. A row's `id` is
-- its AUTOINCREMENT key.
use fin_base.Base.{ℕ, String, Bool, List}
use fin_base.Base.Float.{Float}
use fin_base.Base.Int.{ℤ}

pub record Watchitem : Type 0 where
  pub id : ℕ
  pub ticker : String
  pub priority : ℤ
  pub status : String
  pub last_updated : ℕ
  pub next_update_time : ℕ
  pub force_full_refresh : Bool

-- A row of table watchlist.
pub record WatchRow : Type 0 where
  pub id : ℕ
  pub ticker : String
  pub priority : ℤ
  pub status : String
  pub last_updated : ℕ
  pub force_full_refresh : ℕ

pub record JobStatusSummary : Type 0 where
  pub pending : ℕ
  pub queued : ℕ
  pub processing : ℕ
  pub completed : ℕ
  pub error : ℕ
  pub total : ℕ

pub record Company : Type 0 where
  pub id : ℕ
  pub ticker : String
  pub cik : String
  pub isin : String
  pub name : String
  pub sector : String
  pub exchange : String
  pub outstanding_shares : Float
  pub logo_url : String

pub record MarketData : Type 0 where
  pub id : ℕ
  pub company_id : ℕ
  pub timestamp : ℕ
  pub current_price : Float
  pub volume : ℤ
  pub open_price : Float
  pub high_price : Float
  pub low_price : Float
  pub previous_close : Float
  pub market_cap : Float
  pub fifty_two_week_high : Float
  pub fifty_two_week_low : Float

pub record Fundamental : Type 0 where
  pub id : ℕ
  pub company_id : ℕ
  pub period : String
  pub metric_name : String
  pub value : Float

pub record ActionHistory : Type 0 where
  pub id : ℕ
  pub timestamp : ℕ
  pub ticker : String
  pub action_type : String
  pub status : String
  pub message : String

pub record ValuationRatio : Type 0 where
  pub id : ℕ
  pub company_id : ℕ
  pub pe_ratio : Float
  pub pb_ratio : Float
  pub ps_ratio : Float
  pub gross_margin : Float
  pub operating_margin : Float
  pub net_margin : Float
  pub roe : Float
  pub roa : Float
  pub debt_to_equity : Float
  pub timestamp : ℕ

pub record Dividend : Type 0 where
  pub id : ℕ
  pub company_id : ℕ
  pub ex_date : String
  pub payment_date : String
  pub record_date : String
  pub amount : Float
  pub currency : String
  pub frequency : ℤ

pub record StockSplit : Type 0 where
  pub id : ℕ
  pub company_id : ℕ
  pub execution_date : String
  pub from_factor : Float
  pub to_factor : Float

pub record HistoricalPrice : Type 0 where
  pub id : ℕ
  pub company_id : ℕ
  pub date : String
  pub open_price : Float
  pub high_price : Float
  pub low_price : Float
  pub close_price : Float
  pub adj_close_price : Float
  pub volume : ℤ

pub record AnalystEstimate : Type 0 where
  pub id : ℕ
  pub company_id : ℕ
  pub period : String
  pub strong_buy : ℤ
  pub buy : ℤ
  pub hold : ℤ
  pub sell : ℤ
  pub strong_sell : ℤ

pub record EarningsCalendar : Type 0 where
  pub id : ℕ
  pub company_id : ℕ
  pub date : String
  pub quarter : ℤ
  pub year : ℤ
  pub eps_estimate : Float
  pub eps_actual : Float
  pub revenue_estimate : Float
  pub revenue_actual : Float

pub record CompanyNews : Type 0 where
  pub id : ℕ
  pub company_id : ℕ
  pub news_id : ℤ
  pub headline : String
  pub summary : String
  pub source : String
  pub url : String
  pub published_at : ℕ
  pub sentiment_score : Float

pub record InsiderTransaction : Type 0 where
  pub id : ℕ
  pub company_id : ℕ
  pub name : String
  pub share_count : Float
  pub change_shares : Float
  pub filing_date : String
  pub transaction_code : String
  pub transaction_price : Float

pub record InstitutionalOwnership : Type 0 where
  pub id : ℕ
  pub company_id : ℕ
  pub investor_name : String
  pub shares_held : Float
  pub change_shares : Float
  pub value : Float
  pub period : String

pub record MacroIndicator : Type 0 where
  pub id : ℕ
  pub series_id : String
  pub indicator_name : String
  pub date : String
  pub value : Float

-- A row of table api_keys.
pub record ApiKeyRow : Type 0 where
  pub key_name : String
  pub key_value : String
  pub updated_at : ℕ

-- A row of table data_update_timestamps.
pub record StampRow : Type 0 where
  pub company_id : ℕ
  pub category : String
  pub last_updated : ℕ

-- The tables. A list has a table's rows in the order of their ids; `watch_seq` and `company_seq` are
-- the largest ids that those two tables have given out.
pub record Tables : Type 0 where
  pub watchlist : List WatchRow
  pub watch_seq : ℕ
  pub companies : List Company
  pub company_seq : ℕ
  pub stamps : List StampRow
  pub api_keys : List ApiKeyRow
  pub history : List ActionHistory
  pub market_data : List MarketData
  pub fundamentals : List Fundamental
  pub valuation_ratios : List ValuationRatio
  pub dividends : List Dividend
  pub stock_splits : List StockSplit
  pub historical_prices : List HistoricalPrice
  pub analyst_estimates : List AnalystEstimate
  pub earnings_calendar : List EarningsCalendar
  pub company_news : List CompanyNews
  pub insider_transactions : List InsiderTransaction
  pub institutional_ownership : List InstitutionalOwnership
  pub macro_indicators : List MacroIndicator
