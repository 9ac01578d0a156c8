-- ===== src/Clients/Payloads.antt =====
-- What the data services answer and what the fetch functions return (clients/clients.go). Where a
-- function copies the decoded structure field by field into an item of the same fields, one record
-- stands for both. `Codec` is what package encoding/json and `strconv` make of a text.
use fin_base.Base.{ℕ, String, Bool, List, Option, Result}
use fin_base.Base.Float.{Float}
use fin_base.Base.Int.{ℤ}

pub record MarketQuote : Type 0 where
  pub current_price : Float
  pub open_price : Float
  pub high_price : Float
  pub low_price : Float
  pub previous_close : Float
  pub volume : ℤ
  pub fifty_two_week_high : Float
  pub fifty_two_week_low : Float
  pub source : String

pub record FinnhubQuote : Type 0 where
  pub current_price : Float
  pub change : Float
  pub percent_change : Float
  pub high_price_of_day : Float
  pub low_price_of_day : Float
  pub open_price_of_day : Float
  pub previous_close_price : Float
  pub timestamp : ℤ

pub record FinnhubProfile : Type 0 where
  pub country : String
  pub currency : String
  pub exchange : String
  pub name : String
  pub ticker : String
  pub ipo : String
  pub market_capitalization : Float
  pub share_outstanding : Float
  pub finnhub_industry : String
  pub logo : String

pub record TiingoPrice : Type 0 where
  pub date : String
  pub close_price : Float
  pub high : Float
  pub low : Float
  pub open_price : Float
  pub volume : ℤ
  pub adj_close : Float

pub record TwelveDataQuote : Type 0 where
  pub symbol : String
  pub name : String
  pub exchange : String
  pub open_price : String
  pub high : String
  pub low : String
  pub close_price : String
  pub volume : String
  pub previous_close : String
  pub fifty_two_week_low : String
  pub fifty_two_week_high : String
  pub status : String

pub record FmpIncomeStatement : Type 0 where
  pub date : String
  pub symbol : String
  pub calendar_year : String
  pub period : String
  pub revenue : Float
  pub gross_profit : Float
  pub operating_income : Float
  pub net_income : Float
  pub eps : Float
  pub eps_diluted : Float

pub record DividendItem : Type 0 where
  pub ex_date : String
  pub payment_date : String
  pub record_date : String
  pub amount : Float
  pub currency : String
  pub frequency : ℤ

pub record StockSplitItem : Type 0 where
  pub execution_date : String
  pub from_factor : Float
  pub to_factor : Float

pub record HistoricalPriceItem : Type 0 where
  pub date : String
  pub open_price : Float
  pub high_price : Float
  pub low_price : Float
  pub close_price : Float
  pub adj_close_price : Float
  pub volume : ℤ

pub record AnalystEstimateItem : Type 0 where
  pub period : String
  pub strong_buy : ℤ
  pub buy : ℤ
  pub hold : ℤ
  pub sell : ℤ
  pub strong_sell : ℤ

pub record EarningsCalendarItem : Type 0 where
  pub date : String
  pub quarter : ℤ
  pub year : ℤ
  pub eps_estimate : Float
  pub eps_actual : Float
  pub revenue_estimate : Float
  pub revenue_actual : Float

pub record InsiderTransactionItem : Type 0 where
  pub name : String
  pub share_count : Float
  pub change_shares : Float
  pub filing_date : String
  pub transaction_code : String
  pub transaction_price : Float

pub record InstitutionalOwnershipItem : Type 0 where
  pub investor_name : String
  pub shares_held : Float
  pub change_shares : Float
  pub value : Float
  pub period : String

pub record MacroIndicatorItem : Type 0 where
  pub series_id : String
  pub indicator_name : String
  pub date : String
  pub value : Float

-- An observation of FRED.
pub record Observation : Type 0 where
  pub date : String
  pub value : String

-- An entry of the SEC's list of tickers.
pub record TickerEntry : Type 0 where
  pub cik : ℕ
  pub ticker : String
  pub title : String

pub record CompanyNewsItem : Type 0 where
  pub news_id : ℤ
  pub headline : String
  pub summary : String
  pub source : String
  pub url : String
  pub published_at : ℕ
  pub sentiment_score : Float

-- The wire's news item, whose `datetime` is in seconds of Unix time.
pub record NewsEntry : Type 0 where
  pub id : ℤ
  pub headline : String
  pub summary : String
  pub source : String
  pub url : String
  pub datetime : ℤ
  pub sentiment_score : Float

pub record FinnhubValuationRatios : Type 0 where
  pub pe_ratio : Float
  pub pb_ratio : Float
  pub ps_ratio : Float
  pub gross_margin : Float
  pub operating_margin : Float
  pub net_margin : Float
  pub roe : Float
  pub roa : Float
  pub debt_to_equity : Float

pub record OpenFigiMappingRequest : Type 0 where
  pub id_type : String
  pub id_value : String

-- An entry of `data` in an answer of OpenFIGI.
pub record FigiEntry : Type 0 where
  pub figi : String
  pub name : String
  pub ticker : String
  pub exch_code : String
  pub composite_figi : String
  pub security_type : String
  pub market_sector : String
  pub share_class_figi : String
  pub security_type2 : String
  pub security_description : String

pub record OpenFigiResult : Type 0 where
  pub entries : List FigiEntry
  pub error : String

mutual
  -- A decoded `interface{}`; an object has its entries in the order that the range over the map takes.
  pub data Json : Type 0 where
    null : Json
    boolean : Bool → Json
    number : Float → Json
    text : String → Json
    array : JsonList → Json
    object : JsonFields → Json

  pub data JsonList : Type 0 where
    empty : JsonList
    item : Json → JsonList → JsonList

  pub data JsonFields : Type 0 where
    no_fields : JsonFields
    field : String → Json → JsonFields → JsonFields

pub record SecCompanyFacts : Type 0 where
  pub cik : ℕ
  pub entity_name : String
  pub facts : JsonFields

pub record Codec : Type 0 where
  pub quote : String → Result FinnhubQuote
  pub profile : String → Result FinnhubProfile
  pub tiingo_prices : String → Result (List TiingoPrice)
  pub twelve_data_quote : String → Result TwelveDataQuote
  pub income_statements : String → Result (List FmpIncomeStatement)
  pub dividends : String → Result (List DividendItem)
  pub splits : String → Result (List StockSplitItem)
  pub estimates : String → Result (List AnalystEstimateItem)
  pub earnings : String → Result (List EarningsCalendarItem)
  pub insiders : String → Result (List InsiderTransactionItem)
  pub ownership : String → Result (List InstitutionalOwnershipItem)
  pub observations : String → Result (List Observation)
  -- The entries in the order that the range over the map takes.
  pub tickers : String → Result (List TickerEntry)
  pub mapping_body : List OpenFigiMappingRequest → Result String
  pub figi_results : String → Result (List OpenFigiResult)
  pub facts : String → Result SecCompanyFacts
  pub news : String → Result (List NewsEntry)
  -- `metric` of the answer: a key's value where it is a number.
  pub metrics : String → Result (String → Option Float)
  pub parse_float : String → Float
  pub parse_int : String → ℤ
