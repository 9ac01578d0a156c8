-- ===== src/Db/Samples.antt =====
-- Sample tables and worlds for the tests.
use fin_base.Base.{ℕ, String, List, [], ◌∷◌, Option, none}
use fin_base.Base.Int.{pos}
use fin_base.Db.Models.{WatchRow, Company, Tables}
use fin_base.Db.Tx.{World}

abbrev pub no_tables : Tables
no_tables = record {
  watchlist = [];
  watch_seq = 0;
  companies = [];
  company_seq = 0;
  stamps = [];
  api_keys = [];
  history = [];
  market_data = [];
  fundamentals = [];
  valuation_ratios = [];
  dividends = [];
  stock_splits = [];
  historical_prices = [];
  analyst_estimates = [];
  earnings_calendar = [];
  company_news = [];
  insider_transactions = [];
  institutional_ownership = [];
  macro_indicators = [];
}

abbrev pub row : ℕ → String → ℕ → String → ℕ → WatchRow
row id ticker priority status updated = record {
  id = id;
  ticker = ticker;
  priority = pos priority;
  status = status;
  last_updated = updated;
  force_full_refresh = 0;
}

abbrev pub apple : Company
apple = record {
  id = 1;
  ticker = "AAPL";
  cik = "0000320193";
  isin = "";
  name = "Apple";
  sector = "Tech";
  exchange = "NASDAQ";
  outstanding_shares = 0;
  logo_url = "";
}

abbrev pub some_tables : Tables
some_tables = record no_tables {
  watchlist =
      row 1 "AAPL" 1 "completed" 100
      ∷ row 2 "MSFT" 5 "pending" 900
      ∷ row 3 "IBM" 9 "queued" 50
      ∷ [];
  watch_seq = 3;
  companies = apple ∷ [];
  company_seq = 1;
  api_keys =
      record { key_name = "FMP_API_KEY"; key_value = "fmp-1"; updated_at = 10 }
      ∷ record { key_name = "API_KEY"; key_value = ""; updated_at = 11 }
      ∷ [];
}

-- A world at second 1000 whose calls of SQLite answer as listed.
abbrev pub world : List (Option String) → World
world outcomes = record { tables = some_tables; saved = none; outcomes = outcomes; now = 1000 }
