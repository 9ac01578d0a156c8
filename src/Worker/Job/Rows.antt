-- ===== src/Worker/Job/Rows.antt =====
-- The rows that `processJob` of worker/worker.go stores, from what the services answered.
use fin_base.Base.Float.{Float}
use fin_base.Db.Models.{
  MarketData, ValuationRatio, Dividend, StockSplit, HistoricalPrice, AnalystEstimate,
  EarningsCalendar, CompanyNews, InsiderTransaction, InstitutionalOwnership,
}
use fin_base.Clients.Payloads.{
  MarketQuote, FinnhubValuationRatios, DividendItem, StockSplitItem, HistoricalPriceItem,
  AnalystEstimateItem, EarningsCalendarItem, CompanyNewsItem, InsiderTransactionItem,
  InstitutionalOwnershipItem,
}

unfoldable pub market_data_of_quote : Float → MarketQuote → MarketData
market_data_of_quote cap q = record {
  id = 0;
  company_id = 0;
  timestamp = 0;
  current_price = q.current_price;
  volume = q.volume;
  open_price = q.open_price;
  high_price = q.high_price;
  low_price = q.low_price;
  previous_close = q.previous_close;
  market_cap = cap;
  fifty_two_week_high = q.fifty_two_week_high;
  fifty_two_week_low = q.fifty_two_week_low;
}

unfoldable pub ratios_row : FinnhubValuationRatios → ValuationRatio
ratios_row r = record {
  id = 0;
  company_id = 0;
  pe_ratio = r.pe_ratio;
  pb_ratio = r.pb_ratio;
  ps_ratio = r.ps_ratio;
  gross_margin = r.gross_margin;
  operating_margin = r.operating_margin;
  net_margin = r.net_margin;
  roe = r.roe;
  roa = r.roa;
  debt_to_equity = r.debt_to_equity;
  timestamp = 0;
}

unfoldable pub dividend_row : DividendItem → Dividend
dividend_row d = record {
  id = 0;
  company_id = 0;
  ex_date = d.ex_date;
  payment_date = d.payment_date;
  record_date = d.record_date;
  amount = d.amount;
  currency = d.currency;
  frequency = d.frequency;
}

unfoldable pub split_row : StockSplitItem → StockSplit
split_row s = record {
  id = 0;
  company_id = 0;
  execution_date = s.execution_date;
  from_factor = s.from_factor;
  to_factor = s.to_factor;
}

unfoldable pub price_row : HistoricalPriceItem → HistoricalPrice
price_row p = record {
  id = 0;
  company_id = 0;
  date = p.date;
  open_price = p.open_price;
  high_price = p.high_price;
  low_price = p.low_price;
  close_price = p.close_price;
  adj_close_price = p.adj_close_price;
  volume = p.volume;
}

unfoldable pub estimate_row : AnalystEstimateItem → AnalystEstimate
estimate_row e = record {
  id = 0;
  company_id = 0;
  period = e.period;
  strong_buy = e.strong_buy;
  buy = e.buy;
  hold = e.hold;
  sell = e.sell;
  strong_sell = e.strong_sell;
}

unfoldable pub earnings_row : EarningsCalendarItem → EarningsCalendar
earnings_row e = record {
  id = 0;
  company_id = 0;
  date = e.date;
  quarter = e.quarter;
  year = e.year;
  eps_estimate = e.eps_estimate;
  eps_actual = e.eps_actual;
  revenue_estimate = e.revenue_estimate;
  revenue_actual = e.revenue_actual;
}

unfoldable pub news_row : CompanyNewsItem → CompanyNews
news_row n = record {
  id = 0;
  company_id = 0;
  news_id = n.news_id;
  headline = n.headline;
  summary = n.summary;
  source = n.source;
  url = n.url;
  published_at = n.published_at;
  sentiment_score = n.sentiment_score;
}

unfoldable pub insider_row : InsiderTransactionItem → InsiderTransaction
insider_row t = record {
  id = 0;
  company_id = 0;
  name = t.name;
  share_count = t.share_count;
  change_shares = t.change_shares;
  filing_date = t.filing_date;
  transaction_code = t.transaction_code;
  transaction_price = t.transaction_price;
}

unfoldable pub ownership_row : InstitutionalOwnershipItem → InstitutionalOwnership
ownership_row o = record {
  id = 0;
  company_id = 0;
  investor_name = o.investor_name;
  shares_held = o.shares_held;
  change_shares = o.change_shares;
  value = o.value;
  period = o.period;
}
