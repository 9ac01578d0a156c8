-- ===== src/Worker/Fundamentals.antt =====
-- What a job stores of the SEC's facts and of FMP's income statements: `extractAndStoreSECFacts` and
-- `extractAndStoreFMPFacts` of worker/worker.go. A range over a Go map takes the order of a list here.
use fin_base.Base.{
  ℕ, zero, suc, ◌-◌, String, str_eq, Bool, not, ◌&&◌, List, [], ◌∷◌, ◌++◌, Option, none, some,
  if◌then◌else◌, find, length, Result, ok, err,
}
use fin_base.Base.Text.{concat}
use fin_base.Base.Float.{Float, is_zero}
use fin_base.Db.Series.{FundamentalItem, insert_fundamentals_batch}
use fin_base.Clients.Payloads.{
  FmpIncomeStatement, SecCompanyFacts, Json, null, boolean, number, text, array, object, JsonList,
  empty, item, JsonFields, no_fields, field,
}
use fin_base.Worker.Site.{Runtime, J, db_call}

abbrev pub get_field : String → JsonFields → Option Json
get_field k no_fields = none
get_field k (field name v fs) = let rest = get_field k fs in if str_eq name k then some v else rest

-- `x.(map[string]interface{})` and the like.
abbrev pub as_object : Option Json → Option JsonFields
as_object (some (object fs)) = some fs
as_object (some null) = none
as_object (some (boolean b)) = none
as_object (some (number f)) = none
as_object (some (text s)) = none
as_object (some (array xs)) = none
as_object none = none

abbrev pub as_float : Option Json → Option Float
as_float (some (number f)) = some f
as_float (some null) = none
as_float (some (boolean b)) = none
as_float (some (text s)) = none
as_float (some (array xs)) = none
as_float (some (object fs)) = none
as_float none = none

abbrev pub as_text : Option Json → Option String
as_text (some (text s)) = some s
as_text (some null) = none
as_text (some (boolean b)) = none
as_text (some (number f)) = none
as_text (some (array xs)) = none
as_text (some (object fs)) = none
as_text none = none

-- A map from periods to values.
abbrev pub Series : Type 0
Series = List (String × Float)

abbrev pub in_period : String → String × Float → Bool
in_period period e = str_eq e.0 period

-- `result[period] = val`
unfoldable pub put : String → Float → Series → Series
put period val [] = (period, val) ∷ []
put period val (e ∷ es) =
    let rest = put period val es in if in_period period e then (period, val) ∷ es else e ∷ rest

unfoldable pub item_count : JsonList → ℕ
item_count empty = 0
item_count (item v vs) = suc (item_count vs)

unfoldable pub drop_items : ℕ → JsonList → JsonList
drop_items n empty = empty
drop_items zero (item v vs) = item v vs
drop_items (suc n) (item v vs) = drop_items n vs

-- The items from `startIdx` on: the last five.
unfoldable pub last_five : JsonList → JsonList
unfolding item_count drop_items
last_five vs = drop_items (item_count vs - 5) vs

module _ (go : Runtime) where
  unfoldable pub period_of : Option Float → Option String → String
  period_of (some fy) (some fp) = concat (go.format_float 0 fy ∷ "-" ∷ fp ∷ [])
  period_of (some fy) none = go.format_float 0 fy
  period_of none (some fp) = fp
  period_of none none = "N/A"

  put_item : Option JsonFields → Series → Series
  unfolding put period_of
  put_item none series = series
  put_item (some fs) series = elim (as_float (get_field "val" fs)) [
    | none ↦ series
    | some val ↦
        put (period_of (as_float (get_field "fy" fs)) (as_text (get_field "fp" fs))) val series
  ]

  -- The loop over the items of a unit.
  unfoldable pub put_items : JsonList → Series → Series
  unfolding put_item
  put_items empty series = series
  put_items (item v vs) series = put_items vs (put_item (as_object (some v)) series)

  put_unit : Json → Series → Series
  unfolding put_items last_five
  put_unit (array vs) series = put_items (last_five vs) series
  put_unit null series = series
  put_unit (boolean b) series = series
  put_unit (number f) series = series
  put_unit (text s) series = series
  put_unit (object fs) series = series

  -- The loop over the units.
  unfoldable pub put_units : JsonFields → Series → Series
  unfolding put_unit
  put_units no_fields series = series
  put_units (field name v fs) series = put_units fs (put_unit v series)

  units_of : Option JsonFields → Series
  unfolding put_units
  units_of none = []
  units_of (some fs) = put_units fs []

  concept_of : Option JsonFields → Series
  unfolding units_of
  concept_of none = []
  concept_of (some fs) = units_of (as_object (get_field "units" fs))

  -- `extractSeries`
  unfoldable pub extract_series : JsonFields → String → Series
  unfolding concept_of
  extract_series us_gaap concept = concept_of (as_object (get_field concept us_gaap))

abbrev pub metrics_to_extract : List (String × String)
metrics_to_extract =
    ("Revenues", "Revenues")
    ∷ ("SalesRevenueNet", "Revenues")
    ∷ ("RevenueFromContractWithCustomerExcludingAssessedTax", "Revenues")
    ∷ ("NetIncomeLoss", "NetIncome")
    ∷ ("OperatingIncomeLoss", "OperatingIncome")
    ∷ ("Assets", "TotalAssets")
    ∷ ("EarningsPerShareBasic", "EPS")
    ∷ ("EarningsPerShareDiluted", "EPS")
    ∷ ("GrossProfit", "GrossProfit")
    ∷ ("Liabilities", "TotalLiabilities")
    ∷ []

abbrev pub ocf_concepts : List String
ocf_concepts =
    "NetCashProvidedByUsedInOperatingActivities" ∷ "NetCashProvidedByOperatingActivities"
    ∷ "NetCashProvidedByUsedInOperatingActivitiesContinuingOperations" ∷ []

abbrev pub capex_concepts : List String
capex_concepts =
    "PaymentsToAcquirePropertyPlantAndEquipment" ∷ "PaymentsForPropertyPlantAndEquipment" ∷ []

abbrev pub metric : String → String → Float → FundamentalItem
metric period name value = record { period = period; metric_name = name; value = value }

unfoldable pub labelled : String → Series → List FundamentalItem
labelled label [] = []
labelled label (e ∷ es) = metric e.0 label e.1 ∷ labelled label es

unfoldable pub put_all : Series → Series → Series
unfolding put
put_all [] series = series
put_all (e ∷ es) series = put_all es (put e.0 e.1 series)

-- `capexMap[period]`
abbrev pub value_in : String → Series → Option Float
value_in period es = elim (find (in_period period) es) [ none ↦ none | some e ↦ some e.1 ]

module _ (go : Runtime) where
  unfoldable pub metrics_of : JsonFields → List (String × String) → List FundamentalItem
  unfolding labelled extract_series
  metrics_of us_gaap [] = []
  metrics_of us_gaap (m ∷ ms) =
      labelled m.1 (extract_series go us_gaap m.0) ++ metrics_of us_gaap ms

  -- Later concepts overwrite the periods of earlier ones.
  unfoldable pub merged : JsonFields → List String → Series → Series
  unfolding put_all extract_series
  merged us_gaap [] series = series
  merged us_gaap (c ∷ cs) series = merged us_gaap cs (put_all (extract_series go us_gaap c) series)

  -- Free cash flow, for the periods that have both.
  unfoldable pub free_cash_flow : Series → Series → List FundamentalItem
  free_cash_flow [] capex = []
  free_cash_flow (e ∷ es) capex =
      let rest = free_cash_flow es capex in
      elim (value_in e.0 capex) [
        | none ↦ rest
        | some c ↦ metric e.0 "FreeCashFlow" (go.floats.sub e.1 c) ∷ rest
      ]

  unfoldable pub sec_batch : Option JsonFields → List FundamentalItem
  unfolding metrics_of merged free_cash_flow
  sec_batch none = []
  sec_batch (some us_gaap) =
      metrics_of us_gaap metrics_to_extract
      ++ free_cash_flow (merged us_gaap ocf_concepts []) (merged us_gaap capex_concepts [])

abbrev pub stored_count : ℕ → Result (Unit {0}) → ℕ
stored_count n (ok _) = n
stored_count n (err e) = 0

-- `if len(batch) > 0 { if err := InsertFundamentalsBatch(…); err == nil { return len(batch) } }`
unfoldable pub store_batch : ℕ → List FundamentalItem → J ℕ
unfolding db_call insert_fundamentals_batch
store_batch company_id [] s = (0, s)
store_batch company_id (b ∷ bs) s =
    let (r, s') = db_call (insert_fundamentals_batch company_id (b ∷ bs)) s in
    (stored_count (length (b ∷ bs)) r, s')

-- `extractAndStoreSECFacts`
unfoldable pub extract_and_store_sec_facts : Runtime → ℕ → SecCompanyFacts → J ℕ
unfolding sec_batch store_batch
extract_and_store_sec_facts go company_id facts =
    store_batch company_id (sec_batch go (as_object (get_field "us-gaap" facts.facts)))

abbrev pub unless_empty : String → String → String
unless_empty s t = if str_eq s "" then t else s

unfoldable pub statement_period : FmpIncomeStatement → String
statement_period stmt =
    unless_empty
      (if not (str_eq stmt.calendar_year "") && not (str_eq stmt.period "")
        then concat (stmt.calendar_year ∷ "-" ∷ stmt.period ∷ [])
        else unless_empty stmt.date stmt.period)
      "N/A"

abbrev pub unless_zero : String → String → Float → List FundamentalItem
unless_zero period name value = if is_zero value then [] else metric period name value ∷ []

unfoldable pub statement_items : FmpIncomeStatement → List FundamentalItem
unfolding statement_period
statement_items stmt =
    let period = statement_period stmt in
    unless_zero period "Revenues" stmt.revenue
    ++ unless_zero period "GrossProfit" stmt.gross_profit
    ++ unless_zero period "OperatingIncome" stmt.operating_income
    ++ unless_zero period "NetIncome" stmt.net_income
    ++ unless_zero period "EPS" (if is_zero stmt.eps_diluted then stmt.eps else stmt.eps_diluted)

unfoldable pub fmp_batch : List FmpIncomeStatement → List FundamentalItem
unfolding statement_items
fmp_batch [] = []
fmp_batch (stmt ∷ stmts) = statement_items stmt ++ fmp_batch stmts

-- `extractAndStoreFMPFacts`
unfoldable pub extract_and_store_fmp_facts : ℕ → List FmpIncomeStatement → J ℕ
unfolding fmp_batch store_batch
extract_and_store_fmp_facts company_id stmts = store_batch company_id (fmp_batch stmts)
