-- ===== src/Db/Companies/Laws.antt =====
-- What `UpsertCompany` and `SetCategoryLastUpdated` of db/db.go leave in their tables.
use mathlib.Core.Option
use fin_base.Base.{ℕ, suc, ◌≡◌, ◌≢◌, String, Option, none, some, find}
use fin_base.Db.Models.{Company, Tables}
use fin_base.Db.Tx.Laws.{Effect}
use fin_base.Db.Companies.{merge_company, is_company}

-- The stored company of a ticker.
abbrev pub stored_company : String → Tables → Option Company
stored_company ticker t = find (is_company ticker) t.companies

-- The row that a company gets: a new one, or the stored one with what the new one knows.
abbrev pub row_for : Company → ℕ → Option Company → Company
row_for new seq none = record new { id = suc seq }
row_for new seq (some old) = merge_company new old

-- What `UpsertCompany` does: the ticker has its row, whose id is returned, and no other ticker's row changes.
abbrev pub Upserts : Company → Effect ℕ
Upserts new n t id t' =
    (stored_company new.ticker t' ≡ some (row_for new t.company_seq (stored_company new.ticker t)))
    × (id ≡ (row_for new t.company_seq (stored_company new.ticker t)).id)
    × ((other : String) → other ≢ new.ticker → stored_company other t' ≡ stored_company other t)

-- The first statement of it.
abbrev RowUpserts : Company → Effect (Unit {0})
RowUpserts new n t _ t' =
    (stored_company new.ticker t' ≡ some (row_for new t.company_seq (stored_company new.ticker t)))
    × ((other : String) → other ≢ new.ticker → stored_company other t' ≡ stored_company other t)
