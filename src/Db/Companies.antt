-- ===== src/Db/Companies.antt =====
-- Companies, the update times of their data and the action history (db/db.go).
pub mod Laws
pub mod Stamps
use fin_base.Base.{
  ℕ, suc, String, str_eq, Bool, ◌&&◌, List, [], ◌∷◌, ◌++◌, Option, none, some, if◌then◌else◌, ◌==◌,
  any, find, length,
}
use fin_base.Base.Float.{is_positive}
use fin_base.Base.Text.{normalize}
use fin_base.Db.Models.{Company, StampRow, Tables}
use fin_base.Db.Tx.{ok, err, M, ◌>>◌, Stmt, exec, with_tx, query}

-- COALESCE(NULLIF(new, ''), old)
abbrev pub coalesce_text : String → String → String
coalesce_text new old = if str_eq new "" then old else new

-- The row of a company behind ON CONFLICT(ticker) DO UPDATE.
unfoldable pub merge_company : Company → Company → Company
merge_company new old = record old {
  cik = coalesce_text new.cik old.cik;
  isin = coalesce_text new.isin old.isin;
  name = coalesce_text new.name old.name;
  sector = coalesce_text new.sector old.sector;
  exchange = coalesce_text new.exchange old.exchange;
  outstanding_shares =
      if is_positive new.outstanding_shares then new.outstanding_shares else old.outstanding_shares;
  logo_url = coalesce_text new.logo_url old.logo_url;
}

abbrev pub is_company : String → Company → Bool
is_company ticker c = str_eq c.ticker ticker

unfoldable pub merge_into : Company → List Company → List Company
unfolding merge_company
merge_into new [] = []
merge_into new (c ∷ cs) =
    (if is_company new.ticker c then merge_company new c else c) ∷ merge_into new cs

unfoldable pub upsert_company_row : Company → Stmt (Unit {0})
unfolding merge_into
upsert_company_row new n t =
    if any (is_company new.ticker) t.companies
    then ok (tt, record t { companies = merge_into new t.companies })
    else ok (
      tt,
      record t {
        companies = t.companies ++ record new { id = suc t.company_seq } ∷ [];
        company_seq = suc t.company_seq;
      },
    )

-- "SELECT id FROM companies WHERE ticker = ?", scanned: no row is an error.
unfoldable pub select_company_id : String → Stmt ℕ
select_company_id ticker n t = elim (find (is_company ticker) t.companies) [
  | none ↦ err "sql: no rows in result set"
  | some c ↦ ok (c.id, t)
]

-- The function that `UpsertCompany` runs in its transaction.
unfoldable pub upsert_body : Company → M ℕ
unfolding exec upsert_company_row select_company_id
upsert_body comp = exec (upsert_company_row comp) >> exec (select_company_id comp.ticker)

-- `DB.UpsertCompany`
unfoldable pub upsert_company : Company → M ℕ
unfolding with_tx normalize upsert_body
upsert_company comp = with_tx (upsert_body (record comp { ticker = normalize comp.ticker }))

abbrev pub has_stamp : ℕ → String → StampRow → Bool
has_stamp company_id category s = s.company_id == company_id && str_eq s.category category

abbrev pub stamp_time : Option StampRow → ℕ
stamp_time none = 0
stamp_time (some s) = s.last_updated

-- `DB.GetCategoryLastUpdated`: the zero time if there is no row.
unfoldable pub get_category_last_updated : ℕ → String → M ℕ
unfolding query
get_category_last_updated company_id category =
    query λ _ t. stamp_time (find (has_stamp company_id category) t.stamps)

-- FOREIGN KEY(company_id) REFERENCES companies(id)
abbrev pub company_exists : ℕ → Tables → Bool
company_exists id t = any (λ (c : Company). c.id == id) t.companies

abbrev pub foreign_key : String
foreign_key = "FOREIGN KEY constraint failed"

unfoldable pub restamp : ℕ → String → ℕ → List StampRow → List StampRow
restamp company_id category n [] = []
restamp company_id category n (s ∷ ss) =
    (if has_stamp company_id category s then record s { last_updated = n } else s)
    ∷ restamp company_id category n ss

unfoldable pub upsert_stamp : ℕ → String → Stmt (Unit {0})
unfolding restamp
upsert_stamp company_id category n t =
    if company_exists company_id t
    then ok (
      tt,
      record t {
        stamps =
            if any (has_stamp company_id category) t.stamps
            then restamp company_id category n t.stamps
            else t.stamps
              ++ record { company_id = company_id; category = category; last_updated = n } ∷ [];
      },
    )
    else err foreign_key

-- `DB.SetCategoryLastUpdated`
unfoldable pub set_category_last_updated : ℕ → String → M (Unit {0})
unfolding with_tx exec upsert_stamp
set_category_last_updated company_id category = with_tx (exec (upsert_stamp company_id category))

unfoldable pub append_action : String → String → String → String → Stmt (Unit {0})
append_action ticker action_type status message n t = ok (
  tt,
  record t {
    history =
        t.history
        ++ record {
          id = suc (length t.history);
          timestamp = n;
          ticker = ticker;
          action_type = action_type;
          status = status;
          message = message;
        }
          ∷ [];
  },
)

-- `DB.LogAction`
unfoldable pub log_action : String → String → String → String → M (Unit {0})
unfolding with_tx exec normalize append_action
log_action ticker action_type status message =
    with_tx (exec (append_action (normalize ticker) action_type status message))
