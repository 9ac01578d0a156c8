-- ===== src/Db/Tests.antt =====
-- Witnesses of the theorems on transactions, keys and batches.
use fin_base.Base.{ℕ, ◌≡◌, refl, ◌⊎◌, [], ◌∷◌, none, some}
use fin_base.Base.Text.{trim_space}
use fin_base.Db.Models.{Company, Dividend}
use fin_base.Db.Samples.{apple, world, some_tables}
use fin_base.Base.Int.{pos}
use fin_base.Db.Tx.{ok, World, exec, raise, with_tx}
use fin_base.Db.Tx.Laws.{of_stmt, Ended, exec-Runs, with_tx-Commits}
use fin_base.Db.Keys.{set_api_key}
use fin_base.Db.Keys.Laws.{Assigns, keys-Assigns}
use fin_base.Db.Series.{insert_dividends_batch}
use fin_base.Db.Series.Laws.{Appends, insert_dividends-Appends}
use fin_base.Db.Watchlist.{set_status}
use fin_base.Db.Tx.Closing.{IsIdle, with_tx-IsIdle}

with_tx-Commits_example :
    Ended
      (of_stmt (set_status "AAPL" "error"))
      (world (none ∷ none ∷ none ∷ some "disk full" ∷ []))
      (with_tx
        (exec (set_status "AAPL" "error"))
        (world (none ∷ none ∷ none ∷ some "disk full" ∷ [])))
with_tx-Commits_example =
    with_tx-Commits (exec (set_status "AAPL" "error")) (of_stmt (set_status "AAPL" "error"))
      (exec-Runs (set_status "AAPL" "error")) (world (none ∷ none ∷ none ∷ some "disk full" ∷ []))

abbrev stuck : World
stuck = record (world []) { saved = some some_tables }

abbrev cancelled : World
cancelled = world (none ∷ none ∷ some "context canceled" ∷ some "context canceled" ∷ [])

keys-Assigns_example :
    Ended
      (Assigns (trim_space " FMP_API_KEY ") (some "fmp-2"))
      (world [])
      (set_api_key " FMP_API_KEY " "fmp-2" (world []))
keys-Assigns_example = (keys-Assigns " FMP_API_KEY " "fmp-2").0 (world [])

abbrev paid_in_may : Dividend
paid_in_may = record {
  id = 0;
  company_id = 0;
  ex_date = "2024-05-01";
  payment_date = "2024-05-15";
  record_date = "2024-05-02";
  amount = 0x3fd0000000000000;
  currency = "USD";
  frequency = pos 4;
}

insert_dividends-Appends_example :
    Ended
      (Appends 1 (paid_in_may ∷ []))
      (world [])
      (insert_dividends_batch 1 (paid_in_may ∷ []) (world []))
    ⊎ ((paid_in_may ∷ [] ≡ [])
        × (insert_dividends_batch 1 (paid_in_may ∷ []) (world []) ≡ (ok tt, world [])))
insert_dividends-Appends_example = insert_dividends-Appends 1 (paid_in_may ∷ []) (world [])

with_tx-IsIdle_example : IsIdle {A = ℕ} (with_tx (raise "no such row") (world []))
with_tx-IsIdle_example = with_tx-IsIdle (raise "no such row") (world []) (λ v h. h) refl refl

-- A name is learnt, and the sector that is not known anew stays.
abbrev renamed : Company
renamed = record apple { ticker = " aapl "; name = "Apple Inc."; sector = "" }
