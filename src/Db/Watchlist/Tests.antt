-- ===== src/Db/Watchlist/Tests.antt =====
-- Tests of the watchlist and witnesses of its theorems.
use fin_base.Base.{◌<◌, ◌≡◌, refl, ◌≢◌, true, false, [], ◌∷◌, none, some, arith, All}
use fin_base.Base.Int.{pos}
use fin_base.Base.Text.{normalize}
use fin_base.Db.Models.{Watchitem, WatchRow}
use fin_base.Db.Samples.{world, some_tables}
use fin_base.Db.Tx.{ok, World, committed}
use fin_base.Db.Tx.Laws.{Ended}
use fin_base.Db.Watchlist.{
  fetch_and_queue_next_watchitem, update_watchitem_status, delete_watchitem,
}
use fin_base.Db.Watchlist.Fetch.{Fetched, fetch_and_queue-Fetched}
use fin_base.Db.Watchlist.Lookup.{Touches, updates-Touches, Removes, delete-Removes}
use fin_base.Db.Watchlist.Invariant.{IsValid}
use fin_base.Db.Watchlist.Runs.{run, add, fetch, run-IsValid}
use fin_base.Db.Watchlist.Reads.{get_watchlist, fetch_next_watchitem}
use fin_base.Db.Watchlist.Reads.Listing.{
  Listed, get_watchlist-Listed, Peeked, fetch_next_watchitem-Peeked,
}
use fin_base.Db.Watchlist.Handout.{fetch_twice_differs}

some_tables-ids : All (λ (r : WatchRow). 0 < r.id) (committed (world [])).watchlist
some_tables-ids = (omega arith, (omega arith, (omega arith, tt)))

fetch_and_queue-Fetched_example : Fetched (world []) (fetch_and_queue_next_watchitem (world []))
fetch_and_queue-Fetched_example = fetch_and_queue-Fetched (world []) some_tables-ids

some_tables-IsValid : IsValid some_tables
some_tables-IsValid = (omega arith, refl, (omega arith, refl, (omega arith, refl, omega arith)))

abbrev after_one : World
after_one = (fetch_and_queue_next_watchitem (world [])).1

abbrev msft : Watchitem
msft = record {
  id = 2;
  ticker = "MSFT";
  priority = pos 5;
  status = "pending";
  last_updated = 900;
  next_update_time = 0;
  force_full_refresh = false;
}

abbrev aapl : Watchitem
aapl = record msft {
  id = 1;
  ticker = "AAPL";
  priority = pos 1;
  status = "completed";
  last_updated = 100;
}

first_fetch : fetch_and_queue_next_watchitem (world []) ≡ (ok (some msft), after_one)
unfolding fetch_and_queue_next_watchitem
first_fetch = refl

abbrev after_two : World
after_two = (fetch_and_queue_next_watchitem after_one).1

second_fetch : fetch_and_queue_next_watchitem after_one ≡ (ok (some aapl), after_two)
unfolding fetch_and_queue_next_watchitem
second_fetch = refl

fetch_twice_differs_example : aapl.ticker ≢ msft.ticker
fetch_twice_differs_example =
    fetch_twice_differs (world []) msft aapl after_one after_one after_two some_tables-IsValid
      first_fetch refl second_fetch

run-IsValid_example : IsValid (
    committed (
      run (world []) (
        record { op = add 0 " ge " (pos 2); at = 1001; answers = none ∷ none ∷ some "busy" ∷ [] }
        ∷ record { op = fetch; at = 1400; answers = [] }
        ∷ [])))
run-IsValid_example =
    run-IsValid (world [])
      (record { op = add 0 " ge " (pos 2); at = 1001; answers = none ∷ none ∷ some "busy" ∷ [] }
        ∷ record { op = fetch; at = 1400; answers = [] }
        ∷ [])
      some_tables-IsValid

updates-Touches_example :
    Ended
      (Touches (normalize "aapl") (λ n r. record r { status = "error"; last_updated = n }))
      (world [])
      (update_watchitem_status "aapl" "error" (world []))
updates-Touches_example = (updates-Touches "aapl" "error" true (pos 3)).0 (world [])

delete-Removes_example :
    Ended (Removes (normalize "ibm")) (world []) (delete_watchitem "ibm" (world []))
delete-Removes_example = delete-Removes "ibm" (world [])

get_watchlist-Listed_example : Listed (world []) (get_watchlist (world []))
get_watchlist-Listed_example = get_watchlist-Listed (world [])

fetch_next_watchitem-Peeked_example : Peeked (world []) (fetch_next_watchitem (world []))
fetch_next_watchitem-Peeked_example = fetch_next_watchitem-Peeked (world [])
