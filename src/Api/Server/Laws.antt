-- ===== src/Api/Server/Laws.antt =====
-- What the handlers of the watchlist do, against the commands that requests stand for.
use fin_base.Base.{ℕ, ◌≡◌, refl, String, str_eq, [], ◌∷◌, if◌then◌else◌}
use fin_base.Base.Int.{ℤ}
use fin_base.Base.Text.{normalize}
use fin_base.Db.Tx.{Result, ok, err, World, M}
use fin_base.Db.Tx.Laws.{Ended, Effect}
use fin_base.Db.Watchlist.Add.{Adds}
use fin_base.Db.Watchlist.Lookup.{Touches, Removes}
use fin_base.Db.Watchlist.Reads.Listing.{Listed}
use fin_base.Api.Messages.{
  HttpRequest, WatchlistBody, Outside, Payload, failure, fields, watchlist, watch_item, Response,
  Server, or_fail, failed, on_db,
}

-- The response to the result of a method.
abbrev pub response_to : {A : Type 0} → ℕ → (A → Response) → Result A → Response
response_to code good (ok a) = good a
response_to code good (err e) = record { status = code; payload = failure e }

-- A method of the database ran as `P` says, the response is that to its result, and nothing else of the
-- server has changed.
abbrev pub Replies :
    {A : Type 0}
    → (World → Result A × World → Type 0)
    → ℕ
    → (A → Response)
    → Server
    → Response × Server
    → Type 0
Replies {A} P code good s (resp, s') =
    (x : Result A) × (w : World) × P s.env_svc.db (x, w)
    × (resp ≡ response_to code good x)
    × (s' ≡ record s { env_svc = record s.env_svc { db = w } })

module _ {A : Type 0} (P : World → Result A × World → Type 0) (code : ℕ) (good : A → Response) where
  replied_as :
      (s : Server) (x : Result A × World)
      → P s.env_svc.db x
      → Replies P code good s (
          or_fail code
            (λ a s'. (good a, s'))
            (x.0, record s { env_svc = record s.env_svc { db = x.1 } }))
  replied_as s (ok a, w) h = (ok a, w, h, refl, refl)
  replied_as s (err e, w) h = (err e, w, h, refl, refl)

  pub on_db-Replies :
      (m : M A) (s : Server)
      → P s.env_svc.db (m s.env_svc.db)
      → Replies P code good s (or_fail code (λ a s'. (good a, s')) (on_db m s))
  unfolding on_db
  on_db-Replies m s h = replied_as s (m s.env_svc.db) h

-- What a request to `/api/watchlist` asks for.
pub data Command : Type 0 where
  list : Command
  add : String → ℤ → Command
  prioritise : String → ℤ → Command
  delete : String → Command
  refuse : ℕ → String → Command

abbrev pub of_body : (String → ℤ → Command) → Result WatchlistBody → Command
of_body f (err e) = refuse 400 "invalid request payload"
of_body f (ok b) =
    if str_eq b.ticker "" then refuse 400 "invalid request payload" else f b.ticker b.priority

abbrev pub of_query : String → Command
of_query ticker = if str_eq ticker "" then refuse 400 "ticker parameter required" else delete ticker

abbrev pub command_of : Outside → HttpRequest → Command
command_of o r =
    if str_eq r.method "GET"
    then list
    else (if str_eq r.method "POST"
        then of_body add (o.watchlist_body r.body)
        else (if str_eq r.method "PUT"
            then of_body prioritise (o.watchlist_body r.body)
            else (if str_eq r.method "DELETE"
                then of_query (r.query "ticker")
                else refuse 405 "method not allowed")))

abbrev pub answer : ℕ → Payload → Response
answer code p = record { status = code; payload = p }

-- The row of the ticker gets the priority and is pending as of now.
abbrev pub Prioritises : String → ℤ → Effect (Unit {0})
Prioritises ticker priority =
    Touches (normalize ticker)
      (λ n r. record r { priority = priority; status = "pending"; last_updated = n })

abbrev pub Performs : Server → Command → Response × Server → Type 0
Performs s list = Replies Listed 500 (λ l. answer 200 (watchlist l)) s
Performs s (add ticker priority) =
    Replies (Ended (Adds (normalize ticker) priority)) 500 (λ i. answer 201 (watch_item i)) s
Performs s (prioritise ticker priority) =
    Replies (Ended (Prioritises ticker priority)) 500
      (λ _. answer 200 (fields (("status", "success") ∷ []))) s
Performs s (delete ticker) =
    Replies (Ended (Removes (normalize ticker))) 500
      (λ _. answer 200 (fields (("status", "deleted") ∷ []))) s
Performs s (refuse code e) = λ x. x ≡ failed code e s
