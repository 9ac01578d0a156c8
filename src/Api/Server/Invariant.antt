-- ===== src/Api/Server/Invariant.antt =====
-- What holds of the server throughout: the keys in use agree with the table of keys and the
-- environment, and the watchlist is in order. Requests and jobs come one after another, each as one
-- step, and between them the clock goes on and SQLite and the network answer as they will.
use fin_base.Base.{ℕ, ◌*◌, refl, sym, subst, String, List, [], ◌∷◌, Option}
use fin_base.Db.Models.{Tables}
use fin_base.Db.Tx.{committed}
use fin_base.Db.Watchlist.Invariant.{IsValid, InOrder}
use fin_base.Db.Watchlist.Runs.{WatchOp, perform, perform-IsValid}
use fin_base.Db.Watchlist.Frame.{perform-api_keys}
use fin_base.Clients.Http.{Reply}
use fin_base.Env.{Environment, EnvService, set_key, delete_key}
use fin_base.Env.Laws.{Agrees, same-Agrees, env_operations-Agrees}
use fin_base.Env.Frame.{
  SameWatchlist, set_key-SameWatchlist, delete_key-SameWatchlist, keys-Agrees, test-Agrees,
}
use fin_base.Api.Messages.{HttpRequest, Outside, Server}
use fin_base.Worker.Site.{Site, Broadcast, log, company_update}
use fin_base.Worker.Job.{Job}
use fin_base.Worker.Job.Process.{process_job, run_macro_fetch}
use fin_base.Worker.Job.Kept.{Keeps}
use fin_base.Worker.Job.Keeping.{process_job-Keeps, run_macro_fetch-Keeps}
use fin_base.Worker.Wiring.{client_services, client_services-Serves}
use fin_base.Api.Broker.{SseBroker, broadcast_log, broadcast_update}
use fin_base.Api.Server.Routes.{serve}
use fin_base.Api.Server.Changes.{
  Change, reads, watches, sets, deletes, tests, Changes, nothing, then_change,
}
use fin_base.Api.Server.Changes.Serving.{serve-Changes}

abbrev pub IsSound : Environment → EnvService → Type 0
IsSound getenv s = Agrees getenv s × IsValid (committed s.db)

watchlist-IsValid : (t u : Tables) → SameWatchlist t u → IsValid t → IsValid u
watchlist-IsValid t u (rows, seq) h =
    subst (λ n. InOrder 0 n u.watchlist) (sym seq) (subst (InOrder 0 t.watch_seq) (sym rows) h)

module _ {getenv : Environment} where
  Change-IsSound : {s s' : EnvService} → Change getenv s s' → IsSound getenv s → IsSound getenv s'
  Change-IsSound {s = s} (reads w q) h = (same-Agrees getenv s w h.0 q, subst IsValid (sym q) h.1)
  Change-IsSound {s = s} (watches op) h = (
    keys-Agrees getenv s (perform op s.db) h.0 (perform-api_keys op s.db),
    perform-IsValid op s.db h.1,
  )
  Change-IsSound {s = s} (sets name value) h = (
    (env_operations-Agrees getenv s name value h.0).0,
    watchlist-IsValid (committed s.db) (committed (set_key name value s).1.db)
        (set_key-SameWatchlist name value s) h.1,
  )
  Change-IsSound {s = s} (deletes name) h = (
    (env_operations-Agrees getenv s name "" h.0).1,
    watchlist-IsValid (committed s.db) (committed (delete_key getenv name s).1.db)
        (delete_key-SameWatchlist getenv name s) h.1,
  )
  Change-IsSound {s = s} {s' = s'} (tests u) h =
      (test-Agrees getenv s s' u h.0, subst (λ w. IsValid (committed w)) (sym u.0) h.1)

  Changes-IsSound : {s s' : EnvService} → Changes getenv s s' → IsSound getenv s → IsSound getenv s'
  Changes-IsSound nothing h = h
  Changes-IsSound (then_change c d) h = Change-IsSound d (Changes-IsSound c h)

-- A request, a job of a worker, the macro worker's fetch, or an operation of the watchlist by the
-- dispatcher or by a worker around its job.
pub data Event : Type 0 where
  request : ℕ → HttpRequest → Event
  job : Job → Event
  macro : Event
  work : WatchOp → Event

-- An event at a time, in seconds, with what SQLite and the network answer to its calls.
pub record Turn : Type 0 where
  pub event : Event
  pub at : ℕ
  pub answers : List (Option String)
  pub replies : List Reply

abbrev pub meeting : Turn → Server → Server
meeting t s = record s {
  env_svc = record s.env_svc { db = record s.env_svc.db { now = t.at; outcomes = t.answers } };
  wire = record s.wire { clock = t.at * 1_000_000_000; replies = t.replies };
}

-- What a job broadcasts, into the broker.
unfoldable pub announce : Outside → ℕ → List Broadcast → SseBroker → SseBroker
unfolding broadcast_log broadcast_update
announce o now [] b = b
announce o now (log ticker status message ∷ bs) b =
    announce o now bs (broadcast_log now ticker status message b)
announce o now (company_update ticker stored ∷ bs) b =
    announce o now bs (broadcast_update (o.company_json stored) b)

-- The site that a job works on is the server's database and clients.
abbrev pub site_of : Server → Site
site_of s = record {
  db = s.env_svc.db;
  client = record { manager = s.env_svc.client_mgr; wire = s.wire };
  broadcasts = [];
}

unfoldable pub worked : Outside → Server → Site → Server
unfolding announce
worked o s site = record s {
  env_svc = record s.env_svc { db = site.db; client_mgr = site.client.manager };
  wire = site.client.wire;
  broker = announce o site.db.now site.broadcasts s.broker;
}

unfoldable pub happens : Outside → Event → Server → Server
unfolding serve perform worked process_job run_macro_fetch client_services
happens o (request last_id r) s = (serve o last_id r s).1
happens o (job j) s =
    worked o s (process_job o.go (client_services o.json o.inflate) j (site_of s)).1
happens o macro s = worked o s (run_macro_fetch (client_services o.json o.inflate) (site_of s)).1
happens o (work op) s = record s { env_svc = record s.env_svc { db = perform op s.env_svc.db } }

unfoldable pub run_server : Outside → Server → List Turn → Server
unfolding happens
run_server o s [] = s
run_server o s (t ∷ ts) = run_server o (happens o t.event (meeting t s)) ts

worked-IsSound :
    (o : Outside) (s : Server) (site : Site)
    → Keeps (site_of s) site
    → IsSound o.go.getenv s.env_svc
    → IsSound o.go.getenv (worked o s site).env_svc
unfolding worked
worked-IsSound o s site k h =
    let stored : EnvService = record s.env_svc { db = site.db } in
    (
      test-Agrees o.go.getenv stored (record stored { client_mgr = site.client.manager })
          (refl, refl, k.client_keys) (keys-Agrees o.go.getenv s.env_svc site.db h.0 k.table_keys),
      k.in_order h.1,
    )

happens-IsSound :
    (o : Outside) (e : Event) (s : Server)
    → IsSound o.go.getenv s.env_svc
    → IsSound o.go.getenv (happens o e s).env_svc
unfolding happens
happens-IsSound o (request last_id r) s h = Changes-IsSound (serve-Changes o last_id r s) h
happens-IsSound o (job j) s h =
    worked-IsSound o s _
      (process_job-Keeps o.go (client_services o.json o.inflate)
        (client_services-Serves o.json o.inflate) j (site_of s))
      h
happens-IsSound o macro s h =
    worked-IsSound o s _
      (run_macro_fetch-Keeps (client_services o.json o.inflate)
        (client_services-Serves o.json o.inflate) (site_of s))
      h
happens-IsSound o (work op) s h = Change-IsSound (watches op) h

meeting-IsSound :
    (getenv : Environment) (t : Turn) (s : Server)
    → IsSound getenv s.env_svc
    → IsSound getenv (meeting t s).env_svc
meeting-IsSound getenv t s h = (same-Agrees getenv s.env_svc (meeting t s).env_svc.db h.0 refl, h.1)

-- Whatever requests come, with whatever paths, methods, bodies and credentials, and whatever jobs run
-- between them, at any times and under any answers of SQLite and the network: the keys in use agree with
-- the table of keys and the environment, and the watchlist has rising ids within its sequence and no
-- ticker twice, where both held before.
pub run_server-IsSound :
    (o : Outside) (ts : List Turn) (s : Server)
    → IsSound o.go.getenv s.env_svc
    → IsSound o.go.getenv (run_server o s ts).env_svc
unfolding run_server
run_server-IsSound o [] s h = h
run_server-IsSound o (t ∷ ts) s h =
    run_server-IsSound o ts (happens o t.event (meeting t s))
      (happens-IsSound o t.event (meeting t s) (meeting-IsSound o.go.getenv t s h))
