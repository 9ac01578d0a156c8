-- ===== src/Main/Tests.antt =====
-- A start of the server and the witness of its theorem.
use fin_base.Base.{List, [], ◌∷◌, none, some, true}
use fin_base.Base.Int.{pos}
use fin_base.Db.Watchlist.Runs.{add}
use fin_base.Clients.Http.{Wire}
use fin_base.Api.Samples.{asking}
use fin_base.Api.Server.Invariant.{request, job, macro, work, Turn}
use fin_base.Clients.Samples.{reply}
use fin_base.Worker.Job.{Job}

abbrev wire : Wire
wire = record { clock = 0; replies = []; requests = [] }

abbrev ge : Job
ge = record { ticker = "GE"; priority = pos 2; force_full_refresh = true }

-- A key is stored under a failing COMMIT and again, a ticker is added, and a job runs for it.
abbrev turns : List Turn
turns =
    record {
      event = request 0 (asking "" "POST" "/api/env/keys" "fmp-2");
      at = 1;
      answers = none ∷ none ∷ some "busy" ∷ [];
      replies = [];
    }
    ∷ record {
      event = request 0 (asking "" "POST" "/api/env/keys" "fmp-2");
      at = 2;
      answers = [];
      replies = [];
    }
    ∷ record { event = work (add 0 "ge" (pos 2)); at = 3; answers = []; replies = [] }
    ∷ record { event = job ge; at = 4; answers = []; replies = reply 500 4_000_000_001 ∷ [] }
    ∷ record { event = macro; at = 5; answers = []; replies = [] }
    ∷ []
