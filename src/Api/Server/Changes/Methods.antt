-- ===== src/Api/Server/Changes/Methods.antt =====
-- Methods of the database within a handler, as changes.
use fin_base.Base.{ℕ, ◌≡◌, sym, subst, Bool, true, false, if◌then◌else◌}
use fin_base.Db.Tx.{Result, ok, err, M}
use fin_base.Db.Quiet.{IsQuiet}
use fin_base.Db.Watchlist.Runs.{WatchOp, perform}
use fin_base.Env.{Environment, EnvService}
use fin_base.Api.Messages.{Response, Server, or_fail, on_db}
use fin_base.Api.Server.{or_default}
use fin_base.Api.Server.Changes.{reads, watches, Changes, then_change}

-- The service behind a response.
abbrev pub after : Response × Server → EnvService
after x = x.1.env_svc

module _ {A : Type 0} (getenv : Environment) (s : EnvService) where
  pub fail_after :
      (code : ℕ) (good : A → Response) (x : Result A × Server)
      → Changes getenv s x.1.env_svc
      → Changes getenv s (after (or_fail code (λ a s'. (good a, s')) x))
  fail_after code good (ok a, t) h = h
  fail_after code good (err e, t) h = h

  pub default_after :
      (d : A) (x : Result A × Server)
      → Changes getenv s x.1.env_svc
      → Changes getenv s (or_default d x).1.env_svc
  default_after d (ok a, t) h = h
  default_after d (err e, t) h = h

  -- A read behind some changes, and a method of the watchlist.
  pub read_after :
      (m : M A) (t : Server)
      → IsQuiet m
      → Changes getenv s t.env_svc
      → Changes getenv s (on_db m t).1.env_svc
  unfolding on_db
  read_after m t q h = then_change h (reads (m t.env_svc.db).1 (q t.env_svc.db))

  pub watch_after :
      (m : M A) (op : WatchOp) (t : Server)
      → (m t.env_svc.db).1 ≡ perform op t.env_svc.db
      → Changes getenv s t.env_svc
      → Changes getenv s (on_db m t).1.env_svc
  unfolding on_db
  watch_after m op t q h =
      subst (λ w. Changes getenv s (record t.env_svc { db = w })) (sym q)
        (then_change h (watches op))

-- Both branches of a test.
pub branch_after :
    (getenv : Environment) (s : EnvService) (b : Bool) (x y : Response × Server)
    → Changes getenv s (after x)
    → Changes getenv s (after y)
    → Changes getenv s (after (if b then x else y))
branch_after getenv s true x y h k = h
branch_after getenv s false x y h k = k
