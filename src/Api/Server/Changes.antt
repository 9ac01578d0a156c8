-- ===== src/Api/Server/Changes.antt =====
-- What requests do to the database and the keys in use: a request runs some operations of the watchlist
-- or of the keys, one after another, and nothing else.
pub mod Methods
pub mod Handlers
pub mod Serving
use fin_base.Base.{
  ℕ, ◌≡◌, refl, sym, ap, subst, ◌∙◌, inl, inr, String, str_eq, Bool, true, false, not, ◌&&◌, ◌||◌,
  List, [], ◌∷◌, Option, none, some, if◌then◌else◌, Bool-cases,
}
use fin_base.Base.Int.{pos}
use fin_base.Db.Tx.{Result, ok, err, World, committed, M}
use fin_base.Db.Quiet.{
  IsQuiet, get_watchlist-IsQuiet, get_job_status_summary-IsQuiet, get_recent_action_history-IsQuiet,
  get_consolidated_data-IsQuiet,
}
use fin_base.Base.Int.{ℤ}
use fin_base.Db.Watchlist.{
  add_watchitem, update_watchitem_priority, delete_watchitem, set_watchitem_force_refresh,
  set_watchitem_force_refresh_all, update_watchitem_status,
}
use fin_base.Db.Consolidated.{get_consolidated_data}
use fin_base.Db.Watchlist.Reads.{
  get_watchlist, get_job_status_summary, get_recent_action_history, no_jobs,
}
use fin_base.Db.Watchlist.Runs.{
  WatchOp, add, force, force_all, set_priority_of, set_status_of, delete, perform,
}
use fin_base.Env.{Environment, EnvService, set_key, delete_key, get_key_statuses}
use fin_base.Env.TestKey.{test_key}
use fin_base.Env.Probing.{Untouched, test_key-Untouched, OnlyReads, get_key_statuses-OnlyReads}
use fin_base.Api.Messages.{
  HttpRequest, success, fields, watch_item, WatchlistBody, KeyBody, Outside, Response, Server,
  Handler, or_fail, on_db, on_env,
}
use fin_base.Api.Server.{
  or_default, handle_health, handle_auth_token, get_list, post_item, put_priority, delete_item,
  with_ticker, handle_watchlist, refresh_one, refresh_all, refresh_ticker, handle_watchlist_refresh,
  handle_company_data, handle_status, post_key, remove_key, handle_env_keys, tested, post_test,
  handle_env_keys_test,
}

-- One operation on the environment service and its database.
pub data Change (getenv : Environment) : EnvService → EnvService → Type 0 where
  reads :
      {s : EnvService} (w : World)
      → committed w ≡ committed s.db
      → Change getenv s (record s { db = w })
  watches : {s : EnvService} (op : WatchOp) → Change getenv s (record s { db = perform op s.db })
  sets : {s : EnvService} (name value : String) → Change getenv s (set_key name value s).1
  deletes : {s : EnvService} (name : String) → Change getenv s (delete_key getenv name s).1
  tests : {s s' : EnvService} → Untouched s s' → Change getenv s s'

pub data Changes (getenv : Environment) : EnvService → EnvService → Type 0 where
  nothing : {s : EnvService} → Changes getenv s s
  then_change : {s t u : EnvService} → Changes getenv s t → Change getenv t u → Changes getenv s u
