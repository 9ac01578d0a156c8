-- ===== src/Api/Server/Refresh.antt =====
-- `/api/watchlist/refresh` for one ticker: two transactions one after the other.
use mathlib.Core.Option
use fin_base.Base.{
  ℕ, ◌≡◌, refl, sym, ap, subst, ◌∙◌, ◌⊎◌, inl, inr, String, true, [], ◌∷◌, Option, none, some,
}
use fin_base.Base.Int.{pos}
use fin_base.Base.Text.{normalize}
use fin_base.Db.Models.{WatchRow, Tables}
use fin_base.Db.Tx.{Result, ok, err, World, committed}
use fin_base.Db.Tx.Laws.{Ended}
use fin_base.Db.Watchlist.{set_watchitem_force_refresh, update_watchitem_status}
use fin_base.Db.Watchlist.Lookup.{Touches, row_of, updates-Touches}
use fin_base.Api.Messages.{Response, Server, or_fail, on_db, success}
use fin_base.Api.Server.{refresh_one}

abbrev pub stored : Server → Tables
stored s = committed s.env_svc.db

Option-map-map :
    (f g : WatchRow → WatchRow) (x : Option WatchRow)
    → Option.map g (Option.map f x) ≡ Option.map (λ r. g (f r)) x
Option-map-map f g none = refl
Option-map-map f g (some r) = refl

-- One change of a row after another.
then-Touches :
    (ticker : String) (f g : ℕ → WatchRow → WatchRow) (n : ℕ) (t u v : Tables)
    → Touches ticker f n t tt u
    → Touches ticker g n u tt v
    → Touches ticker (λ n r. g n (f n r)) n t tt v
then-Touches ticker f g n t u v h k = (
  k.0 ∙ ap (Option.map (g n)) h.0 ∙ Option-map-map (f n) (g n) (row_of ticker t),
  λ other ne. k.1 other ne ∙ h.1 other ne,
)

abbrev pub forced : ℕ → WatchRow → WatchRow
forced n r = record r { force_full_refresh = 1 }

abbrev pub forced_pending : ℕ → WatchRow → WatchRow
forced_pending n r = record r { status = "pending"; last_updated = n; force_full_refresh = 1 }

-- How a refresh of one ticker can end.
abbrev pub Refreshed : String → Server → Response × Server → Type 0
Refreshed ticker s (resp, s') =
    ((resp.status ≡ 200)
      × Touches (normalize ticker) forced_pending s.env_svc.db.now (stored s) tt (stored s'))
    ⊎ ((resp.status ≡ 500)
        × ((stored s' ≡ stored s)
            ⊎ Touches (normalize ticker) forced s.env_svc.db.now (stored s) tt (stored s')))

abbrev with_world : Server → World → Server
with_world s w = record s { env_svc = record s.env_svc { db = w } }

status_go :
    (ticker : String) (s : Server) (w : World) (x : Result (Unit {0}) × World)
    → w.now ≡ s.env_svc.db.now
    → Touches (normalize ticker) forced s.env_svc.db.now (stored s) tt (committed w)
    → Ended
        (Touches (normalize ticker) (λ n r. record r { status = "pending"; last_updated = n }))
        w
        x
    → Refreshed ticker s (
        or_fail 500
          (λ _. success (("status", "queued") ∷ ("ticker", ticker) ∷ []))
          (x.0, with_world s x.1))
status_go ticker s w (err e, v) n h k = inr (
  refl,
  inr (subst (λ t. Touches (normalize ticker) forced s.env_svc.db.now (stored s) tt t) (sym k.0) h),
)
status_go ticker s w (ok _, v) n h k = inl (
  refl,
  then-Touches (normalize ticker) forced (λ n r. record r { status = "pending"; last_updated = n })
      s.env_svc.db.now (stored s) (committed w) (committed v) h
      (subst
        (λ m.
          Touches (normalize ticker) (λ n r. record r { status = "pending"; last_updated = n }) m
            (committed w) tt (committed v))
        n k.0),
)

force_go :
    (ticker : String) (s : Server) (x : Result (Unit {0}) × World)
    → Ended (Touches (normalize ticker) forced) s.env_svc.db x
    → Refreshed ticker s (
        or_fail 500
          (λ _ s'.
            or_fail 500
              (λ _. success (("status", "queued") ∷ ("ticker", ticker) ∷ []))
              (on_db (update_watchitem_status ticker "pending") s'))
          (x.0, with_world s x.1))
unfolding on_db
force_go ticker s (err e, w) h = inr (refl, inl h.0)
force_go ticker s (ok _, w) h =
    status_go ticker s w (update_watchitem_status ticker "pending" w) h.2 h.0
      ((updates-Touches ticker "pending" true (pos 0)).0 w)

-- A refresh of one ticker, whatever SQLite answers. With status 200 the row of the trimmed upper-case
-- ticker, if there is one, is forced and pending as of now, and every other row is as before. With
-- status 500 nothing has changed, or the row has got its force flag alone: the flag and the status are
-- two transactions, and the first stays where the second fails.
pub refresh_one-Refreshed :
    (ticker : String) (s : Server) → Refreshed ticker s (refresh_one ticker s)
unfolding refresh_one on_db
refresh_one-Refreshed ticker s =
    force_go ticker s (set_watchitem_force_refresh ticker true s.env_svc.db)
      ((updates-Touches ticker "" true (pos 0)).1 s.env_svc.db)
