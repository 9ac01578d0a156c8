-- ===== src/Env/Loading.antt =====
-- `LoadAndApplyKeys` reads the table of keys and changes nothing of it.
use fin_base.Base.{◌≡◌}
use fin_base.Db.Tx.{Result, ok, err, World, committed}
use fin_base.Db.Keys.{KeyMap, get_api_keys_map}
use fin_base.Db.Quiet.{get_api_keys_map-IsQuiet}
use fin_base.Env.{Environment, EnvService, loaded, load_and_apply_keys}

loaded-committed :
    (getenv : Environment) (s : EnvService) (x : Result KeyMap × World)
    → committed x.1 ≡ committed s.db
    → committed (loaded getenv s x).1.db ≡ committed s.db
unfolding loaded
loaded-committed getenv s (ok keys, w) h = h
loaded-committed getenv s (err e, w) h = h

pub load_and_apply_keys-committed :
    (getenv : Environment) (s : EnvService)
    → committed (load_and_apply_keys getenv s).1.db ≡ committed s.db
unfolding load_and_apply_keys
load_and_apply_keys-committed getenv s =
    loaded-committed getenv s (get_api_keys_map s.db) (get_api_keys_map-IsQuiet s.db)
