-- ===== src/Worker/Pool.antt =====
-- The pool of worker/worker.go: the dispatcher and the workers as steps that may come in any order.
-- The channel of jobs is a queue of at most 100; a tick of the dispatcher, a worker's taking of a job
-- and the end of that job are one step each. What the job does in between is `process_job`.
pub mod Laws
pub mod Order
use fin_base.Base.{
  ℕ, suc, zero, ◌≡◌, ◌≤◌, String, Bool, true, false, not, List, [], ◌∷◌, ◌++◌, Option, none, some,
  if◌then◌else◌, ltb, ◌==◌, length, keep, any, Result, ok, err,
}
use fin_base.Base.Int.{ℤ}
use fin_base.Db.Models.{Watchitem}
use fin_base.Db.Tx.{World, ignore}
use fin_base.Db.Watchlist.{fetch_and_queue_next_watchitem, update_watchitem_status}
use fin_base.Worker.Job.{Job}

pub record ActiveJob : Type 0 where
  pub worker_id : ℕ
  pub ticker : String
  pub started_at : ℕ

pub record WorkerPoolStatus : Type 0 where
  pub total_workers : ℕ
  pub active_workers : ℕ
  pub queue_depth : ℕ
  pub current_jobs : List ActiveJob

pub record WorkerPool : Type 0 where
  pub db : World
  pub job_chan : List Job
  pub num_workers : ℕ
  pub active_jobs : List ActiveJob

-- `NewWorkerPool`; `cpus` is `runtime.NumCPU()`.
unfoldable pub new_worker_pool : World → ℕ → ℕ → WorkerPool
new_worker_pool db cpus num_workers = record {
  db = db;
  job_chan = [];
  num_workers = if ltb 0 num_workers then num_workers else (if ltb 0 cpus then cpus else 4);
  active_jobs = [];
}

-- `GetStatus`
unfoldable pub get_status : WorkerPool → WorkerPoolStatus
get_status wp = record {
  total_workers = wp.num_workers;
  active_workers = length wp.active_jobs;
  queue_depth = length wp.job_chan;
  current_jobs = wp.active_jobs;
}

abbrev pub job_of : Watchitem → Job
job_of item = record {
  ticker = item.ticker;
  priority = item.priority;
  force_full_refresh = item.force_full_refresh;
}

-- The pool and the job that was sent to the channel: a full channel puts the item's status back.
unfoldable pub send : Watchitem → WorkerPool → WorkerPool × Option Job
send item wp =
    if ltb (length wp.job_chan) 100
    then (record wp { job_chan = wp.job_chan ++ job_of item ∷ [] }, some (job_of item))
    else (
      record wp { db = (ignore (update_watchitem_status item.ticker item.status) wp.db).1 },
      none,
    )

unfoldable pub dispatched : WorkerPool → Result (Option Watchitem) × World → WorkerPool × Option Job
unfolding send
dispatched wp (ok (some item), w) = send item (record wp { db = w })
dispatched wp (ok none, w) = (record wp { db = w }, none)
dispatched wp (err e, w) = (record wp { db = w }, none)

-- A tick of `dispatcher`.
unfoldable pub dispatch : WorkerPool → WorkerPool × Option Job
unfolding fetch_and_queue_next_watchitem dispatched update_watchitem_status
dispatch wp = dispatched wp (fetch_and_queue_next_watchitem wp.db)

abbrev pub is_worker : ℕ → ActiveJob → Bool
is_worker id a = a.worker_id == id

-- `worker` takes a job at time `now`.
unfoldable pub start : ℕ → ℕ → Job → List Job → WorkerPool → WorkerPool
start id now job rest wp = record wp {
  job_chan = rest;
  active_jobs = record { worker_id = id; ticker = job.ticker; started_at = now } ∷ wp.active_jobs;
}

-- `delete(wp.activeJobs, id)`
unfoldable pub finish : ℕ → WorkerPool → WorkerPool
finish id wp = record wp { active_jobs = keep (λ a. not (is_worker id a)) wp.active_jobs }

-- What happens to a pool.
pub data Event : Type 0 where
  sent : Job → Event
  quiet : Event
  taken : ℕ → Job → Event
  ended : ℕ → Event

abbrev pub event_of : Option Job → Event
event_of none = quiet
event_of (some job) = sent job

pub data Step : WorkerPool → Event → WorkerPool → Type 0 where
  tick : (wp : WorkerPool) → Step wp (event_of (dispatch wp).1) (dispatch wp).0
  -- A worker takes a job while it has none.
  take :
      (wp : WorkerPool) (id now : ℕ) (job : Job) (rest : List Job)
      → wp.job_chan ≡ job ∷ rest
      → 1 ≤ id
      → id ≤ wp.num_workers
      → any (is_worker id) wp.active_jobs ≡ false
      → Step wp (taken id job) (start id now job rest wp)
  stop :
      (wp : WorkerPool) (id : ℕ)
      → any (is_worker id) wp.active_jobs ≡ true
      → Step wp (ended id) (finish id wp)
  -- The database changes by the steps of others.
  other : (wp : WorkerPool) (w : World) → Step wp quiet (record wp { db = w })

pub data Steps : WorkerPool → List Event → WorkerPool → Type 0 where
  none_left : (wp : WorkerPool) → Steps wp [] wp
  then_step :
      {wp wp' wp'' : WorkerPool} {e : Event} {es : List Event}
      → Step wp e wp'
      → Steps wp' es wp''
      → Steps wp (e ∷ es) wp''
