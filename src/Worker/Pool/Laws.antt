-- ===== src/Worker/Pool/Laws.antt =====
-- Whatever the order of the pool's steps: the channel is bounded and first-in-first-out, and no more
-- jobs are active than there are workers.
use fin_base.Base.{ℕ, ◌≤◌, ◌≡◌, false, List, [], ◌∷◌, length, any}
use fin_base.Worker.Pool.{ActiveJob, WorkerPool, is_worker}

-- No two active jobs are of one worker.
abbrev pub IsUnique : List ActiveJob → Type 0
IsUnique [] = Unit
IsUnique (a ∷ xs) = (any (is_worker a.worker_id) xs ≡ false) × IsUnique xs

-- Every active job is of a worker from 1 to `n`.
abbrev pub InRange : ℕ → List ActiveJob → Type 0
InRange n [] = Unit
InRange n (a ∷ xs) = (1 ≤ a.worker_id) × (a.worker_id ≤ n) × InRange n xs

unfoldable pub IsValid : WorkerPool → Type 0
IsValid wp =
    (length wp.job_chan ≤ 100) × IsUnique wp.active_jobs × InRange wp.num_workers wp.active_jobs
