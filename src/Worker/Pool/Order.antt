-- ===== src/Worker/Pool/Order.antt =====
-- Jobs leave the pool's channel in the order in which the dispatcher sent them, none lost or doubled.
use fin_base.Base.{◌≡◌, List, [], ◌∷◌, ◌++◌, Option, none, some}
use fin_base.Worker.Job.{Job}
use fin_base.Worker.Pool.{WorkerPool, Event, sent, quiet, taken, ended}

abbrev pub jobs_sent : List Event → List Job
jobs_sent [] = []
jobs_sent (sent job ∷ es) = job ∷ jobs_sent es
jobs_sent (quiet ∷ es) = jobs_sent es
jobs_sent (taken id job ∷ es) = jobs_sent es
jobs_sent (ended id ∷ es) = jobs_sent es

abbrev pub jobs_taken : List Event → List Job
jobs_taken [] = []
jobs_taken (taken id job ∷ es) = job ∷ jobs_taken es
jobs_taken (sent job ∷ es) = jobs_taken es
jobs_taken (quiet ∷ es) = jobs_taken es
jobs_taken (ended id ∷ es) = jobs_taken es

-- What a tick sends stands at the end of the channel.
Sends : WorkerPool → WorkerPool × Option Job → Type 0
Sends wp (wp', none) = wp'.job_chan ≡ wp.job_chan
Sends wp (wp', some job) = wp'.job_chan ≡ wp.job_chan ++ job ∷ []
