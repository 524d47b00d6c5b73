-- ===== src/Storage/Jobs.antt =====
-- The queue of card calls between the tasks and the worker, `call` and `worker_main` of
-- src/storage.rs. A caller is a number that names one call. What an operation does on the card is left
-- to the callers; a call from the worker itself is `call_inline`. The mount, on a thread of its own,
-- is over before the first step.
pub mod Order
use rust_gps_ntp.Common.{
  ℕ, Bool, true, false, Option, none, some, List, [], ◌∷◌, ◌++◌, ◌&&◌, if◌then◌else◌,
}
use rust_gps_ntp.Storage.{
  StorageStatus, SdState, sd_boot, arm, disarm, refresh, remember_usage, request_usage_refresh,
  take_usage,
}

pub record SdJob : Type 0 where
  pub label : ℕ
  pub caller : ℕ

-- What the worker is doing: waiting, inside the operation of a job, past the sending of its result
-- and before the drop of the deadline, or rereading the space.
pub data Worker : Type 0 where
  waiting : Worker
  inside : SdJob → Worker
  sent : Worker
  rereading : Worker

-- The channel is there once the guard has started. `answered` are the callers that have their
-- results, in order; `restarting` says that `restart_stuck_sd` has been called.
pub record SdJobs : Type 0 where
  pub statics : SdState
  pub channel : Bool
  pub worker_alive : Bool
  pub queue : List SdJob
  pub worker : Worker
  pub answered : List ℕ
  pub restarting : Bool

-- The worker after the mount, which has found the card ready or not, and its space.
unfoldable pub started_jobs : Bool → StorageStatus → SdJobs
unfolding remember_usage
started_jobs ready status = record {
  statics = remember_usage status (record sd_boot { card_ready = ready });
  channel = true;
  worker_alive = true;
  queue = [];
  worker = waiting;
  answered = [];
  restarting = false;
}

-- A call from another task: it waits for its result, unless there is no worker to send the job to.
unfoldable pub call : SdJob → SdJobs → SdJobs
call job s =
    if s.channel && s.worker_alive
    then record s { queue = s.queue ++ (job ∷ []) }
    else record s { restarting = true }

-- The worker takes the first job and arms the deadline, at a time.
abbrev pub taken : ℕ → List SdJob → SdJobs → SdJobs
unfolding arm
taken now [] s = s
taken now (job ∷ rest) s = record s {
  statics = arm job.label now s.statics;
  queue = rest;
  worker = inside job;
}

abbrev pub takes_in : ℕ → Worker → SdJobs → SdJobs
unfolding arm
takes_in now waiting s = taken now s.queue s
takes_in now (inside job) s = s
takes_in now sent s = s
takes_in now rereading s = s

unfoldable pub worker_takes : ℕ → SdJobs → SdJobs
unfolding arm
worker_takes now s = takes_in now s.worker s

-- The operation returns, and its result is sent.
abbrev pub sends_in : Worker → SdJobs → SdJobs
sends_in waiting s = s
sends_in (inside job) s = record s { worker = sent; answered = s.answered ++ (job.caller ∷ []) }
sends_in sent s = s
sends_in rereading s = s

unfoldable pub worker_sends : SdJobs → SdJobs
worker_sends s = sends_in s.worker s

-- The deadline is dropped.
abbrev pub clears_in : Worker → SdJobs → SdJobs
unfolding disarm
clears_in waiting s = s
clears_in (inside job) s = s
clears_in sent s = record s { statics = disarm s.statics; worker = waiting }
clears_in rereading s = s

unfoldable pub worker_clears : SdJobs → SdJobs
unfolding disarm
worker_clears s = clears_in s.worker s

-- The operation panics: the worker ends, and the caller finds its channel closed.
abbrev pub dies_in : Worker → SdJobs → SdJobs
unfolding disarm
dies_in waiting s = s
dies_in (inside job) s = record s {
  statics = disarm s.statics;
  worker_alive = false;
  worker = waiting;
  restarting = true;
}
dies_in sent s = s
dies_in rereading s = s

unfoldable pub worker_dies : SdJobs → SdJobs
unfolding disarm
worker_dies s = dies_in s.worker s

-- The worker looks for a request to reread the space, which it takes back, and begins if the card is
-- ready; then it stores what it has read. The two steps are `reread_usage` with the time between.
abbrev pub begins_in : ℕ → Worker → SdJobs → SdJobs
unfolding arm
begins_in now waiting s =
    let cleared : SdState = record s.statics { usage_refresh = false } in
    if s.statics.usage_refresh && s.statics.card_ready
    then record s { statics = arm 0 now cleared; worker = rereading }
    else record s { statics = cleared }
begins_in now (inside job) s = s
begins_in now sent s = s
begins_in now rereading s = s

unfoldable pub worker_rereads : ℕ → SdJobs → SdJobs
unfolding arm
worker_rereads now s = begins_in now s.worker s

abbrev pub stores_in : Bool → Option (ℕ × ℕ) → Worker → SdJobs → SdJobs
unfolding disarm refresh remember_usage
stores_in exists usage waiting s = s
stores_in exists usage (inside job) s = s
stores_in exists usage sent s = s
stores_in exists usage rereading s =
    let status = refresh exists usage s.statics.last_usage in
    record s {
      statics = record (remember_usage status (disarm s.statics)) { pending_usage = some status };
      worker = waiting;
    }

unfoldable pub worker_stores : Bool → Option (ℕ × ℕ) → SdJobs → SdJobs
unfolding disarm refresh remember_usage
worker_stores exists usage s = stores_in exists usage s.worker s

-- One step of any task.
pub data Step (s : SdJobs) : SdJobs → Type 0 where
  calls : (job : SdJob) → Step s (call job s)
  takes : (now : ℕ) → Step s (worker_takes now s)
  sends : Step s (worker_sends s)
  clears : Step s (worker_clears s)
  dies : Step s (worker_dies s)
  rereads : (now : ℕ) → Step s (worker_rereads now s)
  stores : (exists : Bool) (usage : Option (ℕ × ℕ)) → Step s (worker_stores exists usage s)
  asks_usage : Step s (record s { statics = request_usage_refresh s.statics })
  gets_usage : Step s (record s { statics = (take_usage s.statics).1 })

-- The callers of a step.
abbrev pub callers_of : {s t : SdJobs} → Step s t → List ℕ
callers_of (calls job) = job.caller ∷ []
callers_of (takes now) = []
callers_of sends = []
callers_of clears = []
callers_of dies = []
callers_of (rereads now) = []
callers_of (stores exists usage) = []
callers_of asks_usage = []
callers_of gets_usage = []

-- The states that can be reached, with the callers in the order of their calls.
pub data Reach : List ℕ → SdJobs → Type 0 where
  start : (ready : Bool) (status : StorageStatus) → Reach [] (started_jobs ready status)
  next : {cs : List ℕ} {s t : SdJobs} → Reach cs s → (st : Step s t) → Reach (cs ++ callers_of st) t
