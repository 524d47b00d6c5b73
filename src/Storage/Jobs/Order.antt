-- ===== src/Storage/Jobs/Order.antt =====
-- Which calls of the card are answered, in which order, and when the deadline is open,
-- src/storage.rs.
use rust_gps_ntp.Common.{
  Option, Bool-cases, inl, inr, ℕ, ◌≡◌, ◌↔◌, ◌&&◌, refl, sym, ap, ◌∙◌, Bool, true, false, List, [],
  ◌∷◌, ◌++◌, append_assoc, append-nil, map, if◌then◌else◌, arith,
}
use rust_gps_ntp.Storage.{
  StorageStatus, arm, disarm, refresh, remember_usage, request_usage_refresh, take_usage,
}
use rust_gps_ntp.Storage.Jobs.{
  SdJob, Worker, waiting, inside, sent, SdJobs, started_jobs, call, taken, takes_in, sends_in,
  begins_in, stores_in, clears_in, dies_in, worker_rereads, worker_stores, rereads, stores,
  asks_usage, gets_usage, rereading, worker_takes, worker_sends, worker_clears, worker_dies, Step,
  calls, takes, sends, clears, dies, callers_of, Reach, start, next,
}

-- The callers that wait.
abbrev pub waiting_callers : Worker → List SdJob → List ℕ
waiting_callers (inside job) queue = job.caller ∷ map (λ (j : SdJob). j.caller) queue
waiting_callers waiting queue = map (λ (j : SdJob). j.caller) queue
waiting_callers sent queue = map (λ (j : SdJob). j.caller) queue
waiting_callers rereading queue = map (λ (j : SdJob). j.caller) queue

-- Whether the deadline is open.
abbrev pub is_busy : Worker → Bool
is_busy waiting = false
is_busy (inside job) = true
is_busy sent = true
is_busy rereading = true

-- Unless the chip is being restarted, every call has been answered or waits, in order, and the
-- deadline is open, once, while the worker is at a job or rereads the space.
pub record InOrder (cs : List ℕ) (s : SdJobs) : Type 0 where
  pub alive : (s.channel ≡ true) × (s.worker_alive ≡ true)
  pub fifo : cs ≡ s.answered ++ waiting_callers s.worker s.queue
  pub deadline : s.statics.call_depth ≡ (if is_busy s.worker then 1 else 0)
  pub armed : (s.statics.call_started_us ≡ 0) ↔ (is_busy s.worker ≡ false)

map-snoc :
    (queue : List SdJob) (job : SdJob)
    → map (λ (j : SdJob). j.caller) (queue ++ (job ∷ []))
      ≡ map (λ (j : SdJob). j.caller) queue ++ (job.caller ∷ [])
map-snoc [] job = refl
map-snoc (j ∷ queue) job = ap (λ (t : List ℕ). j.caller ∷ t) (map-snoc queue job)

waiting_callers-snoc :
    (w : Worker) (queue : List SdJob) (job : SdJob)
    → waiting_callers w (queue ++ (job ∷ [])) ≡ waiting_callers w queue ++ (job.caller ∷ [])
waiting_callers-snoc waiting queue job = map-snoc queue job
waiting_callers-snoc (inside j) queue job = ap (λ (t : List ℕ). j.caller ∷ t) (map-snoc queue job)
waiting_callers-snoc sent queue job = map-snoc queue job
waiting_callers-snoc rereading queue job = map-snoc queue job

module _ (cs : List ℕ) (s : SdJobs) (h : InOrder cs s) where
  call-InOrder : (job : SdJob) → InOrder (cs ++ (job.caller ∷ [])) (call job s)
  unfolding call
  call-InOrder job =
      let ok : (s.channel && s.worker_alive) ≡ true = ground (arith, h.alive) in
      rw ok (record {
        alive = h.alive;
        fifo =
            ap (λ t. t ++ (job.caller ∷ [])) h.fifo
            ∙ append_assoc s.answered (waiting_callers s.worker s.queue) (job.caller ∷ [])
            ∙ ap (λ t. s.answered ++ t) (sym (waiting_callers-snoc s.worker s.queue job));
        deadline = h.deadline;
        armed = h.armed;
      })

  taken-InOrder :
      (now : ℕ) (queue : List SdJob)
      → s.worker ≡ waiting
      → s.queue ≡ queue
      → InOrder cs (taken now queue s)
  unfolding arm
  taken-InOrder now [] w q = h
  taken-InOrder now (job ∷ rest) w q =
      let busy = ap is_busy w in
      record {
        alive = h.alive;
        fifo =
            h.fifo
            ∙ ap (λ v. s.answered ++ waiting_callers v s.queue) w
            ∙ ap (λ v. s.answered ++ waiting_callers waiting v) q;
        deadline = ground (arith, h.deadline, busy);
        armed = ground (arith, h.deadline, busy);
      }

  sends_in-InOrder : (w : Worker) → s.worker ≡ w → InOrder cs (sends_in w s)
  sends_in-InOrder waiting e = h
  sends_in-InOrder sent e = h
  sends_in-InOrder rereading e = h
  sends_in-InOrder (inside job) e =
      let busy = ap is_busy e in
      let rest = map (λ (j : SdJob). j.caller) s.queue in
      record {
        alive = h.alive;
        fifo =
            h.fifo
            ∙ ap (λ v. s.answered ++ waiting_callers v s.queue) e
            ∙ sym (append_assoc s.answered (job.caller ∷ []) rest);
        deadline = ground (arith, h.deadline, busy);
        armed = ground (arith, h.armed, busy);
      }

  clears_in-InOrder : (w : Worker) → s.worker ≡ w → InOrder cs (clears_in w s)
  unfolding disarm
  clears_in-InOrder waiting e = h
  clears_in-InOrder (inside job) e = h
  clears_in-InOrder rereading e = h
  clears_in-InOrder sent e =
      let busy = ap is_busy e in
      record {
        alive = h.alive;
        fifo = h.fifo ∙ ap (λ v. s.answered ++ waiting_callers v s.queue) e;
        deadline = ground (arith, h.deadline, busy);
        armed = ground (arith, h.deadline, busy);
      }

module _ (cs : List ℕ) (s : SdJobs) (h : InOrder cs s) where
  takes_in-InOrder : (now : ℕ) (w : Worker) → s.worker ≡ w → InOrder cs (takes_in now w s)
  unfolding arm
  takes_in-InOrder now waiting e = taken-InOrder cs s h now s.queue e refl
  takes_in-InOrder now (inside job) e = h
  takes_in-InOrder now sent e = h
  takes_in-InOrder now rereading e = h

  dies_in-InOrder : (w : Worker) → (dies_in w s).restarting ≡ false → InOrder cs (dies_in w s)
  unfolding disarm
  dies_in-InOrder waiting e = h
  dies_in-InOrder (inside job) e = cc
  dies_in-InOrder sent e = h
  dies_in-InOrder rereading e = h

  begins_in-InOrder : (now : ℕ) (w : Worker) → s.worker ≡ w → InOrder cs (begins_in now w s)
  unfolding arm
  begins_in-InOrder now (inside job) e = h
  begins_in-InOrder now sent e = h
  begins_in-InOrder now rereading e = h
  begins_in-InOrder now waiting e =
      let busy = ap is_busy e in
      let order = h.fifo ∙ ap (λ v. s.answered ++ waiting_callers v s.queue) e in
      elim (Bool-cases (s.statics.usage_refresh && s.statics.card_ready)) [
        | inl go ↦ rw go (record {
          alive = h.alive;
          fifo = order;
          deadline = ground (arith, h.deadline, busy);
          armed = ground (arith, h.deadline, busy);
        })
        | inr rest ↦
            rw rest
              (record { alive = h.alive; fifo = h.fifo; deadline = h.deadline; armed = h.armed })
      ]

  stores_in-InOrder :
      (exists : Bool) (usage : Option (ℕ × ℕ)) (w : Worker)
      → s.worker ≡ w
      → InOrder cs (stores_in exists usage w s)
  unfolding disarm refresh remember_usage
  stores_in-InOrder exists usage waiting e = h
  stores_in-InOrder exists usage (inside job) e = h
  stores_in-InOrder exists usage sent e = h
  stores_in-InOrder exists usage rereading e =
      let busy = ap is_busy e in
      record {
        alive = h.alive;
        fifo = h.fifo ∙ ap (λ v. s.answered ++ waiting_callers v s.queue) e;
        deadline = ground (arith, h.deadline, busy);
        armed = ground (arith, h.deadline, busy);
      }

  Step-InOrder :
      {t : SdJobs} (st : Step s t) → t.restarting ≡ false → InOrder (cs ++ callers_of st) t
  unfolding worker_takes worker_sends worker_clears worker_dies worker_rereads worker_stores
      request_usage_refresh take_usage
  Step-InOrder (calls job) live = call-InOrder cs s h job
  Step-InOrder (takes now) live = rw (append-nil cs) (takes_in-InOrder now s.worker refl)
  Step-InOrder sends live = rw (append-nil cs) (sends_in-InOrder cs s h s.worker refl)
  Step-InOrder clears live = rw (append-nil cs) (clears_in-InOrder cs s h s.worker refl)
  Step-InOrder dies live = rw (append-nil cs) (dies_in-InOrder s.worker live)
  Step-InOrder (rereads now) live = rw (append-nil cs) (begins_in-InOrder now s.worker refl)
  Step-InOrder (stores exists usage) live =
      rw (append-nil cs) (stores_in-InOrder exists usage s.worker refl)
  Step-InOrder asks_usage live =
      rw (append-nil cs)
        (record { alive = h.alive; fifo = h.fifo; deadline = h.deadline; armed = h.armed })
  Step-InOrder gets_usage live =
      rw (append-nil cs)
        (record { alive = h.alive; fifo = h.fifo; deadline = h.deadline; armed = h.armed })

-- Only a restart sets the flag, and nothing takes it back.
live_before : {s t : SdJobs} → Step s t → t.restarting ≡ false → s.restarting ≡ false
unfolding call worker_takes worker_sends worker_clears worker_dies worker_rereads worker_stores
live_before {s} (calls job) live = ground (arith, live)
live_before {s} (takes now) live = ground (arith, live)
live_before {s} sends live = ground (arith, live)
live_before {s} clears live = ground (arith, live)
live_before {s} dies live = ground (arith, live)
live_before {s} (rereads now) live = ground (arith, live)
live_before {s} (stores exists usage) live = ground (arith, live)
live_before {s} asks_usage live = live
live_before {s} gets_usage live = live

start-InOrder : (ready : Bool) (status : StorageStatus) → InOrder [] (started_jobs ready status)
unfolding started_jobs remember_usage
start-InOrder ready status = ground arith

-- Whether or not the mount has found the card ready, and however the tasks and the worker take their
-- steps, until the chip is restarted the calls are
-- answered in the order in which they were made, each once: those that are answered and those that
-- wait are all that were made. The deadline is open while the worker is at a job or rereads the space,
-- and only then.
pub Reach-InOrder : {cs : List ℕ} {s : SdJobs} → Reach cs s → s.restarting ≡ false → InOrder cs s
Reach-InOrder (start ready status) live = start-InOrder ready status
Reach-InOrder (next {cs = cs} {s = s} r st) live =
    Step-InOrder cs s (Reach-InOrder r (live_before st live)) st live
