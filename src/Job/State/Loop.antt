-- ===== src/Job/State/Loop.antt =====
-- The loop of job_change_state, turn by turn, and the release of what waits for the job.
use startup.Base.{
  ℕ, suc, ◌+◌, Bool, true, false, none, [], ◌∷◌, ◌++◌, ◌&&◌, if◌then◌else◌, ◌≡◌, refl, ap, arith,
  Str, ==_iff, ==_refl,
}
use startup.Event.{event_pending, store_event, event_new}
use startup.Job.Emit.{Surroundings, job_emit_event, block_job, emitted, job_emit_event_env}
use startup.Job.Finished.{traced}
use startup.Job.Finished.Answers.{AllWait, IsCovered, held}
use startup.Job.{
  JobGoal, JobState, ProcessType, process_main, JobClass, Job, World, done, emit_output,
  state_changed, state_num, state_is, process_started, process_is, trace_new, trace_none,
}
use startup.Job.State.{enter, go_after, job_change_state, Then}

-- Nothing waits for the job but messages, and events that count enough blockers; the address for
-- the next event is not one of theirs.
abbrev pub Settles : World → Type 0
Settles w =
    AllWait w.job.blocking
    × IsCovered w.job.blocking w.events.store
    × (held w.job.blocking w.events.fresh ≡ 0)

abbrev announced : Surroundings → JobClass → ℕ → World → Str → Bool → Bool → World
announced s class self w name block stop = record w {
  events = block_job s class block self w.events.fresh (record {
    store =
        store_event w.events.fresh
          (record {
            name = name;
            env = job_emit_event_env s class w.job stop;
            fd = none;
            progress = event_pending;
            failed = false;
            blockers = 0;
            blocking = [];
          })
          w.events.store;
    events = w.events.events ++ w.events.fresh ∷ [];
    fresh = w.events.fresh + 1;
  });
}

-- A job's event is new: who waits for the job can still be released.
pub job_emit_event-Settles :
    (s : Surroundings) (class : JobClass) (self : ℕ) (w : World) (c : ℕ) (name : Str)
    (block stop : Bool)
    → emitted s class w.job.state ≡ done (c ∷ name, block, stop)
    → Settles w
    → (w' : World) × (job_emit_event s class self w ≡ done (w.events.fresh, w'))
      × (w'.job ≡ w.job)
      × (w'.freed ≡ w.freed)
      × IsCovered w.job.blocking w'.events.store
unfolding job_emit_event event_new block_job
job_emit_event-Settles s class self w c name true stop e (h, cover, fresh) = (
  announced s class self w (c ∷ name) true stop,
  rw e refl,
  refl,
  refl,
  λ i. ground (arith, cover i, fresh, ==_iff w.events.fresh i),
)
job_emit_event-Settles s class self w c name false stop e (h, cover, fresh) = (
  announced s class self w (c ∷ name) false stop,
  rw e refl,
  refl,
  refl,
  λ i. ground (arith, cover i, fresh, ==_iff w.events.fresh i),
)

pub job_state_of : (w w' : World) → w.job ≡ w'.job → w.job.state ≡ w'.job.state
job_state_of w w' e = ap {B = JobState} (λ (j : Job). j.state) e

pub job_goal_of : (w w' : World) → w.job ≡ w'.job → w.job.goal ≡ w'.job.goal
job_goal_of w w' e = ap {B = JobGoal} (λ (j : Job). j.goal) e

pub finished_running :
    (w w' : World)
    → w'.job ≡ record (w.job) { blocking = [] }
    → (w'.job.state ≡ w.job.state) × (w'.job.goal ≡ w.job.goal)
finished_running w w' e =
    (ap {B = JobState} (λ (j : Job). j.state) e, ap {B = JobGoal} (λ (j : Job). j.goal) e)

module _ (s : Surroundings) (class : JobClass) (self : ℕ) where
  pub stays :
      (n : ℕ) (w : World) (st : JobState)
      → w.job.state ≡ st
      → job_change_state s class self (suc n) st w ≡ done w
  unfolding job_change_state
  stays n w st e = ground (arith, e, ==_refl (state_num st))

  -- One turn of the loop.
  pub turn :
      (n : ℕ) (target : JobState) (w : World) (r : Then)
      → state_is w.job.state target ≡ false
      → w.job.blocker ≡ none
      → enter s class self target w.job.state (
          emit_output (state_changed target) (record w { job = record (w.job) { state = target } }))
        ≡ done r
      → job_change_state s class self (suc n) target w
        ≡ go_after s class self (job_change_state s class self n) r
  unfolding job_change_state go_after
  turn n target w r ne nb e = rw (ne, e, nb) refl

  -- The world in which a process was started.
  abbrev pub process_of : ProcessType → World → World
  process_of p w = emit_output (process_started p) (record w {
    job = record (w.job) {
      pid = λ q. if process_is p q then s.spawn p else w.job.pid q;
      trace_forks = 0;
      trace_state =
          if process_is p process_main && traced class.expect then trace_new else trace_none;
    };
  })
