-- ===== src/Process/Stops.antt =====
-- How stop_job and change_state of Process.antt take a running job to the stopping state.
use startup.Base.{
  ℕ, ◌-◌, ◌+◌, ◌==◌, ltb, ◌&&◌, Bool, true, false, not, Option, none, some, is_some, List, [],
  if◌then◌else◌, ◌≡◌, refl, ap, ◌∙◌, arith, Bool-cases, inl, inr, subst,
}
use startup.Blocked.{Blocked}
use startup.Job.Emit.{Surroundings}
use startup.Job.Errors.{advance}
use startup.Job.{
  JobGoal, job_stop, job_start, JobState, job_running, job_stopping, ProcessType, process_main,
  JobClass, Job, World, Run, done, state_is, emit_output, goal_changed,
}
use startup.Job.State.{
  either, next_of, job_next_state, main_runs, set_goal, induct, job_change_goal, job_change_state,
}
use startup.Job.State.Loop.{Settles}
use startup.Job.State.Stop.{goal_of}
use startup.Job.State.Start.Late.{starting_in}
use startup.Job.State.Goal.{enters_stopping}
use startup.Process.{catch_runaway, change_state, stop_job}

pub catch_runaway_job :
    (now : ℕ) (class : JobClass) (job : Job)
    → (t : ℕ) × (c : ℕ) × ((catch_runaway now class job).0
        ≡ record job { respawn_time = t; respawn_count = c })
unfolding catch_runaway
catch_runaway_job now class job =
    elim (Bool-cases (not (class.respawn_limit == 0) && not (class.respawn_interval == 0))) [
      | inr f ↦ (job.respawn_time, job.respawn_count, rw f refl)
      | inl y ↦ elim (Bool-cases (ltb (now - job.respawn_time) class.respawn_interval)) [
        | inl in_time ↦ (job.respawn_time, job.respawn_count + 1, rw (y, in_time) refl)
        | inr late ↦ (now, 1, rw (y, late) refl)
      ]
    ]

pub Settles-none : (w : World) → w.job.blocking ≡ [] → Settles w
Settles-none w e = rw e (tt, (λ i. omega arith), refl)

module _ (s : Surroundings) (class : JobClass) (self : ℕ) where
  -- The call returns with the job blocked in the stopping state, without a main process.
  abbrev pub Ended : Run World → JobGoal → Bool → Type 0
  Ended r goal failed =
      (w' : World) × (r ≡ done w')
      × (w'.job.state ≡ job_stopping)
      × (w'.job.goal ≡ goal)
      × (is_some w'.job.blocker ≡ true)
      × (w'.job.pid process_main ≡ 0)
      × (w'.job.failed ≡ failed)

  pub Ended-of_job :
      (r : Run World) (w w' : World) (again : Bool) (c : ℕ)
      → r ≡ done w'
      → w'.job ≡ record (w.job) { state = job_stopping; goal = goal_of again; blocker = some c }
      → w.job.pid process_main ≡ 0
      → Ended r (goal_of again) w.job.failed
  Ended-of_job r w w' again c e j gone = (
    w',
    e,
    ap {B = JobState} (λ (x : Job). x.state) j,
    ap {B = JobGoal} (λ (x : Job). x.goal) j,
    ap {B = Bool} (λ (x : Job). is_some x.blocker) j,
    ap {B = ℕ} (λ (x : Job). x.pid process_main) j ∙ gone,
    ap {B = Bool} (λ (x : Job). x.failed) j,
  )

  -- A blocked job does not change its state.
  blocked_stays :
      (w : World) (c : ℕ)
      → w.job.state ≡ job_stopping
      → w.job.goal ≡ job_stop
      → w.job.blocker ≡ some c
      → change_state s class self true w ≡ done w
  unfolding change_state advance job_next_state next_of either job_change_state
  blocked_stays w c st g b = simp (st, g, b)

  stop_done :
      (w : World) (c : ℕ)
      → w.job.state ≡ job_stopping
      → w.job.goal ≡ job_stop
      → w.job.blocker ≡ some c
      → (if state_is w.job.state job_running then done w else change_state s class self true w)
        ≡ done w
  stop_done w c st g b =
      let r : state_is w.job.state job_running ≡ false = rw st refl in
      rw r (blocked_stays w c st g b)

  no_main : (w : World) → w.job.pid process_main ≡ 0 → main_runs class w.job ≡ false
  no_main w gone = ground (arith, gone)

  pub stops_running :
      (w : World)
      → w.job.pid process_main ≡ 0
      → Settles w
      → Ended (stop_job s class self true true (starting_in job_running w)) job_stop w.job.failed
  unfolding stop_job job_change_goal induct set_goal job_next_state next_of either
  stops_running w gone h =
      let begun = emit_output (goal_changed job_stop) w in
      let (w', e, j, f) = enters_stopping s class self false 18 begun job_running refl refl h in
      let st = ap {B = JobState} (λ (x : Job). x.state) j in
      let g = ap {B = JobGoal} (λ (x : Job). x.goal) j in
      let b = ap {B = Option ℕ} (λ (x : Job). x.blocker) j in
      Ended-of_job _ w w' false w.events.fresh
        (rw (no_main w gone, e) (stop_done w' w.events.fresh st g b)) j gone

  pub is_starting_in :
      (w : World)
      → w.job.state ≡ job_running
      → w.job.goal ≡ job_start
      → w.job.blocker ≡ none
      → starting_in job_running w ≡ w
  is_starting_in w st g b = rw (st, g, b) refl

  pub stops_failed :
      (w w₁ : World) (process : Option ProcessType) (status : ℕ)
      → w.job.pid process_main ≡ 0
      → w₁.job ≡ record ((starting_in job_running w).job) {
        failed = true;
        failed_process = process;
        exit_status = some status;
        blocking = [];
      }
      → Ended (stop_job s class self true true w₁) job_stop true
  stops_failed w w₁ process status gone j =
      let e =
        is_starting_in w₁ (ap {B = JobState} (λ (x : Job). x.state) j)
          (ap {B = JobGoal} (λ (x : Job). x.goal) j)
          (ap {B = Option ℕ} (λ (x : Job). x.blocker) j) in
      let f : w₁.job.failed ≡ true = ap {B = Bool} (λ (x : Job). x.failed) j in
      subst (Ended (stop_job s class self true true w₁) job_stop) f (
        subst (λ v. Ended (stop_job s class self true true v) job_stop w₁.job.failed) e
          (stops_running w₁ (ap {B = ℕ} (λ (x : Job). x.pid process_main) j ∙ gone)
            (Settles-none w₁ (ap {B = List Blocked} (λ (x : Job). x.blocking) j))))

  pub restarts_running :
      (w : World)
      → w.job.pid process_main ≡ 0
      → Settles w
      → Ended (change_state s class self true (starting_in job_running w)) job_start w.job.failed
  unfolding change_state advance job_next_state next_of either
  restarts_running w gone h =
      let (w', e, j, f) = enters_stopping s class self true 18 w job_running refl refl h in
      Ended-of_job _ w w' true w.events.fresh e j gone
