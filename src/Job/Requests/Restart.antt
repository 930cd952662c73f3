-- ===== src/Job/Requests/Restart.antt =====
-- What job_restart of init/job.c does to a job whose class has a pre-stop process.
use startup.Base.{
  ℕ, Bool, true, false, none, List, [], ◌∷◌, ◌++◌, append_assoc, ltb, if◌then◌else◌, ◌≡◌, refl, ap,
  ◌∙◌, arith, subst, Option,
}
use startup.Blocked.{BlockedType, Blocked, blocked_new, type_instance_restart_method}
use startup.Job.Emit.{Surroundings}
use startup.Job.Finished.{job_process_start}
use startup.Job.Finished.Answers.{waits, AllWait, IsCovered, one_held, answers, job_finished_lem}
use startup.Job.{
  JobGoal, job_start, job_stop, JobState, job_running, job_pre_stopping, job_pre_stop, ProcessType,
  process_main, process_pre_stop, JobClass, Job, World, done, goal_is, emit_output, Output,
  process_started, method_reply, goal_changed, state_changed,
}
use startup.Job.State.{
  either, either_respawn, next_of, job_next_state, main_runs, start_process, wait_for, enter,
  go_after, go_on, set_goal, induct, job_change_goal,
}
use startup.Job.State.Loop.{Settles, stays, turn, process_of}
use startup.Job.State.Stop.{stopping_in}
use startup.Job.State.Start.Late.{starting_in}
use startup.Job.Requests.{accepted, add_blocked, reply_now, release, request_restart}

-- What waits for the job once it is released.
abbrev pub waiting_message : Bool → BlockedType → ℕ → List Blocked
waiting_message wait type message = if wait then blocked_new type message ∷ [] else []

add_blocked_job :
    (wait : Bool) (type : BlockedType) (message : ℕ) (w : World)
    → w.job.blocking ≡ []
    → (add_blocked wait type message w).job
      ≡ record (w.job) { blocking = waiting_message wait type message }
add_blocked_job true type message w e = rw e refl
add_blocked_job false type message w e =
    ap (λ (b : List Blocked). record (w.job) { blocking = b }) e

add_blocked_output :
    (wait : Bool) (type : BlockedType) (message : ℕ) (w : World)
    → (add_blocked wait type message w).output ≡ w.output
add_blocked_output true type message w = refl
add_blocked_output false type message w = refl

message_Settles :
    (wait : Bool) (type : BlockedType) (message : ℕ) (w : World)
    → waits type ≡ true
    → ((i : ℕ) → one_held type message i ≡ 0)
    → w.job.blocking ≡ []
    → Settles (add_blocked wait type message w)
unfolding blocked_new
message_Settles true type message w h z e =
    rw e ((h, tt), (λ i. omega (arith, z i)), omega (arith, z w.events.fresh))
message_Settles false type message w h z e = rw e (tt, (λ i. omega arith), refl)

-- What a release leaves.
pub release_lem :
    (wait : Bool) (type : BlockedType) (message : ℕ) (w : World)
    → waits type ≡ true
    → ((i : ℕ) → one_held type message i ≡ 0)
    → AllWait w.job.blocking
    → IsCovered w.job.blocking w.events.store
    → (w' : World) × (release wait type message w ≡ done w')
      × (w'.job ≡ record (w.job) { blocking = waiting_message wait type message })
      × (w'.output ≡ w.output ++ answers false w.job.blocking)
      × Settles w'
unfolding release
release_lem wait type message w y z h cover =
    let (w₁, e, c, m, j, o, f) = job_finished_lem false w h cover in
    let empty : w₁.job.blocking ≡ [] = ap {B = List Blocked} (λ (x : Job). x.blocking) j in
    (
      add_blocked wait type message w₁,
      rw e refl,
      add_blocked_job wait type message w₁ empty
          ∙ ap (λ (x : Job). record x { blocking = waiting_message wait type message }) j,
      add_blocked_output wait type message w₁ ∙ o,
      message_Settles wait type message w₁ y z empty,
    )

-- What the outside sees of the request itself.
abbrev pub restart_output : Bool → ℕ → List Output
restart_output wait message =
    goal_changed job_stop
    ∷ state_changed job_pre_stopping
    ∷ process_started process_pre_stop
    ∷ state_changed job_pre_stop
    ∷ goal_changed job_start
    ∷ (if wait then [] else method_reply message ∷ [])

module _ (s : Surroundings) (class : JobClass) (self : ℕ) where
  -- Where the stop of a running job waits for its pre-stop process.
  abbrev at_pre_stop : World → World
  at_pre_stop w =
      let stopping = emit_output (goal_changed job_stop) w in
      let entered =
        emit_output (state_changed job_pre_stopping)
          (stopping_in false job_pre_stopping stopping) in
      let started = process_of s class self process_pre_stop entered in
      emit_output (state_changed job_pre_stop) (stopping_in false job_pre_stop started)

  stop_waits :
      (w : World)
      → main_runs class w.job ≡ true
      → class.process process_pre_stop ≡ true
      → job_change_goal s class self job_stop (starting_in job_running w) ≡ done (at_pre_stop w)
  unfolding job_change_goal induct set_goal job_next_state next_of either either_respawn enter
      go_after start_process job_process_start wait_for
  stop_waits w m p =
      let stopping = emit_output (goal_changed job_stop) w in
      let entered =
        emit_output (state_changed job_pre_stopping)
          (stopping_in false job_pre_stopping stopping) in
      let started = process_of s class self process_pre_stop entered in
      let main : class.process process_main ≡ true = ground (arith, m) in
      let runs : ltb 0 (w.job.pid process_main) ≡ true = ground (arith, m) in
      simp (
        main,
        runs,
        turn s class self 19 job_pre_stopping (stopping_in false job_running stopping)
              (go_on job_pre_stop started) refl refl (simp p)
            ∙ turn s class self 18 job_pre_stop (stopping_in false job_pre_stopping started)
                (go_on job_pre_stop (at_pre_stop w)) refl refl (simp p)
            ∙ stays s class self 17 (at_pre_stop w) job_pre_stop refl,
      )

  -- The same, with the goal changed back.
  abbrev started_again : World → World
  started_again w =
      emit_output (goal_changed job_start)
        (record (at_pre_stop w) { job = record ((at_pre_stop w).job) { goal = job_start } })

  starts_again :
      (w : World) → job_change_goal s class self job_start (at_pre_stop w) ≡ done (started_again w)
  unfolding job_change_goal set_goal induct
  starts_again w = refl

  replied :
      (wait : Bool) (message : ℕ) (w : World)
      → Settles w
      → let w' = reply_now wait message (started_again w) in
        (starting_in job_pre_stop w' ≡ w')
        × (w'.job.pid process_main ≡ w.job.pid process_main)
        × (w'.job.blocking ≡ w.job.blocking)
        × (w'.output ≡ w.output ++ restart_output wait message)
        × Settles w'
  replied true message w h = (refl, refl, refl, simp append_assoc, h)
  replied false message w h = (refl, refl, refl, simp append_assoc, h)

  is_running :
      (w : World)
      → w.job.state ≡ job_running
      → w.job.goal ≡ job_start
      → w.job.blocker ≡ none
      → starting_in job_running w ≡ w
  is_running w st g b = rw (st, g, b) refl

  request_restart_steps :
      (message : ℕ) (wait : Bool) (w w₁ w₂ w₃ : World)
      → w.job.goal ≡ job_start
      → release wait type_instance_restart_method message
          (record w { job = record (w.job) { start_env = none; stop_env = none } })
        ≡ done w₁
      → job_change_goal s class self job_stop w₁ ≡ done w₂
      → job_change_goal s class self job_start w₂ ≡ done w₃
      → request_restart s class self message wait w ≡ done (accepted (reply_now wait message w₃))
  unfolding request_restart
  request_restart_steps message wait w w₁ w₂ w₃ g e₁ e₂ e₃ =
      let not_stop : goal_is w.job.goal job_stop ≡ false = rw g refl in simp (not_stop, e₁, e₂, e₃)

  -- The restart of such a job returns with the pre-stop process running and the goal start.
  pub request_restart_waits :
      (message : ℕ) (wait : Bool) (w : World)
      → w.job.state ≡ job_running
      → w.job.goal ≡ job_start
      → w.job.blocker ≡ none
      → main_runs class w.job ≡ true
      → class.process process_pre_stop ≡ true
      → Settles w
      → (w' : World) × (request_restart s class self message wait w ≡ done (accepted w'))
        × (starting_in job_pre_stop w' ≡ w')
        × (w'.job.pid process_main ≡ w.job.pid process_main)
        × (w'.job.blocking ≡ waiting_message wait type_instance_restart_method message)
        × (w'.output ≡ (w.output ++ answers false w.job.blocking) ++ restart_output wait message)
        × Settles w'
  request_restart_waits message wait w st g b m p h =
      let cleared = record w { job = record (w.job) { start_env = none; stop_env = none } } in
      let (w₁, e, j, o, h₁) =
        release_lem wait type_instance_restart_method message cleared refl (λ i. refl) h.0 h.1 in
      let pids = ap {B = ProcessType → ℕ} (λ (x : Job). x.pid) j in
      let main : main_runs class w₁.job ≡ true = rw pids m in
      let same : starting_in job_running w₁ ≡ w₁ =
        is_running w₁ (ap {B = JobState} (λ (x : Job). x.state) j ∙ st)
          (ap {B = JobGoal} (λ (x : Job). x.goal) j ∙ g)
          (ap {B = Option ℕ} (λ (x : Job). x.blocker) j ∙ b) in
      let stopped =
        subst (λ v. job_change_goal s class self job_stop v ≡ done (at_pre_stop w₁)) same
          (stop_waits w₁ main p) in
      let (kept, pid, held, out, h₂) = replied wait message w₁ h₁ in
      (
        reply_now wait message (started_again w₁),
        request_restart_steps message wait w w₁ (at_pre_stop w₁) (started_again w₁) g e stopped
            (starts_again w₁),
        kept,
        pid ∙ ap {B = ℕ} (λ (x : Job). x.pid process_main) j,
        held ∙ ap {B = List Blocked} (λ (x : Job). x.blocking) j,
        out ∙ ap (λ t. t ++ restart_output wait message) o,
        h₂,
      )
