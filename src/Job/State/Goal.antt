-- ===== src/Job/State/Goal.antt =====
-- How job_change_goal sets a job in motion from the two states of rest, and what it does elsewhere.
use startup.Base.{
  ℕ, suc, Bool, true, false, ap, none, some, is_some, if◌then◌else◌, ltb, ◌≡◌, refl, ◌∙◌, arith,
  Bool-cases, inl, inr, subst,
}
use startup.Job.Emit.{Surroundings, emitted}
use startup.Job.Finished.{job_process_start}
use startup.Job.{
  JobGoal, job_stop, job_start, JobState, job_waiting, job_starting, job_running, job_pre_stopping,
  job_pre_stop, job_stopping, process_main, process_pre_stop, JobClass, Job, World, Run, done,
  emit_output, state_changed, goal_changed, state_is,
}
use startup.Job.State.{
  either, either_respawn, from_waiting, next_of, job_next_state, main_runs, before_stopping,
  kept_env, start_process, wait_for, enter_starting, enter_stopping, enter, go_after, go_on,
  job_change_state, set_goal, induct, job_change_goal,
}
use startup.Job.State.Loop.{
  Settles, job_emit_event-Settles, job_state_of, job_goal_of, stays, turn, process_of,
}
use startup.Job.State.Start.Late.{starting_in}
use startup.Job.State.Stop.{stopping_in, goal_of}

module _ (s : Surroundings) (class : JobClass) (self : ℕ) where
  -- The call returns with the job in a state that has this goal, blocked if the state is `blocked`.
  abbrev pub Begins : Run World → World → JobState → JobGoal → JobState → Type 0
  Begins r w st goal blocked =
      (w' : World) × (r ≡ done w')
      × (w'.job.state ≡ st)
      × (w'.job.goal ≡ goal)
      × (w'.freed ≡ w.freed)
      × (is_some w'.job.blocker ≡ state_is st blocked)

  -- Where the stop of a running job first waits.
  abbrev pub rest_stop : World → JobState
  rest_stop w =
      if main_runs class w.job
      then (if class.process process_pre_stop then job_pre_stop else job_stopping)
      else job_stopping

  -- Entering the stopping state changes nothing of the job but its state and its blocker.
  pub enters_stopping :
      (again : Bool) (n : ℕ) (w : World) (old : JobState)
      → before_stopping old ≡ true
      → state_is old job_stopping ≡ false
      → Settles w
      → (w' : World) × (job_change_state s class self
            (suc (suc n))
            job_stopping
            (stopping_in again old w)
          ≡ done w')
        × (w'.job ≡ record (w.job) {
          state = job_stopping;
          goal = goal_of again;
          blocker = some w.events.fresh;
        })
        × (w'.freed ≡ w.freed)
  unfolding enter go_after enter_stopping emitted
  enters_stopping again n w old before ne h =
      let entered = emit_output (state_changed job_stopping) (stopping_in again job_stopping w) in
      let (w₁, e₁, j₁, f₁, c₁) = job_emit_event-Settles s class self entered _ _ true true refl h in
      let end = record w₁ { job = record (w₁.job) { blocker = some w.events.fresh } } in
      (
        end,
        turn s class self (suc n) job_stopping (stopping_in again old w) (go_on job_stopping end) ne
              refl (simp (before, e₁))
            ∙ stays s class self n end job_stopping (job_state_of w₁ entered j₁),
        ap (λ (j : Job). record j { blocker = some w.events.fresh }) j₁,
        f₁,
      )

  pub to_stopping :
      (n : ℕ) (w : World) (old : JobState)
      → before_stopping old ≡ true
      → state_is old job_stopping ≡ false
      → Settles w
      → Begins
          (job_change_state s class self (suc (suc n)) job_stopping (stopping_in false old w))
          w
          job_stopping
          job_stop
          job_stopping
  to_stopping n w old before ne h =
      let (w', e, j, f) = enters_stopping false n w old before ne h in
      (
        w',
        e,
        ap {B = JobState} (λ (j : Job). j.state) j,
        ap {B = JobGoal} (λ (j : Job). j.goal) j,
        f,
        ap {B = Bool} (λ (j : Job). is_some j.blocker) j,
      )

  to_pre_stop :
      (n : ℕ) (w : World)
      → Settles w
      → Begins
          (job_change_state s class self
            (suc (suc (suc n)))
            job_pre_stop
            (stopping_in false job_pre_stopping w))
          w
          (if class.process process_pre_stop then job_pre_stop else job_stopping)
          job_stop
          job_stopping
  unfolding enter go_after wait_for job_next_state next_of either_respawn
  to_pre_stop n w h =
      let entered = emit_output (state_changed job_pre_stop) (stopping_in false job_pre_stop w) in
      let from = stopping_in false job_pre_stopping w in
      elim (Bool-cases (class.process process_pre_stop)) [
        | inl y ↦ (
          entered,
          turn s class self (suc (suc n)) job_pre_stop from (go_on job_pre_stop entered) refl refl
                (simp y)
              ∙ stays s class self (suc n) entered job_pre_stop refl,
          simp y,
          refl,
          refl,
          simp y,
        )
        | inr f ↦
            let (w', e, st, g, fr, bl) =
              to_stopping n (emit_output (state_changed job_pre_stop) w) job_pre_stop refl refl h in
            (
              w',
              turn s class self (suc (suc n)) job_pre_stop from (go_on job_stopping entered) refl
                    refl (simp f)
                  ∙ e,
              st ∙ simp f,
              g,
              fr,
              bl ∙ simp f,
            )
      ]

  to_pre_stopping :
      (n : ℕ) (w : World)
      → Settles w
      → Begins
          (job_change_state s class self
            (suc (suc (suc (suc n))))
            job_pre_stopping
            (stopping_in false job_running w))
          w
          (if class.process process_pre_stop then job_pre_stop else job_stopping)
          job_stop
          job_stopping
  unfolding enter go_after start_process job_process_start job_next_state next_of either
  to_pre_stopping n w h =
      let entered =
        emit_output (state_changed job_pre_stopping) (stopping_in false job_pre_stopping w) in
      let started = process_of s class self process_pre_stop entered in
      let from = stopping_in false job_running w in
      elim (Bool-cases (class.process process_pre_stop)) [
        | inl y ↦
            let (w', e, st, g, fr, bl) = to_pre_stop n started h in
            (
              w',
              turn s class self (suc (suc (suc n))) job_pre_stopping from
                    (go_on job_pre_stop started) refl refl (simp y)
                  ∙ e,
              st,
              g,
              fr,
              bl,
            )
        | inr f ↦
            let (w', e, st, g, fr, bl) = to_pre_stop n entered h in
            (
              w',
              turn s class self (suc (suc (suc n))) job_pre_stopping from
                    (go_on job_pre_stop entered) refl refl (simp f)
                  ∙ e,
              st,
              g,
              fr,
              bl,
            )
      ]

  stop_running :
      (w : World)
      → Settles w
      → Begins
          (job_change_goal s class self job_stop (starting_in job_running w))
          w
          (rest_stop w)
          job_stop
          job_stopping
  unfolding job_change_goal induct set_goal job_next_state next_of either
  stop_running w h =
      let begun = emit_output (goal_changed job_stop) w in
      elim (Bool-cases (main_runs class w.job)) [
        | inl y ↦
            let main : class.process process_main ≡ true = ground (arith, y) in
            let runs : ltb 0 (w.job.pid process_main) ≡ true = ground (arith, y) in
            let (w', e, st, g, fr, bl) = to_pre_stopping 16 begun h in
            (w', simp (main, runs, e), st ∙ simp (main, runs), g, fr, bl ∙ simp (main, runs))
        | inr f ↦
            let (w', e, st, g, fr, bl) = to_stopping 18 begun job_running refl refl h in
            (w', simp (f, e), st ∙ simp f, g, fr, bl ∙ simp f)
      ]

  start_waiting :
      (w : World)
      → Settles w
      → Begins
          (job_change_goal s class self job_start (stopping_in false job_waiting w))
          w
          job_starting
          job_start
          job_starting
  unfolding job_change_goal induct set_goal job_next_state next_of from_waiting enter go_after
      enter_starting emitted
  start_waiting w h =
      let begun = emit_output (goal_changed job_start) w in
      let entered = emit_output (state_changed job_starting) (starting_in job_starting begun) in
      let cleared = record entered {
        job = record (entered.job) {
          env = kept_env w.job.start_env w.job.env;
          start_env = none;
          stop_env = none;
          failed = false;
          failed_process = none;
          exit_status = some 0;
        };
      } in
      let (w₁, e₁, j₁, f₁, c₁) =
        job_emit_event-Settles s class self cleared _ _ true false refl h in
      let end = record w₁ { job = record (w₁.job) { blocker = some w.events.fresh } } in
      (
        end,
        turn s class self 19 job_starting (starting_in job_waiting begun) (go_on job_starting end)
              refl refl (simp e₁)
            ∙ stays s class self 18 end job_starting (job_state_of w₁ cleared j₁),
        job_state_of w₁ cleared j₁,
        job_goal_of w₁ cleared j₁,
        f₁,
        refl,
      )

  -- A waiting job that is to start goes to the starting state and waits there for its event,
  -- where it was blocked by no event and whatever waits for it can be released.
  pub job_change_goal-start :
      (w : World)
      → w.job.state ≡ job_waiting
      → w.job.goal ≡ job_stop
      → w.job.blocker ≡ none
      → Settles w
      → Begins (job_change_goal s class self job_start w) w job_starting job_start job_starting
  job_change_goal-start w st g b h =
      let e : stopping_in false job_waiting w ≡ w = rw (st, g, b) refl in
      subst
        (λ v.
          Begins (job_change_goal s class self job_start v) w job_starting job_start job_starting)
        e (start_waiting w h)

  -- A running job that is to stop goes to pre-stop if its main process runs and the class has that
  -- process, and else to the stopping state, where it waits for its event. It holds for a job
  -- that no event blocks, where whatever waits for it can be released.
  pub job_change_goal-stop :
      (w : World)
      → w.job.state ≡ job_running
      → w.job.goal ≡ job_start
      → w.job.blocker ≡ none
      → Settles w
      → Begins (job_change_goal s class self job_stop w) w (rest_stop w) job_stop job_stopping
  job_change_goal-stop w st g b h =
      let e : starting_in job_running w ≡ w = rw (st, g, b) refl in
      subst
        (λ v.
          Begins (job_change_goal s class self job_stop v) w (rest_stop w) job_stop job_stopping)
        e (stop_running w h)
