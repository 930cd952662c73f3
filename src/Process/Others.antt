-- ===== src/Process/Others.antt =====
-- How job_process_terminated of init/job_process.c takes a job on when its pre-start process ends, or
-- the main process that it has killed, with job_process_kill_timer.
use startup.Base.{
  ℕ, ◌==◌, ◌||◌, ltb, ◌++◌, ◌∷◌, Bool, true, false, Option, none, some, is_some, List, [],
  if◌then◌else◌, ◌≡◌, refl, ap, arith, Bool-cases, inl, inr, subst,
}
use startup.Blocked.{Blocked}
use startup.Job.Emit.{Surroundings}
use startup.Job.Finished.Answers.{job_failed_lem}
use startup.Job.Errors.{advance}
use startup.Job.{
  JobGoal, job_stop, job_start, JobState, job_pre_start, job_stopping, job_starting, job_waiting,
  job_killed, job_post_stopping, process_main, process_pre_start, JobClass, Job, World, Run, done,
  state_is, emit_output, sigkill_sent, goal_changed,
}
use startup.Job.State.{either, next_of, job_next_state, set_goal, induct, job_change_goal}
use startup.Job.State.Loop.{Settles}
use startup.Job.State.Stop.{stopping_in, goal_of, rest_post_stop, to_post_stopping}
use startup.Job.State.Start.{to_spawning}
use startup.Job.State.Start.Late.{starting_in, rest_spawned}
use startup.Job.State.Goal.{to_stopping}
use startup.Process.{
  Moment, judge_main, judge, clear_process, change_state, stop_job, conclude,
  job_process_terminated,
}
use startup.Process.Handler.{Ptrace, child_killed, job_process_kill_timer, job_process_handler}
use startup.Process.Stops.{Settles-none}

either_same : (again : Bool) (a : JobState) (w : World) → either (goal_of again) a a w ≡ done (a, w)
unfolding either
either_same false a w = refl
either_same true a w = refl

module _ (s : Surroundings) (class : JobClass) (self : ℕ) where
  -- The call returns with the job in this state, with this goal.
  abbrev pub Becomes : Run World → JobState → JobGoal → Type 0
  Becomes r st goal = (w' : World) × (r ≡ done w') × (w'.job.state ≡ st) × (w'.job.goal ≡ goal)

  pre_start_passed :
      (moment : Moment) (w : World)
      → Settles w
      → Becomes
          (job_process_terminated s class self process_pre_start 0 false moment
            (starting_in job_pre_start w))
          (rest_spawned s class self)
          job_start
  unfolding job_process_terminated judge conclude clear_process stop_job change_state advance
      job_next_state next_of either
  pre_start_passed moment w h =
      let (w', e, st, g, f) =
        to_spawning s class self 14 (clear_process s class self process_pre_start false w) h in
      (w', e, st, g)

  pre_start_stops :
      (w : World)
      → w.job.blocking ≡ []
      → Becomes
          (stop_job s class self true true (starting_in job_pre_start w))
          job_stopping
          job_stop
  unfolding stop_job change_state job_change_goal induct set_goal advance job_next_state next_of
      either
  pre_start_stops w b =
      let begun = emit_output (goal_changed job_stop) w in
      let (w', e, st, g, f, bl) =
        to_stopping s class self 18 begun job_pre_start refl refl (Settles-none begun b) in
      (w', e, st, g)

  pre_start_stops_after :
      (w : World)
      → w.job.state ≡ job_pre_start
      → w.job.goal ≡ job_start
      → w.job.blocker ≡ none
      → w.job.blocking ≡ []
      → Becomes (stop_job s class self true true w) job_stopping job_stop
  pre_start_stops_after w st g b l =
      let e : starting_in job_pre_start w ≡ w = rw (st, g, b) refl in
      subst (λ v. Becomes (stop_job s class self true true v) job_stopping job_stop) e
        (pre_start_stops w l)

  pre_start_failed :
      (status : ℕ) (moment : Moment) (w : World)
      → (status == 0) ≡ false
      → w.job.failed ≡ false
      → Settles w
      → Becomes
          (job_process_terminated s class self process_pre_start status false moment
            (starting_in job_pre_start w))
          job_stopping
          job_stop
  unfolding job_process_terminated judge conclude clear_process
  pre_start_failed status moment w ne nf h =
      let gone = clear_process s class self process_pre_start false (starting_in job_pre_start w) in
      let (w₁, e₁, j₁, o₁, m₁, n₁) =
        job_failed_lem (some process_pre_start) (some status) gone nf h.0 h.1 in
      rw (ne, e₁)
        (pre_start_stops_after w₁ (ap {B = JobState} (λ (x : Job). x.state) j₁)
          (ap {B = JobGoal} (λ (x : Job). x.goal) j₁)
          (ap {B = Option ℕ} (λ (x : Job). x.blocker) j₁)
          (ap {B = List Blocked} (λ (x : Job). x.blocking) j₁))

  killed_ended :
      (again : Bool) (status : ℕ) (moment : Moment) (w : World)
      → Settles w
      → (w' : World) × (job_process_terminated s class self process_main status false moment
            (stopping_in again job_killed w)
          ≡ done w')
        × (w'.job.state ≡ rest_post_stop s class self again)
        × (w'.freed ≡ (state_is (rest_post_stop s class self again) job_waiting || w.freed))
        × (is_some w'.job.blocker ≡ state_is (rest_post_stop s class self again) job_starting)
  unfolding job_process_terminated judge judge_main conclude clear_process stop_job change_state
      advance job_next_state next_of
  killed_ended again status moment w h =
      let gone = clear_process s class self process_main false w in
      let (w', e, st, f, b) = to_post_stopping s class self again 16 gone h in
      (
        w',
        simp (either_same again job_post_stopping (stopping_in again job_killed gone), e),
        st,
        f,
        b,
      )

  -- When the pre-start process of a job that waits for it ends, the job goes on with its start if the
  -- process succeeded, up to the state that waits for its main process or beyond; if it failed, to
  -- the stopping state with the goal stop. It holds for a job that is to run and has not failed,
  -- that no event blocks, where whatever waits for it can be released.
  pub job_process_terminated-pre_start :
      (status : ℕ) (moment : Moment) (w : World)
      → w.job.state ≡ job_pre_start
      → w.job.goal ≡ job_start
      → w.job.blocker ≡ none
      → w.job.failed ≡ false
      → Settles w
      → Becomes
          (job_process_terminated s class self process_pre_start status false moment w)
          (if status == 0 then rest_spawned s class self else job_stopping)
          (if status == 0 then job_start else job_stop)
  job_process_terminated-pre_start status moment w st g b nf h =
      let e : starting_in job_pre_start w ≡ w = rw (st, g, b) refl in
      subst
        (λ v.
          Becomes (job_process_terminated s class self process_pre_start status false moment v)
            (if status == 0 then rest_spawned s class self else job_stopping)
            (if status == 0 then job_start else job_stop))
        e
        (elim (Bool-cases (status == 0)) [
          | inl y ↦
              let zero_status : status ≡ 0 = ground (arith, y) in
              rw (y, zero_status) (pre_start_passed moment w h)
          | inr n ↦ rw n (pre_start_failed status moment w n nf h)
        ])

  -- When the main process of a job that was killed ends, whatever its status, the job goes on to
  -- post-stop if the class has that process, and else it ends: it is freed if its goal is stop, and
  -- blocked in the starting state if it is to start again. It holds for a job that no event blocks,
  -- where whatever waits for it can be released.
  pub job_process_terminated-killed :
      (again : Bool) (status : ℕ) (moment : Moment) (w : World)
      → w.job.state ≡ job_killed
      → w.job.goal ≡ goal_of again
      → w.job.blocker ≡ none
      → Settles w
      → (w' : World) × (job_process_terminated s class self process_main status false moment w
          ≡ done w')
        × (w'.job.state ≡ rest_post_stop s class self again)
        × (w'.freed ≡ (state_is (rest_post_stop s class self again) job_waiting || w.freed))
        × (is_some w'.job.blocker ≡ state_is (rest_post_stop s class self again) job_starting)
  job_process_terminated-killed again status moment w st g b h =
      let e : stopping_in again job_killed w ≡ w = rw (st, g, b) refl in
      subst
        (λ v.
          (w' : World) × (job_process_terminated s class self process_main status false moment v
            ≡ done w')
          × (w'.job.state ≡ rest_post_stop s class self again)
          × (w'.freed ≡ (state_is (rest_post_stop s class self again) job_waiting || w.freed))
          × (is_some w'.job.blocker ≡ state_is (rest_post_stop s class self again) job_starting))
        e (killed_ended again status moment w h)

  kill_timer_lem :
      (w : World)
      → w.job.kill_process ≡ some process_main
      → ltb 0 (w.job.pid process_main) ≡ true
      → job_process_kill_timer w
        ≡ done (
            emit_output
              (sigkill_sent (w.job.pid process_main))
              (record w { job = record (w.job) { kill_process = none } }))
  unfolding job_process_kill_timer
  kill_timer_lem w k r = rw (k, r) refl

  -- When the kill timer of a job in the killed state runs out, its main process is sent the KILL signal
  -- and the timer is forgotten; when the process then ends by it, the job goes on to post-stop if the
  -- class has that process, and else it ends: it is freed if its goal is stop, and blocked in the
  -- starting state if it is to start again. It holds for a job that no event blocks, where whatever
  -- waits for it can be released.
  pub job_process_kill_timer-handler :
      (again : Bool) (ptrace : Ptrace) (moment : Moment) (w : World)
      → w.job.state ≡ job_killed
      → w.job.goal ≡ goal_of again
      → w.job.blocker ≡ none
      → w.job.kill_process ≡ some process_main
      → ltb 0 (w.job.pid process_main) ≡ true
      → Settles w
      → (w₁ : World) × (job_process_kill_timer w ≡ done w₁)
        × (w₁.output ≡ w.output ++ sigkill_sent (w.job.pid process_main) ∷ [])
        × (w₁.job ≡ record (w.job) { kill_process = none })
        × (w₂ : World) × (job_process_handler s class self ptrace process_main child_killed 9 moment
              w₁
            ≡ done w₂)
        × (w₂.job.state ≡ rest_post_stop s class self again)
        × (w₂.freed ≡ (state_is (rest_post_stop s class self again) job_waiting || w.freed))
        × (is_some w₂.job.blocker ≡ state_is (rest_post_stop s class self again) job_starting)
  unfolding job_process_handler
  job_process_kill_timer-handler again ptrace moment w st g b k r h =
      let w₁ =
        emit_output (sigkill_sent (w.job.pid process_main))
          (record w { job = record (w.job) { kill_process = none } }) in
      let (w₂, e, st₂, f₂, b₂) = job_process_terminated-killed again 2304 moment w₁ st g b h in
      (w₁, kill_timer_lem w k r, refl, refl, w₂, e, st₂, f₂, b₂)
