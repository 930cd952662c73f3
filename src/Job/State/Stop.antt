-- ===== src/Job/State/Stop.antt =====
-- How far job_change_state takes a job once its stopping event is done with.
use startup.Base.{
  ◌==◌, ltb, ◌||◌, subst, ℕ, suc, Bool, true, false, none, some, ◌&&◌, if◌then◌else◌, ◌≡◌, refl, ap,
  ◌∙◌, arith, Bool-cases, inl, inr, is_some,
}
use startup.Job.Emit.{Surroundings, emitted}
use startup.Job.Finished.{job_process_start, job_process_kill, job_process_set_kill_timer}
use startup.Job.Finished.Answers.{job_finished_lem}
use startup.Job.{
  JobGoal, job_stop, job_start, JobState, job_waiting, job_stopping, job_killed, job_post_stopping,
  job_post_stop, process_post_stop, kill_signal_sent, instance_removed, job_starting, process_main,
  JobClass, Job, World, done, emit_output, state_changed, state_is,
}
use startup.Job.State.{
  either, enter_starting, enter_killed, enter_waiting, main_runs, kept_env, return_now, next_of,
  job_next_state, start_process, wait_for, enter, go_after, job_change_state, enough, go_on,
}
use startup.Job.State.Loop.{
  Settles, job_emit_event-Settles, job_state_of, finished_running, stays, turn, process_of,
}

-- The goal of a job that is stopped, for good or to be started again.
abbrev pub goal_of : Bool → JobGoal
goal_of false = job_stop
goal_of true = job_start

-- A job with that goal, in a state, that waits for no event.
abbrev pub stopping_in : Bool → JobState → World → World
stopping_in again st w = record w {
  job = record (w.job) { state = st; goal = goal_of again; blocker = none };
}

abbrev pub end_of : Bool → JobState
end_of again = if again then job_starting else job_waiting

either_of :
    (again : Bool) (a b : JobState) (w : World)
    → either (goal_of again) a b w ≡ done (if again then b else a, w)
unfolding either
either_of false a b w = refl
either_of true a b w = refl

either_same : (again : Bool) (a : JobState) (w : World) → either (goal_of again) a a w ≡ done (a, w)
unfolding either
either_same false a w = refl
either_same true a w = refl

module _ (s : Surroundings) (class : JobClass) (self : ℕ) where
  -- A waiting job is freed, a starting job waits for its next event.
  abbrev pub StopsAt : ℕ → JobState → World → JobState → Type 0
  StopsAt fuel target w st =
      (w' : World) × (job_change_state s class self fuel target w ≡ done w')
      × (w'.job.state ≡ st)
      × (w'.freed ≡ (state_is st job_waiting || w.freed))
      × (is_some w'.job.blocker ≡ state_is st job_starting)

  abbrev pub rest_post_stop : Bool → JobState
  rest_post_stop again = if class.process process_post_stop then job_post_stop else end_of again

  abbrev pub rest_killed : Bool → World → JobState
  rest_killed again w = if main_runs class w.job then job_killed else rest_post_stop again

  to_waiting :
      (n : ℕ) (w : World)
      → Settles w
      → StopsAt (suc n) job_waiting (stopping_in false job_post_stop w) job_waiting
  unfolding enter go_after enter_waiting emitted
  to_waiting n w h =
      let entered = emit_output (state_changed job_waiting) (stopping_in false job_waiting w) in
      let (w₁, e₁, j₁, f₁, c₁) =
        job_emit_event-Settles s class self entered _ _ false true refl h in
      let (w₂, e₂, c₂, m₂, j₂, o₂, f₂) = job_finished_lem false w₁ (rw j₁ h.0) (rw j₁ c₁) in
      let s₁ = job_state_of w₁ entered j₁ in
      let (s₂, g₂) = finished_running w₁ w₂ j₂ in
      let end =
        (if class.deleted && s.unused
          then record w₂ { freed = true }
          else emit_output instance_removed (record w₂ { freed = true })) in
      let here : is_some w₂.job.blocker ≡ false =
        ap {B = Bool} (λ (j : Job). is_some j.blocker) j₂
        ∙ ap {B = Bool} (λ (j : Job). is_some j.blocker) j₁ in
      (
        end,
        turn s class self n job_waiting (stopping_in false job_post_stop w) (return_now end) refl
            refl (simp (e₁, e₂)),
        elim (Bool-cases (class.deleted && s.unused)) [
          | inl y ↦ simp y (s₂ ∙ s₁)
          | inr f ↦ simp f (s₂ ∙ s₁)
        ],
        elim (Bool-cases (class.deleted && s.unused)) [ inl y ↦ simp y | inr f ↦ simp f ],
        elim (Bool-cases (class.deleted && s.unused)) [ inl y ↦ simp y here | inr f ↦ simp f here ],
      )

  to_starting :
      (n : ℕ) (w : World)
      → Settles w
      → StopsAt (suc (suc n)) job_starting (stopping_in true job_post_stop w) job_starting
  unfolding enter go_after enter_starting emitted
  to_starting n w h =
      let entered = emit_output (state_changed job_starting) (stopping_in true job_starting w) in
      let begun = record entered {
        job = record (entered.job) {
          env = kept_env w.job.start_env w.job.env;
          start_env = none;
          stop_env = none;
          failed = false;
          failed_process = none;
          exit_status = some 0;
        };
      } in
      let (w₁, e₁, j₁, f₁, c₁) = job_emit_event-Settles s class self begun _ _ true false refl h in
      let s₁ = job_state_of w₁ begun j₁ in
      let end = record w₁ { job = record (w₁.job) { blocker = some w.events.fresh } } in
      (
        end,
        turn s class self (suc n) job_starting (stopping_in true job_post_stop w)
              (go_on job_starting end) refl refl (simp e₁)
            ∙ stays s class self n end job_starting s₁,
        s₁,
        f₁,
        refl,
      )

  to_end :
      (again : Bool) (n : ℕ) (w : World)
      → Settles w
      → StopsAt (suc (suc n)) (end_of again) (stopping_in again job_post_stop w) (end_of again)
  to_end false n w h = to_waiting (suc n) w h
  to_end true n w h = to_starting n w h

  to_post_stop :
      (again : Bool) (n : ℕ) (w : World)
      → Settles w
      → StopsAt
          (suc (suc (suc n)))
          job_post_stop
          (stopping_in again job_post_stopping w)
          (rest_post_stop again)
  unfolding enter go_after wait_for job_next_state next_of
  to_post_stop again n w h =
      let entered = emit_output (state_changed job_post_stop) (stopping_in again job_post_stop w) in
      elim (Bool-cases (class.process process_post_stop)) [
        | inl y ↦ (
          entered,
          turn s class self (suc (suc n)) job_post_stop (stopping_in again job_post_stopping w)
                (go_on job_post_stop entered) refl refl (simp y)
              ∙ stays s class self (suc n) entered job_post_stop refl,
          simp y,
          simp y,
          simp y,
        )
        | inr f ↦
            let (w', e, st, fr, bl) =
              to_end again n (emit_output (state_changed job_post_stop) w) h in
            (
              w',
              turn s class self (suc (suc n)) job_post_stop (stopping_in again job_post_stopping w)
                    (go_on (end_of again) entered) refl refl
                    (simp (f, either_of again job_waiting job_starting entered))
                  ∙ e,
              st ∙ simp f,
              fr ∙ simp f,
              bl ∙ simp f,
            )
      ]

  pub to_post_stopping :
      (again : Bool) (n : ℕ) (w : World)
      → Settles w
      → StopsAt
          (suc (suc (suc (suc n))))
          job_post_stopping
          (stopping_in again job_killed w)
          (rest_post_stop again)
  unfolding enter go_after start_process job_process_start job_next_state next_of
  to_post_stopping again n w h =
      let entered =
        emit_output (state_changed job_post_stopping) (stopping_in again job_post_stopping w) in
      let started = process_of s class self process_post_stop entered in
      let from = stopping_in again job_killed w in
      elim (Bool-cases (class.process process_post_stop)) [
        | inl y ↦
            let (w', e, st, fr, bl) = to_post_stop again n started h in
            (
              w',
              turn s class self (suc (suc (suc n))) job_post_stopping from
                    (go_on job_post_stop started) refl refl
                    (simp (y, either_same again job_post_stop started))
                  ∙ e,
              st,
              fr,
              bl,
            )
        | inr f ↦
            let (w', e, st, fr, bl) = to_post_stop again n entered h in
            (
              w',
              turn s class self (suc (suc (suc n))) job_post_stopping from
                    (go_on job_post_stop entered) refl refl
                    (simp (f, either_same again job_post_stop entered))
                  ∙ e,
              st,
              fr,
              bl,
            )
      ]

  to_killed :
      (again : Bool) (n : ℕ) (w : World)
      → w.job.kill_process ≡ none
      → (class.kill_timeout == 0) ≡ false
      → Settles w
      → StopsAt
          (suc (suc (suc (suc (suc n)))))
          job_killed
          (stopping_in again job_stopping w)
          (rest_killed again w)
  unfolding enter go_after enter_killed job_process_kill job_process_set_kill_timer job_next_state
      next_of
  to_killed again n w k t h =
      let entered = emit_output (state_changed job_killed) (stopping_in again job_killed w) in
      let from = stopping_in again job_stopping w in
      elim (Bool-cases (main_runs class w.job)) [
        | inr f ↦
            let (w', e, st, fr, bl) = to_post_stopping again n entered h in
            (
              w',
              turn s class self (suc (suc (suc (suc n)))) job_killed from
                    (go_on job_post_stopping entered) refl refl
                    (simp (f, either_same again job_post_stopping entered))
                  ∙ e,
              st ∙ simp f,
              fr ∙ simp f,
              bl ∙ simp f,
            )
        | inl y ↦
            let main : class.process process_main ≡ true = ground (arith, y) in
            let runs : ltb 0 (w.job.pid process_main) ≡ true = ground (arith, y) in
            elim (Bool-cases s.kill_succeeds) [
              | inl z ↦
                  let sent =
                    emit_output (kill_signal_sent process_main (w.job.pid process_main)) entered in
                  let end = record sent {
                    job = record (sent.job) { kill_process = some process_main };
                  } in
                  (
                    end,
                    turn s class self (suc (suc (suc (suc n)))) job_killed from
                          (go_on job_killed end) refl refl (simp (main, runs, z, k, t))
                        ∙ stays s class self (suc (suc (suc n))) end job_killed refl,
                    simp (main, runs),
                    simp (main, runs),
                    simp (main, runs),
                  )
              | inr z ↦ (
                entered,
                turn s class self (suc (suc (suc (suc n)))) job_killed from
                      (go_on job_killed entered) refl refl (simp (main, runs, z, k))
                    ∙ stays s class self (suc (suc (suc n))) entered job_killed refl,
                simp (main, runs),
                simp (main, runs),
                simp (main, runs),
              )
            ]
      ]

  -- A stopping job whose event is done with goes on without a failed assertion: it comes to rest in
  -- killed while its main process runs, else in post-stop if the class has that process, and else it
  -- is at its end. The end is the waiting state, where the job is freed, or the starting state, where
  -- it waits for its next event, if the goal has become to start it again. It holds where no kill
  -- timer is set, the class has a timeout for it, and only messages wait for the job and events at
  -- other addresses than the next one that count enough blockers.
  pub job_change_state-stop :
      (again : Bool) (w : World)
      → w.job.state ≡ job_stopping
      → w.job.goal ≡ goal_of again
      → w.job.blocker ≡ none
      → w.job.kill_process ≡ none
      → (class.kill_timeout == 0) ≡ false
      → Settles w
      → StopsAt (enough s class self) job_killed w (rest_killed again w)
  job_change_state-stop again w st g b k t h =
      let e : stopping_in again job_stopping w ≡ w = rw (st, g, b) refl in
      subst (λ v. StopsAt (enough s class self) job_killed v (rest_killed again w)) e
        (to_killed again 15 w k t h)
