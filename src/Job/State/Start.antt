-- ===== src/Job/State/Start.antt =====
-- How far job_change_state takes a job once its starting event is done with.
pub mod Late
use startup.Base.{
  subst, ℕ, suc, true, false, none, ◌&&◌, if◌then◌else◌, ◌≡◌, refl, ◌∙◌, arith, Bool-cases, inl,
  inr,
}
use startup.Job.Emit.{Surroundings, emitted}
use startup.Job.Finished.{job_process_start}
use startup.Job.Finished.Answers.{job_finished_lem}
use startup.Job.{
  job_start, JobState, job_starting, job_security_spawning, job_security, job_pre_starting,
  job_pre_start, job_spawning, job_spawned, job_post_starting, job_post_start, job_running,
  process_main, process_pre_start, process_post_start, process_security, JobClass, World, done,
  emit_output, state_changed,
}
use startup.Job.State.{
  either, either_respawn, next_of, job_next_state, start_process, wait_for, enter_running, enter,
  go_after, job_change_state, enough, go_on,
}
use startup.Job.State.Loop.{
  Settles, job_emit_event-Settles, job_state_of, job_goal_of, finished_running, stays, turn,
  process_of,
}
use startup.Job.State.Start.Late.{
  starting_in, ComesTo, rest_post_start, rest_spawned, rest_pre_start, rest_security,
  to_post_starting,
}

module _ (s : Surroundings) (class : JobClass) (self : ℕ) where
  to_spawned :
      (n : ℕ) (w : World)
      → Settles w
      → ComesTo s class self
          (suc (suc (suc (suc (suc n)))))
          job_spawned
          (starting_in job_spawning w)
          (rest_spawned s class self)
  unfolding enter go_after wait_for job_next_state next_of either either_respawn
  to_spawned n w h =
      let entered = emit_output (state_changed job_spawned) (starting_in job_spawned w) in
      elim (Bool-cases (class.process process_main)) [
        | inl y ↦ (
          entered,
          turn s class self (suc (suc (suc (suc n)))) job_spawned (starting_in job_spawning w)
                (go_on job_spawned entered) refl refl (simp y)
              ∙ stays s class self (suc (suc (suc n))) entered job_spawned refl,
          simp y,
          refl,
          refl,
        )
        | inr f ↦
            let (w', e, st, g, fr) =
              to_post_starting s class self n (emit_output (state_changed job_spawned) w) h in
            (
              w',
              turn s class self (suc (suc (suc (suc n)))) job_spawned (starting_in job_spawning w)
                    (go_on job_post_starting entered) refl refl (simp f)
                  ∙ e,
              st ∙ simp f,
              g,
              fr,
            )
      ]

  pub to_spawning :
      (n : ℕ) (w : World)
      → Settles w
      → ComesTo s class self
          (suc (suc (suc (suc (suc (suc n))))))
          job_spawning
          (starting_in job_pre_start w)
          (rest_spawned s class self)
  unfolding enter go_after start_process job_process_start job_next_state next_of either
  to_spawning n w h =
      let entered = emit_output (state_changed job_spawning) (starting_in job_spawning w) in
      elim (Bool-cases (class.process process_main)) [
        | inl y ↦
            let (w', e, st, g, fr) =
              to_spawned n (process_of s class self process_main entered) h in
            (
              w',
              turn s class self (suc (suc (suc (suc (suc n))))) job_spawning
                    (starting_in job_pre_start w)
                    (go_on job_spawned (process_of s class self process_main entered)) refl refl
                    (simp y)
                  ∙ e,
              st,
              g,
              fr,
            )
        | inr f ↦
            let (w', e, st, g, fr) = to_spawned n entered h in
            (
              w',
              turn s class self (suc (suc (suc (suc (suc n))))) job_spawning
                    (starting_in job_pre_start w) (go_on job_spawned entered) refl refl (simp f)
                  ∙ e,
              st,
              g,
              fr,
            )
      ]

  to_pre_start :
      (n : ℕ) (w : World)
      → Settles w
      → ComesTo s class self
          (suc (suc (suc (suc (suc (suc (suc n)))))))
          job_pre_start
          (starting_in job_pre_starting w)
          (rest_pre_start s class self)
  unfolding enter go_after wait_for job_next_state next_of either either_respawn
  to_pre_start n w h =
      let entered = emit_output (state_changed job_pre_start) (starting_in job_pre_start w) in
      elim (Bool-cases (class.process process_pre_start)) [
        | inl y ↦ (
          entered,
          turn s class self (suc (suc (suc (suc (suc (suc n)))))) job_pre_start
                (starting_in job_pre_starting w) (go_on job_pre_start entered) refl refl (simp y)
              ∙ stays s class self (suc (suc (suc (suc (suc n))))) entered job_pre_start refl,
          simp y,
          refl,
          refl,
        )
        | inr f ↦
            let (w', e, st, g, fr) =
              to_spawning n (emit_output (state_changed job_pre_start) w) h in
            (
              w',
              turn s class self (suc (suc (suc (suc (suc (suc n)))))) job_pre_start
                    (starting_in job_pre_starting w) (go_on job_spawning entered) refl refl (simp f)
                  ∙ e,
              st ∙ simp f,
              g,
              fr,
            )
      ]

  to_pre_starting :
      (n : ℕ) (w : World)
      → Settles w
      → ComesTo s class self
          (suc (suc (suc (suc (suc (suc (suc (suc n))))))))
          job_pre_starting
          (starting_in job_security w)
          (rest_pre_start s class self)
  unfolding enter go_after start_process job_process_start job_next_state next_of either
  to_pre_starting n w h =
      let entered = emit_output (state_changed job_pre_starting) (starting_in job_pre_starting w) in
      elim (Bool-cases (class.process process_pre_start)) [
        | inl y ↦
            let (w', e, st, g, fr) =
              to_pre_start n (process_of s class self process_pre_start entered) h in
            (
              w',
              turn s class self (suc (suc (suc (suc (suc (suc (suc n))))))) job_pre_starting
                    (starting_in job_security w)
                    (go_on job_pre_start (process_of s class self process_pre_start entered)) refl
                    refl (simp y)
                  ∙ e,
              st,
              g,
              fr,
            )
        | inr f ↦
            let (w', e, st, g, fr) = to_pre_start n entered h in
            (
              w',
              turn s class self (suc (suc (suc (suc (suc (suc (suc n))))))) job_pre_starting
                    (starting_in job_security w) (go_on job_pre_start entered) refl refl (simp f)
                  ∙ e,
              st,
              g,
              fr,
            )
      ]

  to_security :
      (n : ℕ) (w : World)
      → Settles w
      → ComesTo s class self
          (suc (suc (suc (suc (suc (suc (suc (suc (suc n)))))))))
          job_security
          (starting_in job_security_spawning w)
          (rest_security s class self)
  unfolding enter go_after job_next_state next_of either either_respawn
  to_security n w h =
      let entered = emit_output (state_changed job_security) (starting_in job_security w) in
      elim (Bool-cases (class.process process_security && s.apparmor_available)) [
        | inl y ↦ (
          entered,
          turn s class self (suc (suc (suc (suc (suc (suc (suc (suc n)))))))) job_security
                (starting_in job_security_spawning w) (go_on job_security entered) refl refl
                (simp y)
              ∙ stays s class self (suc (suc (suc (suc (suc (suc (suc n))))))) entered job_security
                  refl,
          simp y,
          refl,
          refl,
        )
        | inr f ↦
            let (w', e, st, g, fr) =
              to_pre_starting n (emit_output (state_changed job_security) w) h in
            (
              w',
              turn s class self (suc (suc (suc (suc (suc (suc (suc (suc n)))))))) job_security
                    (starting_in job_security_spawning w) (go_on job_pre_starting entered) refl refl
                    (simp f)
                  ∙ e,
              st ∙ simp f,
              g,
              fr,
            )
      ]

  to_security_spawning :
      (n : ℕ) (w : World)
      → Settles w
      → ComesTo s class self
          (suc (suc (suc (suc (suc (suc (suc (suc (suc (suc n))))))))))
          job_security_spawning
          (starting_in job_starting w)
          (rest_security s class self)
  unfolding enter go_after job_process_start job_next_state next_of either
  to_security_spawning n w h =
      let entered =
        emit_output (state_changed job_security_spawning) (starting_in job_security_spawning w) in
      elim (Bool-cases (class.process process_security && s.apparmor_available)) [
        | inl y ↦
            let has : class.process process_security ≡ true = ground (arith, y) in
            let available : s.apparmor_available ≡ true = ground (arith, y) in
            let (w', e, st, g, fr) =
              to_security n (process_of s class self process_security entered) h in
            (
              w',
              turn s class self (suc (suc (suc (suc (suc (suc (suc (suc (suc n)))))))))
                    job_security_spawning (starting_in job_starting w)
                    (go_on job_security (process_of s class self process_security entered)) refl
                    refl (simp (has, available))
                  ∙ e,
              st,
              g,
              fr,
            )
        | inr f ↦
            let (w', e, st, g, fr) = to_security n entered h in
            (
              w',
              turn s class self (suc (suc (suc (suc (suc (suc (suc (suc (suc n)))))))))
                    job_security_spawning (starting_in job_starting w) (go_on job_security entered)
                    refl refl (simp f)
                  ∙ e,
              st,
              g,
              fr,
            )
      ]

  -- A starting job whose event is done with gets through every state that needs no process to end:
  -- it comes to rest in the first of security, pre-start, spawned and post-start for which the class
  -- has a process, and else in running, without a failed assertion, still to be started, and it does
  -- not free it. It holds where only messages wait for the job, and events at other addresses than the
  -- next one that count enough blockers.
  pub job_change_state-start :
      (w : World)
      → w.job.state ≡ job_starting
      → w.job.goal ≡ job_start
      → w.job.blocker ≡ none
      → Settles w
      → ComesTo s class self
          (enough s class self)
          job_security_spawning
          w
          (rest_security s class self)
  job_change_state-start w st g b h =
      let e : starting_in job_starting w ≡ w = rw (st, g, b) refl in
      subst
        (λ v.
          ComesTo s class self (enough s class self) job_security_spawning v
            (rest_security s class self))
        e (to_security_spawning 10 w h)
