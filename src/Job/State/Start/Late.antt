-- ===== src/Job/State/Start/Late.antt =====
-- The last part of a start, from spawned on.
use startup.Base.{ℕ, suc, false, none, ◌&&◌, if◌then◌else◌, ◌≡◌, refl, ◌∙◌, Bool-cases, inl, inr}
use startup.Job.Emit.{Surroundings, emitted}
use startup.Job.Finished.{job_process_start}
use startup.Job.Finished.Answers.{job_finished_lem}
use startup.Job.{
  job_start, JobState, job_security, job_pre_start, job_spawned, job_post_starting, job_post_start,
  job_running, process_main, process_pre_start, process_post_start, process_security, JobClass,
  World, done, emit_output, state_changed,
}
use startup.Job.State.{
  either, either_respawn, next_of, job_next_state, start_process, wait_for, enter_running, enter,
  go_after, job_change_state, go_on,
}
use startup.Job.State.Loop.{
  Settles, job_emit_event-Settles, job_state_of, job_goal_of, finished_running, stays, turn,
  process_of,
}

-- A job that is to start, in a state, and that waits for no event.
abbrev pub starting_in : JobState → World → World
starting_in st w = record w {
  job = record (w.job) { state = st; goal = job_start; blocker = none };
}

module _ (s : Surroundings) (class : JobClass) (self : ℕ) where
  abbrev pub ComesTo : ℕ → JobState → World → JobState → Type 0
  ComesTo fuel target w st =
      (w' : World) × (job_change_state s class self fuel target w ≡ done w')
      × (w'.job.state ≡ st)
      × (w'.job.goal ≡ job_start)
      × (w'.freed ≡ w.freed)

  to_running :
      (n : ℕ) (w : World)
      → Settles w
      → ComesTo (suc (suc n)) job_running (starting_in job_post_start w) job_running
  unfolding enter go_after enter_running emitted
  to_running n w h =
      let entered = emit_output (state_changed job_running) (starting_in job_running w) in
      let (w₁, e₁, j₁, f₁, c₁) =
        job_emit_event-Settles s class self entered _ _ false false refl h in
      let (w₂, e₂, c₂, m₂, j₂, o₂, f₂) = job_finished_lem false w₁ (rw j₁ h.0) (rw j₁ c₁) in
      let s₁ = job_state_of w₁ entered j₁ in
      let g₁ = job_goal_of w₁ entered j₁ in
      let (s₂, g₂) = finished_running w₁ w₂ j₂ in
      elim (Bool-cases class.task) [
        | inl y ↦ (
          w₁,
          turn s class self (suc n) job_running (starting_in job_post_start w)
                (go_on job_running w₁) refl refl (simp (e₁, y))
              ∙ stays s class self n w₁ job_running s₁,
          s₁,
          g₁,
          f₁,
        )
        | inr f ↦ (
          w₂,
          turn s class self (suc n) job_running (starting_in job_post_start w)
                (go_on job_running w₂) refl refl (simp (e₁, f, e₂))
              ∙ stays s class self n w₂ job_running (s₂ ∙ s₁),
          s₂ ∙ s₁,
          g₂ ∙ g₁,
          f₂ ∙ f₁,
        )
      ]

  -- The states where a start comes to rest, from each state on.
  abbrev pub rest_post_start : JobState
  rest_post_start = if class.process process_post_start then job_post_start else job_running

  abbrev pub rest_spawned : JobState
  rest_spawned = if class.process process_main then job_spawned else rest_post_start

  abbrev pub rest_pre_start : JobState
  rest_pre_start = if class.process process_pre_start then job_pre_start else rest_spawned

  abbrev pub rest_security : JobState
  rest_security =
      if class.process process_security && s.apparmor_available
      then job_security
      else rest_pre_start

  to_post_start :
      (n : ℕ) (w : World)
      → Settles w
      → ComesTo (suc (suc (suc n))) job_post_start (starting_in job_post_starting w) rest_post_start
  unfolding enter go_after wait_for job_next_state next_of either either_respawn
  to_post_start n w h =
      let entered = emit_output (state_changed job_post_start) (starting_in job_post_start w) in
      elim (Bool-cases (class.process process_post_start)) [
        | inl y ↦ (
          entered,
          turn s class self (suc (suc n)) job_post_start (starting_in job_post_starting w)
                (go_on job_post_start entered) refl refl (simp y)
              ∙ stays s class self (suc n) entered job_post_start refl,
          simp y,
          refl,
          refl,
        )
        | inr f ↦
            let (w', e, st, g, fr) =
              to_running n (emit_output (state_changed job_post_start) w) h in
            (
              w',
              turn s class self (suc (suc n)) job_post_start (starting_in job_post_starting w)
                    (go_on job_running entered) refl refl (simp f)
                  ∙ e,
              st ∙ simp f,
              g,
              fr,
            )
      ]

  pub to_post_starting :
      (n : ℕ) (w : World)
      → Settles w
      → ComesTo
          (suc (suc (suc (suc n))))
          job_post_starting
          (starting_in job_spawned w)
          rest_post_start
  unfolding enter go_after start_process job_process_start job_next_state next_of either
  to_post_starting n w h =
      let entered =
        emit_output (state_changed job_post_starting) (starting_in job_post_starting w) in
      elim (Bool-cases (class.process process_post_start)) [
        | inl y ↦
            let (w', e, st, g, fr) =
              to_post_start n (process_of s class self process_post_start entered) h in
            (
              w',
              turn s class self (suc (suc (suc n))) job_post_starting (starting_in job_spawned w)
                    (go_on job_post_start (process_of s class self process_post_start entered)) refl
                    refl (simp y)
                  ∙ e,
              st,
              g,
              fr,
            )
        | inr f ↦
            let (w', e, st, g, fr) = to_post_start n entered h in
            (
              w',
              turn s class self (suc (suc (suc n))) job_post_starting (starting_in job_spawned w)
                    (go_on job_post_start entered) refl refl (simp f)
                  ∙ e,
              st,
              g,
              fr,
            )
      ]
