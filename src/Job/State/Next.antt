-- ===== src/Job/State/Next.antt =====
-- Where job_next_state goes.
use startup.Base.{
  Bool, true, false, not, ◌||◌, if◌then◌else◌, ◌≡◌, refl, arith, ◌<◌, ◌⊎◌, inl, inr, Bool-cases,
}
use startup.Job.{
  JobGoal, job_stop, job_start, job_respawn, JobState, job_waiting, job_starting,
  job_security_spawning, job_security, job_pre_starting, job_pre_start, job_spawning, job_spawned,
  job_post_starting, job_post_start, job_running, job_pre_stopping, job_pre_stop, job_stopping,
  job_killed, job_post_stopping, job_post_stop, JobClass, World, done, assertion_failed, goal_is,
  state_is, state_num,
}
use startup.Job.State.{
  set_goal, either, either_respawn, from_waiting, next_of, job_next_state, main_runs,
}

-- The states in which a job may be respawned.
abbrev pub respawns : JobState → Bool
respawns st = state_is st job_post_start || state_is st job_pre_stop

-- A goal that leads on from the state.
abbrev pub leads_on : JobState → JobGoal → Bool
leads_on st job_start = true
leads_on st job_stop = not (state_is st job_waiting)
leads_on st job_respawn = respawns st

-- A respawn is a start from then on.
abbrev pub settled : World → World
settled w = if goal_is w.job.goal job_respawn then set_goal job_start w else w

-- The next state comes later in a job's life, but after the last one, and where a stop is cancelled.
abbrev pub IsProgress : JobState → JobGoal → JobState → Type 0
IsProgress st goal target =
    (state_num st < state_num target)
    ⊎ (st ≡ job_post_stop)
    ⊎ ((st ≡ job_pre_stop) × (goal ≡ job_start) × (target ≡ job_running))

abbrev pub NextOf : JobState → JobGoal → JobClass → World → Type 0
NextOf st goal class w =
    ((leads_on st goal ≡ true)
      × ((target : JobState) × (next_of st goal class w
            ≡ done (target, if goal_is goal job_respawn then set_goal job_start w else w))
          × IsProgress st goal target))
    ⊎ ((leads_on st goal ≡ false) × (next_of st goal class w ≡ assertion_failed))

next_of_lem :
    (st : JobState) (goal : JobGoal) (class : JobClass) (w : World) → NextOf st goal class w
unfolding next_of either either_respawn from_waiting
next_of_lem job_waiting job_start class w = inl (refl, (_, refl, inl (omega arith)))
next_of_lem job_waiting job_stop class w = inr (refl, refl)
next_of_lem job_waiting job_respawn class w = inr (refl, refl)
next_of_lem job_starting job_start class w = inl (refl, (_, refl, inl (omega arith)))
next_of_lem job_starting job_stop class w = inl (refl, (_, refl, inl (omega arith)))
next_of_lem job_starting job_respawn class w = inr (refl, refl)
next_of_lem job_security_spawning job_start class w = inl (refl, (_, refl, inl (omega arith)))
next_of_lem job_security_spawning job_stop class w = inl (refl, (_, refl, inl (omega arith)))
next_of_lem job_security_spawning job_respawn class w = inr (refl, refl)
next_of_lem job_security job_start class w = inl (refl, (_, refl, inl (omega arith)))
next_of_lem job_security job_stop class w = inl (refl, (_, refl, inl (omega arith)))
next_of_lem job_security job_respawn class w = inr (refl, refl)
next_of_lem job_pre_starting job_start class w = inl (refl, (_, refl, inl (omega arith)))
next_of_lem job_pre_starting job_stop class w = inl (refl, (_, refl, inl (omega arith)))
next_of_lem job_pre_starting job_respawn class w = inr (refl, refl)
next_of_lem job_pre_start job_start class w = inl (refl, (_, refl, inl (omega arith)))
next_of_lem job_pre_start job_stop class w = inl (refl, (_, refl, inl (omega arith)))
next_of_lem job_pre_start job_respawn class w = inr (refl, refl)
next_of_lem job_spawning job_start class w = inl (refl, (_, refl, inl (omega arith)))
next_of_lem job_spawning job_stop class w = inl (refl, (_, refl, inl (omega arith)))
next_of_lem job_spawning job_respawn class w = inr (refl, refl)
next_of_lem job_spawned job_start class w = inl (refl, (_, refl, inl (omega arith)))
next_of_lem job_spawned job_stop class w = inl (refl, (_, refl, inl (omega arith)))
next_of_lem job_spawned job_respawn class w = inr (refl, refl)
next_of_lem job_post_starting job_start class w = inl (refl, (_, refl, inl (omega arith)))
next_of_lem job_post_starting job_stop class w = inl (refl, (_, refl, inl (omega arith)))
next_of_lem job_post_starting job_respawn class w = inr (refl, refl)
next_of_lem job_post_start job_start class w = inl (refl, (_, refl, inl (omega arith)))
next_of_lem job_post_start job_stop class w = inl (refl, (_, refl, inl (omega arith)))
next_of_lem job_post_start job_respawn class w = inl (refl, (_, refl, inl (omega arith)))
next_of_lem job_running job_start class w = inl (refl, (_, refl, inl (omega arith)))
next_of_lem job_running job_stop class w = elim (Bool-cases (main_runs class w.job)) [
  | inl y ↦ inl (refl, (job_pre_stopping, rw y refl, inl (omega arith)))
  | inr f ↦ inl (refl, (job_stopping, rw f refl, inl (omega arith)))
]
next_of_lem job_running job_respawn class w = inr (refl, refl)
next_of_lem job_pre_stopping job_start class w = inl (refl, (_, refl, inl (omega arith)))
next_of_lem job_pre_stopping job_stop class w = inl (refl, (_, refl, inl (omega arith)))
next_of_lem job_pre_stopping job_respawn class w = inr (refl, refl)
next_of_lem job_pre_stop job_start class w = inl (refl, (_, refl, inr (inr (refl, refl, refl))))
next_of_lem job_pre_stop job_stop class w = inl (refl, (_, refl, inl (omega arith)))
next_of_lem job_pre_stop job_respawn class w = inl (refl, (_, refl, inl (omega arith)))
next_of_lem job_stopping job_start class w = inl (refl, (_, refl, inl (omega arith)))
next_of_lem job_stopping job_stop class w = inl (refl, (_, refl, inl (omega arith)))
next_of_lem job_stopping job_respawn class w = inr (refl, refl)
next_of_lem job_killed job_start class w = inl (refl, (_, refl, inl (omega arith)))
next_of_lem job_killed job_stop class w = inl (refl, (_, refl, inl (omega arith)))
next_of_lem job_killed job_respawn class w = inr (refl, refl)
next_of_lem job_post_stopping job_start class w = inl (refl, (_, refl, inl (omega arith)))
next_of_lem job_post_stopping job_stop class w = inl (refl, (_, refl, inl (omega arith)))
next_of_lem job_post_stopping job_respawn class w = inr (refl, refl)
next_of_lem job_post_stop job_start class w = inl (refl, (_, refl, inr (inl refl)))
next_of_lem job_post_stop job_stop class w = inl (refl, (_, refl, inr (inl refl)))
next_of_lem job_post_stop job_respawn class w = inr (refl, refl)

-- job_next_state fails its assertion exactly for a waiting job that is to be stopped, and for a job
-- that is to be respawned from a state other than post-start and pre-stop. Otherwise it changes
-- nothing, except that a respawn becomes a start, and the state that it gives comes later in the
-- job's life, unless the job is in its last state, or in pre-stop with its stop cancelled.
pub job_next_state_lem :
    (class : JobClass) (w : World)
    → ((leads_on w.job.state w.job.goal ≡ true)
        × ((target : JobState) × (job_next_state class w ≡ done (target, settled w))
            × IsProgress w.job.state w.job.goal target))
      ⊎ ((leads_on w.job.state w.job.goal ≡ false) × (job_next_state class w ≡ assertion_failed))
unfolding job_next_state
job_next_state_lem class w = next_of_lem w.job.state w.job.goal class w
