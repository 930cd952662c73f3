-- ===== src/System/Finish.antt =====
-- What the end of an event does to the job that it blocks.
use startup.Base.{
  ℕ, ◌+◌, ◌==◌, ==_refl, ◌||◌, Bool, true, false, none, is_some, List, [], ◌∷◌, ◌≡◌, refl, ◌∙◌,
  Bool-cases, inl, inr,
}
use startup.Blocked.{type_job}
use startup.Event.{event_finished, index_from, event_to_index}
use startup.Job.Emit.{Surroundings}
use startup.Job.Errors.{advance}
use startup.Job.{
  job_start, job_starting, job_stopping, job_waiting, job_killed, job_security_spawning, JobClass,
  Job, World, Run, done, state_is,
}
use startup.Job.State.{either, next_of, job_next_state, job_change_state}
use startup.Job.State.Loop.{Settles}
use startup.Job.State.Stop.{goal_of, rest_killed, job_change_state-stop}
use startup.Job.State.Start.{job_change_state-start}
use startup.Job.State.Start.Late.{rest_security}
use startup.System.{
  System, world_of, put, remove_event, finish_waiter, finish_waiters, finish_event,
}
use startup.System.Failed.{queue_failed_total}

index_from-remove : (k i : ℕ) (es : List ℕ) → index_from k (remove_event i es) i ≡ none
unfolding index_from remove_event
index_from-remove k i [] = refl
index_from-remove k i (e ∷ es) = elim (Bool-cases (e == i)) [
  | inl y ↦ rw y (index_from-remove k i es)
  | inr n ↦ rw (n, n) (index_from-remove (k + 1) i es)
]

module _ (s : ℕ → Surroundings) (class : ℕ → JobClass) where
  -- The event has ended, with this job changed as the other world tells and no other job changed.
  abbrev pub Finished : Run System → ℕ → ℕ → System → (World → Type 0) → Type 0
  Finished r i j sys P =
      (sys' : System) × (r ≡ done sys')
      × P (world_of j sys')
      × ((k : ℕ) → (k == j) ≡ false → sys'.job k ≡ sys.job k)
      × (event_to_index sys'.events.events i ≡ none)

  finishes :
      (i j : ℕ) (sys : System) (w' : World) (P : Job → Bool → Type 0)
      → (sys.events.store i).progress ≡ event_finished
      → (sys.events.store i).blocking ≡ record { type = type_job; address = j } ∷ []
      → advance
          (s j)
          (class j)
          j
          (record (world_of j sys) { job = record (sys.job j) { blocker = none } })
        ≡ done w'
      → P w'.job w'.freed
      → Finished (finish_event s class i sys) i j sys (λ v. P v.job v.freed)
  unfolding finish_event finish_waiters finish_waiter event_to_index
  finishes i j sys w' P f b e p =
      let (queued, q) = queue_failed_total i w'.events in
      (
        record (put j w' sys) { events = record queued { events = remove_event i queued.events } },
        rw (f, b, e, q) refl,
        rw (==_refl j) p,
        λ k ne. rw ne refl,
        index_from-remove 0 i queued.events,
      )

  advance_starting :
      (j : ℕ) (w : World)
      → w.job.state ≡ job_starting
      → w.job.goal ≡ job_start
      → advance (s j) (class j) j w ≡ job_change_state (s j) (class j) j 20 job_security_spawning w
  unfolding advance job_next_state next_of either
  advance_starting j w st g = rw (st, g) refl

  advance_stopping :
      (again : Bool) (j : ℕ) (w : World)
      → w.job.state ≡ job_stopping
      → w.job.goal ≡ goal_of again
      → advance (s j) (class j) j w ≡ job_change_state (s j) (class j) j 20 job_killed w
  unfolding advance job_next_state next_of either
  advance_stopping false j w st g = rw (st, g) refl
  advance_stopping true j w st g = rw (st, g) refl

  -- When the starting event of a job is finished, the job goes on to the first state that waits for a
  -- process, or to running; no other job changes, and the event has left the list. It holds for an
  -- event that blocks this job and nothing else, and a job in the starting state that is to run,
  -- where whatever waits for it can be released.
  pub finish_event-starting :
      (i j : ℕ) (sys : System)
      → (sys.events.store i).progress ≡ event_finished
      → (sys.events.store i).blocking ≡ record { type = type_job; address = j } ∷ []
      → (sys.job j).state ≡ job_starting
      → (sys.job j).goal ≡ job_start
      → Settles (world_of j sys)
      → Finished (finish_event s class i sys) i j sys (λ v.
        (v.job.state ≡ rest_security (s j) (class j) j)
        × (v.job.goal ≡ job_start)
        × (v.freed ≡ sys.freed j))
  finish_event-starting i j sys f b st g h =
      let w = record (world_of j sys) { job = record (sys.job j) { blocker = none } } in
      let (w', e, st', g', fr) = job_change_state-start (s j) (class j) j w st g refl h in
      finishes i j sys w'
        (λ job freed.
          (job.state ≡ rest_security (s j) (class j) j)
          × (job.goal ≡ job_start)
          × (freed ≡ sys.freed j))
        f b (advance_starting j w st g ∙ e) (st', g', fr)

  -- When the stopping event of a job is finished, the job goes on to the killed state if its main
  -- process runs, and else to post-stop, or to its end: freed if its goal is stop, and blocked in
  -- the starting state again if it is start. No other job changes, and the event has left the list. It
  -- holds for an event that blocks this job and nothing else, and a job in the stopping state with a
  -- kill timeout, that no signal was sent to, where whatever waits for it can be released.
  pub finish_event-stopping :
      (again : Bool) (i j : ℕ) (sys : System)
      → (sys.events.store i).progress ≡ event_finished
      → (sys.events.store i).blocking ≡ record { type = type_job; address = j } ∷ []
      → (sys.job j).state ≡ job_stopping
      → (sys.job j).goal ≡ goal_of again
      → (sys.job j).kill_process ≡ none
      → ((class j).kill_timeout == 0) ≡ false
      → Settles (world_of j sys)
      → Finished (finish_event s class i sys) i j sys (λ v.
        (v.job.state ≡ rest_killed (s j) (class j) j again (world_of j sys))
        × (v.freed ≡ (
            state_is (rest_killed (s j) (class j) j again (world_of j sys)) job_waiting
            || sys.freed j))
        × (is_some v.job.blocker
            ≡ state_is (rest_killed (s j) (class j) j again (world_of j sys)) job_starting))
  finish_event-stopping again i j sys f b st g k t h =
      let w = record (world_of j sys) { job = record (sys.job j) { blocker = none } } in
      let rest = rest_killed (s j) (class j) j again (world_of j sys) in
      let (w', e, st', fr, bl) = job_change_state-stop (s j) (class j) j again w st g refl k t h in
      finishes i j sys w'
        (λ job freed.
          (job.state ≡ rest)
          × (freed ≡ (state_is rest job_waiting || sys.freed j))
          × (is_some job.blocker ≡ state_is rest job_starting))
        f b (advance_stopping again j w st g ∙ e) (st', fr, bl)
