-- ===== src/Process/Terminated.antt =====
-- How job_process_terminated of init/job_process.c takes a running job down when its main process
-- ends.
use startup.Base.{
  ℕ, ◌&&◌, ◌||◌, Bool, true, false, not, none, some, [], if◌then◌else◌, ◌≡◌, refl, ap, arith,
  Bool-cases, inl, inr, subst,
}
use startup.Job.Emit.{Surroundings}
use startup.Job.Finished.{job_failed}
use startup.Job.Finished.Answers.{job_failed_lem}
use startup.Job.{
  job_stop, job_start, job_running, process_main, process_is, JobClass, Job, World, done, ◌>>=◌,
}
use startup.Job.State.Loop.{Settles}
use startup.Job.State.Stop.{goal_of}
use startup.Job.State.Start.Late.{starting_in}
use startup.Process.{
  Moment, Verdict, verdict, main_failed, catch_runaway, respawn_main, fail_main, judge_main, judge,
  clear_process, stop_job, conclude, job_process_terminated,
}
use startup.Process.Stops.{
  catch_runaway_job, Ended, stops_running, is_starting_in, stops_failed, restarts_running,
}

module _ (s : Surroundings) (class : JobClass) (self : ℕ) where
  -- What the end of the main process of a running job comes to.
  abbrev pub respawns : ℕ → Moment → Job → Bool
  respawns status moment job =
      ((main_failed s class self status && class.respawn) && not moment.disable_respawn)
      && not (catch_runaway moment.now class job).1

  abbrev cleared : World → World
  cleared w = clear_process s class self process_main false w

  conclude_stop :
      (status : ℕ) (w : World)
      → w.job.failed ≡ false
      → Settles w
      → Ended s class self
          (conclude s class self process_main status false
            (verdict (main_failed s class self status) true true)
            (starting_in job_running w))
          job_stop
          (main_failed s class self status)
  unfolding conclude clear_process
  conclude_stop status w nf h =
      let gone = cleared (starting_in job_running w) in
      elim (Bool-cases (main_failed s class self status)) [
        | inr f ↦
            rw f (subst (Ended s class self _ job_stop) nf (stops_running s class self gone refl h))
        | inl y ↦
            let (w₁, e₁, j₁, o₁, m₁, n₁) =
              job_failed_lem (some process_main) (some status) gone nf h.0 h.1 in
            rw (y, e₁) (stops_failed s class self gone w₁ (some process_main) status refl j₁)
      ]

  conclude_runaway :
      (status : ℕ) (w w₁ : World)
      → w₁.job ≡ record ((starting_in job_running w).job) {
        failed = true;
        failed_process = none;
        exit_status = some 0;
        blocking = [];
      }
      → Ended s class self
          (conclude s class self process_main status false (verdict false true true) w₁)
          job_stop
          true
  unfolding conclude clear_process
  conclude_runaway status w w₁ j = stops_failed s class self (cleared w) (cleared w₁) none 0 refl (
      ap
        (λ (x : Job). record x {
          kill_process = none;
          pid = λ q. if process_is process_main q then 0 else x.pid q;
        })
        j)

  conclude_respawn :
      (status : ℕ) (w : World)
      → Settles w
      → Ended s class self
          (conclude s class self process_main status false
            (verdict false false true)
            (starting_in job_running w))
          job_start
          w.job.failed
  unfolding conclude clear_process stop_job
  conclude_respawn status w h =
      restarts_running s class self (cleared (starting_in job_running w)) refl h

  -- The world in which catch_runaway has counted the end of the process.
  abbrev caught : Moment → World → World
  caught moment w = record w { job = (catch_runaway moment.now class w.job).0 }

  ends_runaway :
      (status t c : ℕ) (moment : Moment) (w : World)
      → (catch_runaway moment.now class w.job).0
        ≡ record (w.job) { respawn_time = t; respawn_count = c }
      → w.job.state ≡ job_running
      → w.job.goal ≡ job_start
      → w.job.blocker ≡ none
      → w.job.failed ≡ false
      → Settles w
      → Ended s class self
          (◌>>=◌ {A = Verdict × World}
            (job_failed none (some 0) (caught moment w) >>= λ w'.
              done (verdict false true true, w'))
            (λ (v, w'). conclude s class self process_main status false v w'))
          job_stop
          true
  ends_runaway status t c moment w j st g b nf h =
      let base = record w { job = record (w.job) { respawn_time = t; respawn_count = c } } in
      let (w₁, e₁, j₁, o₁, m₁, n₁) = job_failed_lem none (some 0) base nf h.0 h.1 in
      rw (j, e₁)
        (conclude_runaway status base w₁ (
          rw
            (ap
              (λ (v : World). record (v.job) {
                failed = true;
                failed_process = none;
                exit_status = some 0;
                blocking = [];
              })
              (is_starting_in s class self base st g b))
            j₁))

  ends_respawn :
      (status t c : ℕ) (moment : Moment) (w : World)
      → (catch_runaway moment.now class w.job).0
        ≡ record (w.job) { respawn_time = t; respawn_count = c }
      → w.job.state ≡ job_running
      → w.job.goal ≡ job_start
      → w.job.blocker ≡ none
      → Settles w
      → Ended s class self
          (◌>>=◌ {A = Verdict × World}
            (respawn_main s class self true (caught moment w))
            (λ (v, w'). conclude s class self process_main status false v w'))
          job_start
          w.job.failed
  unfolding respawn_main
  ends_respawn status t c moment w j st g b h =
      let base = record w { job = record (w.job) { respawn_time = t; respawn_count = c } } in
      rw j (
        subst
          (λ v.
            Ended s class self
              (◌>>=◌ {A = Verdict × World} (respawn_main s class self true v)
                (λ (x, w'). conclude s class self process_main status false x w'))
              job_start w.job.failed)
          (is_starting_in s class self base st g b) (conclude_respawn status base h))

  terminated_running :
      (status : ℕ) (moment : Moment) (w : World)
      → w.job.failed ≡ false
      → Settles w
      → Ended s class self
          (job_process_terminated s class self process_main status false moment
            (starting_in job_running w))
          (goal_of (respawns status moment (starting_in job_running w).job))
          (main_failed s class self status
            && not (respawns status moment (starting_in job_running w).job))
  unfolding job_process_terminated judge judge_main fail_main
  terminated_running status moment w nf h =
      let mf = main_failed s class self status in
      let v = starting_in job_running w in
      let (t, c, j) = catch_runaway_job moment.now class v.job in
      elim (Bool-cases (not mf || not class.respawn || moment.disable_respawn)) [
        | inl y ↦
            let r : respawns status moment v.job ≡ false = ground (arith, y) in
            let same : (mf && true) ≡ mf = ground arith in
            rw (y, r, same) (conclude_stop status w nf h)
        | inr f ↦
            let failed : mf ≡ true = ground (arith, f) in
            elim (Bool-cases (catch_runaway moment.now class v.job).1) [
              | inl away ↦
                  let r : respawns status moment v.job ≡ false = ground (arith, away) in
                  rw (r, f, failed, away) (ends_runaway status t c moment v j refl refl refl nf h)
              | inr back ↦
                  let r : respawns status moment v.job ≡ true = ground (arith, f, back) in
                  rw (r, f, failed, back)
                    (subst (Ended s class self _ job_start) nf
                      (ends_respawn status t c moment v j refl refl refl h))
            ]
      ]

  -- When the main process of a running job that is to run ends, the job goes to the stopping state and
  -- is blocked there for its event, without a main process: to be started again exactly if the end is
  -- a failure by the exit status, the class respawns, respawning is not disabled and did not happen
  -- too often; else with the goal stop, and marked failed exactly if the end is a failure. It holds
  -- for a job that no event blocks and that has not failed, where whatever waits for it can be
  -- released; the notice of the end is the first one for the process.
  pub job_process_terminated-running :
      (status : ℕ) (moment : Moment) (w : World)
      → w.job.state ≡ job_running
      → w.job.goal ≡ job_start
      → w.job.blocker ≡ none
      → w.job.failed ≡ false
      → Settles w
      → Ended s class self
          (job_process_terminated s class self process_main status false moment w)
          (goal_of (respawns status moment w.job))
          (main_failed s class self status && not (respawns status moment w.job))
  job_process_terminated-running status moment w st g b nf h =
      subst
        (λ v.
          Ended s class self
            (job_process_terminated s class self process_main status false moment v)
            (goal_of (respawns status moment v.job))
            (main_failed s class self status && not (respawns status moment v.job)))
        (is_starting_in s class self w st g b) (terminated_running status moment w nf h)
