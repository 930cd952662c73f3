-- ===== src/Job/Finished/Answers.antt =====
-- What job_finished and job_failed do with a job's list of blocked things.
use startup.Base.{
  ℕ, ◌+◌, ◌≤◌, ◌<◌, Bool, true, false, Option, List, [], ◌∷◌, ◌++◌, ◌≡◌, refl, arith, ◌||◌, ◌&&◌,
  ==_iff, sym, ltb, ap, ◌∙◌, append-nil, append_assoc,
}
use startup.Blocked.{
  Blocked, BlockedType, type_job, type_event, type_emit_method, type_job_start_method,
  type_job_stop_method, type_job_restart_method, type_instance_start_method,
  type_instance_stop_method, type_instance_restart_method,
}
use startup.Event.{Event, Store}
use startup.Event.Block.{one_at, one_at_self, event_unblock_lem}
use startup.Job.{
  ProcessType, Job, World, done, Output, failed_signal, reply, error_reply, emit_output,
}
use startup.Job.Finished.{mark_failed, finish_one, finish_all, job_finished, job_failed}

-- The types of what may wait for a job's end.
abbrev pub waits : BlockedType → Bool
waits type_job = false
waits type_emit_method = false
waits _ = true

abbrev pub one_held : BlockedType → ℕ → ℕ → ℕ
one_held type_event address i = one_at address i
one_held _ address i = 0

-- How often the list holds the event at `i`.
abbrev pub held : List Blocked → ℕ → ℕ
held [] i = 0
held (b ∷ bs) i = one_held b.type b.address i + held bs i

abbrev pub AllWait : List Blocked → Type 0
AllWait [] = Unit
AllWait (b ∷ bs) = (waits b.type ≡ true) × AllWait bs

-- No event is held more often than it counts blockers.
abbrev pub IsCovered : List Blocked → Store → Type 0
IsCovered bs st = (i : ℕ) → held bs i ≤ (st i).blockers

abbrev pub answers_one : Bool → BlockedType → Blocked → List Output
answers_one failed type_event b = []
answers_one true _ b = error_reply b ∷ []
answers_one false _ b = reply b ∷ []

-- The answers to the messages that wait, in order.
abbrev pub answers : Bool → List Blocked → List Output
answers failed [] = []
answers failed (b ∷ bs) = answers_one failed b.type b ++ answers failed bs

-- The counters of the events lowered by as many blocks as are held, and the mark of an event that
-- is held by a job that failed.
abbrev pub Released : Bool → (ℕ → ℕ) → World → World → Type 0
Released failed h w w' =
    ((i : ℕ) → (w'.events.store i).blockers + h i ≡ (w.events.store i).blockers)
    × ((i : ℕ)
        → (w'.events.store i).failed ≡ ((w.events.store i).failed || (failed && ltb 0 (h i))))
    × (w'.job ≡ w.job)
    × (w'.events.events ≡ w.events.events)
    × (w'.events.fresh ≡ w.events.fresh)
    × (w'.freed ≡ w.freed)

Released-none :
    (failed : Bool) (o : List Output) (w : World)
    → Released failed (λ i. 0) w (record w { output = o })
Released-none failed o w = ((λ i. omega arith), (λ i. ground arith), refl, refl, refl, refl)

mark_failed-event :
    (failed : Bool) (a : ℕ) (st : Store) (i : ℕ)
    → (mark_failed failed a st i).failed ≡ ((st i).failed || (failed && ltb 0 (one_at a i)))
unfolding mark_failed
mark_failed-event true a st i = ground (arith, ==_iff a i)
mark_failed-event false a st i = ground arith

mark_failed-blockers :
    (failed : Bool) (a : ℕ) (st : Store) (i : ℕ)
    → (mark_failed failed a st i).blockers ≡ (st i).blockers
unfolding mark_failed
mark_failed-blockers true a st i = ground (arith, ==_iff a i)
mark_failed-blockers false a st i = refl

finish_event :
    (failed : Bool) (b : Blocked) (w : World)
    → 0 < (w.events.store b.address).blockers
    → (w' : World) × (finish_one type_event failed b w ≡ done w')
      × Released failed (one_at b.address) w w'
      × (w'.output ≡ w.output)
unfolding finish_one
finish_event failed b w h =
    let st = mark_failed failed b.address w.events.store in
    let (st', e, u, c) =
      event_unblock_lem b.address st
        (omega (arith, h, mark_failed-blockers failed b.address w.events.store b.address)) in
    (
      record w { events = record (w.events) { store = st' } },
      rw e refl,
      (
        (λ i. omega (arith, c i, mark_failed-blockers failed b.address w.events.store i)),
        (λ i.
            ap {B = Bool} (λ (x : Event). x.failed) (u i)
            ∙ mark_failed-event failed b.address w.events.store i),
        refl,
        refl,
        refl,
        refl,
      ),
      refl,
    )

pub finish_one_lem :
    (failed : Bool) (b : Blocked) (type : BlockedType) (w : World)
    → waits type ≡ true
    → ((i : ℕ) → one_held type b.address i ≤ (w.events.store i).blockers)
    → (w' : World) × (finish_one type failed b w ≡ done w')
      × Released failed (one_held type b.address) w w'
      × (w'.output ≡ w.output ++ answers_one failed type b)
unfolding finish_one
finish_one_lem failed b type_event w h cover =
    let (w', e, r, o) =
      finish_event failed b w (omega (arith, cover b.address, one_at_self b.address)) in
    (w', e, r, o ∙ sym (append-nil w.output))
finish_one_lem failed b type_job w h cover = ground arith
finish_one_lem failed b type_emit_method w h cover = ground arith
finish_one_lem true b type_job_start_method w h cover =
    (_, refl, Released-none true (w.output ++ error_reply b ∷ []) w, refl)
finish_one_lem true b type_job_stop_method w h cover =
    (_, refl, Released-none true (w.output ++ error_reply b ∷ []) w, refl)
finish_one_lem true b type_job_restart_method w h cover =
    (_, refl, Released-none true (w.output ++ error_reply b ∷ []) w, refl)
finish_one_lem true b type_instance_start_method w h cover =
    (_, refl, Released-none true (w.output ++ error_reply b ∷ []) w, refl)
finish_one_lem true b type_instance_stop_method w h cover =
    (_, refl, Released-none true (w.output ++ error_reply b ∷ []) w, refl)
finish_one_lem true b type_instance_restart_method w h cover =
    (_, refl, Released-none true (w.output ++ error_reply b ∷ []) w, refl)
finish_one_lem false b type_job_start_method w h cover =
    (_, refl, Released-none false (w.output ++ reply b ∷ []) w, refl)
finish_one_lem false b type_job_stop_method w h cover =
    (_, refl, Released-none false (w.output ++ reply b ∷ []) w, refl)
finish_one_lem false b type_job_restart_method w h cover =
    (_, refl, Released-none false (w.output ++ reply b ∷ []) w, refl)
finish_one_lem false b type_instance_start_method w h cover =
    (_, refl, Released-none false (w.output ++ reply b ∷ []) w, refl)
finish_one_lem false b type_instance_stop_method w h cover =
    (_, refl, Released-none false (w.output ++ reply b ∷ []) w, refl)
finish_one_lem false b type_instance_restart_method w h cover =
    (_, refl, Released-none false (w.output ++ reply b ∷ []) w, refl)

marks-add :
    (x f : Bool) (m n : ℕ) → ((x || (f && ltb 0 m)) || (f && ltb 0 n)) ≡ (x || (f && ltb 0 (m + n)))
marks-add x f m n = ground arith

pub finish_all_lem :
    (failed : Bool) (bs : List Blocked) (w : World)
    → AllWait bs
    → IsCovered bs w.events.store
    → (w' : World) × (finish_all failed bs w ≡ done w')
      × Released failed (held bs) w w'
      × (w'.output ≡ w.output ++ answers failed bs)
unfolding finish_all
finish_all_lem failed [] w h cover = (w, refl, Released-none failed w.output w, sym (append-nil _))
finish_all_lem failed (b ∷ bs) w h cover =
    let (w₁, e₁, (c₁, f₁, j₁, v₁, n₁, g₁), o₁) =
      finish_one_lem failed b b.type w h.0 (λ i. omega (arith, cover i)) in
    let (w₂, e₂, (c₂, f₂, j₂, v₂, n₂, g₂), o₂) =
      finish_all_lem failed bs w₁ h.1 (λ i. omega (arith, cover i, c₁ i)) in
    (
      w₂,
      rw e₁ e₂,
      (
        (λ i. omega (arith, c₁ i, c₂ i)),
        (λ i. f₂ i ∙ rw (f₁ i) (marks-add _ failed (one_held b.type b.address i) (held bs i))),
        j₂ ∙ j₁,
        v₂ ∙ v₁,
        n₂ ∙ n₁,
        g₂ ∙ g₁,
      ),
      o₂ ∙ rw o₁ (append_assoc w.output _ _),
    )

-- Where only events and messages wait for the job, and no event is held more often than it counts
-- blockers, job_finished returns: every event's counter falls by as often as it was held, the events
-- held are marked if the job failed, every message gets its answer in order, and of the job nothing
-- changes but that nothing waits for it any more.
pub job_finished_lem :
    (failed : Bool) (w : World)
    → AllWait w.job.blocking
    → IsCovered w.job.blocking w.events.store
    → (w' : World) × (job_finished failed w ≡ done w')
      × ((i : ℕ)
          → (w'.events.store i).blockers + held w.job.blocking i ≡ (w.events.store i).blockers)
      × ((i : ℕ)
          → (w'.events.store i).failed
            ≡ ((w.events.store i).failed || (failed && ltb 0 (held w.job.blocking i))))
      × (w'.job ≡ record (w.job) { blocking = [] })
      × (w'.output ≡ w.output ++ answers failed w.job.blocking)
      × (w'.freed ≡ w.freed)
unfolding job_finished
job_finished_lem failed w h cover =
    let (w₁, e, (c, f, j, v, n, g), o) = finish_all_lem failed w.job.blocking w h cover in
    (
      record w₁ { job = record (w₁.job) { blocking = [] } },
      rw e refl,
      c,
      f,
      ap {B = Job} (λ (job : Job). record job { blocking = [] }) j,
      o,
      g,
    )

-- The first failure of a job is recorded with its process and status and signalled, then everything
-- that waits for the job is told that it failed; a failure after that changes nothing. It holds
-- where only events and messages wait, and no event is held more often than it counts blockers.
pub job_failed_lem :
    (process : Option ProcessType) (status : Option ℕ) (w : World)
    → w.job.failed ≡ false
    → AllWait w.job.blocking
    → IsCovered w.job.blocking w.events.store
    → (w' : World) × (job_failed process status w ≡ done w')
      × (w'.job ≡ record (w.job) {
        failed = true;
        failed_process = process;
        exit_status = status;
        blocking = [];
      })
      × (w'.output ≡ (w.output ++ failed_signal status ∷ []) ++ answers true w.job.blocking)
      × ((i : ℕ)
          → (w'.events.store i).failed
            ≡ ((w.events.store i).failed || ltb 0 (held w.job.blocking i)))
      × ((p : Option ProcessType) (n : Option ℕ) → job_failed p n w' ≡ done w')
unfolding job_failed
job_failed_lem process status w f h cover =
    let marked = emit_output (failed_signal status) (record w {
      job = record (w.job) { failed = true; failed_process = process; exit_status = status };
    }) in
    let (w', e, c, m, j, o, g) = job_finished_lem true marked h cover in
    let y : w'.job.failed ≡ true = ap {B = Bool} (λ (job : Job). job.failed) j in
    (w', rw f e, j, o, m, λ p n. rw y refl)
