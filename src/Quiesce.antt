-- ===== src/Quiesce.antt =====
-- The shutdown of a session: init/quiesce.c, with job_class_max_kill_timeout of init/job_class.c. The
-- clock, the jobs and the conditions of the classes are what each call finds of them; messages are
-- left out.
mod Tests
pub mod Deadline
use startup.Base.{
  ℕ, ◌+◌, ◌-◌, Bool, true, false, not, Option, none, some, List, [], ◌∷◌, ◌++◌, ◌==◌, ◌&&◌, ◌||◌,
  ltb, leb, if◌then◌else◌, Str, codes,
}
use startup.Event.{Event}
use startup.EventOperator.{Gate, EventOperator, gate, event_match, event_operator_match}
use startup.Job.{Run, done, assertion_failed, diverges, ◌>>=◌, assert, checked}

pub data QuiesceRequester : Type 0 where
  requester_invalid requester_system requester_session : QuiesceRequester

pub data QuiescePhase : Type 0 where
  not_quiesced phase_wait phase_kill phase_cleanup : QuiescePhase

-- The static variables of the file, with what it changes elsewhere.
pub record Quiesce : Type 0 where
  pub requester : QuiesceRequester
  pub phase : QuiescePhase
  pub phase_time : ℕ
  pub start_time : ℕ
  pub max_kill_timeout : ℕ
  pub session_end_jobs : Bool
  pub disable_respawn : Bool
  pub timer : Bool  -- quiesce_wait_callback is called every second
  pub session_end : Option (List Str)  -- the environment of the event that is queued
  pub stops : ℕ  -- the calls of job_process_stop_all
  pub exiting : Bool  -- `finalising`, and nih_main_loop_exit was called

-- What a call finds: the time, the kill timeout of each class that has an instance, and whether a job
-- has a process, before and after all jobs are told to stop.
pub record Look : Type 0 where
  pub now : ℕ
  pub timeouts : List ℕ
  pub running : Bool
  pub running_after : Bool

unfoldable pub max_from : ℕ → List ℕ → ℕ
max_from kill_timeout [] = kill_timeout
max_from kill_timeout (t ∷ timeouts) =
    max_from (if ltb kill_timeout t then t else kill_timeout) timeouts

-- JOB_DEFAULT_KILL_TIMEOUT is 5.
unfoldable pub job_class_max_kill_timeout : List ℕ → ℕ
unfolding max_from
job_class_max_kill_timeout timeouts = max_from 5 timeouts

module _ (fnmatch : Str → Str → Bool) (env : List Str) where
  -- The post-order loop over one condition, which returns at the first leaf that matches.
  unfoldable pub leaf_matches : EventOperator → Event → Option Bool
  leaf_matches (gate g v l r) event = elim (leaf_matches l event) [
    | none ↦ none
    | some matched ↦ if matched then some true else leaf_matches r event
  ]
  leaf_matches (event_match name oenv v e) event = event_operator_match fnmatch env name oenv event

  -- Over the `start_on` of all classes.
  unfoldable pub quiesce_event_match : List (Option EventOperator) → Event → Option Bool
  unfolding leaf_matches
  quiesce_event_match [] event = some false
  quiesce_event_match (none ∷ start_ons) event = quiesce_event_match start_ons event
  quiesce_event_match (some start_on ∷ start_ons) event = elim (leaf_matches start_on event) [
    | none ↦ none
    | some matched ↦ if matched then some true else quiesce_event_match start_ons event
  ]

abbrev stop_all : Quiesce → Quiesce
stop_all q = record q { stops = q.stops + 1 }

abbrev is_cleanup : QuiescePhase → Bool
is_cleanup phase_cleanup = true
is_cleanup _ = false

unfoldable pub quiesce_finalise : Quiesce → Run Quiesce
quiesce_finalise q =
    assert (not (q.start_time == 0) && is_cleanup q.phase)
      (done (if q.exiting then q else record q { exiting = true }))

unfoldable pub quiesce_complete : Quiesce → Run Quiesce
unfolding quiesce_finalise
quiesce_complete q = quiesce_finalise (record q { phase = phase_cleanup })

abbrev pub first_phase : QuiesceRequester → QuiescePhase
first_phase requester_system = phase_kill
first_phase _ = phase_wait

-- The phase of killing begins; only the callback resets the time of the phase.
abbrev pub begin_kill : Look → Quiesce → Quiesce
begin_kill look q =
    stop_all
      (record q { phase = phase_kill; max_kill_timeout = job_class_max_kill_timeout look.timeouts })

-- Whether the wait phase is taken, and what becomes of it where no job cares for the event.
abbrev pub first_steps : QuiescePhase → Bool → Look → Quiesce → Quiesce
first_steps phase_wait true look q = stop_all (record q { session_end_jobs = true })
first_steps phase_wait false look q = begin_kill look (record q { session_end_jobs = false })
first_steps phase_kill cares look q = begin_kill look q
first_steps not_quiesced cares look q = q
first_steps phase_cleanup cares look q = q

-- `quiesce_reason`
abbrev pub reason : QuiesceRequester → Str
reason requester_session = codes "logout"
reason _ = codes "shutdown"

-- `cares` is what quiesce_event_match tells of the event that ends the session.
unfoldable pub quiesce : QuiesceRequester → Bool → Look → Quiesce → Quiesce
unfolding job_class_max_kill_timeout
quiesce requester cares look q = elim q.phase [
  | not_quiesced ↦
      record (first_steps (first_phase requester) cares look (record q {
        requester = requester;
        phase = first_phase requester;
        start_time = look.now;
        phase_time = look.now;
        disable_respawn = true;
        session_end = some ((codes "TYPE=" ++ reason requester) ∷ []);
      })) { timer = true }
  | phase_wait ↦ q
  | phase_kill ↦ q
  | phase_cleanup ↦ q
]

-- The label `out`: the timer is freed.
unfoldable pub leave : Quiesce → Run Quiesce
unfolding quiesce_complete
leave q = quiesce_complete q >>= λ q'. done (record q' { timer = false })

abbrev is_valid : QuiesceRequester → Bool
is_valid requester_invalid = false
is_valid requester_system = true
is_valid requester_session = true

-- QUIESCE_DEFAULT_JOB_RUNTIME is 5. The clock does not go back.
unfoldable pub wait_over : Look → Quiesce → Bool
wait_over look q = leb 5 (look.now - q.phase_time) || not look.running

unfoldable pub in_phase : QuiescePhase → Look → Quiesce → Run Quiesce
unfolding leave wait_over job_class_max_kill_timeout
in_phase phase_kill look q = assert (not (q.max_kill_timeout == 0)) (
    if ltb q.max_kill_timeout (look.now - q.phase_time)
    then leave q
    else if look.running
    then done q
    else leave q)
in_phase phase_wait look q =
    let next =
      if wait_over look q then begin_kill look (record q { phase_time = look.now }) else q in
    if (if wait_over look q then look.running_after else look.running)
    then done next
    else leave next
in_phase not_quiesced look q = assertion_failed
in_phase phase_cleanup look q = assertion_failed

unfoldable pub quiesce_wait_callback : Look → Quiesce → Run Quiesce
unfolding in_phase
quiesce_wait_callback look q =
    assert (q.timer && not (q.phase_time == 0) && is_valid q.requester) (in_phase q.phase look q)

-- The timer, as often as it is due.
unfoldable pub ticks : List Look → Quiesce → Run Quiesce
unfolding quiesce_wait_callback
ticks [] q = done q
ticks (look ∷ looks) q =
    let rest = quiesce_wait_callback look q >>= ticks looks in if q.timer then rest else done q
