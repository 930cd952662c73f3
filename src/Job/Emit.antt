-- ===== src/Job/Emit.antt =====
-- job_emit_event_env and job_emit_event of init/job.c, and process_name of init/process.c. `decimal`
-- is what "%d" prints, `signal_name` is nih_signal_to_name.
use startup.Base.{
  ℕ, ◌/◌, Bool, true, false, Option, none, some, List, [], ◌∷◌, ◌++◌, ltb, if◌then◌else◌, Str,
  codes,
}
use startup.Environ.{environ_add, environ_lookup}
use startup.Blocked.{blocked_new, type_job}
use startup.Event.{Events, store_event, event_new}
use startup.Job.{
  JobState, job_waiting, job_starting, job_running, job_stopping, ProcessType, process_main,
  process_pre_start, process_post_start, process_pre_stop, process_post_stop, process_security,
  JobClass, Job, World, Run, done, assertion_failed, ◌>>=◌, checked,
}

unfoldable pub process_name : ProcessType → Str
process_name process_main = codes "main"
process_name process_pre_start = codes "pre-start"
process_name process_post_start = codes "post-start"
process_name process_pre_stop = codes "pre-stop"
process_name process_post_stop = codes "post-stop"
process_name process_security = codes "security"

-- What init asks of its surroundings.
pub record Surroundings : Type 0 where
  pub getenv : Str → Option Str
  pub decimal : ℕ → Str
  pub signal_name : ℕ → Option Str
  pub apparmor_available : Bool
  pub spawn : ProcessType → ℕ  -- the pid of a new process
  pub kill_succeeds : Bool
  pub unused : Bool  -- the answer of job_class_reconsider

module _ (s : Surroundings) (class : JobClass) where
  abbrev add : List Str → Str → List Str
  add env str = environ_add s.getenv env true str

  -- The loop over the exported names.
  unfoldable pub add_exports : List Str → List Str → List Str → List Str
  add_exports job_env [] env = env
  add_exports job_env (e ∷ es) env = add_exports job_env es (elim (environ_lookup job_env e) [
    | some (str ∷ rest) ↦ environ_add s.getenv env false str
    | _ ↦ env
  ])

  -- A wait status over 255 holds a signal in its higher byte.
  unfoldable pub exit_string : ℕ → Str
  exit_string status =
      if ltb 255 status
      then elim (s.signal_name (status / 256)) [
        | some name ↦ codes "EXIT_SIGNAL=" ++ name
        | none ↦ codes "EXIT_SIGNAL=" ++ s.decimal (status / 256)
      ]
      else codes "EXIT_STATUS=" ++ s.decimal status

  unfoldable pub add_exit : Option ℕ → List Str → List Str
  unfolding exit_string
  add_exit none env = env
  add_exit (some status) env = add env (exit_string status)

  unfoldable pub add_process : Option ProcessType → Option ℕ → List Str → List Str
  unfolding add_exit process_name
  add_process none status env = add env (codes "PROCESS=respawn")
  add_process (some p) status env = add_exit status (add env (codes "PROCESS=" ++ process_name p))

  unfoldable pub add_result : Job → List Str → List Str
  unfolding add_process
  add_result job env =
      if job.failed
      then add_process job.failed_process job.exit_status (add env (codes "RESULT=failed"))
      else add env (codes "RESULT=ok")

  abbrev env_strings : Option (List Str) → List Str
  env_strings none = []
  env_strings (some env) = env

  unfoldable pub job_emit_event_env : Job → Bool → List Str
  unfolding add_exports add_result
  job_emit_event_env job stop =
      let named = add (add [] (codes "JOB=" ++ class.name)) (codes "INSTANCE=" ++ job.name) in
      let exported = add_exports (env_strings job.env) class.export named in
      if stop then add_result job exported else exported

  -- An event's name, whether the job waits for it, and whether it tells how the job stopped.
  unfoldable pub emitted : JobState → Run (Str × Bool × Bool)
  emitted job_starting = done (codes "starting", true, false)
  emitted job_running = done (codes "started", false, false)
  emitted job_stopping = done (codes "stopping", true, true)
  emitted job_waiting = done (codes "stopped", false, true)
  emitted _ = assertion_failed

  -- The Blocked structure through which the event's end moves the job on.
  unfoldable pub block_job : Bool → ℕ → ℕ → Events → Events
  block_job false job event es = es
  block_job true job event es =
      let e = es.store event in
      record es {
        store =
            store_event event (record e { blocking = e.blocking ++ blocked_new type_job job ∷ [] })
              es.store;
      }

  -- `self` is the job's address.
  unfoldable pub job_emit_event : ℕ → World → Run (ℕ × World)
  unfolding emitted block_job
  job_emit_event self w = emitted w.job.state >>= λ (name, block, stop).
      checked (event_new name (job_emit_event_env w.job stop) w.events) >>= λ (event, es).
      done (event, record w { events = block_job block self event es })
