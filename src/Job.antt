-- ===== src/Job.antt =====
-- The data of a job instance: init/job.h, with what init/job_class.h and init/process.h declare of
-- its class, and the effects that the functions of init/job.c have on the world. The records leave
-- out the fields that these functions do not use.
mod Tests
pub mod Names
pub mod Emit
pub mod Finished
pub mod State
pub mod Errors
pub mod Requests
use startup.Base.{
  ℕ, Bool, true, false, Option, none, some, List, [], ◌∷◌, ◌++◌, ◌==◌, if◌then◌else◌, Str,
}
use startup.Blocked.{Blocked}
use startup.Event.{Events}

pub data JobGoal : Type 0 where
  job_stop job_start job_respawn : JobGoal

pub data JobState : Type 0 where
  job_waiting job_starting job_security_spawning job_security job_pre_starting : JobState
  job_pre_start job_spawning job_spawned job_post_starting job_post_start job_running : JobState
  job_pre_stopping job_pre_stop job_stopping job_killed job_post_stopping job_post_stop : JobState

pub data ProcessType : Type 0 where
  process_main process_pre_start process_post_start process_pre_stop : ProcessType
  process_post_stop process_security : ProcessType

pub data ExpectType : Type 0 where
  expect_none expect_stop expect_daemon expect_fork expect_readyfd : ExpectType

pub data TraceState : Type 0 where
  trace_none trace_new trace_new_child trace_normal : TraceState

pub record JobClass : Type 0 where
  pub name : Str
  pub export : List Str
  pub process : ProcessType → Bool  -- `process[i] != NULL`
  pub expect : ExpectType
  pub task : Bool
  pub kill_timeout : ℕ
  pub deleted : Bool
  pub normalexit : List ℕ
  pub respawn : Bool
  pub respawn_limit : ℕ
  pub respawn_interval : ℕ

pub record Job : Type 0 where
  pub name : Str
  pub goal : JobGoal
  pub state : JobState
  pub env : Option (List Str)
  pub start_env : Option (List Str)
  pub stop_env : Option (List Str)
  pub pid : ProcessType → ℕ  -- 0 where there is none
  pub blocker : Option ℕ
  pub blocking : List Blocked
  pub kill_process : Option ProcessType  -- set together with `kill_timer`
  pub failed : Bool
  pub failed_process : Option ProcessType  -- `none` is PROCESS_INVALID
  pub exit_status : Option ℕ  -- `none` is -1
  pub respawn_time : ℕ
  pub respawn_count : ℕ
  pub trace_forks : ℕ
  pub trace_state : TraceState

-- What the outside sees: D-Bus signals and replies, and system calls.
pub data Output : Type 0 where
  goal_changed : JobGoal → Output
  state_changed : JobState → Output
  failed_signal : Option ℕ → Output
  reply : Blocked → Output
  error_reply : Blocked → Output
  instance_removed : Output
  process_started : ProcessType → Output
  kill_signal_sent : ProcessType → ℕ → Output
  sigkill_sent : ℕ → Output
  continue_signal_sent : ℕ → Output
  ptrace_continue : ℕ → ℕ → Output
  ptrace_detach : ℕ → Output
  method_reply : ℕ → Output  -- to a message that is not to wait

pub record World : Type 0 where
  pub job : Job
  pub events : Events
  pub output : List Output
  pub freed : Bool  -- the job was destroyed

-- The result of code that may fail an assertion, and of loops on fuel.
pub data Run (A : Type 0) : Type 0 where
  done : A → Run A
  assertion_failed : Run A
  diverges : Run A

infixl 5 ◌>>=◌
abbrev pub ◌>>=◌ : {A B : Type 0} → Run A → (A → Run B) → Run B
done a >>= f = f a
assertion_failed >>= f = assertion_failed
diverges >>= f = diverges

abbrev pub assert : {A : Type 0} → Bool → Run A → Run A
assert true rest = rest
assert false rest = assertion_failed

abbrev pub checked : {A : Type 0} → Option A → Run A
checked none = assertion_failed
checked (some a) = done a

abbrev pub emit_output : Output → World → World
emit_output o w = record w { output = w.output ++ o ∷ [] }

-- The values of the enumerations.
abbrev pub goal_num : JobGoal → ℕ
goal_num job_stop = 0
goal_num job_start = 1
goal_num job_respawn = 2

abbrev pub state_num : JobState → ℕ
state_num job_waiting = 0
state_num job_starting = 1
state_num job_security_spawning = 2
state_num job_security = 3
state_num job_pre_starting = 4
state_num job_pre_start = 5
state_num job_spawning = 6
state_num job_spawned = 7
state_num job_post_starting = 8
state_num job_post_start = 9
state_num job_running = 10
state_num job_pre_stopping = 11
state_num job_pre_stop = 12
state_num job_stopping = 13
state_num job_killed = 14
state_num job_post_stopping = 15
state_num job_post_stop = 16

abbrev pub process_num : ProcessType → ℕ
process_num process_main = 0
process_num process_pre_start = 1
process_num process_post_start = 2
process_num process_pre_stop = 3
process_num process_post_stop = 4
process_num process_security = 5

abbrev pub trace_num : TraceState → ℕ
trace_num trace_none = 0
trace_num trace_new = 1
trace_num trace_new_child = 2
trace_num trace_normal = 3

abbrev pub trace_is : TraceState → TraceState → Bool
trace_is a b = trace_num a == trace_num b

abbrev pub goal_is : JobGoal → JobGoal → Bool
goal_is a b = goal_num a == goal_num b

abbrev pub state_is : JobState → JobState → Bool
state_is a b = state_num a == state_num b

abbrev pub process_is : ProcessType → ProcessType → Bool
process_is a b = process_num a == process_num b
