-- ===== src/Job/Names.antt =====
-- The names of goals and states: job_goal_name, job_goal_from_name, job_state_name,
-- job_state_from_name and the *_enum_to_str and *_str_to_enum functions of init/job.c. NULL and -1
-- are `none`.
use startup.Base.{Option, none, some, Str, codes, str_eq, if◌then◌else◌, ◌≡◌, refl}
use startup.Job.{
  JobGoal, job_stop, job_start, job_respawn, JobState, job_waiting, job_starting,
  job_security_spawning, job_security, job_pre_starting, job_pre_start, job_spawning, job_spawned,
  job_post_starting, job_post_start, job_running, job_pre_stopping, job_pre_stop, job_stopping,
  job_killed, job_post_stopping, job_post_stop,
}

unfoldable pub job_goal_name : JobGoal → Str
job_goal_name job_stop = codes "stop"
job_goal_name job_start = codes "start"
job_goal_name job_respawn = codes "respawn"

unfoldable pub job_goal_from_name : Str → Option JobGoal
job_goal_from_name name =
    if str_eq name (codes "stop")
    then some job_stop
    else if str_eq name (codes "start")
    then some job_start
    else if str_eq name (codes "respawn")
    then some job_respawn
    else none

unfoldable pub job_state_name : JobState → Str
job_state_name job_waiting = codes "waiting"
job_state_name job_starting = codes "starting"
job_state_name job_security_spawning = codes "security-spawning"
job_state_name job_security = codes "security"
job_state_name job_pre_starting = codes "pre-starting"
job_state_name job_pre_start = codes "pre-start"
job_state_name job_spawning = codes "spawning"
job_state_name job_spawned = codes "spawned"
job_state_name job_post_starting = codes "post-starting"
job_state_name job_post_start = codes "post-start"
job_state_name job_running = codes "running"
job_state_name job_pre_stopping = codes "pre-stopping"
job_state_name job_pre_stop = codes "pre-stop"
job_state_name job_stopping = codes "stopping"
job_state_name job_killed = codes "killed"
job_state_name job_post_stopping = codes "post-stopping"
job_state_name job_post_stop = codes "post-stop"

unfoldable pub job_state_from_name : Str → Option JobState
job_state_from_name name =
    if str_eq name (codes "waiting")
    then some job_waiting
    else if str_eq name (codes "starting")
    then some job_starting
    else if str_eq name (codes "security-spawning")
    then some job_security_spawning
    else if str_eq name (codes "security")
    then some job_security
    else if str_eq name (codes "pre-starting")
    then some job_pre_starting
    else if str_eq name (codes "pre-start")
    then some job_pre_start
    else if str_eq name (codes "spawning")
    then some job_spawning
    else if str_eq name (codes "spawned")
    then some job_spawned
    else if str_eq name (codes "post-starting")
    then some job_post_starting
    else if str_eq name (codes "post-start")
    then some job_post_start
    else if str_eq name (codes "running")
    then some job_running
    else if str_eq name (codes "pre-stopping")
    then some job_pre_stopping
    else if str_eq name (codes "pre-stop")
    then some job_pre_stop
    else if str_eq name (codes "stopping")
    then some job_stopping
    else if str_eq name (codes "killed")
    then some job_killed
    else if str_eq name (codes "post-stopping")
    then some job_post_stopping
    else if str_eq name (codes "post-stop")
    then some job_post_stop
    else none

unfoldable pub job_goal_enum_to_str : JobGoal → Str
job_goal_enum_to_str job_stop = codes "JOB_STOP"
job_goal_enum_to_str job_start = codes "JOB_START"
job_goal_enum_to_str job_respawn = codes "JOB_RESPAWN"

unfoldable pub job_goal_str_to_enum : Str → Option JobGoal
job_goal_str_to_enum name =
    if str_eq name (codes "JOB_STOP")
    then some job_stop
    else if str_eq name (codes "JOB_START")
    then some job_start
    else if str_eq name (codes "JOB_RESPAWN")
    then some job_respawn
    else none

unfoldable pub job_state_enum_to_str : JobState → Str
job_state_enum_to_str job_waiting = codes "JOB_WAITING"
job_state_enum_to_str job_starting = codes "JOB_STARTING"
job_state_enum_to_str job_security_spawning = codes "JOB_SECURITY_SPAWNING"
job_state_enum_to_str job_security = codes "JOB_SECURITY"
job_state_enum_to_str job_pre_starting = codes "JOB_PRE_STARTING"
job_state_enum_to_str job_pre_start = codes "JOB_PRE_START"
job_state_enum_to_str job_spawning = codes "JOB_SPAWNING"
job_state_enum_to_str job_spawned = codes "JOB_SPAWNED"
job_state_enum_to_str job_post_starting = codes "JOB_POST_STARTING"
job_state_enum_to_str job_post_start = codes "JOB_POST_START"
job_state_enum_to_str job_running = codes "JOB_RUNNING"
job_state_enum_to_str job_pre_stopping = codes "JOB_PRE_STOPPING"
job_state_enum_to_str job_pre_stop = codes "JOB_PRE_STOP"
job_state_enum_to_str job_stopping = codes "JOB_STOPPING"
job_state_enum_to_str job_killed = codes "JOB_KILLED"
job_state_enum_to_str job_post_stopping = codes "JOB_POST_STOPPING"
job_state_enum_to_str job_post_stop = codes "JOB_POST_STOP"

unfoldable pub job_state_str_to_enum : Str → Option JobState
job_state_str_to_enum name =
    if str_eq name (codes "JOB_WAITING")
    then some job_waiting
    else if str_eq name (codes "JOB_STARTING")
    then some job_starting
    else if str_eq name (codes "JOB_SECURITY_SPAWNING")
    then some job_security_spawning
    else if str_eq name (codes "JOB_SECURITY")
    then some job_security
    else if str_eq name (codes "JOB_PRE_STARTING")
    then some job_pre_starting
    else if str_eq name (codes "JOB_PRE_START")
    then some job_pre_start
    else if str_eq name (codes "JOB_SPAWNING")
    then some job_spawning
    else if str_eq name (codes "JOB_SPAWNED")
    then some job_spawned
    else if str_eq name (codes "JOB_POST_STARTING")
    then some job_post_starting
    else if str_eq name (codes "JOB_POST_START")
    then some job_post_start
    else if str_eq name (codes "JOB_RUNNING")
    then some job_running
    else if str_eq name (codes "JOB_PRE_STOPPING")
    then some job_pre_stopping
    else if str_eq name (codes "JOB_PRE_STOP")
    then some job_pre_stop
    else if str_eq name (codes "JOB_STOPPING")
    then some job_stopping
    else if str_eq name (codes "JOB_KILLED")
    then some job_killed
    else if str_eq name (codes "JOB_POST_STOPPING")
    then some job_post_stopping
    else if str_eq name (codes "JOB_POST_STOP")
    then some job_post_stop
    else none

-- The name of a goal reads back as that goal.
pub job_goal_from_name-job_goal_name : (x : JobGoal) → job_goal_from_name (job_goal_name x) ≡ some x
unfolding job_goal_name job_goal_from_name str_eq
job_goal_from_name-job_goal_name job_stop = refl
job_goal_from_name-job_goal_name _ = refl

-- The name of a state reads back as that state.
pub job_state_from_name-job_state_name :
    (x : JobState) → job_state_from_name (job_state_name x) ≡ some x
unfolding job_state_name job_state_from_name str_eq
job_state_from_name-job_state_name job_waiting = refl
job_state_from_name-job_state_name _ = refl

-- The serialised name of a goal reads back as that goal.
pub job_goal_str_to_enum-job_goal_enum_to_str :
    (x : JobGoal) → job_goal_str_to_enum (job_goal_enum_to_str x) ≡ some x
unfolding job_goal_enum_to_str job_goal_str_to_enum str_eq
job_goal_str_to_enum-job_goal_enum_to_str job_stop = refl
job_goal_str_to_enum-job_goal_enum_to_str _ = refl

-- The serialised name of a state reads back as that state.
pub job_state_str_to_enum-job_state_enum_to_str :
    (x : JobState) → job_state_str_to_enum (job_state_enum_to_str x) ≡ some x
unfolding job_state_enum_to_str job_state_str_to_enum str_eq
job_state_str_to_enum-job_state_enum_to_str job_waiting = refl
job_state_str_to_enum-job_state_enum_to_str _ = refl
