-- ===== src/Blocked.antt =====
-- What may wait for a job or an event: init/blocked.c and init/blocked.h. Jobs, events and D-Bus
-- messages are addresses.
use startup.Base.{ℕ, Option, none, some, Str, codes, str_eq, if◌then◌else◌, ◌≡◌, refl}

pub data BlockedType : Type 0 where
  type_job type_event type_emit_method type_job_start_method type_job_stop_method : BlockedType
  type_job_restart_method type_instance_start_method type_instance_stop_method : BlockedType
  type_instance_restart_method : BlockedType

pub record Blocked : Type 0 where
  pub type : BlockedType
  pub address : ℕ

unfoldable pub blocked_new : BlockedType → ℕ → Blocked
blocked_new t address = record { type = t; address = address }

unfoldable pub blocked_type_enum_to_str : BlockedType → Str
blocked_type_enum_to_str type_job = codes "BLOCKED_JOB"
blocked_type_enum_to_str type_event = codes "BLOCKED_EVENT"
blocked_type_enum_to_str type_emit_method = codes "BLOCKED_EMIT_METHOD"
blocked_type_enum_to_str type_job_start_method = codes "BLOCKED_JOB_START_METHOD"
blocked_type_enum_to_str type_job_stop_method = codes "BLOCKED_JOB_STOP_METHOD"
blocked_type_enum_to_str type_job_restart_method = codes "BLOCKED_JOB_RESTART_METHOD"
blocked_type_enum_to_str type_instance_start_method = codes "BLOCKED_INSTANCE_START_METHOD"
blocked_type_enum_to_str type_instance_stop_method = codes "BLOCKED_INSTANCE_STOP_METHOD"
blocked_type_enum_to_str type_instance_restart_method = codes "BLOCKED_INSTANCE_RESTART_METHOD"

unfoldable pub blocked_type_str_to_enum : Str → Option BlockedType
blocked_type_str_to_enum s =
    if str_eq (codes "BLOCKED_JOB") s
    then some type_job
    else if str_eq (codes "BLOCKED_EVENT") s
    then some type_event
    else if str_eq (codes "BLOCKED_EMIT_METHOD") s
    then some type_emit_method
    else if str_eq (codes "BLOCKED_JOB_START_METHOD") s
    then some type_job_start_method
    else if str_eq (codes "BLOCKED_JOB_STOP_METHOD") s
    then some type_job_stop_method
    else if str_eq (codes "BLOCKED_JOB_RESTART_METHOD") s
    then some type_job_restart_method
    else if str_eq (codes "BLOCKED_INSTANCE_START_METHOD") s
    then some type_instance_start_method
    else if str_eq (codes "BLOCKED_INSTANCE_STOP_METHOD") s
    then some type_instance_stop_method
    else if str_eq (codes "BLOCKED_INSTANCE_RESTART_METHOD") s
    then some type_instance_restart_method
    else none

-- The name of a type of waiting reads back as that type.
pub blocked_type-round_trip :
    (t : BlockedType) → blocked_type_str_to_enum (blocked_type_enum_to_str t) ≡ some t
unfolding blocked_type_enum_to_str blocked_type_str_to_enum str_eq
blocked_type-round_trip type_job = refl
blocked_type-round_trip _ = refl
