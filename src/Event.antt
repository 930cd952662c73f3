-- ===== src/Event.antt =====
-- Events: init/event.c and init/event.h. A pointer to an event is its address, and the store gives
-- the structure that stands there. The list `events` is the list of its addresses. The store's
-- `fresh` is the address that the next allocation returns. A NULL result of a failed assertion is
-- `none`; allocation is taken to succeed.
pub mod Index
pub mod Block
use startup.Base.{
  ℕ, zero, suc, ◌+◌, ◌-◌, ◌%◌, ◌≤◌, ◌<◌, Bool, true, false, Option, none, some, List, [], ◌∷◌, ◌++◌,
  ◌==◌, if◌then◌else◌, Str, codes, str_eq,
}
use startup.Blocked.{Blocked}

pub data EventProgress : Type 0 where
  event_pending event_handling event_finished : EventProgress

pub record Event : Type 0 where
  pub name : Str
  pub env : List Str
  pub fd : Option ℕ  -- `none` is -1
  pub progress : EventProgress
  pub failed : Bool
  pub blockers : ℕ  -- unsigned int
  pub blocking : List Blocked

abbrev pub Store : Type 0
Store = ℕ → Event

abbrev pub u32 : ℕ → ℕ
u32 n = n % 4294967296

-- A write through the pointer `i`.
abbrev pub store_event : ℕ → Event → Store → Store
store_event i e st j = if i == j then e else st j

unfoldable pub event_block : ℕ → Store → Store
event_block i st = store_event i (record (st i) { blockers = u32 ((st i).blockers + 1) }) st

-- `none` is the failed assertion that something blocks the event.
unfoldable pub event_unblock : ℕ → Store → Option Store
event_unblock i st =
    if (st i).blockers == 0
    then none
    else some (store_event i (record (st i) { blockers = (st i).blockers - 1 }) st)

pub record Events : Type 0 where
  pub store : Store
  pub events : List ℕ
  pub fresh : ℕ

-- A new event is pending, unblocked, and last in the list.
unfoldable pub event_new : Str → List Str → Events → Option (ℕ × Events)
event_new [] env s = none
event_new (c ∷ name) env s =
    let event : Event = record {
      name = c ∷ name;
      env = env;
      fd = none;
      progress = event_pending;
      failed = false;
      blockers = 0;
      blocking = [];
    } in
    some (
      s.fresh,
      record {
        store = store_event s.fresh event s.store;
        events = s.events ++ s.fresh ∷ [];
        fresh = s.fresh + 1;
      },
    )

unfoldable pub index_from : ℕ → List ℕ → ℕ → Option ℕ
index_from k [] event = none
index_from k (e ∷ es) event =
    let rest = index_from (k + 1) es event in if e == event then some k else rest

-- The position in the list, or -1.
unfoldable pub event_to_index : List ℕ → ℕ → Option ℕ
unfolding index_from
event_to_index events event = index_from 0 events event

unfoldable pub find_from : ℕ → List ℕ → ℕ → Option ℕ
find_from i [] index = none
find_from i (e ∷ es) index =
    let rest = find_from (i + 1) es index in if i == index then some e else rest

unfoldable pub event_from_index : List ℕ → ℕ → Option ℕ
unfolding find_from
event_from_index events index = find_from 0 events index

unfoldable pub event_progress_enum_to_str : EventProgress → Str
event_progress_enum_to_str event_pending = codes "EVENT_PENDING"
event_progress_enum_to_str event_handling = codes "EVENT_HANDLING"
event_progress_enum_to_str event_finished = codes "EVENT_FINISHED"

unfoldable pub event_progress_str_to_enum : Str → Option EventProgress
event_progress_str_to_enum s =
    if str_eq (codes "EVENT_PENDING") s
    then some event_pending
    else if str_eq (codes "EVENT_HANDLING") s
    then some event_handling
    else if str_eq (codes "EVENT_FINISHED") s
    then some event_finished
    else none
