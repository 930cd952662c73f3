-- ===== src/EventOperator/Tests.antt =====
-- The theorems on event expressions applied to `starting JOB=a and (up or down)`.
use startup.Base.{
  ℕ, ◌+◌, ◌≤◌, ◌<◌, Bool, true, false, not, Option, none, some, List, [], ◌∷◌, ◌==◌, ◌&&◌, Str,
  codes, has_byte, str_eq, ◌≡◌, refl, arith, All, map,
}
use startup.Environ.{environ_all_valid, environ_getn}
use startup.Environ.Update.{IsName, IsTable, written}
use startup.Environ.Table.{overridden}
use startup.Event.{Event, event_pending, Store, event_to_index, index_from}
use startup.Event.Block.{Untouched, times_at}
use startup.EventOperator.{
  EventOperator, gate, event_match, event_and, event_or, event_operator_match,
  event_operator_handle, event_operator_reset, value, combine,
}
use startup.EventOperator.Conditions.{IsPositional, Condition, equals, differs, IsCondition}
use startup.EventOperator.Matches.{all_positional, all_met, event_operator_match-eq}
use startup.EventOperator.Handle.{refs, cleared, IsBlocked}
use startup.EventOperator.Matched.{
  IsConsistent, becomes_true, newly_matched, handled, event_operator_handle_lem,
  event_operator_handle-value, event_operator_reset-handle,
}
use startup.EventOperator.Environment.{event_names, event_operator_environment, last_byte}
use startup.EventOperator.Environment.Collected.{
  active, IsEventName, joined, variables, event_operator_environment-getn,
}
use startup.EventOperator.Serialise.{
  Json, event_operator_serialise_all, event_operator_serialise, event_operator_deserialise_all,
  index_of, event_operator_type_enum_to_str,
}
use startup.EventOperator.Serialise.RoundTrip.{
  relocate, event_operator_deserialise_all-serialise_all,
}
use startup.EventOperator.Collapse.{
  event_operator_collapse, bracketed, event_operator_collapse-bracketed,
}

-- Patterns with no wildcards.
abbrev same : Str → Str → Bool
same = str_eq

abbrev no_getenv : Str → Option Str
no_getenv name = none

abbrev starting_env : List Str
starting_env = codes "JOB=a" ∷ codes "INSTANCE=" ∷ []

abbrev starting : Event
starting = record {
  name = codes "starting";
  env = starting_env;
  fd = none;
  progress = event_pending;
  failed = false;
  blockers = 2;
  blocking = [];
}

-- The event stands at every address.
abbrev store : Store
store i = starting

-- The second leaf is matched already.
abbrev tree : EventOperator
tree =
    gate event_and false (event_match (codes "starting") (some (codes "JOB=a" ∷ [])) false none) (
      gate event_or true (event_match (codes "up") none true (some 7))
        (event_match (codes "down") none false none))

starting_env-valid : environ_all_valid starting_env ≡ true
unfolding environ_all_valid has_byte
starting_env-valid = refl

tree-IsConsistent : IsConsistent tree
unfolding value combine
tree-IsConsistent = (refl, refl, (refl, refl, refl))

tree-IsBlocked : IsBlocked tree store
tree-IsBlocked j = ground arith

newly_matched-tree : newly_matched same [] starting tree ≤ 3
unfolding newly_matched
newly_matched-tree = ground arith

room : 2 + newly_matched same [] starting tree < 4294967296
room = omega (arith, newly_matched-tree)

a-IsPositional : All IsPositional (codes "a" ∷ [])
unfolding has_byte
a-IsPositional = (refl, tt)

abbrev conditions : List Condition
conditions = differs (codes "INSTANCE") (codes "x") ∷ equals (codes "JOB") (codes "a") ∷ []

conditions-IsCondition : All IsCondition conditions
unfolding has_byte
conditions-IsCondition = (refl, ((refl, refl), tt))

event_operator_match-eq_example :
    event_operator_match same []
      (codes "starting")
      (some (codes "a" ∷ codes "INSTANCE!=x" ∷ codes "JOB=a" ∷ []))
      starting
    ≡ some (
        str_eq (codes "starting") (codes "starting")
        && (all_positional same [] (codes "a" ∷ []) starting_env
            && all_met same [] starting_env conditions))
event_operator_match-eq_example =
    event_operator_match-eq same [] (codes "starting") (codes "a" ∷ []) conditions starting
      starting_env-valid a-IsPositional conditions-IsCondition

event_operator_handle_lem_example :
    (st' : Store) × (event_operator_handle same [] tree 3 store
      ≡ some (handled same [] starting 3 tree, st', not (newly_matched same [] starting tree == 0)))
    × Untouched store st'
    × ((j : ℕ)
        → (st' j).blockers
          ≡ (store j).blockers + times_at 3 j (newly_matched same [] starting tree))
event_operator_handle_lem_example =
    event_operator_handle_lem same [] tree 3 store starting_env-valid room

event_operator_handle-value_example :
    (t' : EventOperator) × (st' : Store) × (m : Bool) × (event_operator_handle same [] tree 3 store
      ≡ some (t', st', m))
    × (value t' ≡ becomes_true same [] starting tree)
    × IsConsistent t'
event_operator_handle-value_example =
    event_operator_handle-value same [] tree 3 store starting_env-valid room tree-IsConsistent

event_operator_reset-handle_example :
    (t' : EventOperator) × (st' : Store) × (m : Bool) × (st'' : Store) × (event_operator_handle same
        [] tree 3 store
      ≡ some (t', st', m))
    × IsBlocked t' st'
    × (event_operator_reset t' st' ≡ some (cleared tree, st''))
    × ((j : ℕ) → (st'' j).blockers + refs tree j ≡ (store j).blockers)
event_operator_reset-handle_example =
    event_operator_reset-handle same [] tree 3 store starting_env-valid room tree-IsConsistent
      tree-IsBlocked

key-IsName : IsName (codes "UPSTART_EVENTS")
unfolding has_byte
key-IsName = refl

-- A tree that is matched by two events.
abbrev matched : EventOperator
matched =
    gate event_and true (event_match (codes "starting") (some (codes "JOB=a" ∷ [])) true (some 3))
      (event_match (codes "up") (some []) true (some 7))

matched-IsConsistent : IsConsistent matched
unfolding value combine
matched-IsConsistent = (refl, refl, refl)

names : All IsEventName (event_names no_getenv store (active matched))
unfolding event_names last_byte
names = (((λ e. cc), refl), (((λ e. cc), refl), tt))

event_operator_environment-getn_example :
    (env' : List Str) × (event_operator_environment no_getenv store matched []
        (some (codes "UPSTART_EVENTS"))
      ≡ some env')
    × IsTable env'
    × (environ_getn env' (codes "UPSTART_EVENTS")
        ≡ written
            (codes "UPSTART_EVENTS")
            (some (joined (event_names no_getenv store (active matched))))
            (codes "UPSTART_EVENTS")
            (overridden no_getenv
              (environ_getn [] (codes "UPSTART_EVENTS"))
              (variables store (active matched))
              (codes "UPSTART_EVENTS")))
event_operator_environment-getn_example =
    event_operator_environment-getn no_getenv store matched [] (codes "UPSTART_EVENTS")
      (codes "UPSTART_EVENTS") matched-IsConsistent tt key-IsName key-IsName names

-- Every address moves up by 100.
abbrev moved : ℕ → ℕ
moved i = i + 100

abbrev nodes : List Json
nodes =
    record {
      type_name = codes "EVENT_MATCH";
      value = true;
      name = some (codes "starting");
      env = some (codes "JOB=a" ∷ []);
      event = some 0;
    }
    ∷ record {
      type_name = codes "EVENT_MATCH";
      value = true;
      name = some (codes "up");
      env = some [];
      event = some 1;
    }
    ∷ record { type_name = codes "EVENT_AND"; value = true; name = none; env = none; event = none }
    ∷ []

serialised : event_operator_serialise_all (3 ∷ 7 ∷ []) matched ≡ some nodes
unfolding event_operator_serialise_all event_operator_serialise index_of event_to_index index_from
    event_operator_type_enum_to_str
serialised = refl

event_operator_deserialise_all-serialise_all_example :
    event_operator_deserialise_all (map moved (3 ∷ 7 ∷ [])) nodes ≡ some (relocate moved matched)
event_operator_deserialise_all-serialise_all_example =
    event_operator_deserialise_all-serialise_all moved (3 ∷ 7 ∷ []) matched nodes serialised

event_operator_collapse-bracketed_example : event_operator_collapse tree ≡ some (bracketed tree)
event_operator_collapse-bracketed_example = event_operator_collapse-bracketed tree
