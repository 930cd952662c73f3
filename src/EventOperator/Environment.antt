-- ===== src/EventOperator/Environment.antt =====
-- event_operator_environment and event_operator_events of init/event_operator.c: what a job is told
-- of the events that started or stopped it. The traversal visits a tree in order and passes over
-- the nodes, with all below them, that are not TRUE. `none` is a failed assertion.
pub mod Collected
use startup.Base.{
  ℕ, Bool, true, false, Option, none, some, ◌>>=◌, List, [], ◌∷◌, ◌++◌, ◌==◌, if◌then◌else◌, Str,
}
use startup.Environ.{environ_add, environ_append}
use startup.Event.{Event, Store, event_block}
use startup.EventOperator.{EventOperator, gate, event_match}

-- The events of the EVENT_MATCH nodes that the traversal visits.
unfoldable pub visited : EventOperator → Option (List ℕ)
visited (gate g false l r) = some []
visited (gate g true l r) = visited l >>= λ es. visited r >>= λ fs. some (es ++ fs)
visited (event_match name env false e) = some []
visited (event_match name env true none) = none
visited (event_match name env true (some e)) = some (e ∷ [])

-- `str[strlen (str) - 1]`
unfoldable pub last_byte : Str → ℕ
last_byte [] = 0
last_byte (c ∷ []) = c
last_byte (c ∷ d ∷ s) = last_byte (d ∷ s)

-- The name goes behind a space, unless the list so far ends in '='.
unfoldable pub append_name : Str → Str → Str
unfolding last_byte
append_name evlist name =
    if last_byte evlist == b'=' then evlist ++ name else evlist ++ (b' ' ∷ name)

unfoldable pub append_names : Str → List Str → Str
append_names evlist [] = evlist
append_names evlist (name ∷ names) = append_names (append_name evlist name) names

module _ (getenv : Str → Option Str) (st : Store) where
  -- The loop over the visited nodes, for the table.
  unfoldable pub append_events : List Str → List ℕ → List Str
  append_events env [] = env
  append_events env (e ∷ es) = append_events (environ_append getenv env true (st e).env) es

  -- The same loop, for the list of names; a NULL key asks for none.
  unfoldable pub event_names : List ℕ → List Str
  event_names [] = []
  event_names (e ∷ es) = (st e).name ∷ event_names es

  unfoldable pub add_evlist : List Str → Option Str → List Str → List Str
  unfolding append_names append_name
  add_evlist env none names = env
  add_evlist env (some key) names =
      environ_add getenv env true (append_names (key ++ b'=' ∷ []) names)

  unfoldable pub event_operator_environment :
      EventOperator → List Str → Option Str → Option (List Str)
  event_operator_environment root env key =
      visited root >>= λ es. some (add_evlist (append_events env es) key (event_names es))

-- Each event is blocked and goes to the end of the list, as a BLOCKED_EVENT entry.
unfoldable pub block_all : Store → List ℕ → List ℕ → List ℕ × Store
block_all st list [] = (list, st)
block_all st list (e ∷ es) = block_all (event_block e st) (list ++ e ∷ []) es

unfoldable pub event_operator_events : EventOperator → List ℕ → Store → Option (List ℕ × Store)
unfolding block_all
event_operator_events root list st = visited root >>= λ es. some (block_all st list es)
