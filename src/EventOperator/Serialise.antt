-- ===== src/EventOperator/Serialise.antt =====
-- Serialisation of event expressions: event_operator_serialise, _serialise_all, _deserialise and
-- _deserialise_all of init/event_operator.c. A JSON object is the record of the members that
-- event_operator_serialise writes (json-c stands outside the model), an array a list of them. Only
-- EVENT_MATCH operators have an `event` member.
use startup.Base.{
  ℕ, Bool, true, false, Option, none, some, ◌>>=◌, List, [], ◌∷◌, ◌++◌, if◌then◌else◌, Str, codes,
  str_eq, map,
}
use startup.Event.{event_to_index, event_from_index}
use startup.EventOperator.{Gate, event_or, event_and, EventOperator, gate, event_match}
pub mod RoundTrip

-- EventOperatorType
pub data EventOperatorType : Type 0 where
  type_gate : Gate → EventOperatorType
  type_match : EventOperatorType

unfoldable pub event_operator_type_enum_to_str : EventOperatorType → Str
event_operator_type_enum_to_str (type_gate event_or) = codes "EVENT_OR"
event_operator_type_enum_to_str (type_gate event_and) = codes "EVENT_AND"
event_operator_type_enum_to_str type_match = codes "EVENT_MATCH"

unfoldable pub event_operator_type_str_to_enum : Str → Option EventOperatorType
event_operator_type_str_to_enum s =
    if str_eq (codes "EVENT_OR") s
    then some (type_gate event_or)
    else if str_eq (codes "EVENT_AND") s
    then some (type_gate event_and)
    else if str_eq (codes "EVENT_MATCH") s
    then some type_match
    else none

pub record Json : Type 0 where
  pub type_name : Str
  pub value : Bool
  pub name : Option Str
  pub env : Option (List Str)
  pub event : Option ℕ

-- `none` is an event that is not in the list.
unfoldable pub index_of : List ℕ → Option ℕ → Option (Option ℕ)
index_of events none = some none
index_of events (some e) = event_to_index events e >>= λ i. some (some i)

-- The node at the root of an operator tree.
unfoldable pub event_operator_serialise : List ℕ → EventOperator → Option Json
unfolding index_of event_operator_type_enum_to_str
event_operator_serialise events (gate g v l r) = some (record {
  type_name = event_operator_type_enum_to_str (type_gate g);
  value = v;
  name = none;
  env = none;
  event = none;
})
event_operator_serialise events (event_match name env v e) = index_of events e >>= λ i.
    some (record {
      type_name = event_operator_type_enum_to_str type_match;
      value = v;
      name = some name;
      env = env;
      event = i;
    })

-- The nodes in post-order.
unfoldable pub event_operator_serialise_all : List ℕ → EventOperator → Option (List Json)
event_operator_serialise_all events (gate g v l r) = event_operator_serialise_all events l >>= λ js.
    event_operator_serialise_all events r >>= λ ks.
    event_operator_serialise events (gate g v l r) >>= λ j. some (js ++ (ks ++ j ∷ []))
event_operator_serialise_all events (event_match name env v e) =
    event_operator_serialise events (event_match name env v e) >>= λ j. some (j ∷ [])

-- An operator whose children are not linked yet.
pub data Node : Type 0 where
  operator_node : Gate → Bool → Node
  match_node : EventOperator → Node

unfoldable pub event_at : List ℕ → Option ℕ → Option (Option ℕ)
event_at events none = some none
event_at events (some i) = event_from_index events i >>= λ e. some (some e)

-- The assertions of event_operator_new: exactly EVENT_MATCH operators have a name, and no other has
-- an environment.
unfoldable pub event_operator_new :
    EventOperatorType → Option Str → Option (List Str) → Bool → Option ℕ → Option Node
event_operator_new (type_gate g) none none v e = some (operator_node g v)
event_operator_new (type_gate g) none (some env) v e = none
event_operator_new (type_gate g) (some name) env v e = none
event_operator_new type_match none env v e = none
event_operator_new type_match (some name) env v e = some (match_node (event_match name env v e))

-- state_deserialise_str_array: an array with no strings becomes NULL.
unfoldable pub state_deserialise_str_array : List Str → Option (List Str)
state_deserialise_str_array [] = none
state_deserialise_str_array (e ∷ es) = some (e ∷ es)

unfoldable pub event_operator_deserialise : List ℕ → Json → Option Node
unfolding event_operator_type_str_to_enum event_operator_new event_at state_deserialise_str_array
event_operator_deserialise events json = event_operator_type_str_to_enum json.type_name >>= λ t.
    event_at events json.event >>= λ e.
    event_operator_new t json.name (json.env >>= state_deserialise_str_array) json.value e

-- One round of the loop on the stack, its top first; `none` is an assertion that the stack is not
-- empty.
unfoldable pub link : Node → List EventOperator → Option (List EventOperator)
link (match_node t) stack = some (t ∷ stack)
link (operator_node g v) (right ∷ left ∷ stack) = some (gate g v left right ∷ stack)
link (operator_node g v) (right ∷ []) = none
link (operator_node g v) [] = none

unfoldable pub link_all : List ℕ → List Json → List EventOperator → Option (List EventOperator)
unfolding event_operator_deserialise link
link_all events [] stack = some stack
link_all events (j ∷ js) stack = event_operator_deserialise events j >>= λ n.
    link n stack >>= λ stack'. link_all events js stack'

-- The loop must leave one operator on the stack.
unfoldable pub only : List EventOperator → Option EventOperator
only [] = none
only (t ∷ []) = some t
only (t ∷ u ∷ stack) = none

unfoldable pub event_operator_deserialise_all : List ℕ → List Json → Option EventOperator
unfolding link_all only
event_operator_deserialise_all events js = link_all events js [] >>= only
