-- ===== src/EventOperator.antt =====
-- Event expressions: init/event_operator.c. The tree that NihTree links is a data type: EVENT_OR
-- and EVENT_AND nodes have both children, as event_operator_update asserts, and EVENT_MATCH nodes
-- have none, as event_operator_match asserts. A leaf's `event` pointer is an event's address.
-- `fnmatch` is the C library's, true where it returns 0. Outside a handler `none` is an assertion
-- that failed.
mod Tests
pub mod Match
pub mod Conditions
pub mod Matches
pub mod Handle
pub mod Matched
pub mod Serialise
pub mod Environment
pub mod Collapse
use startup.Base.{
  ℕ, Bool, true, false, not, Option, none, some, ◌>>=◌, List, [], ◌∷◌, ◌++◌, ◌==◌, ◌&&◌, ◌||◌,
  if◌then◌else◌, Str, has_byte, key_of, value_of, str_eq,
}
use startup.Environ.{environ_lookup}
use startup.Environ.Expand.{Result, ok, raise, diverges, environ_expand}
use startup.Event.{Event, Store, event_block, event_unblock}

-- EVENT_OR and EVENT_AND
pub data Gate : Type 0 where
  event_or event_and : Gate

pub data EventOperator : Type 0 where
  -- type, value, left child, right child
  gate : Gate → Bool → EventOperator → EventOperator → EventOperator
  -- EVENT_MATCH: name, env, value, event
  event_match : Str → Option (List Str) → Bool → Option ℕ → EventOperator

unfoldable pub value : EventOperator → Bool
value (gate g v l r) = v
value (event_match name env v e) = v

unfoldable pub combine : Gate → Bool → Bool → Bool
combine event_or l r = l || r
combine event_and l r = l && r

unfoldable pub event_operator_update : EventOperator → EventOperator
unfolding value combine
event_operator_update (gate g v l r) = gate g (combine g (value l) (value r)) l r
event_operator_update (event_match name env v e) = event_match name env v e

-- Two parts of a string, before and behind the first "!=" (`strstr`).
unfoldable pub split_ne : Str → Option (Str × Str)
split_ne [] = none
split_ne (c ∷ []) = none
split_ne (c ∷ d ∷ s) =
    let rest = split_ne (d ∷ s) in
    if c == b'!' && d == b'='
    then some ([], s)
    else (rest >>= λ (name, oval). some (c ∷ name, oval))

-- What one string of the operator's environment asks for.
pub record Wanted : Type 0 where
  pub negate : Bool
  pub oval : Str
  pub found : Option (List Str)  -- `eenv`, NULL where there is no such variable

unfoldable pub wanted : List Str → Str → List Str → Wanted
unfolding split_ne
wanted env oenv eenv = elim (split_ne oenv) [
  | some (name, oval) ↦ record { negate = true; oval = oval; found = environ_lookup env name }
  | none ↦ elim (value_of oenv) [
    | some oval ↦ record { negate = false; oval = oval; found = environ_lookup env (key_of oenv) }
    | none ↦ record { negate = false; oval = oenv; found = some eenv }
  ]
]

abbrev pub env_list : Option (List Str) → List Str
env_list none = []
env_list (some oenv) = oenv

module _ (fnmatch : Str → Str → Bool) (env : List Str) where
  -- The comparison of an expanded value with the event's; errors of the expansion are no match.
  unfoldable pub matches : Bool → Result Str → Str → Bool
  matches negate (ok expoval) eval =
      if negate then not (fnmatch expoval eval) else fnmatch expoval eval
  matches negate (raise e) eval = false
  matches negate diverges eval = false

  -- `strchr (*eenv, '=')` must not be NULL; `rest` is the loop from the next string on.
  unfoldable pub compare_value : Bool → Str → Option Str → Option Bool → Option Bool
  compare_value negate oval none rest = none
  compare_value negate oval (some eval) rest =
      if matches negate (environ_expand oval env) eval then rest else some false

  -- `! (eenv && *eenv)` is no match; `eenv` moves on from the entry that is compared.
  unfoldable pub compare_entry :
      Bool → Str → Option (List Str) → (List Str → Option Bool) → Option Bool
  unfolding compare_value
  compare_entry negate oval none rest = some false
  compare_entry negate oval (some []) rest = some false
  compare_entry negate oval (some (e ∷ es)) rest = compare_value negate oval (value_of e) (rest es)

  -- The loop over `oenv`. `none` is an entry of the event with no '='.
  unfoldable pub match_env : List Str → List Str → List Str → Option Bool
  match_env event_env [] eenv = some true
  match_env event_env (o ∷ oenv) eenv =
      let w = wanted event_env o eenv in
      compare_entry w.negate w.oval w.found (match_env event_env oenv)

  unfoldable pub event_operator_match : Str → Option (List Str) → Event → Option Bool
  unfolding match_env
  event_operator_match name oenv event =
      if str_eq name event.name then match_env event.env (env_list oenv) event.env else some false

  -- The post-order loop: the children, then the node. The result tells whether a leaf matched.
  unfoldable pub event_operator_handle :
      EventOperator → ℕ → Store → Option (EventOperator × Store × Bool)
  event_operator_handle (gate g v l r) event st =
      event_operator_handle l event st >>= λ (l', st₁, matched_l).
      event_operator_handle r event st₁ >>= λ (r', st₂, matched_r).
      some (event_operator_update (gate g v l' r'), st₂, matched_l || matched_r)
  event_operator_handle (event_match name oenv true e) event st =
      some (event_match name oenv true e, st, false)
  event_operator_handle (event_match name oenv false e) event st =
      event_operator_match name oenv (st event) >>= λ matched.
      if matched
      then some (event_match name oenv true (some event), event_block event st, true)
      else some (event_match name oenv false e, st, false)

unfoldable pub event_operator_reset : EventOperator → Store → Option (EventOperator × Store)
event_operator_reset (gate g v l r) st = event_operator_reset l st >>= λ (l', st₁).
    event_operator_reset r st₁ >>= λ (r', st₂). some (event_operator_update (gate g v l' r'), st₂)
event_operator_reset (event_match name oenv v none) st = some (event_match name oenv false none, st)
event_operator_reset (event_match name oenv v (some e)) st =
    event_unblock e st >>= λ st'. some (event_match name oenv false none, st')

-- A copy of a leaf blocks its event once more; the node is copied before its children.
unfoldable pub event_operator_copy : EventOperator → Store → EventOperator × Store
event_operator_copy (gate g v l r) st =
    let (l', st₁) = event_operator_copy l st in
    let (r', st₂) = event_operator_copy r st₁ in (gate g v l' r', st₂)
event_operator_copy (event_match name oenv v none) st = (event_match name oenv v none, st)
event_operator_copy (event_match name oenv v (some e)) st =
    (event_match name oenv v (some e), event_block e st)

-- The destructors of a tree that is freed, from the root down.
unfoldable pub event_operator_destroy : EventOperator → Store → Option Store
event_operator_destroy (gate g v l r) st =
    event_operator_destroy l st >>= λ st₁. event_operator_destroy r st₁
event_operator_destroy (event_match name oenv v none) st = some st
event_operator_destroy (event_match name oenv v (some e)) st = event_unblock e st
