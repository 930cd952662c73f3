-- ===== src/EventOperator/Serialise/RoundTrip.antt =====
-- A serialised event expression reads back as it was but for empty environments, its events at
-- their new addresses.
use startup.Base.{
  ℕ, Option, none, some, ◌>>=◌, >>=-eq-some, List, [], ◌∷◌, ◌++◌, Str, str_eq, map, ◌≡◌, refl, sym,
  ap, ◌∙◌, append_assoc, subst, some-injective, append-nil,
}
use startup.Event.{event_to_index}
use startup.Event.Index.{event_from_index-event_to_index}
use startup.EventOperator.{event_or, event_and, EventOperator, gate, event_match}
use startup.EventOperator.Serialise.{
  EventOperatorType, type_gate, type_match, event_operator_type_enum_to_str,
  event_operator_type_str_to_enum, Json, index_of, event_operator_serialise,
  event_operator_serialise_all, Node, operator_node, match_node, event_at,
  state_deserialise_str_array, event_operator_deserialise, link, link_all, only,
  event_operator_deserialise_all,
}

-- The name of an operator type reads back as that type.
pub event_operator_type-round_trip :
    (t : EventOperatorType)
    → event_operator_type_str_to_enum (event_operator_type_enum_to_str t) ≡ some t
unfolding event_operator_type_enum_to_str event_operator_type_str_to_enum str_eq
event_operator_type-round_trip (type_gate event_or) = refl
event_operator_type-round_trip (type_gate event_and) = refl
event_operator_type-round_trip type_match = refl

abbrev pub relocate_event : (ℕ → ℕ) → Option ℕ → Option ℕ
relocate_event f none = none
relocate_event f (some e) = some (f e)

-- An environment with no strings is not told from none.
abbrev pub kept : Option (List Str) → Option (List Str)
kept none = none
kept (some []) = none
kept (some (e ∷ es)) = some (e ∷ es)

-- The same tree, with every event at the address that `f` gives it, and no empty environments.
abbrev pub relocate : (ℕ → ℕ) → EventOperator → EventOperator
relocate f (gate g v l r) = gate g v (relocate f l) (relocate f r)
relocate f (event_match name env v e) = event_match name (kept env) v (relocate_event f e)

-- What event_operator_deserialise makes of the object of a tree's root.
abbrev node_of : (ℕ → ℕ) → EventOperator → Node
node_of f (gate g v l r) = operator_node g v
node_of f (event_match name env v e) =
    match_node (event_match name (kept env) v (relocate_event f e))

deserialise-kept : (env : Option (List Str)) → (env >>= state_deserialise_str_array) ≡ kept env
unfolding state_deserialise_str_array
deserialise-kept none = refl
deserialise-kept (some []) = refl
deserialise-kept (some (e ∷ es)) = refl

module _ (f : ℕ → ℕ) (events : List ℕ) where
  event_at-index_of :
      (e i : Option ℕ)
      → index_of events e ≡ some i
      → event_at (map f events) i ≡ some (relocate_event f e)
  unfolding index_of event_at
  event_at-index_of none none h = refl
  event_at-index_of none (some k) h = cc
  event_at-index_of (some e) i h =
      let (k, found, same) = >>=-eq-some (event_to_index events e) (λ k. some (some k)) h in
      subst (λ x. event_at (map f events) x ≡ some (some (f e))) (some-injective _ _ same)
        (rw (event_from_index-event_to_index f events e k found) refl)

  deserialise-serialise :
      (t : EventOperator) (j : Json)
      → event_operator_serialise events t ≡ some j
      → event_operator_deserialise (map f events) j ≡ some (node_of f t)
  unfolding event_operator_serialise event_operator_deserialise str_eq
  deserialise-serialise (gate g v l r) j h =
      subst (λ x. event_operator_deserialise (map f events) x ≡ some (operator_node g v))
        (some-injective _ _ h) (rw (event_operator_type-round_trip (type_gate g)) refl)
  deserialise-serialise (event_match name env v e) j h =
      let (i, found, same) = >>=-eq-some (index_of events e) _ h in
      subst
        (λ x.
          event_operator_deserialise (map f events) x
          ≡ some (match_node (event_match name (kept env) v (relocate_event f e))))
        (some-injective _ _ same) (rw (event_at-index_of e i found, deserialise-kept env) refl)

  link_all-step :
      (t : EventOperator) (j : Json) (rest : List Json) (stack stack' : List EventOperator)
      → event_operator_serialise events t ≡ some j
      → link (node_of f t) stack ≡ some stack'
      → link_all (map f events) (j ∷ rest) stack ≡ link_all (map f events) rest stack'
  unfolding link_all
  link_all-step t j rest stack stack' h k = rw (deserialise-serialise t j h, k) refl

  -- The nodes of a tree push the tree.
  link_all-serialise_all :
      (t : EventOperator) (js rest : List Json) (stack : List EventOperator)
      → event_operator_serialise_all events t ≡ some js
      → link_all (map f events) (js ++ rest) stack
        ≡ link_all (map f events) rest (relocate f t ∷ stack)
  unfolding event_operator_serialise_all link
  link_all-serialise_all (gate g v l r) js rest stack h =
      let (ls, hl, h₁) = >>=-eq-some (event_operator_serialise_all events l) _ h in
      let (rs, hr, h₂) = >>=-eq-some (event_operator_serialise_all events r) _ h₁ in
      let (j, hj, same) = >>=-eq-some (event_operator_serialise events (gate g v l r)) _ h₂ in
      subst
        (λ x.
          link_all (map f events) (x ++ rest) stack
          ≡ link_all (map f events) rest (relocate f (gate g v l r) ∷ stack))
        (some-injective _ _ same)
        (ap (λ x. link_all (map f events) x stack) (simp append_assoc)
          ∙ link_all-serialise_all l ls (rs ++ j ∷ rest) stack hl
          ∙ link_all-serialise_all r rs (j ∷ rest) (relocate f l ∷ stack) hr
          ∙ link_all-step (gate g v l r) j rest (relocate f r ∷ relocate f l ∷ stack)
              (relocate f (gate g v l r) ∷ stack) hj refl)
  link_all-serialise_all (event_match name env v e) js rest stack h =
      let t = event_match name env v e in
      let (j, hj, same) = >>=-eq-some (event_operator_serialise events t) _ h in
      subst
        (λ x.
          link_all (map f events) (x ++ rest) stack
          ≡ link_all (map f events) rest (relocate f t ∷ stack))
        (some-injective _ _ same) (link_all-step t j rest stack (relocate f t ∷ stack) hj refl)

-- If every event that a tree refers to is in the list, event_operator_deserialise_all makes of the
-- tree's serialised nodes the same tree, its references at the events that took the places of the
-- old ones in the list, and an environment that is an empty array turned into none.
pub event_operator_deserialise_all-serialise_all :
    (f : ℕ → ℕ) (events : List ℕ) (t : EventOperator) (js : List Json)
    → event_operator_serialise_all events t ≡ some js
    → event_operator_deserialise_all (map f events) js ≡ some (relocate f t)
unfolding event_operator_deserialise_all
event_operator_deserialise_all-serialise_all f events t js h =
    ap (λ x. link_all (map f events) x [] >>= only) (sym (append-nil js))
    ∙ ap (λ r. r >>= only) (link_all-serialise_all f events t js [] [] h)
