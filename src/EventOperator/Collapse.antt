-- ===== src/EventOperator/Collapse.antt =====
-- event_operator_collapse of init/event_operator.c and state_collapse_env of init/state.c: an
-- expression printed by a post-order traversal with a stack of printed subexpressions.
use startup.Base.{
  Bool, Option, none, some, ◌>>=◌, List, [], ◌∷◌, ◌++◌, ◌||◌, if◌then◌else◌, Str, codes, has_byte,
  key_of, value_of, ◌≡◌, refl, ap, sym, ℕ, ◌==◌, Bool-cases, inl, inr, append-nil, append_assoc,
  arith,
}
use startup.EventOperator.{Gate, event_or, event_and, EventOperator, gate, event_match}

-- `strpbrk (p, " \t") != NULL`
unfoldable pub has_blank : Str → Bool
has_blank s = has_byte b' ' s || has_byte b'\t' s

-- One string of the environment, its value in quotes if it has a blank.
unfoldable pub collapse_entry : Str → Str
unfolding has_blank
collapse_entry e = elim (value_of e) [
  | some value ↦
      if has_blank (b'=' ∷ value) then key_of e ++ codes "=\"" ++ value ++ codes "\"" else e
  | none ↦ e
]

unfoldable pub collapse_rest : List Str → Str
unfolding collapse_entry
collapse_rest [] = []
collapse_rest (e ∷ es) = b' ' ∷ (collapse_entry e ++ collapse_rest es)

-- NULL for an environment with no strings.
unfoldable pub state_collapse_env : List Str → Option Str
unfolding collapse_rest
state_collapse_env [] = none
state_collapse_env (e ∷ es) = some (collapse_entry e ++ collapse_rest es)

-- "%s%s%s" of the name, a space if there is an environment, and the environment.
unfoldable pub collapse_match : Str → Option (List Str) → Str
unfolding state_collapse_env
collapse_match name none = name
collapse_match name (some env) = elim (state_collapse_env env) [
  | some text ↦ name ++ b' ' ∷ text
  | none ↦ name
]

unfoldable pub gate_text : Gate → Str
gate_text event_or = codes "or"
gate_text event_and = codes "and"

-- The text of a child: its own if it is EVENT_MATCH, and otherwise that on top of the stack, which
-- must not be empty.
unfoldable pub child_text : EventOperator → List Str → Option (Str × List Str)
unfolding collapse_match
child_text (event_match name env v e) stack = some (collapse_match name env, stack)
child_text (gate g v l r) [] = none
child_text (gate g v l r) (text ∷ stack) = some (text, stack)

-- "(%s %s %s)"
unfoldable pub parenthesise : Str → Gate → Str → Str
unfolding gate_text
parenthesise left g right =
    codes "(" ++ (left ++ (b' ' ∷ (gate_text g ++ (b' ' ∷ (right ++ codes ")")))))

-- The visits of a tree, in post-order; the right child's text is taken off the stack first.
-- EVENT_MATCH nodes are passed over.
unfoldable pub collapse_visit : EventOperator → List Str → Option (List Str)
unfolding child_text parenthesise
collapse_visit (event_match name env v e) stack = some stack
collapse_visit (gate g v l r) stack = collapse_visit l stack >>= λ stack₁.
    collapse_visit r stack₁ >>= λ stack₂. child_text r stack₂ >>= λ (right, stack₃).
    child_text l stack₃ >>= λ (left, stack₄). some (parenthesise left g right ∷ stack₄)

-- The stack must hold exactly the text of the root in the end.
unfoldable pub top_only : List Str → Option Str
top_only [] = none
top_only (text ∷ []) = some text
top_only (text ∷ other ∷ stack) = none

-- A root that is EVENT_MATCH is pushed on its own.
unfoldable pub event_operator_collapse : EventOperator → Option Str
unfolding collapse_visit top_only collapse_match
event_operator_collapse (event_match name env v e) = top_only (collapse_match name env ∷ [])
event_operator_collapse (gate g v l r) = collapse_visit (gate g v l r) [] >>= top_only

-- How a value is written: in quotes if it has a space or a tab.
abbrev pub quoted : Str → Str
quoted value =
    if has_byte b' ' value || has_byte b'\t' value
    then codes "\"" ++ (value ++ codes "\"")
    else value

-- One string: KEY=VALUE, or any other as it is.
abbrev pub written_entry : Str → Option Str → Str
written_entry e none = e
written_entry e (some value) = key_of e ++ (codes "=" ++ quoted value)

-- The strings of an environment, a space before each.
abbrev pub written : List Str → Str
written [] = []
written (e ∷ es) = codes " " ++ (written_entry e (value_of e) ++ written es)

-- The expression, fully bracketed.
abbrev pub bracketed : EventOperator → Str
bracketed (event_match name none v e) = name
bracketed (event_match name (some env) v e) = name ++ written env
bracketed (gate event_or v l r) =
    codes "(" ++ (bracketed l ++ (codes " or " ++ (bracketed r ++ codes ")")))
bracketed (gate event_and v l r) =
    codes "(" ++ (bracketed l ++ (codes " and " ++ (bracketed r ++ codes ")")))

key_of-value_of : (e value : Str) → value_of e ≡ some value → key_of e ++ b'=' ∷ value ≡ e
unfolding key_of value_of
key_of-value_of [] value h = cc
key_of-value_of (c ∷ e) value h = elim (Bool-cases (c == b'=')) [
  | inl y ↦ ground (arith, y, h)
  | inr n ↦ rw n (ap (λ t. c ∷ t) (key_of-value_of e value (rw n at h)))
]

has_blank-cons :
    (value : Str) → has_blank (b'=' ∷ value) ≡ (has_byte b' ' value || has_byte b'\t' value)
unfolding has_blank has_byte
has_blank-cons value = refl

collapse_entry-written : (e : Str) → collapse_entry e ≡ written_entry e (value_of e)
unfolding collapse_entry
collapse_entry-written e = go (value_of e) refl
  where
    go : (o : Option Str) → value_of e ≡ o → collapse_entry e ≡ written_entry e (value_of e)
    go none h = ground (arith, h)
    go (some value) h = elim (Bool-cases (has_byte b' ' value || has_byte b'\t' value)) [
      | inl y ↦
          let opened : key_of e ++ codes "=\"" ++ value ++ codes "\""
              ≡ key_of e ++ (codes "=" ++ (codes "\"" ++ (value ++ codes "\""))) =
            simp append_assoc in
          ground (arith, h, y, has_blank-cons value, opened)
      | inr n ↦ ground (arith, h, n, has_blank-cons value, key_of-value_of e value h)
    ]

collapse_rest-written : (env : List Str) → collapse_rest env ≡ written env
unfolding collapse_rest
collapse_rest-written [] = refl
collapse_rest-written (e ∷ es) =
    ap (λ t. b' ' ∷ t) (cc (collapse_entry-written e, collapse_rest-written es))

collapse_match-bracketed :
    (name : Str) (env : Option (List Str)) (v : Bool) (e : Option ℕ)
    → collapse_match name env ≡ bracketed (event_match name env v e)
unfolding collapse_match state_collapse_env
collapse_match-bracketed name none v e = refl
collapse_match-bracketed name (some []) v e = sym (append-nil name)
collapse_match-bracketed name (some (x ∷ xs)) v e =
    ap (λ t. name ++ t) (collapse_rest-written (x ∷ xs))

parenthesise-bracketed :
    (g : Gate) (v : Bool) (l r : EventOperator)
    → parenthesise (bracketed l) g (bracketed r) ≡ bracketed (gate g v l r)
unfolding parenthesise
parenthesise-bracketed event_or v l r = refl
parenthesise-bracketed event_and v l r = refl

-- What a visit leaves on the stack.
abbrev pushed : EventOperator → List Str → List Str
pushed (event_match name env v e) stack = stack
pushed (gate g v l r) stack = bracketed (gate g v l r) ∷ stack

child_text-pushed :
    (t : EventOperator) (stack : List Str)
    → child_text t (pushed t stack) ≡ some (bracketed t, stack)
unfolding child_text
child_text-pushed (event_match name env v e) stack =
    ap (λ t. some (t, stack)) (collapse_match-bracketed name env v e)
child_text-pushed (gate g v l r) stack = refl

collapse_visit-pushed :
    (t : EventOperator) (stack : List Str) → collapse_visit t stack ≡ some (pushed t stack)
unfolding collapse_visit
collapse_visit-pushed (event_match name env v e) stack = refl
collapse_visit-pushed (gate g v l r) stack = rw (
  collapse_visit-pushed l stack,
  collapse_visit-pushed r (pushed l stack),
  child_text-pushed r (pushed l stack),
  child_text-pushed l stack,
  parenthesise-bracketed g v l r,
)

-- No assertion of event_operator_collapse fails, and its text is the expression with every operator
-- in round brackets: the left operand, the word `or` or `and`, and the right operand. A match is its
-- name and the strings of its environment with a space before each, a value with a space or a tab in
-- double quotes.
pub event_operator_collapse-bracketed :
    (t : EventOperator) → event_operator_collapse t ≡ some (bracketed t)
unfolding event_operator_collapse
event_operator_collapse-bracketed (event_match name env v e) =
    ap some (collapse_match-bracketed name env v e)
event_operator_collapse-bracketed (gate g v l r) =
    ap (λ r. r >>= top_only) (collapse_visit-pushed (gate g v l r) [])
