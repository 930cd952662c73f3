-- ===== src/EventOperator/Match.antt =====
-- event_operator_match: it answers for every event that control_emit_event lets through, and what
-- the answer is.
use startup.Base.{
  Bool, true, false, Option, none, some, List, [], ◌∷◌, ◌==◌, Str, has_byte, key_of, value_of,
  str_eq, ◌≡◌, refl, arith, Bool-cases, inl, inr,
}
use startup.Environ.{environ_lookup, environ_all_valid}
use startup.Environ.Expand.{environ_expand}
use startup.Event.{Event}
use startup.EventOperator.{
  split_ne, wanted, matches, compare_value, compare_entry, match_env, env_list,
  event_operator_match,
}

pub environ_all_valid-lookup :
    (env : List Str) (key : Str) {s : List Str}
    → environ_all_valid env ≡ true
    → environ_lookup env key ≡ some s
    → environ_all_valid s ≡ true
unfolding environ_lookup environ_all_valid
environ_all_valid-lookup [] key v h = cc
environ_all_valid-lookup (e ∷ es) key {s} v h = ground (
  arith,
  λ (w : environ_all_valid es ≡ true) (k : environ_lookup es key ≡ some s).
      environ_all_valid-lookup es key {s = s} w k,
)

pub value_of-of_has_byte : (e : Str) → has_byte b'=' e ≡ true → (v : Str) × (value_of e ≡ some v)
unfolding has_byte value_of
value_of-of_has_byte [] h = cc
value_of-of_has_byte (x ∷ e) h = elim (Bool-cases (x == b'=')) [
  | inl y ↦ (e, rw y refl)
  | inr f ↦ rw f (value_of-of_has_byte e (rw f at h))
]

-- Whatever an operator asks for is looked for among the event's own entries.
wanted-valid :
    (env : List Str) (o : Str) (eenv : List Str) {s : List Str}
    → environ_all_valid env ≡ true
    → environ_all_valid eenv ≡ true
    → (wanted env o eenv).found ≡ some s
    → environ_all_valid s ≡ true
unfolding wanted
wanted-valid env o eenv {s} v w h = ne (split_ne o) refl
  where
    eq : (q : Option Str) → split_ne o ≡ none → value_of o ≡ q → environ_all_valid s ≡ true
    eq none n e = ground arith
    eq (some oval) n e = environ_all_valid-lookup env (key_of o) v (ground arith)

    ne : (q : Option (Str × Str)) → split_ne o ≡ q → environ_all_valid s ≡ true
    ne none n = eq (value_of o) n refl
    ne (some (name, oval)) n = environ_all_valid-lookup env name v (ground arith)

-- The loop from some entry of the event on answers.
abbrev Answers : Option Bool → Type 0
Answers r = (b : Bool) × (r ≡ some b)

module _ (fnmatch : Str → Str → Bool) (env : List Str) where
  compare_value-Answers :
      (negate : Bool) (oval eval : Str) (rest : Option Bool)
      → Answers rest
      → Answers (compare_value fnmatch env negate oval (some eval) rest)
  unfolding compare_value
  compare_value-Answers negate oval eval rest (b, r) =
      elim (Bool-cases (matches fnmatch env negate (environ_expand oval env) eval)) [
        | inl y ↦ (b, rw y r)
        | inr f ↦ (false, rw f refl)
      ]

  compare_entry-Answers :
      (negate : Bool) (oval : Str) (found : Option (List Str)) (rest : List Str → Option Bool)
      → ((s : List Str) → found ≡ some s → environ_all_valid s ≡ true)
      → ((es : List Str) → environ_all_valid es ≡ true → Answers (rest es))
      → Answers (compare_entry fnmatch env negate oval found rest)
  unfolding compare_entry environ_all_valid
  compare_entry-Answers negate oval none rest v k = (false, refl)
  compare_entry-Answers negate oval (some []) rest v k = (false, refl)
  compare_entry-Answers negate oval (some (e ∷ es)) rest v k =
      let valid = v (e ∷ es) refl in
      let (eval, h) = value_of-of_has_byte e (ground arith) in
      rw h (compare_value-Answers negate oval eval (rest es) (k es (ground arith)))

  match_env-Answers :
      (event_env oenv eenv : List Str)
      → environ_all_valid event_env ≡ true
      → environ_all_valid eenv ≡ true
      → Answers (match_env fnmatch env event_env oenv eenv)
  unfolding match_env
  match_env-Answers event_env [] eenv v w = (true, refl)
  match_env-Answers event_env (o ∷ oenv) eenv v w =
      let wants = wanted event_env o eenv in
      compare_entry-Answers wants.negate wants.oval wants.found
        (match_env fnmatch env event_env oenv) (λ s h. wanted-valid event_env o eenv v w h)
        (λ es h. match_env-Answers event_env oenv es v h)

  -- No assertion of event_operator_match fails on an event whose environment environ_all_valid
  -- accepts.
  pub event_operator_match_total :
      (name : Str) (oenv : Option (List Str)) (event : Event)
      → environ_all_valid event.env ≡ true
      → (b : Bool) × (event_operator_match fnmatch env name oenv event ≡ some b)
  unfolding event_operator_match
  event_operator_match_total name oenv event v = elim (Bool-cases (str_eq name event.name)) [
    | inl y ↦ rw y (match_env-Answers event.env (env_list oenv) event.env v v)
    | inr f ↦ (false, rw f refl)
  ]
