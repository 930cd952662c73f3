-- ===== src/EventOperator/Matches.antt =====
-- What event_operator_match decides, told without pointers: positional values against the event's
-- entries in order, then conditions on named variables against the values that the event gives them.
use startup.Base.{
  Bool, true, false, not, Option, none, some, ◌>>=◌, List, [], ◌∷◌, ◌++◌, ◌&&◌, Str, has_byte,
  value_of, str_eq, ◌≡◌, refl, arith, Bool-cases, inl, inr, All, map, ◌∙◌,
}
use startup.Environ.{environ_lookup, environ_all_valid, environ_getn, value_at}
use startup.Environ.Expand.{Result, ok, raise, diverges, environ_expand}
use startup.Event.{Event}
use startup.EventOperator.{matches, compare_value, compare_entry, match_env, event_operator_match}
use startup.EventOperator.Match.{environ_all_valid-lookup, value_of-of_has_byte}
use startup.EventOperator.Conditions.{
  IsPositional, Condition, equals, differs, text, IsCondition, negated, name_in, oval_in,
  wanted-IsPositional, wanted-text,
}

module _ (fnmatch : Str → Str → Bool) (env : List Str) where
  -- A value that is there matches the expanded pattern.
  abbrev pub is_like : Result Str → Option Str → Bool
  is_like (ok pattern) (some value) = fnmatch pattern value
  is_like (ok pattern) none = false
  is_like (raise e) value = false
  is_like diverges value = false

  -- A value that is there does not match the expanded pattern.
  abbrev pub is_unlike : Result Str → Option Str → Bool
  is_unlike (ok pattern) (some value) = not (fnmatch pattern value)
  is_unlike (ok pattern) none = false
  is_unlike (raise e) value = false
  is_unlike diverges value = false

  abbrev pub all_positional : List Str → List Str → Bool
  all_positional [] eenv = true
  all_positional (o ∷ oenv) [] = false
  all_positional (o ∷ oenv) (e ∷ es) =
      is_like (environ_expand o env) (value_of e) && all_positional oenv es

  abbrev pub meets : List Str → Condition → Bool
  meets event_env (equals name oval) =
      is_like (environ_expand oval env) (environ_getn event_env name)
  meets event_env (differs name oval) =
      is_unlike (environ_expand oval env) (environ_getn event_env name)

  abbrev pub all_met : List Str → List Condition → Bool
  all_met event_env [] = true
  all_met event_env (c ∷ cs) = meets event_env c && all_met event_env cs

  -- Both at once, for the loop's comparison.
  abbrev agrees : Bool → Result Str → Option Str → Bool
  agrees false = is_like
  agrees true = is_unlike

  matches-agrees :
      (negate : Bool) (pattern : Result Str) (eval : Str)
      → matches fnmatch env negate pattern eval ≡ agrees negate pattern (some eval)
  unfolding matches
  matches-agrees false (ok pattern) eval = refl
  matches-agrees true (ok pattern) eval = refl
  matches-agrees false (raise e) eval = refl
  matches-agrees true (raise e) eval = refl
  matches-agrees false diverges eval = refl
  matches-agrees true diverges eval = refl

  agrees-none : (negate : Bool) (pattern : Result Str) → agrees negate pattern none ≡ false
  agrees-none false (ok pattern) = refl
  agrees-none true (ok pattern) = refl
  agrees-none false (raise e) = refl
  agrees-none true (raise e) = refl
  agrees-none false diverges = refl
  agrees-none true diverges = refl

  meets-agrees :
      (event_env : List Str) (c : Condition)
      → meets event_env c
        ≡ agrees (negated c) (environ_expand (oval_in c) env) (environ_getn event_env (name_in c))
  meets-agrees event_env (equals name oval) = refl
  meets-agrees event_env (differs name oval) = refl

  compare_value-agrees :
      (negate : Bool) (oval e : Str) (rest : Option Bool) (b : Bool)
      → has_byte b'=' e ≡ true
      → rest ≡ some b
      → compare_value fnmatch env negate oval (value_of e) rest
        ≡ some (agrees negate (environ_expand oval env) (value_of e) && b)
  unfolding compare_value
  compare_value-agrees negate oval e rest b h r =
      let (eval, v) = value_of-of_has_byte e h in
      rw (v, r, matches-agrees negate (environ_expand oval env) eval)
        (elim (Bool-cases (agrees negate (environ_expand oval env) (some eval))) [
          | inl y ↦ rw y refl
          | inr f ↦ rw f refl
        ])

  compare_entry-agrees :
      (negate : Bool) (oval : Str) (found : Option (List Str)) (rest : List Str → Option Bool)
      (b : Bool)
      → ((s : List Str) → found ≡ some s → environ_all_valid s ≡ true)
      → ((es : List Str) → rest es ≡ some b)
      → compare_entry fnmatch env negate oval found rest
        ≡ some (agrees negate (environ_expand oval env) (found >>= value_at) && b)
  unfolding compare_entry value_at environ_all_valid
  compare_entry-agrees negate oval none rest b v k =
      rw (agrees-none negate (environ_expand oval env)) refl
  compare_entry-agrees negate oval (some []) rest b v k =
      rw (agrees-none negate (environ_expand oval env)) refl
  compare_entry-agrees negate oval (some (e ∷ es)) rest b v k =
      let valid = v (e ∷ es) refl in
      compare_value-agrees negate oval e (rest es) b (ground arith) (k es)

  match_env-text :
      (event_env : List Str) (cs : List Condition) (eenv : List Str)
      → environ_all_valid event_env ≡ true
      → All IsCondition cs
      → match_env fnmatch env event_env (map text cs) eenv ≡ some (all_met event_env cs)
  unfolding match_env environ_getn
  match_env-text event_env [] eenv v a = refl
  match_env-text event_env (c ∷ cs) eenv v a =
      rw (wanted-text event_env c eenv a.0, meets-agrees event_env c)
        (compare_entry-agrees (negated c) (oval_in c) (environ_lookup event_env (name_in c)) _
          (all_met event_env cs) (λ s h. environ_all_valid-lookup event_env (name_in c) v h)
          (λ es. match_env-text event_env cs es v a.1))

  match_env-positional :
      (event_env ps : List Str) (cs : List Condition) (eenv : List Str)
      → environ_all_valid event_env ≡ true
      → environ_all_valid eenv ≡ true
      → All IsPositional ps
      → All IsCondition cs
      → match_env fnmatch env event_env (ps ++ map text cs) eenv
        ≡ some (all_positional ps eenv && all_met event_env cs)
  unfolding match_env compare_entry environ_all_valid
  match_env-positional event_env [] cs eenv v w p a = match_env-text event_env cs eenv v a
  match_env-positional event_env (o ∷ ps) cs [] v w p a =
      rw (wanted-IsPositional event_env o [] p.0) refl
  match_env-positional event_env (o ∷ ps) cs (e ∷ es) v w p a =
      rw (wanted-IsPositional event_env o (e ∷ es) p.0) (
        compare_value-agrees false o e (match_env fnmatch env event_env (ps ++ map text cs) es)
          (all_positional ps es && all_met event_env cs) (ground arith)
          (match_env-positional event_env ps cs es v (ground arith) p.1 a)
        ∙ ground arith)

  -- An operator whose positional values stand before its conditions NAME=VALUE and NAME!=VALUE, as
  -- the parser requires, matches an event whose entries are all KEY=VALUE exactly if the names are
  -- equal, the event's first entries match the positional values in order, and for each condition
  -- the event has a variable of that name whose value matches VALUE, or for != does not match it.
  -- Values are expanded first, and one that cannot be expanded is no match in either case. It holds
  -- for positional values with no `=`, and for conditions that can be read in one way only: the name
  -- in NAME!=VALUE has no `!=` in it, that in NAME=VALUE no `=`, and the latter as a whole no `!=`.
  pub event_operator_match-eq :
      (name : Str) (ps : List Str) (cs : List Condition) (event : Event)
      → environ_all_valid event.env ≡ true
      → All IsPositional ps
      → All IsCondition cs
      → event_operator_match fnmatch env name (some (ps ++ map text cs)) event
        ≡ some (str_eq name event.name && (all_positional ps event.env && all_met event.env cs))
  unfolding event_operator_match
  event_operator_match-eq name ps cs event v p a = elim (Bool-cases (str_eq name event.name)) [
    | inl y ↦ rw y (match_env-positional event.env ps cs event.env v v p a)
    | inr f ↦ rw f refl
  ]
