-- ===== src/ParseOn/Grammar.antt =====
-- The expressions that `start on` and `stop on` take, and the trees that they mean, told without a
-- stack: operators bind alike and to the left, and parentheses group.
use startup.Base.{true, false, Option, none, some, List, [], ◌∷◌, ◌++◌, map, Str, ◌≡◌}
use startup.EventOperator.{Gate, EventOperator, gate, event_match}
use startup.ParseOn.{Token, opening, closing, operator, word, check_env}

-- The environment of an event with these values.
abbrev pub env_of : List Str → Option (List Str)
env_of [] = none
env_of (arg ∷ args) = some (arg ∷ args)

mutual
  -- An event with its values, or an expression in parentheses.
  pub data Operand : List Token → EventOperator → Type 0 where
    name :
        (s : Str) (args : List Str) {ts : List Token} {env : Option (List Str)}
        → check_env true args ≡ true
        → ts ≡ word s ∷ map word args
        → env ≡ env_of args
        → Operand ts (event_match s env false none)
    group :
        (inner : List Token) {ts : List Token} {t : EventOperator}
        → Expression inner t
        → ts ≡ opening ∷ (inner ++ closing ∷ [])
        → Operand ts t

  pub data Expression : List Token → EventOperator → Type 0 where
    single : {ts : List Token} {t : EventOperator} → Operand ts t → Expression ts t
    chain :
        (left right : List Token) (g : Gate) {ts : List Token} {l r : EventOperator}
        → Expression left l
        → Operand right r
        → ts ≡ left ++ operator g ∷ right
        → Expression ts (gate g false l r)
