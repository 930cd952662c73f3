-- ===== src/EventOperator/Conditions.antt =====
-- The conditions that an event expression puts on an event's variables, NAME=VALUE and NAME!=VALUE, as
-- data; and that event_operator_match of init/event_operator.c takes their text apart.
use startup.Base.{
  Bool, true, false, none, some, List, [], ◌∷◌, ◌++◌, ◌==◌, ◌&&◌, ◌||◌, Str, codes, has_byte,
  value_of, ◌≡◌, refl, arith,
}
use startup.Environ.{environ_lookup}
use startup.Environ.Update.{key_of-of_IsName, value_of-of_IsName}
use startup.EventOperator.{split_ne, wanted}

abbrev pub IsPositional : Str → Type 0
IsPositional o = has_byte b'=' o ≡ false

-- A condition on a variable of the event: its name, and the value it must have or must not have.
pub data Condition : Type 0 where
  equals differs : Str → Str → Condition

-- How a condition is written: NAME=VALUE or NAME!=VALUE.
abbrev pub text : Condition → Str
text (equals name oval) = name ++ (codes "=" ++ oval)
text (differs name oval) = name ++ (codes "!=" ++ oval)

-- Whether the two characters != stand next to each other somewhere.
abbrev pub has_ne : Str → Bool
has_ne [] = false
has_ne (c ∷ []) = false
has_ne (c ∷ d ∷ s) = (c == b'!' && d == b'=') || has_ne (d ∷ s)

-- What makes the text of a condition unambiguous.
abbrev pub IsCondition : Condition → Type 0
IsCondition (equals name oval) =
    (has_byte b'=' name ≡ false) × (has_ne (name ++ b'=' ∷ oval) ≡ false)
IsCondition (differs name oval) = has_ne name ≡ false

-- The parts of a condition.
abbrev pub negated : Condition → Bool
negated (equals name oval) = false
negated (differs name oval) = true

abbrev pub name_in : Condition → Str
name_in (equals name oval) = name
name_in (differs name oval) = name

abbrev pub oval_in : Condition → Str
oval_in (equals name oval) = oval
oval_in (differs name oval) = oval

split_ne-has_ne : (o : Str) → has_ne o ≡ false → split_ne o ≡ none
unfolding split_ne
split_ne-has_ne [] h = refl
split_ne-has_ne (c ∷ []) h = refl
split_ne-has_ne (c ∷ d ∷ s) h = ground (arith, split_ne-has_ne (d ∷ s))

split_ne-of_append :
    (name oval : Str)
    → has_ne name ≡ false
    → split_ne (name ++ (codes "!=" ++ oval)) ≡ some (name, oval)
unfolding split_ne
split_ne-of_append [] oval h = refl
split_ne-of_append (c ∷ []) oval h = ground arith
split_ne-of_append (c ∷ d ∷ s) oval h = ground (arith, split_ne-of_append (d ∷ s) oval)

split_ne-IsPositional : (o : Str) → IsPositional o → split_ne o ≡ none
unfolding split_ne has_byte
split_ne-IsPositional [] h = refl
split_ne-IsPositional (c ∷ []) h = refl
split_ne-IsPositional (c ∷ d ∷ s) h = ground (arith, split_ne-IsPositional (d ∷ s))

value_of-IsPositional : (o : Str) → IsPositional o → value_of o ≡ none
unfolding value_of has_byte
value_of-IsPositional [] h = refl
value_of-IsPositional (c ∷ s) h = ground (arith, value_of-IsPositional s)

pub wanted-IsPositional :
    (env : List Str) (o : Str) (eenv : List Str)
    → IsPositional o
    → wanted env o eenv ≡ record { negate = false; oval = o; found = some eenv }
unfolding wanted
wanted-IsPositional env o eenv h =
    ground (arith, split_ne-IsPositional o h, value_of-IsPositional o h)

pub wanted-text :
    (env : List Str) (c : Condition) (eenv : List Str)
    → IsCondition c
    → wanted env (text c) eenv
      ≡ record { negate = negated c; oval = oval_in c; found = environ_lookup env (name_in c) }
unfolding wanted
wanted-text env (equals name oval) eenv (n, h) = ground (
  arith,
  split_ne-has_ne (name ++ b'=' ∷ oval) h,
  value_of-of_IsName name oval n,
  key_of-of_IsName name oval n,
)
wanted-text env (differs name oval) eenv h = ground (arith, split_ne-of_append name oval h)
