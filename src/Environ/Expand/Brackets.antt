-- ===== src/Environ/Expand/Brackets.antt =====
-- Bracketed references, `${NAME}` and those with an operator, as the manual describes them.
use startup.Base.{
  ℕ, Bool, true, false, Option, none, some, List, [], ◌∷◌, ◌++◌, ◌==◌, ◌||◌, Str, codes, has_byte,
  ◌≡◌, All,
}
use startup.Environ.Expand.{
  Result, ok, raise, unknown_param, ◌>>=◌, Op, op_value, op_default, op_alternate, environ_expand,
}
use startup.Environ.Expand.Laws.{after, IsPlain}

-- No character of the text ends the part that is expanded up to `until`.
abbrev pub Skips : Str → Str → Type 0
Skips until s = All (λ c. (c == b'$' || has_byte c until) ≡ false) s

-- How an operator is written.
abbrev pub op_text : Op → Bool → Str
op_text op_value e = []
op_text op_default true = codes ":-"
op_text op_default false = codes "-"
op_text op_alternate true = codes ":+"
op_text op_alternate false = codes "+"

-- `${NAME}` has no argument.
abbrev pub ArgFits : Op → Bool → Str → Type 0
ArgFits op_value e text = (text ≡ []) × (e ≡ false)
ArgFits op_default e text = Unit {0}
ArgFits op_alternate e text = Unit {0}

-- What the manual says a reference is replaced by: the value of a variable that is set; the text if
-- it is not, or, with a colon, if it is empty; for the alternate the other way round.
abbrev pub meaning : Op → Bool → Str → Option Str → Str → Result Str
meaning op_value e name none text = raise (unknown_param name)
meaning op_value e name (some value) text = ok value
meaning op_default e name none text = ok text
meaning op_default true name (some []) text = ok text
meaning op_default false name (some []) text = ok []
meaning op_default e name (some (c ∷ value)) text = ok (c ∷ value)
meaning op_alternate e name none text = ok []
meaning op_alternate true name (some []) text = ok []
meaning op_alternate false name (some []) text = ok text
meaning op_alternate e name (some (c ∷ value)) text = ok text

-- The rest of the expansion, once the reference has a value.
abbrev pub then_rest : Str → List Str → Str → Result Str → Result Str
then_rest pre env rest value = value >>= λ v. after (pre ++ v) (environ_expand rest env)

module _ (env : List Str) (pre : Str) (c : ℕ) (s : Str) (op : Op) (e : Bool) (text rest : Str)
    (plain : IsPlain pre) (named : Skips (codes "}:-+") (c ∷ s)) (fits : ArgFits op e text)
    (arg : Skips (codes "}") text) where
  abbrev braces : Str
  braces = (c ∷ s) ++ (op_text op e ++ (text ++ b'}' ∷ rest))
