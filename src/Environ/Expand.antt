-- ===== src/Environ/Expand.antt =====
-- environ_expand and environ_expand_until of init/environ.c. The string that is edited in place is
-- split at `*pos`: `out` is the part from where the call began up to `*pos`, with the references in
-- it replaced, and `rest` is the part behind `*pos`; `*len` is their length. A value that is
-- substituted for `(*str)[start .. end)` goes to the end of `out`, as `*pos` ends up behind it.
-- Allocation is taken to succeed.
pub mod Total
pub mod Fuel
pub mod Laws
pub mod Brackets
use startup.Base.{
  ℕ, zero, suc, Bool, true, false, Option, none, some, List, [], ◌∷◌, ◌++◌, ◌==◌, leb, ◌&&◌, ◌||◌,
  if◌then◌else◌, Str, codes, has_byte, length,
}
use startup.Environ.{environ_getn}

-- The errors raised; `diverges` is a loop that the fuel did not suffice for.
pub data Raised : Type 0 where
  unknown_param : Str → Raised
  expected_operator : Raised
  mismatched_braces : Raised

pub data Result (A : Type 0) : Type 0 where
  ok : A → Result A
  raise : Raised → Result A
  diverges : Result A

infixl 5 ◌>>=◌
abbrev pub ◌>>=◌ : {A B : Type 0} → Result A → (A → Result B) → Result B
ok a >>= f = f a
raise e >>= f = raise e
diverges >>= f = diverges

abbrev pub is_alpha : ℕ → Bool
is_alpha c = c == b'_' || (leb b'A' c && leb c b'Z') || (leb b'a' c && leb c b'z')

abbrev pub is_alnum : ℕ → Bool
is_alnum c = is_alpha c || (leb b'0' c && leb c b'9')

-- The loop that looks for the next '$' or for a character of `until`.
unfoldable pub skip : Str → Str → Str → Str × Str
skip until out [] = (out, [])
skip until out (c ∷ rest) =
    let next = skip until (out ++ c ∷ []) rest in
    if c == b'$' || has_byte c until then (out, c ∷ rest) else next

-- The loop over the letters of a simple reference: the name, and what follows it.
unfoldable pub span : Str → Str → Str × Str
span name [] = (name, [])
span name (c ∷ rest) =
    let next = span (name ++ c ∷ []) rest in if is_alnum c then next else (name, c ∷ rest)

pub data Op : Type 0 where
  op_value op_default op_alternate : Op

-- The operator behind the name of a bracketed reference, and `ignore_empty`.
unfoldable pub operator : Str → Result (Op × Bool × Str)
operator [] = ok (op_value, false, [])
operator (c ∷ []) =
    if c == b'-'
    then ok (op_default, false, [])
    else if c == b'+'
    then ok (op_alternate, false, [])
    else if c == b'}'
    then ok (op_value, false, c ∷ [])
    else raise expected_operator
operator (c ∷ d ∷ rest) =
    if c == b':' && d == b'-'
    then ok (op_default, true, rest)
    else if c == b':' && d == b'+'
    then ok (op_alternate, true, rest)
    else if c == b'-'
    then ok (op_default, false, d ∷ rest)
    else if c == b'+'
    then ok (op_alternate, false, d ∷ rest)
    else if c == b'}'
    then ok (op_value, false, c ∷ d ∷ rest)
    else raise expected_operator

-- `(value == NULL) || (ignore_empty && (value[0] == '\0'))`
abbrev pub is_unset : Option Str → Bool → Bool
is_unset none ignore_empty = true
is_unset (some []) ignore_empty = ignore_empty
is_unset (some (c ∷ v)) ignore_empty = false

abbrev pub text_of : Option Str → Str
text_of none = []
text_of (some v) = v

-- The `switch (op)`: what the reference is replaced by.
unfoldable pub substitute : Op → Bool → Str → Option Str → Str → Result Str
substitute op_value ignore_empty name none arg = raise (unknown_param name)
substitute op_value ignore_empty name (some v) arg = ok v
substitute op_default ignore_empty name value arg =
    ok (if is_unset value ignore_empty then arg else text_of value)
substitute op_alternate ignore_empty name value arg =
    ok (if is_unset value ignore_empty then [] else arg)

-- The character at `*pos` must close the bracket.
unfoldable pub close_brace : Str → Result Str
close_brace [] = raise mismatched_braces
close_brace (c ∷ rest) = if c == b'}' then ok rest else raise mismatched_braces

-- One round of the loop; `again` is a call of environ_expand_until with the fuel left, for the
-- rounds to come (`again until out rest`) and for the two nested calls (`again "…" [] rest`).
module _ (env : List Str) (again : Str → Str → Str → Result (Str × Str)) where
  unfoldable pub simple : Str → Str → Str × Str → Result (Str × Str)
  unfolding substitute
  simple until out (name, rest) = do
    value ← substitute op_value false name (environ_getn env name) []
    again until (out ++ value) rest

  unfoldable pub bracketed : Str → Str → Str → Result (Str × Str)
  unfolding operator substitute close_brace
  bracketed until out rest = do
    (name, rest₁) ← again (codes "}:-+") [] rest
    (op, ignore_empty, rest₂) ← operator rest₁
    (arg, rest₃) ← again (codes "}") [] rest₂
    rest₄ ← close_brace rest₃
    value ← substitute op ignore_empty name (environ_getn env name) arg
    again until (out ++ value) rest₄

  unfoldable pub after_brace : Str → Str → Str → Result (Str × Str)
  unfolding bracketed
  after_brace until out [] = bracketed until out []
  after_brace until out (c ∷ rest) =
      if c == b'}' then again until (out ++ b'$' ∷ []) rest else bracketed until out (c ∷ rest)

  unfoldable pub after_dollar : Str → Str → Str → Result (Str × Str)
  unfolding simple after_brace span
  after_dollar until out [] = again until (out ++ b'$' ∷ []) []
  after_dollar until out (c ∷ rest) =
      if is_alpha c
      then simple until out (span (c ∷ []) rest)
      else if c == b'{'
      then after_brace until out rest
      else again until (out ++ b'$' ∷ []) (c ∷ rest)

  unfoldable pub round : Str → Str × Str → Result (Str × Str)
  unfolding after_dollar
  round until (out, []) = ok (out, [])
  round until (out, c ∷ rest) =
      if c == b'$' then after_dollar until out rest else ok (out, c ∷ rest)

unfoldable pub environ_expand_until : ℕ → List Str → Str → Str → Str → Result (Str × Str)
unfolding round skip
environ_expand_until zero env until out rest = diverges
environ_expand_until (suc fuel) env until out rest =
    round env (environ_expand_until fuel env) until (skip until out rest)

-- Each round consumes a character, so the length of the string bounds the rounds.
unfoldable pub environ_expand : Str → List Str → Result Str
unfolding environ_expand_until
environ_expand string env = do
  (out, rest) ← environ_expand_until (suc (length string)) env [] [] string
  ok (out ++ rest)
