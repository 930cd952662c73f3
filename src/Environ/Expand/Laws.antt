-- ===== src/Environ/Expand/Laws.antt =====
-- What environ_expand makes of each form of reference.
use startup.Base.{
  ℕ, true, false, Option, none, some, List, [], ◌∷◌, ◌++◌, Str, codes, has_byte, length, ◌<◌, arith,
  ◌≡◌, refl, sym, ◌∙◌, ap, append_assoc, All, append-nil, length-append,
}
use startup.Environ.{environ_getn}
use startup.Environ.Expand.{
  unknown_param, Result, ok, raise, diverges, ◌>>=◌, is_alpha, is_alnum, skip, span, op_value,
  substitute, simple, after_brace, after_dollar, round, environ_expand_until, environ_expand,
}
use startup.Environ.Expand.Fuel.{environ_expand_until-fuel, environ_expand_until-prefix, prefixed}

-- Put in front of an expanded string.
abbrev pub after : Str → Result Str → Result Str
after pre (ok s) = ok (pre ++ s)
after pre (raise e) = raise e
after pre diverges = diverges

abbrev pub whole : Result (Str × Str) → Result Str
whole r = r >>= λ (out, rest). ok (out ++ rest)

whole-prefixed : (pre : Str) (r : Result (Str × Str)) → whole (prefixed pre r) ≡ after pre (whole r)
whole-prefixed pre (ok (out, rest)) = rw append_assoc refl
whole-prefixed pre (raise e) = refl
whole-prefixed pre diverges = refl

-- A later round of the outermost call is the expansion of what is left.
pub later_round :
    (f : ℕ) (env : List Str) (pre rest : Str)
    → length rest < f
    → whole (environ_expand_until f env [] pre rest) ≡ after pre (environ_expand rest env)
unfolding environ_expand
later_round f env pre rest h =
    ap (λ p. whole (environ_expand_until f env [] p rest)) (sym (append-nil pre))
    ∙ ap whole (environ_expand_until-prefix f env pre [] [] rest)
    ∙ whole-prefixed pre (environ_expand_until f env [] [] rest)
    ∙ ap (λ r. after pre (whole r)) (environ_expand_until-fuel f env [] [] rest h)

-- Text with no '$' before the first reference.
abbrev pub IsPlain : Str → Type 0
IsPlain s = has_byte b'$' s ≡ false

skip-IsPlain :
    (out pre tail : Str)
    → IsPlain pre
    → skip [] out (pre ++ b'$' ∷ tail) ≡ (out ++ pre, b'$' ∷ tail)
unfolding skip has_byte
skip-IsPlain out [] tail h = rw append-nil refl
skip-IsPlain out (c ∷ pre) tail h =
    ground (arith, skip-IsPlain (out ++ c ∷ []) pre tail, append_assoc out (c ∷ []) pre)

skip_all : (out s : Str) → IsPlain s → skip [] out s ≡ (out ++ s, [])
unfolding skip has_byte
skip_all out [] h = rw append-nil refl
skip_all out (c ∷ s) h = ground (arith, skip_all (out ++ c ∷ []) s, append_assoc out (c ∷ []) s)

-- The first reference of a string.
pub expand_reference :
    (env : List Str) (pre tail : Str)
    → IsPlain pre
    → environ_expand (pre ++ b'$' ∷ tail) env
      ≡ whole
          (after_dollar env (environ_expand_until (length (pre ++ b'$' ∷ tail)) env) [] pre tail)
unfolding environ_expand environ_expand_until round
expand_reference env pre tail h = rw (skip-IsPlain [] pre tail h) refl

-- A string with no '$' is its own expansion.
pub environ_expand-IsPlain : (s : Str) (env : List Str) → IsPlain s → environ_expand s env ≡ ok s
unfolding environ_expand environ_expand_until round
environ_expand-IsPlain s env h = rw (skip_all [] s h) (ap ok (append-nil s))

-- A name, and what follows it does not go on with it.
abbrev pub IsParam : Str → Type 0
IsParam [] = ⊥
IsParam (c ∷ s) = (is_alpha c ≡ true) × All (λ d. is_alnum d ≡ true) s

abbrev pub NotGoesOn : Str → Type 0
NotGoesOn [] = Unit {0}
NotGoesOn (c ∷ s) = is_alnum c ≡ false

span-IsParam :
    (name s rest : Str)
    → All (λ d. is_alnum d ≡ true) s
    → NotGoesOn rest
    → span name (s ++ rest) ≡ (name ++ s, rest)
unfolding span
span-IsParam name [] [] a n = rw append-nil refl
span-IsParam name [] (c ∷ rest) a n = rw (n, append-nil) refl
span-IsParam name (d ∷ s) rest a n =
    rw a.0 (span-IsParam (name ++ d ∷ []) s rest a.1 n ∙ rw append_assoc refl)

-- The result of a simple reference, by the variable's value.
abbrev pub referenced : Str → Option Str → (Str → Result Str) → Result Str
referenced name none k = raise (unknown_param name)
referenced name (some v) k = k v

-- `$NAME` is replaced by the variable's value, which is not expanded again, and an unknown name is
-- an error; the rest is expanded on its own.
pub environ_expand-param :
    (env : List Str) (pre name rest : Str)
    → IsPlain pre
    → IsParam name
    → NotGoesOn rest
    → environ_expand (pre ++ b'$' ∷ (name ++ rest)) env
      ≡ referenced name (environ_getn env name) (λ v. after (pre ++ v) (environ_expand rest env))
unfolding after_dollar simple substitute
environ_expand-param env pre [] rest p n g = absurd n
environ_expand-param env pre (c ∷ s) rest p n g =
    expand_reference env pre ((c ∷ s) ++ rest) p
    ∙ rw (n.0, span-IsParam (c ∷ []) s rest n.1 g) (value (environ_getn env (c ∷ s)))
  where
    enough : length rest < length (pre ++ b'$' ∷ c ∷ (s ++ rest))
    enough = omega (arith, length-append {0} pre (b'$' ∷ c ∷ (s ++ rest)), length-append {0} s rest)

    value :
        (v : Option Str)
        → whole (
            substitute op_value false (c ∷ s) v [] >>= λ u.
            environ_expand_until (length (pre ++ b'$' ∷ c ∷ (s ++ rest))) env [] (pre ++ u) rest)
          ≡ referenced (c ∷ s) v (λ u. after (pre ++ u) (environ_expand rest env))
    value none = refl
    value (some v) = later_round _ env (pre ++ v) rest enough

-- `${}` stands for a dollar sign.
pub environ_expand-empty_braces :
    (env : List Str) (pre rest : Str)
    → IsPlain pre
    → environ_expand (pre ++ codes "${}" ++ rest) env
      ≡ after (pre ++ b'$' ∷ []) (environ_expand rest env)
unfolding after_dollar after_brace
environ_expand-empty_braces env pre rest p = rw append_assoc (
    expand_reference env pre (b'{' ∷ b'}' ∷ rest) p
    ∙ later_round _ env (pre ++ b'$' ∷ []) rest
        (omega (arith, length-append {0} pre (b'$' ∷ b'{' ∷ b'}' ∷ rest))))
