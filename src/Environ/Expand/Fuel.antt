-- ===== src/Environ/Expand/Fuel.antt =====
-- The result of environ_expand_until does not depend on the fuel, once there is enough, nor on what
-- stands before the place where it began.
use startup.Base.{
  ℕ, zero, suc, ◌+◌, ◌-◌, false, List, [], ◌∷◌, ◌++◌, ◌==◌, ◌||◌, Str, codes, has_byte, length, ◌<◌,
  arith, ◌≡◌, refl, ◌≢◌, Bool-cases, inl, inr, ◌⊎◌, sym, ◌∙◌, ap, append_assoc,
}
use startup.Environ.{environ_getn}
use startup.Environ.Expand.{
  Result, ok, raise, diverges, ◌>>=◌, is_alpha, skip, span, op_value, operator, substitute,
  close_brace, simple, bracketed, after_brace, after_dollar, round, environ_expand_until,
}
use startup.Environ.Expand.Total.{Ends, environ_expand_until-Ends}

-- `m'` is `m`, unless `m` ran out of fuel.
abbrev Extends : {A : Type 0} → Result A → Result A → Type 0
Extends m m' = (m ≡ diverges) ⊎ (m' ≡ m)

Extends-bind :
    {A B : Type 0} (m m' : Result A) (f f' : A → Result B)
    → Extends m m'
    → ((a : A) → Extends (f a) (f' a))
    → Extends (m >>= f) (m' >>= f')
Extends-bind m m' f f' (inl d) k = inl (rw d refl)
Extends-bind (ok a) m' f f' (inr e) k = rw e (k a)
Extends-bind (raise x) m' f f' (inr e) k = inr (rw e refl)
Extends-bind diverges m' f f' (inr e) k = inl refl

module _ (env : List Str) (again again' : Str → Str → Str → Result (Str × Str))
    (ext : (until out rest : Str) → Extends (again until out rest) (again' until out rest)) where
  simple-Extends :
      (until out : Str) (p : Str × Str)
      → Extends (simple env again until out p) (simple env again' until out p)
  unfolding simple
  simple-Extends until out (name, rest) =
      Extends-bind (substitute op_value false name (environ_getn env name) []) _ _ _ (inr refl)
        (λ v. ext until (out ++ v) rest)

  bracketed-Extends :
      (until out rest : Str)
      → Extends (bracketed env again until out rest) (bracketed env again' until out rest)
  unfolding bracketed
  bracketed-Extends until out rest =
      Extends-bind (again (codes "}:-+") [] rest) _ _ _ (ext (codes "}:-+") [] rest)
        (λ (name, rest₁). Extends-bind (operator rest₁) _ _ _ (inr refl) (λ (op, e, rest₂).
          Extends-bind (again (codes "}") [] rest₂) _ _ _ (ext (codes "}") [] rest₂)
            (λ (arg, rest₃). Extends-bind (close_brace rest₃) _ _ _ (inr refl) (λ rest₄.
              Extends-bind (substitute op e name (environ_getn env name) arg) _ _ _ (inr refl)
                (λ v. ext until (out ++ v) rest₄)))))

  after_brace-Extends :
      (until out rest : Str)
      → Extends (after_brace env again until out rest) (after_brace env again' until out rest)
  unfolding after_brace
  after_brace-Extends until out [] = bracketed-Extends until out []
  after_brace-Extends until out (c ∷ rest) = elim (Bool-cases (c == b'}')) [
    | inl y ↦ rw y (ext until (out ++ b'$' ∷ []) rest)
    | inr f ↦ rw f (bracketed-Extends until out (c ∷ rest))
  ]

  after_dollar-Extends :
      (until out rest : Str)
      → Extends (after_dollar env again until out rest) (after_dollar env again' until out rest)
  unfolding after_dollar
  after_dollar-Extends until out [] = ext until (out ++ b'$' ∷ []) []
  after_dollar-Extends until out (c ∷ rest) = elim (Bool-cases (is_alpha c)) [
    | inl y ↦ rw y (simple-Extends until out (span (c ∷ []) rest))
    | inr f ↦ rw f (elim (Bool-cases (c == b'{')) [
      | inl y ↦ rw y (after_brace-Extends until out rest)
      | inr g ↦ rw g (ext until (out ++ b'$' ∷ []) (c ∷ rest))
    ])
  ]

  round-Extends :
      (until : Str) (p : Str × Str) → Extends (round env again until p) (round env again' until p)
  unfolding round
  round-Extends until (out, []) = inr refl
  round-Extends until (out, c ∷ rest) = elim (Bool-cases (c == b'$')) [
    | inl y ↦ rw y (after_dollar-Extends until out rest)
    | inr f ↦ rw f (inr refl)
  ]

environ_expand_until-Extends :
    (f k : ℕ) (env : List Str) (until out rest : Str)
    → Extends
        (environ_expand_until f env until out rest)
        (environ_expand_until (f + k) env until out rest)
unfolding environ_expand_until
environ_expand_until-Extends zero k env until out rest = inl refl
environ_expand_until-Extends (suc f) k env until out rest =
    let e : suc f + k ≡ suc (f + k) = omega arith in
    rw e (
      round-Extends env (environ_expand_until f env) (environ_expand_until (f + k) env)
        (environ_expand_until-Extends f k env) until (skip until out rest))

pub Ends-ne_diverges :
    (until : Str) (n : ℕ) (r : Result (Str × Str)) → Ends until n r → r ≢ diverges
Ends-ne_diverges until n (ok p) h = λ e. cc
Ends-ne_diverges until n (raise x) h = λ e. cc
Ends-ne_diverges until n diverges h = λ e. h

-- Any fuel above the length gives the same result as the least such fuel.
pub environ_expand_until-fuel :
    (f : ℕ) (env : List Str) (until out rest : Str)
    → length rest < f
    → environ_expand_until f env until out rest
      ≡ environ_expand_until (suc (length rest)) env until out rest
environ_expand_until-fuel f env until out rest h =
    let e : suc (length rest) + (f - suc (length rest)) ≡ f = omega arith in
    elim (environ_expand_until-Extends (suc (length rest)) (f - suc (length rest)) env until out
      rest) [
        | inl d ↦ absurd (
            Ends-ne_diverges until (length rest)
              (environ_expand_until (suc (length rest)) env until out rest)
              (environ_expand_until-Ends (suc (length rest)) env until out rest (omega arith)) d)
        | inr s ↦ ap (λ n. environ_expand_until n env until out rest) (sym e) ∙ s
      ]

-- Put in front of what has been expanded.
abbrev pub prefixed : Str → Result (Str × Str) → Result (Str × Str)
prefixed pre (ok (out, rest)) = ok (pre ++ out, rest)
prefixed pre (raise e) = raise e
prefixed pre diverges = diverges

skip-prefix :
    (until pre out rest : Str)
    → skip until (pre ++ out) rest ≡ (pre ++ (skip until out rest).0, (skip until out rest).1)
unfolding skip
skip-prefix until pre out [] = refl
skip-prefix until pre out (c ∷ rest) = elim (Bool-cases (c == b'$' || has_byte c until)) [
  | inl y ↦ rw y refl
  | inr f ↦ rw f (rw append_assoc (skip-prefix until pre (out ++ c ∷ []) rest))
]

prefixed-bind :
    {A : Type 0} (pre : Str) (m : Result A) (f : A → Result (Str × Str))
    → prefixed pre (m >>= f) ≡ (m >>= λ a. prefixed pre (f a))
prefixed-bind pre (ok a) f = refl
prefixed-bind pre (raise e) f = refl
prefixed-bind pre diverges f = refl

module _ (env : List Str) (again : Str → Str → Str → Result (Str × Str)) (pre : Str)
    (moved : (until out rest : Str)
      → again until (pre ++ out) rest ≡ prefixed pre (again until out rest)) where
  moved_on :
      (until out v rest : Str)
      → again until ((pre ++ out) ++ v) rest ≡ prefixed pre (again until (out ++ v) rest)
  moved_on until out v rest = rw append_assoc (moved until (out ++ v) rest)

  simple-prefix :
      (until out : Str) (p : Str × Str)
      → simple env again until (pre ++ out) p ≡ prefixed pre (simple env again until out p)
  unfolding simple
  simple-prefix until out (name, rest) = simp (prefixed-bind, moved_on)

  bracketed-prefix :
      (until out rest : Str)
      → bracketed env again until (pre ++ out) rest
        ≡ prefixed pre (bracketed env again until out rest)
  unfolding bracketed
  bracketed-prefix until out rest = simp (prefixed-bind, moved_on)

  after_brace-prefix :
      (until out rest : Str)
      → after_brace env again until (pre ++ out) rest
        ≡ prefixed pre (after_brace env again until out rest)
  unfolding after_brace
  after_brace-prefix until out [] = bracketed-prefix until out []
  after_brace-prefix until out (c ∷ rest) = elim (Bool-cases (c == b'}')) [
    | inl y ↦ rw y (moved_on until out (b'$' ∷ []) rest)
    | inr f ↦ rw f (bracketed-prefix until out (c ∷ rest))
  ]

  after_dollar-prefix :
      (until out rest : Str)
      → after_dollar env again until (pre ++ out) rest
        ≡ prefixed pre (after_dollar env again until out rest)
  unfolding after_dollar
  after_dollar-prefix until out [] = moved_on until out (b'$' ∷ []) []
  after_dollar-prefix until out (c ∷ rest) = elim (Bool-cases (is_alpha c)) [
    | inl y ↦ rw y (simple-prefix until out (span (c ∷ []) rest))
    | inr f ↦ rw f (elim (Bool-cases (c == b'{')) [
      | inl y ↦ rw y (after_brace-prefix until out rest)
      | inr g ↦ rw g (moved_on until out (b'$' ∷ []) (c ∷ rest))
    ])
  ]

  round-prefix :
      (until : Str) (p : Str × Str)
      → round env again until (pre ++ p.0, p.1) ≡ prefixed pre (round env again until p)
  unfolding round
  round-prefix until (out, []) = refl
  round-prefix until (out, c ∷ rest) = elim (Bool-cases (c == b'$')) [
    | inl y ↦ rw y (after_dollar-prefix until out rest)
    | inr f ↦ rw f refl
  ]

pub environ_expand_until-prefix :
    (f : ℕ) (env : List Str) (pre until out rest : Str)
    → environ_expand_until f env until (pre ++ out) rest
      ≡ prefixed pre (environ_expand_until f env until out rest)
unfolding environ_expand_until
environ_expand_until-prefix zero env pre until out rest = refl
environ_expand_until-prefix (suc f) env pre until out rest = rw (skip-prefix until pre out rest) (
    round-prefix env (environ_expand_until f env) pre (environ_expand_until-prefix f env pre) until
      (skip until out rest))
