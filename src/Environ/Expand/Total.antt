-- ===== src/Environ/Expand/Total.antt =====
-- The loop of environ_expand_until ends: the fuel given is enough, whatever the string.
use startup.Base.{
  ℕ, zero, suc, Bool, true, false, Option, none, some, List, [], ◌∷◌, ◌++◌, ◌==◌, ◌||◌, Str, codes,
  has_byte, length, ◌≤◌, ◌<◌, arith, ◌≡◌, ◌≢◌, Bool-cases, inl, inr,
}
use startup.Environ.{environ_getn}
use startup.Environ.Expand.{
  Result, ok, raise, diverges, ◌>>=◌, is_alpha, skip, span, Op, op_value, op_default, op_alternate,
  operator, substitute, close_brace, simple, bracketed, after_brace, after_dollar, round,
  environ_expand_until, environ_expand,
}

-- A call that was at a string of length `n` returned, further on, at a character of `until`.
abbrev pub Stops : Str → Str → Type 0
Stops until [] = Unit {0}
Stops until (c ∷ rest) = has_byte c until ≡ true

-- The result is `P`'s, or an error that the code raised; the loop did not run out of fuel.
abbrev pub Holds : {A : Type 0} → (A → Type 0) → Result A → Type 0
Holds P (ok a) = P a
Holds P (raise e) = Unit {0}
Holds P diverges = ⊥

Holds-bind :
    {A B : Type 0} (P : A → Type 0) (Q : B → Type 0) (m : Result A) (f : A → Result B)
    → Holds P m
    → ((a : A) → P a → Holds Q (f a))
    → Holds Q (m >>= f)
Holds-bind P Q (ok a) f h k = k a h
Holds-bind P Q (raise e) f h k = tt
Holds-bind P Q diverges f h k = h

abbrev pub Ends : Str → ℕ → Result (Str × Str) → Type 0
Ends until n = Holds (λ p. (length p.1 ≤ n) × Stops until p.1)

Ends-mono :
    (until : Str) (m n : ℕ) (r : Result (Str × Str)) → m ≤ n → Ends until m r → Ends until n r
Ends-mono until m n (ok p) h e = (omega arith, e.1)
Ends-mono until m n (raise x) h e = tt
Ends-mono until m n diverges h e = e

length-span : (name rest : Str) → length (span name rest).1 ≤ length rest
unfolding span
length-span name [] = omega arith
length-span name (c ∷ rest) = ground (arith, length-span (name ++ c ∷ []) rest)

length-skip : (until out rest : Str) → length (skip until out rest).1 ≤ length rest
unfolding skip
length-skip until out [] = omega arith
length-skip until out (c ∷ rest) = ground (arith, length-skip until (out ++ c ∷ []) rest)

operator_ends : (rest : Str) → Holds (λ r. length r.2 ≤ length rest) (operator rest)
unfolding operator
operator_ends [] = omega arith
operator_ends (c ∷ []) = ground arith
operator_ends (c ∷ d ∷ rest) = ground arith

substitute_ends :
    (op : Op) (e : Bool) (name : Str) (value : Option Str) (arg : Str)
    → Holds (λ v. Unit {0}) (substitute op e name value arg)
unfolding substitute
substitute_ends op_value e name none arg = tt
substitute_ends op_value e name (some v) arg = tt
substitute_ends op_default e name value arg = tt
substitute_ends op_alternate e name value arg = tt

close_brace_ends : (rest : Str) → Holds (λ r. length r < length rest) (close_brace rest)
unfolding close_brace
close_brace_ends [] = tt
close_brace_ends (c ∷ rest) = ground arith

abbrev SkipStops : Str → Str → Type 0
SkipStops until [] = Unit {0}
SkipStops until (c ∷ rest) = (c == b'$' || has_byte c until) ≡ true

skip-SkipStops : (until out rest : Str) → SkipStops until (skip until out rest).1
unfolding skip
skip-SkipStops until out [] = tt
skip-SkipStops until out (c ∷ rest) = elim (Bool-cases (c == b'$' || has_byte c until)) [
  | inl y ↦ rw y y
  | inr f ↦ rw f (skip-SkipStops until (out ++ c ∷ []) rest)
]

-- Every nested call and every later round is at a shorter string.
module _ (env : List Str) (again : Str → Str → Str → Result (Str × Str)) (fuel : ℕ)
    (ends : (until out rest : Str)
      → length rest < fuel
      → Ends until (length rest) (again until out rest)) where
  again-Ends :
      (until out rest : Str) (n : ℕ)
      → length rest < fuel
      → length rest ≤ n
      → Ends until n (again until out rest)
  again-Ends until out rest n h k =
      Ends-mono until _ n (again until out rest) k (ends until out rest h)

  simple-Ends :
      (until out : Str) (p : Str × Str) (n : ℕ)
      → length p.1 < fuel
      → length p.1 ≤ n
      → Ends until n (simple env again until out p)
  unfolding simple
  simple-Ends until out (name, rest) n h k =
      Holds-bind (λ v. Unit {0}) _ (substitute op_value false name (environ_getn env name) []) _
        (substitute_ends op_value false name (environ_getn env name) [])
        (λ v _. again-Ends until (out ++ v) rest n h k)

  bracketed-Ends :
      (until out rest : Str)
      → length rest < fuel
      → Ends until (length rest) (bracketed env again until out rest)
  unfolding bracketed
  bracketed-Ends until out rest h =
      Holds-bind (λ p. (length p.1 ≤ length rest) × Stops (codes "}:-+") p.1) _
        (again (codes "}:-+") [] rest) _ (ends (codes "}:-+") [] rest h)
        (λ (name, rest₁) k₁.
          Holds-bind (λ r. length r.2 ≤ length rest₁) _ (operator rest₁) _ (operator_ends rest₁)
            (λ (op, e, rest₂) k₂.
              Holds-bind (λ p. (length p.1 ≤ length rest₂) × Stops (codes "}") p.1) _
                (again (codes "}") [] rest₂) _ (ends (codes "}") [] rest₂ (omega arith))
                (λ (arg, rest₃) k₃.
                  Holds-bind (λ r. length r < length rest₃) _ (close_brace rest₃) _
                    (close_brace_ends rest₃)
                    (λ rest₄ k₄.
                      Holds-bind (λ v. Unit {0}) _
                        (substitute op e name (environ_getn env name) arg) _
                        (substitute_ends op e name (environ_getn env name) arg)
                        (λ v _.
                          again-Ends until (out ++ v) rest₄ (length rest) (omega arith)
                            (omega arith))))))

  after_brace-Ends :
      (until out rest : Str)
      → length rest < fuel
      → Ends until (length rest) (after_brace env again until out rest)
  unfolding after_brace
  after_brace-Ends until out [] h = bracketed-Ends until out [] h
  after_brace-Ends until out (c ∷ rest) h = elim (Bool-cases (c == b'}')) [
    | inl y ↦
        rw y
          (again-Ends until (out ++ b'$' ∷ []) rest (length (c ∷ rest)) (omega arith) (omega arith))
    | inr f ↦ rw f (bracketed-Ends until out (c ∷ rest) h)
  ]

  after_dollar-Ends :
      (until out rest : Str)
      → length rest < fuel
      → Ends until (length rest) (after_dollar env again until out rest)
  unfolding after_dollar
  after_dollar-Ends until out [] h = again-Ends until (out ++ b'$' ∷ []) [] 0 h (omega arith)
  after_dollar-Ends until out (c ∷ rest) h = elim (Bool-cases (is_alpha c)) [
    | inl y ↦ rw y (
        simple-Ends until out (span (c ∷ []) rest) (length (c ∷ rest))
          (omega (arith, length-span (c ∷ []) rest)) (omega (arith, length-span (c ∷ []) rest)))
    | inr f ↦ rw f (elim (Bool-cases (c == b'{')) [
      | inl y ↦ rw y (
          Ends-mono until (length rest) (length (c ∷ rest)) (after_brace env again until out rest)
            (omega arith) (after_brace-Ends until out rest (omega arith)))
      | inr g ↦
          rw g (again-Ends until (out ++ b'$' ∷ []) (c ∷ rest) (length (c ∷ rest)) h (omega arith))
    ])
  ]

  round-Ends :
      (until : Str) (p : Str × Str)
      → length p.1 < suc fuel
      → SkipStops until p.1
      → Ends until (length p.1) (round env again until p)
  unfolding round
  round-Ends until (out, []) h s = (omega arith, tt)
  round-Ends until (out, c ∷ rest) h s = elim (Bool-cases (c == b'$')) [
    | inl y ↦ rw y (
        Ends-mono until (length rest) (length (c ∷ rest)) (after_dollar env again until out rest)
          (omega arith) (after_dollar-Ends until out rest (omega arith)))
    | inr f ↦ rw f (omega arith, rw f at s)
  ]

-- environ_expand_until ends, at a character of `until` or at the end of the string, or raises an
-- error, if it is given more fuel than the string behind `*pos` has characters.
pub environ_expand_until-Ends :
    (fuel : ℕ) (env : List Str) (until out rest : Str)
    → length rest < fuel
    → Ends until (length rest) (environ_expand_until fuel env until out rest)
unfolding environ_expand_until
environ_expand_until-Ends zero env until out rest h = absurd (omega arith)
environ_expand_until-Ends (suc fuel) env until out rest h =
    Ends-mono until _ (length rest)
      (round env (environ_expand_until fuel env) until (skip until out rest))
      (length-skip until out rest)
      (round-Ends env (environ_expand_until fuel env) fuel
        (λ u o r k. environ_expand_until-Ends fuel env u o r k) until (skip until out rest)
        (omega (arith, length-skip until out rest)) (skip-SkipStops until out rest))

-- environ_expand returns a string or raises an error, for every string and table: its loop ends.
pub environ_expand_ends : (string : Str) (env : List Str) → environ_expand string env ≢ diverges
unfolding environ_expand
environ_expand_ends string env e = rw e at (
    Holds-bind _ (λ s. Unit {0}) (environ_expand_until (suc (length string)) env [] [] string)
      (λ (out, rest). ok (out ++ rest))
      (environ_expand_until-Ends (suc (length string)) env [] [] string (omega arith)) (λ a _. tt))
