-- ===== src/ParseOn/Steps.antt =====
-- The invariant of parse_on of init/parse_job.c, token by token.
use startup.Base.{
  ℕ, ◌+◌, Bool, true, false, Option, none, some, is_some, List, [], ◌∷◌, ◌++◌, map, ◌&&◌, ◌||◌, Str,
  ◌≡◌, refl, sym, ap, ◌∙◌, arith, append_assoc, append-nil, Bool-cases, inl, inr, ◌⊎◌, subst,
}
use startup.EventOperator.{Gate, EventOperator}
use startup.ParseOn.{
  Result, ok, raise, assertion_failed, diverges, Item, marker, pending, event, Parser, collect,
  parse_on_collect, push_operator, is_event_top, open_paren, close_paren, decrement, check_env,
  add_env, push_operand, operand, Token, opening, closing, operator, word,
}
use startup.ParseOn.Grammar.{env_of, group}
use startup.ParseOn.Invariant.{
  Stacked, mark, wait, name_on, RootOf, Collected, ok-injective, Reads, IsDoomed, collect_any,
}

pub close_inv :
    (p p' : Parser) (r : Result (List Item × EventOperator))
    → collect p.stack p.root ≡ r
    → close_paren p ≡ ok p'
    → (item : Item) × (stack : List Item) × (t : EventOperator) × (r ≡ ok (item ∷ stack, t))
      × (p' ≡ record { stack = stack; root = some t; paren = decrement p.paren })
unfolding close_paren parse_on_collect
close_inv p p' (ok ([], t)) e h = cc (rw e at h)
close_inv p p' (ok (item ∷ stack, t)) e h = (
  item,
  stack,
  t,
  refl,
  sym (
      ok-injective (record { stack = stack; root = some t; paren = decrement p.paren }) p'
        (rw e at h)),
)
close_inv p p' (raise x) e h = cc (rw e at h)
close_inv p p' assertion_failed e h = cc (rw e at h)
close_inv p p' diverges e h = cc (rw e at h)

pub operator_inv :
    (g : Gate) (p p' : Parser) (r : Result (List Item × EventOperator))
    → collect p.stack p.root ≡ r
    → push_operator g p ≡ ok p'
    → (stack : List Item) × (t : EventOperator) × (r ≡ ok (stack, t))
      × (p' ≡ record { stack = pending g t ∷ stack; root = none; paren = p.paren })
unfolding push_operator parse_on_collect
operator_inv g p p' (ok (stack, t)) e h = (
  stack,
  t,
  refl,
  sym (
      ok-injective (record { stack = pending g t ∷ stack; root = none; paren = p.paren }) p'
        (rw e at h)),
)
operator_inv g p p' (raise x) e h = cc (rw e at h)
operator_inv g p p' assertion_failed e h = cc (rw e at h)
operator_inv g p p' diverges e h = cc (rw e at h)

-- A marker was on top; what is collected becomes a group.
close_group :
    (item : Item) (stack : List Item) (t : EventOperator) (k : ℕ) (c : List Token)
    → Collected (item ∷ stack) t k c
    → Reads (record { stack = stack; root = some t; paren = decrement k }) (c ++ closing ∷ [])
close_group marker stack t k c (ts, us, mark {before = before} {j = j} s top r l, b, x, q) = (
  before,
  opening ∷ (us ++ closing ∷ []),
  subst (Stacked stack before) (ground (arith, l)) s,
  group us x refl,
  rw top refl,
  rw (q, r, append_assoc, append_assoc) refl,
)
close_group (pending g l) stack t k c (ts, us, s, b, x, q) = absurd b
close_group (event n env) stack t k c (ts, us, s, b, x, q) = absurd b

pub close_Reads :
    (p p' : Parser) (c : List Token)
    → Reads p c
    → close_paren p ≡ ok p'
    → Reads p' (c ++ closing ∷ [])
close_Reads p p' c (ts, us, s, o, e, q) h =
    let (item, stack, t, r, v) = close_inv p p' (collect p.stack p.root) refl h in
    subst (λ (x : Parser). Reads x (c ++ closing ∷ [])) (sym v)
      (close_group item stack t p.paren c
        (rw q (collect_any p.stack p.root p.paren ts us (item ∷ stack) t s o e r)))

pub operator-Reads :
    (g : Gate) (p p' : Parser) (c : List Token)
    → Reads p c
    → push_operator g p ≡ ok p'
    → Reads p' (c ++ operator g ∷ [])
operator-Reads g p p' c (ts, us, s, o, e, q) h =
    let (stack, t, r, v) = operator_inv g p p' (collect p.stack p.root) refl h in
    let (rs, vs, s', b', x', q') = collect_any p.stack p.root p.paren ts us stack t s o e r in
    subst (λ (x : Parser). Reads x (c ++ operator g ∷ [])) (sym v)
      (
        rs ++ (vs ++ operator g ∷ []),
        [],
        wait s' b' x' refl,
        refl,
        refl,
        rw (q, q', append-nil, append_assoc) refl,
      )

pub open_inv :
    (p p' : Parser) (b : Bool)
    → (is_some p.root || is_event_top p.stack) ≡ b
    → open_paren p ≡ ok p'
    → (b ≡ false) × (p' ≡ record { stack = marker ∷ p.stack; root = p.root; paren = p.paren + 1 })
unfolding open_paren
open_inv p p' true e h = cc (rw e at h)
open_inv p p' false e h = (
  refl,
  sym (ok-injective (record p { stack = marker ∷ p.stack; paren = p.paren + 1 }) p' (rw e at h)),
)

RootOf-none :
    (root : Option EventOperator) (us : List Token)
    → is_some root ≡ false
    → RootOf root us
    → us ≡ []
RootOf-none none us e o = o
RootOf-none (some t) us e o = cc

pub open_Reads :
    (p p' : Parser) (c : List Token)
    → Reads p c
    → open_paren p ≡ ok p'
    → Reads p' (c ++ opening ∷ [])
open_Reads p p' c (ts, us, s, o, e, q) h =
    let (f, v) = open_inv p p' (is_some p.root || is_event_top p.stack) refl h in
    let n = RootOf-none p.root us (ground (arith, f)) o in
    subst (λ (x : Parser). Reads x (c ++ opening ∷ [])) (sym v)
      (
        ts ++ opening ∷ [],
        us,
        mark s (ground (arith, f)) refl refl,
        o,
        refl,
        rw (q, n, append-nil, append-nil) refl,
      )

env_of-append :
    (args : List Str) (arg : Str) → env_of (args ++ arg ∷ []) ≡ some (add_env (env_of args) arg)
env_of-append [] arg = refl
env_of-append (a ∷ args) arg = refl

add_env-env_of : (args : List Str) (arg : Str) → add_env (env_of args) arg ≡ args ++ arg ∷ []
add_env-env_of [] arg = refl
add_env-env_of (a ∷ args) arg = refl

map_word-append :
    (args : List Str) (arg : Str) → map word (args ++ arg ∷ []) ≡ map word args ++ word arg ∷ []
map_word-append [] arg = refl
map_word-append (a ∷ args) arg = ap (λ ts. word a ∷ ts) (map_word-append args arg)

-- Any word on top of a tree in parentheses dooms the parse.
abbrev pub After : Parser → List Token → Type 0
After p c = Reads p c ⊎ IsDoomed p

value_Stacked :
    (arg n : Str) (env : Option (List Str)) (stack : List Item) (ts : List Token) (k : ℕ) (b : Bool)
    (stack' : List Item)
    → check_env true (add_env env arg) ≡ b
    → push_operand arg (event n env ∷ stack) ≡ ok stack'
    → Stacked (event n env ∷ stack) ts k
    → (stack' ≡ event n (some (add_env env arg)) ∷ stack)
      × Stacked (event n (some (add_env env arg)) ∷ stack) (ts ++ word arg ∷ []) k
unfolding push_operand
value_Stacked arg n env stack ts k false stack' e h s = cc (rw e at h)
value_Stacked arg n env stack ts k true stack' e h (name_on {before = before} args s top v q r) = (
  sym (ok-injective (event n (some (add_env env arg)) ∷ stack) stack' (rw e at h)),
  name_on (args ++ arg ∷ []) s top
      (ap (check_env true) (sym (add_env-env_of args arg))
        ∙ ap (λ x. check_env true (add_env x arg)) (sym q)
        ∙ e)
      (ap (λ x. some (add_env x arg)) q ∙ sym (env_of-append args arg))
      (rw (r, map_word-append, append_assoc) refl),
)

operand_stack :
    (arg : Str) (stack stack' : List Item) (ts : List Token) (k : ℕ)
    → push_operand arg stack ≡ ok stack'
    → Stacked stack ts k
    → (is_event_top stack' ≡ true) × Stacked stack' (ts ++ word arg ∷ []) k
unfolding push_operand
operand_stack arg [] stack' ts k h s =
    let v = ok-injective (event arg none ∷ []) stack' h in
    subst (λ x. (is_event_top x ≡ true) × Stacked x (ts ++ word arg ∷ []) k) v
      (refl, name_on [] s refl refl refl refl)
operand_stack arg (marker ∷ stack) stack' ts k h s =
    let v = ok-injective (event arg none ∷ marker ∷ stack) stack' h in
    subst (λ x. (is_event_top x ≡ true) × Stacked x (ts ++ word arg ∷ []) k) v
      (refl, name_on [] s refl refl refl refl)
operand_stack arg (pending g l ∷ stack) stack' ts k h s =
    let v = ok-injective (event arg none ∷ pending g l ∷ stack) stack' h in
    subst (λ x. (is_event_top x ≡ true) × Stacked x (ts ++ word arg ∷ []) k) v
      (refl, name_on [] s refl refl refl refl)
operand_stack arg (event n env ∷ stack) stack' ts k h s =
    let (v, s') =
      value_Stacked arg n env stack ts k (check_env true (add_env env arg)) stack' refl h s in
    subst (λ x. (is_event_top x ≡ true) × Stacked x (ts ++ word arg ∷ []) k) (sym v) (refl, s')

pub operand_inv :
    (arg : Str) (p p' : Parser) (r : Result (List Item))
    → push_operand arg p.stack ≡ r
    → operand arg p ≡ ok p'
    → (stack : List Item) × (r ≡ ok stack) × (p' ≡ record p { stack = stack })
unfolding operand
operand_inv arg p p' (ok stack) e h =
    (stack, refl, sym (ok-injective (record p { stack = stack }) p' (rw e at h)))
operand_inv arg p p' (raise x) e h = cc (rw e at h)
operand_inv arg p p' assertion_failed e h = cc (rw e at h)
operand_inv arg p p' diverges e h = cc (rw e at h)

pub operand-After :
    (arg : Str) (p p' : Parser) (c : List Token)
    → Reads p c
    → operand arg p ≡ ok p'
    → After p' (c ++ word arg ∷ [])
operand-After arg p p' c (ts, us, s, o, e, q) h =
    let (stack, r, v) = operand_inv arg p p' (push_operand arg p.stack) refl h in
    let (top, s') = operand_stack arg p.stack stack ts p.paren r s in
    subst (λ (x : Parser). After x (c ++ word arg ∷ [])) (sym v)
      (elim (Bool-cases (is_some p.root)) [
        | inl y ↦ inr (ground (arith, top, y))
        | inr f ↦
            let n = RootOf-none p.root us f o in
            inl (
              ts ++ word arg ∷ [],
              us,
              s',
              o,
              ground (arith, f),
              rw (q, n, append-nil, append-nil) refl,
            )
      ])

pub doomed_collect :
    (stack : List Item) (root : Option EventOperator) (r : List Item × EventOperator)
    → (is_event_top stack && is_some root) ≡ true
    → collect stack root ≡ ok r
    → ⊥
unfolding collect
doomed_collect [] root r e h = cc
doomed_collect (marker ∷ stack) root r e h = cc
doomed_collect (pending g l ∷ stack) root r e h = cc
doomed_collect (event n env ∷ stack) none r e h = cc
doomed_collect (event n env ∷ stack) (some t) r e h = cc
