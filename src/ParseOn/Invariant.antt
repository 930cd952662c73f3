-- ===== src/ParseOn/Invariant.antt =====
-- What the stack and the root of parse_on, of init/parse_job.c, stand for, and what collecting gives.
use startup.Base.{
  ℕ, ◌+◌, true, false, Option, none, some, is_some, List, [], ◌∷◌, ◌++◌, map, ◌&&◌, Str, ◌≡◌, refl,
  ap, arith, append_assoc, append-nil, subst,
}
use startup.EventOperator.{Gate, EventOperator, gate, event_match}
use startup.ParseOn.{
  Result, ok, raise, assertion_failed, diverges, ◌>>=◌, Item, marker, pending, event, Parser,
  collect, is_event_top, check_env, Token, opening, operator, word,
}
use startup.ParseOn.Grammar.{env_of, Operand, name, Expression, single, chain}
use startup.ParseOn.Complete.{IsBase}

pub >>=-eq-ok :
    {A B : Type 0} (r : Result A) (f : A → Result B) {b : B}
    → (r >>= f) ≡ ok b
    → (a : A) × (r ≡ ok a) × (f a ≡ ok b)
>>=-eq-ok (ok a) f h = (a, refl, h)
>>=-eq-ok (raise e) f h = cc
>>=-eq-ok assertion_failed f h = cc
>>=-eq-ok diverges f h = cc

-- The tokens that a stack stands for, and how many of its items are markers.
pub data Stacked : List Item → List Token → ℕ → Type 0 where
  bottom : {ts : List Token} {k : ℕ} → ts ≡ [] → k ≡ 0 → Stacked [] ts k
  mark :
      {stack : List Item} {before ts : List Token} {j k : ℕ}
      → Stacked stack before j
      → is_event_top stack ≡ false
      → ts ≡ before ++ opening ∷ []
      → k ≡ j + 1
      → Stacked (marker ∷ stack) ts k
  wait :
      {stack : List Item} {before left ts : List Token} {k : ℕ} {g : Gate} {l : EventOperator}
      → Stacked stack before k
      → IsBase stack
      → Expression left l
      → ts ≡ before ++ (left ++ operator g ∷ [])
      → Stacked (pending g l ∷ stack) ts k
  name_on :
      {stack : List Item} {before ts : List Token} {k : ℕ} {s : Str} {env : Option (List Str)}
      (args : List Str)
      → Stacked stack before k
      → is_event_top stack ≡ false
      → check_env true args ≡ true
      → env ≡ env_of args
      → ts ≡ before ++ (word s ∷ map word args)
      → Stacked (event s env ∷ stack) ts k

abbrev pub RootOf : Option EventOperator → List Token → Type 0
RootOf none us = us ≡ []
RootOf (some t) us = Operand us t

-- What collecting gives: the tokens that it leaves on the stack, and those of the collected tree.
abbrev pub Collected : List Item → EventOperator → ℕ → List Token → Type 0
Collected stack t k c =
    (ts : List Token) × (us : List Token) × Stacked stack ts k
    × IsBase stack
    × Expression us t
    × (c ≡ ts ++ us)

abbrev pub or_else : {A : Type 0} → A → Result A → A
or_else d (ok a) = a
or_else d (raise e) = d
or_else d assertion_failed = d
or_else d diverges = d

pub ok-injective : {A : Type 0} (a b : A) → ok a ≡ ok b → a ≡ b
ok-injective a b h = ap (or_else a) h

moved :
    (stack stack' : List Item) (t t' : EventOperator) (k : ℕ) (c : List Token)
    → ◌≡◌ {A = Result (List Item × EventOperator)} (ok (stack, t)) (ok (stack', t'))
    → Collected stack t k c
    → Collected stack' t' k c
moved stack stack' t t' k c h x =
    subst (λ (p : List Item × EventOperator). Collected p.0 p.1 k c)
      (ok-injective (stack, t) (stack', t') h) x

collect_base :
    (stack : List Item) (k : ℕ) (ts us : List Token) (t : EventOperator) (stack' : List Item)
    (t' : EventOperator)
    → Stacked stack ts k
    → IsBase stack
    → Expression us t
    → collect stack (some t) ≡ ok (stack', t')
    → Collected stack' t' k (ts ++ us)
unfolding collect
collect_base [] k ts us t stack' t' s b x h =
    moved [] stack' t t' k (ts ++ us) h (ts, us, s, b, x, refl)
collect_base (marker ∷ stack) k ts us t stack' t' s b x h =
    moved (marker ∷ stack) stack' t t' k (ts ++ us) h (ts, us, s, b, x, refl)
collect_base (pending g l ∷ stack) k ts us t stack' t' s b x h = absurd b
collect_base (event n env ∷ stack) k ts us t stack' t' s b x h = absurd b

collect_root :
    (stack : List Item) (k : ℕ) (ts us : List Token) (t : EventOperator) (stack' : List Item)
    (t' : EventOperator)
    → Stacked stack ts k
    → is_event_top stack ≡ false
    → Operand us t
    → collect stack (some t) ≡ ok (stack', t')
    → Collected stack' t' k (ts ++ us)
unfolding collect
collect_root [] k ts us t stack' t' s e o h = collect_base [] k ts us t stack' t' s tt (single o) h
collect_root (marker ∷ stack) k ts us t stack' t' s e o h =
    collect_base (marker ∷ stack) k ts us t stack' t' s tt (single o) h
collect_root (pending g l ∷ stack) k ts us t stack' t'
      (wait {before = before} {left = left} s b x q) e o h =
    let (rs, vs, s', b', x', q') =
      collect_base stack k before (left ++ operator g ∷ us) (gate g false l t) stack' t' s b
        (chain left us g x o refl) h in
    (rs, vs, s', b', x', rw (q, append_assoc, append_assoc) q')
collect_root (event n env ∷ stack) k ts us t stack' t' s e o h = cc

-- The state between two tokens, after `c` was read. A tree at the root is one in parentheses, and an
-- event on top of it has no place in any expression.
abbrev pub Reads : Parser → List Token → Type 0
Reads p c =
    (ts : List Token) × (us : List Token) × Stacked p.stack ts p.paren
    × RootOf p.root us
    × ((is_event_top p.stack && is_some p.root) ≡ false)
    × (c ≡ ts ++ us)

abbrev pub IsDoomed : Parser → Type 0
IsDoomed p = (is_event_top p.stack && is_some p.root) ≡ true

pub collect_any :
    (stack : List Item) (root : Option EventOperator) (k : ℕ) (ts us : List Token)
    (stack' : List Item) (t' : EventOperator)
    → Stacked stack ts k
    → RootOf root us
    → (is_event_top stack && is_some root) ≡ false
    → collect stack root ≡ ok (stack', t')
    → Collected stack' t' k (ts ++ us)
unfolding collect
collect_any stack (some t) k ts us stack' t' s o e h =
    collect_root stack k ts us t stack' t' s (ground (arith, e)) o h
collect_any [] none k ts us stack' t' s o e h = cc
collect_any (marker ∷ stack) none k ts us stack' t' s o e h = cc
collect_any (pending g l ∷ stack) none k ts us stack' t' s o e h = cc
collect_any (event n env ∷ stack) none k ts us stack' t'
      (name_on {before = before} args s top v q r) o e h =
    let (rs, vs, s', b', x', q') =
      collect_root stack k before (word n ∷ map word args) (event_match n env false none) stack' t'
        s top (name n args v refl q) h in
    (rs, vs, s', b', x', rw (o, append-nil, r) q')
