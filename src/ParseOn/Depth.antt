-- ===== src/ParseOn/Depth.antt =====
-- The variable `paren` of parse_on, of init/parse_job.c: the parentheses that are open.
use startup.Base.{
  ℕ, suc, ◌+◌, ◌-◌, true, none, some, Option, is_some, List, [], ◌∷◌, ◌||◌, Str, ◌≡◌, refl, sym, ap,
  ◌∙◌, arith, subst, Bool-cases, inl, inr,
}
use startup.EventOperator.{EventOperator}
use startup.ParseOn.{
  Result, ok, Item, marker, pending, event, Parser, collect, is_event_top, decrement, add_env,
  check_env, push_operand, operand, Token, opening, closing, operator, word, parse_token,
}
use startup.ParseOn.Invariant.{ok-injective, >>=-eq-ok}
use startup.ParseOn.Steps.{close_inv, operator_inv, open_inv}

-- The parentheses that are open behind a token.
abbrev pub depth_after : Token → ℕ → ℕ
depth_after opening depth = depth + 1
depth_after closing depth = depth - 1
depth_after (operator g) depth = depth
depth_after (word arg) depth = depth

abbrev markers : List Item → ℕ
markers [] = 0
markers (marker ∷ stack) = suc (markers stack)
markers (pending g t ∷ stack) = markers stack
markers (event name env ∷ stack) = markers stack

-- `paren` counts the markers on the stack.
abbrev pub IsCounted : Parser → Type 0
IsCounted p = markers p.stack ≡ p.paren

abbrev Top : List Item → Type 0
Top [] = Unit {0}
Top (item ∷ stack) = item ≡ marker

abbrev Kept : List Item → List Item → Type 0
Kept stack stack' = (markers stack' ≡ markers stack) × Top stack'

stack_of :
    {stack stack' : List Item} {t u : EventOperator}
    → ◌≡◌ {A = Result (List Item × EventOperator)} (ok (stack, t)) (ok (stack', u))
    → stack ≡ stack'
stack_of {stack} {stack'} {t} {u} h =
    ap {B = List Item} (λ (x : List Item × EventOperator). x.0)
      (ok-injective (stack, t) (stack', u) h)

-- Collecting takes no marker off the stack, and stops at one.
collect-Kept :
    (stack : List Item) (root : Option EventOperator) (stack' : List Item) (t : EventOperator)
    → collect stack root ≡ ok (stack', t)
    → Kept stack stack'
unfolding collect
collect-Kept [] none stack' t h = cc
collect-Kept [] (some root) stack' t h = subst (Kept []) (stack_of h) (refl, tt)
collect-Kept (marker ∷ stack) none stack' t h = cc
collect-Kept (marker ∷ stack) (some root) stack' t h =
    subst (Kept (marker ∷ stack)) (stack_of h) (refl, refl)
collect-Kept (pending g left ∷ stack) none stack' t h = cc
collect-Kept (pending g left ∷ stack) (some root) stack' t h = collect-Kept stack _ stack' t h
collect-Kept (event name env ∷ stack) none stack' t h = collect-Kept stack _ stack' t h
collect-Kept (event name env ∷ stack) (some root) stack' t h = cc

push_operand-markers :
    (arg : Str) (stack stack' : List Item)
    → push_operand arg stack ≡ ok stack'
    → markers stack' ≡ markers stack
unfolding push_operand
push_operand-markers arg [] stack' h = ap markers (sym (ok-injective _ stack' h))
push_operand-markers arg (marker ∷ stack) stack' h = ap markers (sym (ok-injective _ stack' h))
push_operand-markers arg (pending g t ∷ stack) stack' h = ap markers (sym (ok-injective _ stack' h))
push_operand-markers arg (event name env ∷ stack) stack' h =
    elim (Bool-cases (check_env true (add_env env arg))) [
      | inl y ↦ ap markers (sym (ok-injective _ stack' (rw y at h)))
      | inr n ↦ cc (rw n at h)
    ]

-- What a token does to the count.
abbrev Counts : Token → Parser → Parser → Type 0
Counts t p q = IsCounted q × (q.paren ≡ depth_after t p.paren)

pub parse_token-IsCounted :
    (t : Token) (p q : Parser) → IsCounted p → parse_token t p ≡ ok q → Counts t p q
unfolding parse_token operand
parse_token-IsCounted opening p q c h =
    let (f, v) = open_inv p q (is_some p.root || is_event_top p.stack) refl h in
    subst (Counts opening p) (sym v) (omega (arith, c), refl)
parse_token-IsCounted closing p q c h =
    let (item, stack, t, r, v) = close_inv p q (collect p.stack p.root) refl h in
    let (kept, top) = collect-Kept p.stack p.root (item ∷ stack) t r in
    let counted : suc (markers stack) ≡ p.paren = (rw top at kept) ∙ c in
    let less : decrement p.paren ≡ p.paren - 1 = ground (arith, counted) in
    subst (Counts closing p) (sym v) (omega (arith, counted, less), less)
parse_token-IsCounted (operator g) p q c h =
    let (stack, t, r, v) = operator_inv g p q (collect p.stack p.root) refl h in
    let (kept, top) = collect-Kept p.stack p.root stack t r in
    subst (Counts (operator g) p) (sym v) (kept ∙ c, refl)
parse_token-IsCounted (word arg) p q c h =
    let (stack, e, same) = >>=-eq-ok (push_operand arg p.stack) _ h in
    subst (Counts (word arg) p) (ok-injective _ q same)
      (push_operand-markers arg p.stack stack e ∙ c, refl)
