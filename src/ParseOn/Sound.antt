-- ===== src/ParseOn/Sound.antt =====
-- What parse_on of init/parse_job.c accepts, read back as expressions of the grammar.
use startup.Base.{
  ℕ, Bool, true, false, Option, none, some, is_some, List, [], ◌∷◌, ◌++◌, ◌||◌, Str, ◌≡◌, refl, sym,
  ap, arith, append_assoc, append-nil, inl, inr, subst,
}
use startup.EventOperator.{EventOperator}
use startup.ParseOn.{
  Result, ok, raise, assertion_failed, diverges, Item, marker, pending, event, Parser, collect,
  parse_on_collect, is_event_top, check_env, add_env, push_operand, Token, opening, closing,
  operator, word, parse_token, parse_tokens, finish, start,
}
use startup.ParseOn.Grammar.{Expression}
use startup.ParseOn.Invariant.{>>=-eq-ok, bottom, Collected, IsDoomed, collect_any, ok-injective}
use startup.ParseOn.Steps.{
  After, close_Reads, operator-Reads, open_Reads, operand-After, doomed_collect, close_inv,
  operator_inv, operand_inv, open_inv,
}

operand_value :
    (arg n : Str) (env : Option (List Str)) (stack stack' : List Item) (b : Bool)
    → check_env true (add_env env arg) ≡ b
    → push_operand arg (event n env ∷ stack) ≡ ok stack'
    → is_event_top stack' ≡ true
unfolding push_operand
operand_value arg n env stack stack' true e h =
    ap is_event_top
      (sym (ok-injective (event n (some (add_env env arg)) ∷ stack) stack' (rw e at h)))
operand_value arg n env stack stack' false e h = cc (rw e at h)

operand_top :
    (arg : Str) (stack stack' : List Item)
    → push_operand arg stack ≡ ok stack'
    → is_event_top stack' ≡ true
unfolding push_operand
operand_top arg [] stack' h = ap is_event_top (sym (ok-injective (event arg none ∷ []) stack' h))
operand_top arg (marker ∷ stack) stack' h =
    ap is_event_top (sym (ok-injective (event arg none ∷ marker ∷ stack) stack' h))
operand_top arg (pending g l ∷ stack) stack' h =
    ap is_event_top (sym (ok-injective (event arg none ∷ pending g l ∷ stack) stack' h))
operand_top arg (event n env ∷ stack) stack' h =
    operand_value arg n env stack stack' (check_env true (add_env env arg)) refl h

IsDoomed-token : (t : Token) (p p' : Parser) → IsDoomed p → parse_token t p ≡ ok p' → IsDoomed p'
unfolding parse_token
IsDoomed-token opening p p' d h =
    let (f, v) = open_inv p p' (is_some p.root || is_event_top p.stack) refl h in
    ground (arith, d, f)
IsDoomed-token closing p p' d h =
    let (item, stack, t, r, v) = close_inv p p' (collect p.stack p.root) refl h in
    absurd (doomed_collect p.stack p.root (item ∷ stack, t) d r)
IsDoomed-token (operator g) p p' d h =
    let (stack, t, r, v) = operator_inv g p p' (collect p.stack p.root) refl h in
    absurd (doomed_collect p.stack p.root (stack, t) d r)
IsDoomed-token (word arg) p p' d h =
    let (stack, r, v) = operand_inv arg p p' (push_operand arg p.stack) refl h in
    subst IsDoomed (sym v) (ground (arith, d, operand_top arg p.stack stack r))

token_After :
    (t : Token) (p p' : Parser) (c : List Token)
    → After p c
    → parse_token t p ≡ ok p'
    → After p' (c ++ t ∷ [])
unfolding parse_token
token_After t p p' c (inr d) h = inr (IsDoomed-token t p p' d h)
token_After opening p p' c (inl x) h = inl (open_Reads p p' c x h)
token_After closing p p' c (inl x) h = inl (close_Reads p p' c x h)
token_After (operator g) p p' c (inl x) h = inl (operator-Reads g p p' c x h)
token_After (word arg) p p' c (inl x) h = operand-After arg p p' c x h

tokens_After :
    (ts : List Token) (p p' : Parser) (c : List Token)
    → After p c
    → parse_tokens ts p ≡ ok p'
    → After p' (c ++ ts)
unfolding parse_tokens
tokens_After [] p p' c a h =
    rw append-nil (subst (λ (x : Parser). After x c) (ok-injective p p' h) a)
tokens_After (t ∷ ts) p p' c a h =
    let (q, e, f) = >>=-eq-ok (parse_token t p) (parse_tokens ts) h in
    subst (After p') (append_assoc c (t ∷ []) ts)
      (tokens_After ts q p' (c ++ t ∷ []) (token_After t p q c a e) f)

finish_inv :
    (p : Parser) (t : EventOperator) (r : Result (List Item × EventOperator))
    → collect p.stack p.root ≡ r
    → finish p ≡ ok t
    → r ≡ ok ([], t)
unfolding finish parse_on_collect
finish_inv p t (ok ([], u)) e h = ap (λ x. ok ([], x)) (ok-injective u t (rw e at h))
finish_inv p t (ok (item ∷ stack, u)) e h = cc (rw e at h)
finish_inv p t (raise x) e h = cc (rw e at h)
finish_inv p t assertion_failed e h = cc (rw e at h)
finish_inv p t diverges e h = cc (rw e at h)

whole : (t : EventOperator) (k : ℕ) (c : List Token) → Collected [] t k c → Expression c t
whole t k c (ts, us, bottom z y, b, x, q) = subst (λ v. Expression v t) (sym (rw z at q)) x

-- The tokens that parse_on accepts are an expression of the grammar, and the tree that it returns is
-- the one that the grammar gives them.
pub Expression-of_parse :
    (ts : List Token) (p : Parser) (t : EventOperator)
    → parse_tokens ts start ≡ ok p
    → finish p ≡ ok t
    → Expression ts t
Expression-of_parse ts p t h f =
    let e = finish_inv p t (collect p.stack p.root) refl f in
    elim (tokens_After ts start p [] (inl ([], [], bottom refl refl, refl, refl, refl)) h) [
      | inr d ↦ absurd (doomed_collect p.stack p.root ([], t) d e)
      | inl (rs, us, s, o, n, q) ↦
          whole t p.paren ts (rw q (collect_any p.stack p.root p.paren rs us [] t s o n e))
    ]
