-- ===== src/ParseOn/Complete.antt =====
-- How parse_on of init/parse_job.c takes the expressions of the grammar, token by token.
use startup.Base.{
  ℕ, ◌+◌, Bool, true, false, not, none, some, List, [], ◌∷◌, ◌++◌, map, ◌&&◌, Str, has_byte, ◌≡◌,
  refl, sym, ap, ◌∙◌, arith, append_assoc, append-nil,
}
use startup.EventOperator.{Gate, EventOperator, event_match}
use startup.ParseOn.{
  Result, ok, raise, assertion_failed, diverges, ◌>>=◌, Item, marker, pending, event, Parser,
  collect, parse_on_collect, push_operator, is_event_top, open_paren, close_paren, decrement,
  check_env, push_operand, operand, Token, opening, closing, operator, word, parse_token,
  parse_tokens, finish, start,
}
use startup.ParseOn.Grammar.{env_of, Operand, name, group, Expression, single, chain}

bind_assoc :
    {A B C : Type 0} (r : Result A) (f : A → Result C) (g : A → Result B) (h : B → Result C)
    → ((a : A) → f a ≡ (g a >>= h))
    → (r >>= f) ≡ ((r >>= g) >>= h)
bind_assoc (ok a) f g h e = e a
bind_assoc (raise x) f g h e = refl
bind_assoc assertion_failed f g h e = refl
bind_assoc diverges f g h e = refl

pub parse_tokens-append :
    (ts us : List Token) (p : Parser)
    → parse_tokens (ts ++ us) p ≡ (parse_tokens ts p >>= parse_tokens us)
unfolding parse_tokens
parse_tokens-append [] us p = refl
parse_tokens-append (t ∷ ts) us p =
    bind_assoc (parse_token t p) (parse_tokens (ts ++ us)) (parse_tokens ts) (parse_tokens us)
      (parse_tokens-append ts us)

-- If all values are in order, so are the first ones.
pub check_env-append_left :
    (pos : Bool) (xs ys : List Str) → check_env pos (xs ++ ys) ≡ true → check_env pos xs ≡ true
unfolding check_env
check_env-append_left pos [] ys h = refl
check_env-append_left pos (x ∷ xs) ys h =
    ground (arith, check_env-append_left (pos && not (has_byte b'=' x)) xs ys)

-- An item at which collecting stops.
abbrev pub IsBase : List Item → Type 0
IsBase [] = Unit {0}
IsBase (marker ∷ stack) = Unit {0}
IsBase (pending g l ∷ stack) = ⊥
IsBase (event s env ∷ stack) = ⊥

collect-IsBase :
    (stack : List Item) (t : EventOperator) → IsBase stack → collect stack (some t) ≡ ok (stack, t)
unfolding collect
collect-IsBase [] t b = refl
collect-IsBase (marker ∷ stack) t b = refl
collect-IsBase (pending g l ∷ stack) t b = absurd b
collect-IsBase (event s env ∷ stack) t b = absurd b

pub is_event_top-IsBase : (stack : List Item) → IsBase stack → is_event_top stack ≡ false
is_event_top-IsBase [] b = refl
is_event_top-IsBase (marker ∷ stack) b = refl
is_event_top-IsBase (pending g l ∷ stack) b = absurd b
is_event_top-IsBase (event s env ∷ stack) b = absurd b

-- The parser with nothing collected yet.
abbrev ready : List Item → ℕ → Parser
ready stack k = record { stack = stack; root = none; paren = k }

-- The tokens are read, and what the parser collects then is what it would with the tree as its root.
abbrev Parses : List Token → EventOperator → List Item → ℕ → Type 0
Parses ts t stack k =
    (p : Parser) × (parse_tokens ts (ready stack k) ≡ ok p)
    × (collect p.stack p.root ≡ collect stack (some t))
    × (p.paren ≡ k)

push_values :
    (s : Str) (env args : List Str) (a : Str) (stack : List Item) (k : ℕ)
    → check_env true ((a ∷ env) ++ args) ≡ true
    → parse_tokens (map word args) (ready (event s (some (a ∷ env)) ∷ stack) k)
      ≡ ok (ready (event s (some ((a ∷ env) ++ args)) ∷ stack) k)
unfolding parse_tokens parse_token push_operand operand
push_values s env [] a stack k h = rw append-nil refl
push_values s env (b ∷ args) a stack k h =
    let h' : check_env true ((a ∷ (env ++ b ∷ [])) ++ args) ≡ true =
      ap (check_env true) (append_assoc (a ∷ env) (b ∷ []) args) ∙ h in
    rw (check_env-append_left true ((a ∷ env) ++ b ∷ []) args h') (
      push_values s (env ++ b ∷ []) args a stack k h'
      ∙ ap (λ (e : List Str). ok (ready (event s (some e) ∷ stack) k))
          (append_assoc (a ∷ env) (b ∷ []) args))

push_event :
    (s : Str) (stack : List Item) (k : ℕ)
    → is_event_top stack ≡ false
    → parse_token (word s) (ready stack k) ≡ ok (ready (event s none ∷ stack) k)
unfolding parse_token push_operand operand
push_event s [] k e = refl
push_event s (marker ∷ stack) k e = refl
push_event s (pending g l ∷ stack) k e = refl
push_event s (event t env ∷ stack) k e = cc

push_first :
    (s a : Str) (args : List Str) (stack : List Item) (k : ℕ)
    → check_env true (a ∷ args) ≡ true
    → parse_tokens (map word (a ∷ args)) (ready (event s none ∷ stack) k)
      ≡ ok (ready (event s (some (a ∷ args)) ∷ stack) k)
unfolding parse_tokens parse_token push_operand operand
push_first s a args stack k h =
    rw (check_env-append_left true (a ∷ []) args h) (push_values s [] args a stack k h)

push_name :
    (s : Str) (args : List Str) (stack : List Item) (k : ℕ)
    → check_env true args ≡ true
    → is_event_top stack ≡ false
    → parse_tokens (word s ∷ map word args) (ready stack k)
      ≡ ok (ready (event s (env_of args) ∷ stack) k)
unfolding parse_tokens
push_name s [] stack k h e = rw (push_event s stack k e) refl
push_name s (a ∷ args) stack k h e = rw (push_event s stack k e) (push_first s a args stack k h)

open_lem :
    (stack : List Item) (k : ℕ)
    → is_event_top stack ≡ false
    → parse_token opening (ready stack k) ≡ ok (ready (marker ∷ stack) (k + 1))
unfolding parse_token open_paren
open_lem stack k e = rw e refl

close_lem :
    (p : Parser) (stack : List Item) (t : EventOperator)
    → collect p.stack p.root ≡ ok (marker ∷ stack, t)
    → parse_token closing p
      ≡ ok (record { stack = stack; root = some t; paren = decrement p.paren })
unfolding parse_token close_paren parse_on_collect
close_lem p stack t c = rw c refl

operator_lem :
    (g : Gate) (p : Parser) (stack : List Item) (t : EventOperator)
    → collect p.stack p.root ≡ ok (stack, t)
    → parse_token (operator g) p ≡ ok (ready (pending g t ∷ stack) p.paren)
unfolding parse_token push_operator parse_on_collect
operator_lem g p stack t c = rw c refl

mutual
  unfolding parse_tokens collect

  Operand-Parses :
      (ts : List Token) (t : EventOperator) (stack : List Item) (k : ℕ)
      → Operand ts t
      → is_event_top stack ≡ false
      → Parses ts t stack k
  Operand-Parses ts t stack k (name s args {env = env} h e f) top = (
    ready (event s (env_of args) ∷ stack) k,
    ap (λ us. parse_tokens us (ready stack k)) e ∙ push_name s args stack k h top,
    ap (λ v. collect stack (some (event_match s v false none))) (sym f),
    refl,
  )
  Operand-Parses ts t stack k (group inner x e) top =
      let (p, ep, cp, kp) = Expression-Parses inner t (marker ∷ stack) (k + 1) x tt in
      (
        record { stack = stack; root = some t; paren = decrement p.paren },
        ap (λ us. parse_tokens us (ready stack k)) e
            ∙ rw (open_lem stack k top, parse_tokens-append, ep, close_lem p stack t cp) refl,
        refl,
        ground (arith, kp),
      )

  Expression-Parses :
      (ts : List Token) (t : EventOperator) (stack : List Item) (k : ℕ)
      → Expression ts t
      → IsBase stack
      → Parses ts t stack k
  Expression-Parses ts t stack k (single x) b =
      Operand-Parses ts t stack k x (is_event_top-IsBase stack b)
  Expression-Parses ts t stack k (chain left right g {l = l} {r = r} x y e) b =
      let (p, ep, cp, kp) = Expression-Parses left l stack k x b in
      let (q, eq, cq, kq) = Operand-Parses right r (pending g l ∷ stack) k y refl in
      (
        q,
        ap (λ us. parse_tokens us (ready stack k)) e
            ∙ rw
                (
                  parse_tokens-append,
                  ep,
                  operator_lem g p stack l (cp ∙ collect-IsBase stack l b),
                  kp,
                )
                eq,
        cq,
        kq,
      )

-- parse_on gives every expression of the grammar the tree that the grammar gives it.
pub parse_tokens-Expression :
    (ts : List Token) (t : EventOperator)
    → Expression ts t
    → (p : Parser) × (parse_tokens ts start ≡ ok p) × (p.paren ≡ 0) × (finish p ≡ ok t)
unfolding finish parse_on_collect
parse_tokens-Expression ts t x =
    let (p, e, c, k) = Expression-Parses ts t [] 0 x tt in
    (p, e, k, rw (c ∙ collect-IsBase [] t tt) refl)
