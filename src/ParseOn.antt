-- ===== src/ParseOn.antt =====
-- The parser of `start on` and `stop on`: parse_on, parse_on_operator, parse_on_paren,
-- parse_on_operand and parse_on_collect of init/parse_job.c. An item of the stack is a marker (NULL
-- data), an operator that has its left child and waits for its right one, or an event. The tokeniser
-- is libnih's and a parameter.
mod Tests
pub mod Grammar
pub mod Complete
pub mod Invariant
pub mod Steps
pub mod Sound
pub mod Depth
pub mod Text
use startup.Base.{
  ℕ, zero, suc, ◌+◌, ◌-◌, Bool, true, false, Option, none, some, is_some, List, [], ◌∷◌, ◌++◌, ◌==◌,
  ◌&&◌, ◌||◌, ltb, not, if◌then◌else◌, Str, codes, str_eq, has_byte, length, ◌≡◌, refl,
}
use startup.EventOperator.{Gate, event_or, event_and, EventOperator, gate, event_match}

pub data ParseError : Type 0 where
  expected_event expected_operator expected_variable mismatched_parens : ParseError
  token_error : ParseError  -- raised by the tokeniser

pub data Result (A : Type 0) : Type 0 where
  ok : A → Result A
  raise : ParseError → Result A
  assertion_failed : Result A
  diverges : Result A

infixl 5 ◌>>=◌
abbrev pub ◌>>=◌ : {A B : Type 0} → Result A → (A → Result B) → Result B
ok a >>= f = f a
raise e >>= f = raise e
assertion_failed >>= f = assertion_failed
diverges >>= f = diverges

pub data Item : Type 0 where
  marker : Item
  pending : Gate → EventOperator → Item
  event : Str → Option (List Str) → Item

-- The variables of parse_on that its helpers share.
pub record Parser : Type 0 where
  pub stack : List Item
  pub root : Option EventOperator
  pub paren : ℕ

-- The loop of parse_on_collect; it ends at a marker or with the stack.
unfoldable pub collect : List Item → Option EventOperator → Result (List Item × EventOperator)
collect [] none = raise expected_event
collect [] (some root) = ok ([], root)
collect (marker ∷ stack) none = raise expected_event
collect (marker ∷ stack) (some root) = ok (marker ∷ stack, root)
collect (pending g left ∷ stack) none = raise expected_event
collect (pending g left ∷ stack) (some root) = collect stack (some (gate g false left root))
collect (event name env ∷ stack) none = collect stack (some (event_match name env false none))
collect (event name env ∷ stack) (some root) = raise expected_operator

unfoldable pub parse_on_collect : Parser → Result (Parser × EventOperator)
unfolding collect
parse_on_collect p = collect p.stack p.root >>= λ (stack, root).
    ok (record p { stack = stack; root = some root }, root)

-- The operator is pushed with the collected tree as its left child.
unfoldable pub push_operator : Gate → Parser → Result Parser
unfolding parse_on_collect
push_operator g p = parse_on_collect p >>= λ (p', root).
    ok (record p' { stack = pending g root ∷ p'.stack; root = none })

abbrev pub is_event_top : List Item → Bool
is_event_top [] = false
is_event_top (marker ∷ stack) = false
is_event_top (pending g left ∷ stack) = false
is_event_top (event name env ∷ stack) = true

unfoldable pub open_paren : Parser → Result Parser
open_paren p =
    if is_some p.root || is_event_top p.stack
    then raise expected_operator
    else ok (record p { stack = marker ∷ p.stack; paren = p.paren + 1 })

-- `paren` is unsigned and may wrap.
abbrev pub size_max : ℕ
size_max = 18446744073709551615

abbrev pub decrement : ℕ → ℕ
decrement n = if n == 0 then size_max else n - 1

abbrev pub drop_marker : List Item → Result (List Item)
drop_marker [] = raise mismatched_parens
drop_marker (item ∷ stack) = ok stack

unfoldable pub close_paren : Parser → Result Parser
unfolding parse_on_collect
close_paren p = parse_on_collect (record p { paren = decrement p.paren }) >>= λ (p', root).
    drop_marker p'.stack >>= λ stack. ok (record p' { stack = stack })

-- No positional value may follow a named one; `pos` tells whether only positional ones came yet.
unfoldable pub check_env : Bool → List Str → Bool
check_env pos [] = true
check_env pos (e ∷ es) =
    let named = has_byte b'=' e in (named || pos) && check_env (pos && not named) es

abbrev pub add_env : Option (List Str) → Str → List Str
add_env none arg = arg ∷ []
add_env (some env) arg = env ++ arg ∷ []

-- A name of an event, or a value for the event on top of the stack.
unfoldable pub push_operand : Str → List Item → Result (List Item)
unfolding check_env
push_operand arg (event name env ∷ stack) =
    if check_env true (add_env env arg)
    then ok (event name (some (add_env env arg)) ∷ stack)
    else raise expected_variable
push_operand arg [] = ok (event arg none ∷ [])
push_operand arg (marker ∷ stack) = ok (event arg none ∷ marker ∷ stack)
push_operand arg (pending g left ∷ stack) = ok (event arg none ∷ pending g left ∷ stack)

unfoldable pub operand : Str → Parser → Result Parser
unfolding push_operand
operand arg p = push_operand arg p.stack >>= λ stack. ok (record p { stack = stack })

-- What the tokeniser finds: a parenthesis, a keyword that is not quoted, or any other word.
pub data Token : Type 0 where
  opening closing : Token
  operator : Gate → Token
  word : Str → Token

unfoldable pub parse_token : Token → Parser → Result Parser
unfolding open_paren close_paren push_operator operand
parse_token opening p = open_paren p
parse_token closing p = close_paren p
parse_token (operator g) p = push_operator g p
parse_token (word arg) p = operand arg p

-- The tokens of one stanza, and the end of parse_on.
unfoldable pub parse_tokens : List Token → Parser → Result Parser
parse_tokens [] p = ok p
parse_tokens (t ∷ ts) p = parse_token t p >>= parse_tokens ts

abbrev pub root_only : List Item → EventOperator → Result EventOperator
root_only [] root = ok root
root_only (item ∷ stack) root = raise mismatched_parens

unfoldable pub finish : Parser → Result EventOperator
unfolding parse_on_collect
finish p = parse_on_collect p >>= λ (p', root). root_only p'.stack root

abbrev pub start : Parser
start = record { stack = []; root = none; paren = 0 }
