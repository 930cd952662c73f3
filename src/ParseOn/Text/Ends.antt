-- ===== src/ParseOn/Text/Ends.antt =====
-- The rounds of the loop of parse_on, of init/parse_job.c.
use startup.Base.{
  ℕ, zero, suc, ◌+◌, ◌≤◌, ◌<◌, Bool, true, false, not, Option, none, some, List, [], ◌∷◌, ◌==◌,
  ◌&&◌, ◌||◌, is_some, ltb, if◌then◌else◌, Str, codes, str_eq, length, ◌≡◌, ◌≢◌, refl, arith, subst,
}
use startup.EventOperator.{event_or, event_and, EventOperator, gate, event_match}
use startup.ParseOn.{
  expected_operator, expected_variable, Item, marker, pending, event, collect, parse_on_collect,
  push_operator, open_paren, close_paren, decrement, drop_marker, check_env, add_env, push_operand,
  operand, root_only, is_event_top, token_error, Result, ok, raise, assertion_failed, diverges,
  ◌>>=◌, Parser, Token, opening, closing, operator, word, parse_token, finish, start,
}
use startup.ParseOn.Text.{
  Cursor, Config, byte_at, read_word, step_over, read_token, Line, go_on, stop, no_comment,
  end_line, following, parse_line, parse_on,
}

-- What the parser relies on: a word moves the cursor on, and nothing moves it back or past the end.
pub record IsTokeniser (config : Config) : Type 0 where
  pub word_on :
      (dequote : Bool) (file : Str) (c : Cursor) (arg : Str) (c' : Cursor)
      → config.next_token dequote file c ≡ some (arg, c')
      → (c.pos < c'.pos) × (c'.pos ≤ length file)
  pub white_on : (file : Str) (c : Cursor) → c.pos ≤ (config.skip_whitespace file c).pos
  pub white_in :
      (file : Str) (c : Cursor)
      → c.pos ≤ length file
      → (config.skip_whitespace file c).pos ≤ length file
  pub comment_on :
      (file : Str) (c c' : Cursor)
      → config.skip_comment file c ≡ some c'
      → c.pos ≤ length file
      → (c.pos ≤ c'.pos) × (c'.pos ≤ length file)
  pub has_on : (file : Str) (c : Cursor) → c.pos ≤ (config.has_token file c).1.pos
  pub has_in :
      (file : Str) (c : Cursor)
      → c.pos ≤ length file
      → (config.has_token file c).1.pos ≤ length file

abbrev pub Ends : {A : Type 0} → Result A → Type 0
Ends (ok a) = Unit {0}
Ends (raise e) = Unit {0}
Ends assertion_failed = Unit {0}
Ends diverges = ⊥

Ends-bind :
    {A B : Type 0} (r : Result A) (f : A → Result B)
    → Ends r
    → ((a : A) → r ≡ ok a → Ends (f a))
    → Ends (r >>= f)
Ends-bind (ok a) f e h = h a refl
Ends-bind (raise x) f e h = tt
Ends-bind assertion_failed f e h = tt
Ends-bind diverges f e h = absurd e

collect-Ends : (stack : List Item) (root : Option EventOperator) → Ends (collect stack root)
unfolding collect
collect-Ends [] none = tt
collect-Ends [] (some t) = tt
collect-Ends (marker ∷ stack) none = tt
collect-Ends (marker ∷ stack) (some t) = tt
collect-Ends (pending g l ∷ stack) none = tt
collect-Ends (pending g l ∷ stack) (some t) = collect-Ends stack (some (gate g false l t))
collect-Ends (event n env ∷ stack) none = collect-Ends stack (some (event_match n env false none))
collect-Ends (event n env ∷ stack) (some t) = tt

parse_on_collect-Ends : (p : Parser) → Ends (parse_on_collect p)
unfolding parse_on_collect
parse_on_collect-Ends p =
    Ends-bind (collect p.stack p.root) _ (collect-Ends p.stack p.root) (λ a _. tt)

drop_marker-Ends : (stack : List Item) → Ends (drop_marker stack)
drop_marker-Ends [] = tt
drop_marker-Ends (item ∷ stack) = tt

root_only-Ends : (stack : List Item) (t : EventOperator) → Ends (root_only stack t)
root_only-Ends [] t = tt
root_only-Ends (item ∷ stack) t = tt

if-Ends : {A : Type 0} (b : Bool) (x y : Result A) → Ends x → Ends y → Ends (if b then x else y)
if-Ends true x y e f = e
if-Ends false x y e f = f

push_operand-Ends : (arg : Str) (stack : List Item) → Ends (push_operand arg stack)
unfolding push_operand
push_operand-Ends arg [] = tt
push_operand-Ends arg (marker ∷ stack) = tt
push_operand-Ends arg (pending g l ∷ stack) = tt
push_operand-Ends arg (event n env ∷ stack) =
    if-Ends (check_env true (add_env env arg)) (ok (event n (some (add_env env arg)) ∷ stack))
      (raise expected_variable) tt tt

parse_token-Ends : (t : Token) (p : Parser) → Ends (parse_token t p)
unfolding parse_token open_paren close_paren push_operator operand
parse_token-Ends opening p =
    if-Ends (is_some p.root || is_event_top p.stack) (raise expected_operator)
      (ok (record p { stack = marker ∷ p.stack; paren = p.paren + 1 })) tt tt
parse_token-Ends closing p =
    Ends-bind (parse_on_collect (record p { paren = decrement p.paren })) _
      (parse_on_collect-Ends (record p { paren = decrement p.paren }))
      (λ a _. Ends-bind (drop_marker a.0.stack) _ (drop_marker-Ends a.0.stack) (λ b _. tt))
parse_token-Ends (operator g) p =
    Ends-bind (parse_on_collect p) _ (parse_on_collect-Ends p) (λ a _. tt)
parse_token-Ends (word arg) p =
    Ends-bind (push_operand arg p.stack) _ (push_operand-Ends arg p.stack) (λ a _. tt)

finish-Ends : (p : Parser) → Ends (finish p)
unfolding finish
finish-Ends p =
    Ends-bind (parse_on_collect p) _ (parse_on_collect-Ends p) (λ a _. root_only-Ends a.0.stack a.1)

byte_at-lt : (s : Str) (i c : ℕ) → byte_at s i ≡ some c → i < length s
unfolding byte_at
byte_at-lt [] i c h = cc
byte_at-lt (x ∷ s) zero c h = omega arith
byte_at-lt (x ∷ s) (suc i) c h = omega (arith, byte_at-lt s i c h)

module _ (config : Config) (file : Str) (good : IsTokeniser config) where
  -- From `c` on to `c'`, within the text.
  abbrev Moves : Cursor → Cursor → Type 0
  Moves c c' = (c.pos < c'.pos) × (c'.pos ≤ length file)

  abbrev MovesIf : Cursor → Result (Token × Cursor) → Type 0
  MovesIf c (ok (t, c')) = Moves c c'
  MovesIf c (raise e) = Unit {0}
  MovesIf c assertion_failed = Unit {0}
  MovesIf c diverges = ⊥

  if-MovesIf :
      (c : Cursor) (b : Bool) (x y : Result (Token × Cursor))
      → MovesIf c x
      → MovesIf c y
      → MovesIf c (if b then x else y)
  if-MovesIf c true x y e f = e
  if-MovesIf c false x y e f = f

  dequoted_on :
      (c : Cursor) (o : Option (Str × Cursor))
      → config.next_token true file c ≡ o
      → MovesIf c
          (elim o [ none ↦ raise token_error | some (dequoted, after) ↦ ok (word dequoted, after) ])
  dequoted_on c none e = tt
  dequoted_on c (some (arg, c')) e = good.word_on true file c arg c' e

  word_on :
      (c : Cursor) (o : Option (Str × Cursor))
      → config.next_token false file c ≡ o
      → MovesIf c (elim o [
        | none ↦ raise token_error
        | some (arg, next) ↦
            if str_eq arg (codes "and")
            then ok (operator event_and, next)
            else if str_eq arg (codes "or")
            then ok (operator event_or, next)
            else elim (config.next_token true file c) [
              | none ↦ raise token_error
              | some (dequoted, after) ↦ ok (word dequoted, after)
            ]
      ])
  word_on c none e = tt
  word_on c (some (arg, c')) e =
      if-MovesIf c (str_eq arg (codes "and")) (ok (operator event_and, c')) _
        (good.word_on false file c arg c' e)
        (if-MovesIf c (str_eq arg (codes "or")) (ok (operator event_or, c')) _
          (good.word_on false file c arg c' e) (dequoted_on c (config.next_token true file c) refl))

  read_word_on : (c : Cursor) → MovesIf c (read_word config file c)
  unfolding read_word
  read_word_on c = word_on c (config.next_token false file c) refl

  byte_on :
      (c : Cursor) (o : Option ℕ)
      → byte_at file c.pos ≡ o
      → MovesIf c (elim o [
        | none ↦ read_word config file c
        | some b ↦
            if b == b'('
            then ok (opening, step_over config file c)
            else if b == b')'
            then ok (closing, step_over config file c)
            else if b == 0
            then assertion_failed
            else read_word config file c
      ])
  unfolding step_over
  byte_on c none e = read_word_on c
  byte_on c (some b) e =
      let lt = byte_at-lt file c.pos b e in
      let next : Cursor = record c { pos = c.pos + 1 } in
      let over : Moves c (config.skip_whitespace file next) =
        (omega (arith, good.white_on file next), good.white_in file next (omega arith)) in
      if-MovesIf c (b == b'(') (ok (opening, step_over config file c)) _ over (
        if-MovesIf c (b == b')') (ok (closing, step_over config file c)) _ over
          (if-MovesIf c (b == 0) assertion_failed (read_word config file c) tt (read_word_on c)))

  read_token_on : (c : Cursor) → MovesIf c (read_token config file c)
  unfolding read_token
  read_token_on c = byte_on c (byte_at file c.pos) refl

  -- Where parsing goes on, it has not gone back.
  abbrev GoesOn : Cursor → Line → Type 0
  GoesOn c (go_on c') = (c.pos ≤ c'.pos) × (c'.pos ≤ length file)
  GoesOn c (stop c') = Unit {0}
  GoesOn c no_comment = Unit {0}

  if-GoesOn :
      (c : Cursor) (b : Bool) (x y : Line) → GoesOn c x → GoesOn c y → GoesOn c (if b then x else y)
  if-GoesOn c true x y e f = e
  if-GoesOn c false x y e f = f

  comment_on :
      (c d : Cursor) (k : ℕ) (o : Option Cursor)
      → c.pos ≤ d.pos
      → d.pos ≤ length file
      → config.skip_comment file d ≡ o
      → GoesOn c (elim o [
        | none ↦ no_comment
        | some next ↦
            if ltb next.pos (length file) && not (k == 0)
            then go_on (config.skip_whitespace file next)
            else stop next
      ])
  comment_on c d k none le in_text e = tt
  comment_on c d k (some next) le in_text e =
      let (on, inside) = good.comment_on file d next e in_text in
      if-GoesOn c (ltb next.pos (length file) && not (k == 0))
        (go_on (config.skip_whitespace file next)) (stop next)
        (omega (arith, good.white_on file next), good.white_in file next inside) tt

  following_on : (c : Cursor) (k : ℕ) → c.pos ≤ length file → GoesOn c (following config file c k)
  unfolding following end_line
  following_on c k in_text =
      let (more, after) = config.has_token file c in
      if-GoesOn c more (go_on after) _ (good.has_on file c, good.has_in file c in_text)
        (comment_on c after k (config.skip_comment file after) (good.has_on file c)
          (good.has_in file c in_text) refl)

  line-Ends :
      (f : Cursor → Parser → Result (Parser × Cursor)) (c : Cursor) (l : Line) (p : Parser)
      → GoesOn c l
      → ((c' : Cursor) → c.pos ≤ c'.pos → c'.pos ≤ length file → Ends (f c' p))
      → Ends (elim l [ go_on c' ↦ f c' p | stop c' ↦ ok (p, c') | no_comment ↦ assertion_failed ])
  line-Ends f c (go_on c') p g h = h c' g.0 g.1
  line-Ends f c (stop c') p g h = tt
  line-Ends f c no_comment p g h = tt

  MovesIf-Ends : (c : Cursor) (r : Result (Token × Cursor)) → MovesIf c r → Ends r
  MovesIf-Ends c (ok (t, c')) m = tt
  MovesIf-Ends c (raise e) m = tt
  MovesIf-Ends c assertion_failed m = tt
  MovesIf-Ends c diverges m = m

  parse_line-Ends :
      (fuel : ℕ) (c : Cursor) (p : Parser)
      → length file < fuel + c.pos
      → c.pos ≤ length file
      → Ends (parse_line config file fuel c p)
  unfolding parse_line
  parse_line-Ends zero c p enough in_text = absurd (omega arith)
  parse_line-Ends (suc fuel) c p enough in_text =
      Ends-bind (read_token config file c) _
        (MovesIf-Ends c (read_token config file c) (read_token_on c))
        (λ (t, next) e.
          let moves : Moves c next = subst (MovesIf c) e (read_token_on c) in
          Ends-bind (parse_token t p) _ (parse_token-Ends t p) (λ q _.
            line-Ends (parse_line config file fuel) next (following config file next q.paren) q
              (following_on next q.paren moves.1)
              (λ c' le in_text'. parse_line-Ends fuel c' q (omega (arith, moves.0)) in_text')))

  -- parse_on comes to an end, with a tree, an error or a failed assertion, wherever it starts in the
  -- text: the rounds that its loop is given are enough. It holds for a tokeniser that moves on past
  -- every word, and whose functions neither go back nor leave the text.
  pub parse_on-Ends : (c : Cursor) → c.pos ≤ length file → parse_on config file c ≢ diverges
  unfolding parse_on
  parse_on-Ends c in_text e = subst Ends e (
      Ends-bind (parse_line config file (suc (length file)) (config.skip_whitespace file c) start) _
        (parse_line-Ends (suc (length file)) (config.skip_whitespace file c) start (omega arith)
          (good.white_in file c in_text))
        (λ a _. Ends-bind (finish a.0) _ (finish-Ends a.0) (λ root _. tt)))
