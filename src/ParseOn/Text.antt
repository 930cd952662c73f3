-- ===== src/ParseOn/Text.antt =====
-- parse_on over the text of a job file. libnih's tokeniser is a parameter: each function takes the
-- text and a cursor, and returns the cursor where it stopped. The cursors that errors report are
-- left out.
pub mod Tokens
pub mod Read
pub mod Ends
use startup.Base.{
  ℕ, zero, suc, ◌+◌, Bool, true, false, not, Option, none, some, List, [], ◌∷◌, ◌==◌, ◌&&◌, ltb,
  if◌then◌else◌, Str, codes, str_eq, length,
}
use startup.EventOperator.{Gate, event_or, event_and, EventOperator}
use startup.ParseOn.{
  ParseError, token_error, Result, ok, raise, assertion_failed, diverges, ◌>>=◌, Parser, Token,
  opening, closing, operator, word, parse_token, finish, start,
}

pub record Cursor : Type 0 where
  pub pos : ℕ
  pub lineno : ℕ

pub record Config : Type 0 where
  pub skip_whitespace : Str → Cursor → Cursor
  pub skip_comment : Str → Cursor → Option Cursor  -- `none` is a negative result
  pub has_token : Str → Cursor → Bool × Cursor
  pub next_token : Bool → Str → Cursor → Option (Str × Cursor)  -- `none` raises an error; the flag is `dequote`

-- `file[pos]`, if `pos` is below the length.
unfoldable pub byte_at : Str → ℕ → Option ℕ
byte_at [] pos = none
byte_at (c ∷ s) zero = some c
byte_at (c ∷ s) (suc pos) = byte_at s pos

-- Where parsing goes on, if it does.
pub data Line : Type 0 where
  go_on : Cursor → Line
  stop : Cursor → Line
  no_comment : Line

module _ (config : Config) (file : Str) where
  -- A word is read again, dequoted, if it is no operator.
  unfoldable pub read_word : Cursor → Result (Token × Cursor)
  read_word cursor = elim (config.next_token false file cursor) [
    | none ↦ raise token_error
    | some (arg, next) ↦
        if str_eq arg (codes "and")
        then ok (operator event_and, next)
        else if str_eq arg (codes "or")
        then ok (operator event_or, next)
        else elim (config.next_token true file cursor) [
          | none ↦ raise token_error
          | some (dequoted, after) ↦ ok (word dequoted, after)
        ]
  ]

  -- Past a parenthesis and the white space behind it.
  unfoldable pub step_over : Cursor → Cursor
  step_over cursor = config.skip_whitespace file (record cursor { pos = cursor.pos + 1 })

  -- `strchr ("()", c)` finds a NUL as well, for which parse_on_paren has no case.
  unfoldable pub read_token : Cursor → Result (Token × Cursor)
  unfolding read_word byte_at step_over
  read_token cursor = elim (byte_at file cursor.pos) [
    | none ↦ read_word cursor
    | some c ↦
        if c == b'('
        then ok (opening, step_over cursor)
        else if c == b')'
        then ok (closing, step_over cursor)
        else if c == 0
        then assertion_failed
        else read_word cursor
  ]

  -- A comment, and the next line if a parenthesis is open.
  unfoldable pub end_line : Cursor → ℕ → Line
  end_line cursor paren = elim (config.skip_comment file cursor) [
    | none ↦ no_comment
    | some next ↦
        if ltb next.pos (length file) && not (paren == 0)
        then go_on (config.skip_whitespace file next)
        else stop next
  ]

  unfoldable pub following : Cursor → ℕ → Line
  unfolding end_line
  following cursor paren =
      let (more, after) = config.has_token file cursor in
      if more then go_on after else end_line after paren

  unfoldable pub parse_line : ℕ → Cursor → Parser → Result (Parser × Cursor)
  unfolding read_token following
  parse_line zero cursor p = diverges
  parse_line (suc fuel) cursor p = read_token cursor >>= λ (t, next). parse_token t p >>= λ p'.
      elim (following next p'.paren) [
        | go_on cursor' ↦ parse_line fuel cursor' p'
        | stop cursor' ↦ ok (p', cursor')
        | no_comment ↦ assertion_failed
      ]

  -- One round for every byte, and one more.
  unfoldable pub parse_on : Cursor → Result (EventOperator × Cursor)
  unfolding parse_line
  parse_on cursor =
      parse_line (suc (length file)) (config.skip_whitespace file cursor) start >>= λ (p, end).
      finish p >>= λ root. ok (root, end)
