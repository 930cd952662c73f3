-- ===== src/ParseOn/Tests.antt =====
-- The theorems on parse_on applied to short stanzas. The tokeniser here takes every byte for a word,
-- and knows neither white space nor comments.
use startup.Base.{
  ℕ, zero, suc, ◌+◌, ◌≤◌, ◌<◌, Bool, true, false, Option, none, some, List, [], ◌∷◌, ◌++◌, ltb,
  length, Str, codes, ◌≡◌, ◌≢◌, refl, ap, arith, Option-cases, some-injective, inl, inr,
}
use startup.EventOperator.{event_or, event_and, EventOperator, gate, event_match}
use startup.ParseOn.{
  pending, check_env, parse_token, open_paren, close_paren, push_operator, operand, push_operand,
  parse_on_collect, collect, ok, diverges, Parser, Token, opening, closing, operator, word,
  parse_tokens, finish, start,
}
use startup.ParseOn.Grammar.{Expression, single, chain, name, group}
use startup.ParseOn.Complete.{parse_tokens-Expression}
use startup.ParseOn.Sound.{Expression-of_parse}
use startup.ParseOn.Text.{
  Cursor, Config, byte_at, read_word, read_token, step_over, end_line, following, parse_line,
  parse_on,
}
use startup.ParseOn.Text.Tokens.{TokensFrom}
use startup.ParseOn.Text.Read.{parse_on-Expression}
use startup.ParseOn.Text.Ends.{IsTokeniser, parse_on-Ends}

abbrev leaf : Str → EventOperator
leaf s = event_match s none false none

-- `a or (b and c)`
abbrev tokens : List Token
tokens =
    word (codes "a")
    ∷ operator event_or
    ∷ opening
    ∷ word (codes "b")
    ∷ operator event_and
    ∷ word (codes "c")
    ∷ closing
    ∷ []

abbrev tree : EventOperator
tree =
    gate event_or false (leaf (codes "a"))
      (gate event_and false (leaf (codes "b")) (leaf (codes "c")))

word_of : (s : Str) → Expression (word s ∷ []) (leaf s)
unfolding check_env
word_of s = single (name s [] refl refl refl)

tokens-Expression : Expression tokens tree
unfolding check_env
tokens-Expression =
    chain (word (codes "a") ∷ [])
      (opening ∷ word (codes "b") ∷ operator event_and ∷ word (codes "c") ∷ closing ∷ []) event_or
      (word_of (codes "a"))
      (group (word (codes "b") ∷ operator event_and ∷ word (codes "c") ∷ [])
        (chain (word (codes "b") ∷ []) (word (codes "c") ∷ []) event_and (word_of (codes "b"))
          (name (codes "c") [] refl refl refl) refl)
        refl)
      refl

parse_tokens-Expression_example :
    (p : Parser) × (parse_tokens tokens start ≡ ok p) × (p.paren ≡ 0) × (finish p ≡ ok tree)
parse_tokens-Expression_example = parse_tokens-Expression tokens tree tokens-Expression

abbrev parsed : Parser
parsed = record {
  stack = pending event_or (leaf (codes "a")) ∷ [];
  root = some (gate event_and false (leaf (codes "b")) (leaf (codes "c")));
  paren = 0;
}

parses : parse_tokens tokens start ≡ ok parsed
unfolding parse_tokens parse_token open_paren close_paren push_operator operand push_operand
    parse_on_collect collect check_env startup.Base.str_eq startup.Base.has_byte
parses = refl

finishes : finish parsed ≡ ok tree
unfolding finish parse_on_collect collect
finishes = refl

Expression-of_parse_example : Expression tokens tree
Expression-of_parse_example = Expression-of_parse tokens parsed tree parses finishes

abbrev on : Cursor → Cursor
on c = record c { pos = c.pos + 1 }

abbrev take_byte : Option ℕ → Cursor → Option (Str × Cursor)
take_byte none c = none
take_byte (some b) c = some (b ∷ [], on c)

abbrev config : Config
config = record {
  skip_whitespace = λ file c. c;
  skip_comment = λ file c. some c;
  has_token = λ file c. (ltb c.pos (length file), c);
  next_token = λ dequote file c. take_byte (byte_at file c.pos) c;
}

byte_at_in : (file : Str) (pos b : ℕ) → byte_at file pos ≡ some b → pos < length file
unfolding byte_at
byte_at_in [] pos b h = cc
byte_at_in (c ∷ file) zero b h = omega arith
byte_at_in (c ∷ file) (suc pos) b h = let within = byte_at_in file pos b h in omega arith

take_byte_on :
    (file : Str) (c : Cursor) (arg : Str) (c' : Cursor)
    → take_byte (byte_at file c.pos) c ≡ some (arg, c')
    → (c.pos < c'.pos) × (c'.pos ≤ length file)
take_byte_on file c arg c' h = elim (Option-cases (byte_at file c.pos)) [
  | inl e ↦ cc (rw e at h)
  | inr (b, e) ↦
      let same : on c ≡ c' =
        ap {B = Cursor} (λ (x : Str × Cursor). x.1) (some-injective _ _ (rw e at h)) in
      let moved : c.pos + 1 ≡ c'.pos = ap {B = ℕ} (λ (x : Cursor). x.pos) same in
      let within = byte_at_in file c.pos b e in (omega arith, omega arith)
]

config-IsTokeniser : IsTokeniser config
config-IsTokeniser = record {
  word_on = λ dequote file c arg c'. take_byte_on file c arg c';
  white_on = λ file c. omega arith;
  white_in = λ file c h. h;
  comment_on = λ file c c' e h. comment file c c' e h;
  has_on = λ file c. omega arith;
  has_in = λ file c h. h;
}
  where
    comment :
        (file : Str) (c c' : Cursor)
        → some c ≡ some c'
        → c.pos ≤ length file
        → (c.pos ≤ c'.pos) × (c'.pos ≤ length file)
    comment file c c' e h =
        let same : c.pos ≡ c'.pos = ap {B = ℕ} (λ (x : Cursor). x.pos) (some-injective c c' e) in
        (omega arith, omega arith)

abbrev from : Cursor
from = record { pos = 0; lineno = 1 }

abbrev ab : EventOperator
ab = event_match (codes "a") (some (codes "b" ∷ [])) false none

reads : parse_on config (codes "(ab)") from ≡ ok (ab, record { pos = 4; lineno = 1 })
unfolding parse_on parse_line read_token read_word step_over following end_line byte_at finish
    parse_token open_paren close_paren push_operator operand push_operand parse_on_collect collect
    check_env startup.Base.str_eq startup.Base.has_byte
reads = refl

parse_on-Expression_example :
    (ts : List Token) × TokensFrom config (codes "(ab)") (record { pos = 4; lineno = 1 }) 0 from ts
    × Expression ts ab
parse_on-Expression_example =
    parse_on-Expression config (codes "(ab)") from (record { pos = 4; lineno = 1 }) ab reads

parse_on-Ends_example : parse_on config (codes "(ab)") from ≢ diverges
parse_on-Ends_example = parse_on-Ends config (codes "(ab)") config-IsTokeniser from (omega arith)
