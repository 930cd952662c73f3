-- ===== src/ParseOn/Text/Tokens.antt =====
-- Tokens in a text, told apart from the code: where one stands, and where the next one does; and that
-- read_token, the head of the loop of parse_on of init/parse_job.c, reads these.
use startup.Base.{
  ℕ, ◌+◌, ◌≤◌, ◌<◌, true, false, some, List, [], ◌∷◌, ◌==◌, Str, codes, str_eq, str_eq_iff, length,
  ◌≡◌, ◌≢◌, ap, ◌∙◌, inl, inr, ◌⊎◌, subst, arith, Bool-cases, Option-cases,
}
use startup.EventOperator.{Gate, event_or, event_and}
use startup.ParseOn.{Result, ok, Token, opening, closing, operator, word}
use startup.ParseOn.Depth.{depth_after}
use startup.ParseOn.Invariant.{ok-injective}
use startup.ParseOn.Text.{Cursor, Config, byte_at, read_word, step_over, read_token}

abbrev pub keyword : Gate → Str
keyword event_or = codes "or"
keyword event_and = codes "and"

module _ (config : Config) (file : Str) where
  abbrev pub NoParen : Cursor → Type 0
  NoParen cursor = (byte_at file cursor.pos ≢ some b'(') × (byte_at file cursor.pos ≢ some b')')

  -- The token that stands at a cursor, and the cursor behind it: a parenthesis and the white space
  -- behind it, a keyword as it is written, or any other word without its quotes.
  pub data TokenAt (cursor : Cursor) : Token → Cursor → Type 0 where
    is_opening :
        byte_at file cursor.pos ≡ some b'('
        → TokenAt cursor opening
            (config.skip_whitespace file (record cursor { pos = cursor.pos + 1 }))
    is_closing :
        byte_at file cursor.pos ≡ some b')'
        → TokenAt cursor closing
            (config.skip_whitespace file (record cursor { pos = cursor.pos + 1 }))
    is_keyword :
        {next : Cursor} (g : Gate)
        → NoParen cursor
        → config.next_token false file cursor ≡ some (keyword g, next)
        → TokenAt cursor (operator g) next
    is_word :
        {raw arg : Str} {end next : Cursor}
        → NoParen cursor
        → config.next_token false file cursor ≡ some (raw, end)
        → raw ≢ codes "and"
        → raw ≢ codes "or"
        → config.next_token true file cursor ≡ some (arg, next)
        → TokenAt cursor (word arg) next

  -- Where the next token stands: on the same line, or behind a comment and a line's end if a
  -- parenthesis is open.
  pub data Continues (cursor : Cursor) (depth : ℕ) : Cursor → Type 0 where
    same_line :
        {cursor' : Cursor}
        → config.has_token file cursor ≡ (true, cursor')
        → Continues cursor depth cursor'
    next_line :
        {after next : Cursor}
        → config.has_token file cursor ≡ (false, after)
        → config.skip_comment file after ≡ some next
        → next.pos < length file
        → depth ≢ 0
        → Continues cursor depth (config.skip_whitespace file next)

  -- Where the stanza ends: behind a comment, at the end of the file or with no parenthesis open.
  abbrev pub StopsAt : Cursor → ℕ → Cursor → Type 0
  StopsAt cursor depth end =
      (after : Cursor) × (config.has_token file cursor ≡ (false, after))
      × (config.skip_comment file after ≡ some end)
      × ((length file ≤ end.pos) ⊎ (depth ≡ 0))

  -- The tokens from a cursor on, up to another, where so many parentheses are open.
  pub data TokensFrom (end : Cursor) : ℕ → Cursor → List Token → Type 0 where
    last :
        {depth : ℕ} {cursor next : Cursor} {t : Token}
        → TokenAt cursor t next
        → StopsAt next (depth_after t depth) end
        → TokensFrom end depth cursor (t ∷ [])
    more :
        {depth : ℕ} {cursor next cursor' : Cursor} {t : Token} {ts : List Token}
        → TokenAt cursor t next
        → Continues next (depth_after t depth) cursor'
        → TokensFrom end (depth_after t depth) cursor' ts
        → TokensFrom end depth cursor (t ∷ ts)

  at_pair :
      (cursor : Cursor) (t u : Token) (next next' : Cursor)
      → TokenAt cursor t next
      → ◌≡◌ {A = Result (Token × Cursor)} (ok (t, next)) (ok (u, next'))
      → TokenAt cursor u next'
  at_pair cursor t u next next' a h =
      subst (λ (x : Token × Cursor). TokenAt cursor x.0 x.1) (ok-injective (t, next) (u, next') h) a

  different : (a b : Str) → str_eq a b ≡ false → a ≢ b
  different a b f e = cc ((str_eq_iff a b).1 e, f)

  read_word-TokenAt :
      (cursor next : Cursor) (t : Token)
      → NoParen cursor
      → read_word config file cursor ≡ ok (t, next)
      → TokenAt cursor t next
  unfolding read_word
  read_word-TokenAt cursor next t w h = elim (Option-cases (config.next_token false file cursor)) [
    | inl e ↦ cc (rw (e, read_word) at h)
    | inr ((raw, end), e) ↦ elim (Bool-cases (str_eq raw (codes "and"))) [
      | inl y ↦
          at_pair cursor (operator event_and) t end next
            (is_keyword event_and w (e ∙ ap (λ s. some (s, end)) ((str_eq_iff raw _).0 y)))
            (rw (e, y, read_word) at h)
      | inr n ↦ elim (Bool-cases (str_eq raw (codes "or"))) [
        | inl y ↦
            at_pair cursor (operator event_or) t end next
              (is_keyword event_or w (e ∙ ap (λ s. some (s, end)) ((str_eq_iff raw _).0 y)))
              (rw (e, n, y, read_word) at h)
        | inr m ↦ elim (Option-cases (config.next_token true file cursor)) [
          | inl e' ↦ cc (rw (e, n, m, e', read_word) at h)
          | inr ((arg, next'), e') ↦
              at_pair cursor (word arg) t next' next
                (is_word w e (different raw _ n) (different raw _ m) e')
                (rw (e, n, m, e', read_word) at h)
        ]
      ]
    ]
  ]

  pub read_token-TokenAt :
      (cursor next : Cursor) (t : Token)
      → read_token config file cursor ≡ ok (t, next)
      → TokenAt cursor t next
  unfolding read_token step_over
  read_token-TokenAt cursor next t h = elim (Option-cases (byte_at file cursor.pos)) [
    | inl e ↦
        read_word-TokenAt cursor next t ((λ q. cc (e, q)), (λ q. cc (e, q)))
          (rw (e, read_token) at h)
    | inr (c, e) ↦ elim (Bool-cases (c == b'(')) [
      | inl y ↦
          let same : c ≡ b'(' = ground (arith, y) in
          at_pair cursor opening t _ next (is_opening (e ∙ ap some same))
            (rw (e, y, read_token) at h)
      | inr n ↦ elim (Bool-cases (c == b')')) [
        | inl y ↦
            let same : c ≡ b')' = ground (arith, y) in
            at_pair cursor closing t _ next (is_closing (e ∙ ap some same))
              (rw (e, n, y, read_token) at h)
        | inr m ↦ elim (Bool-cases (c == 0)) [
          | inl z ↦ cc (rw (e, n, m, z, read_token) at h)
          | inr z ↦
              read_word-TokenAt cursor next t
                ((λ q. ground (arith, e, q, n)), (λ q. ground (arith, e, q, m)))
                (rw (e, n, m, z, read_token) at h)
        ]
      ]
    ]
  ]
