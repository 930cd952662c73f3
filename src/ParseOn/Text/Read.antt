-- ===== src/ParseOn/Text/Read.antt =====
-- The tokens that parse_on of init/parse_job.c reads from a text, and what it returns for them.
use startup.Base.{
  ℕ, zero, suc, ◌≤◌, Bool, true, false, not, some, List, [], ◌∷◌, ◌==◌, ◌&&◌, ltb, Str, length, ◌≡◌,
  refl, ap, ◌∙◌, inl, inr, ◌⊎◌, subst, arith, Bool-cases, Option-cases,
}
use startup.EventOperator.{EventOperator}
use startup.ParseOn.{
  Result, ok, raise, assertion_failed, diverges, ◌>>=◌, Parser, Token, parse_token, parse_tokens,
  finish, start,
}
use startup.ParseOn.Depth.{IsCounted, parse_token-IsCounted}
use startup.ParseOn.Grammar.{Expression}
use startup.ParseOn.Invariant.{>>=-eq-ok, ok-injective}
use startup.ParseOn.Sound.{Expression-of_parse}
use startup.ParseOn.Text.{
  Cursor, Config, read_token, Line, go_on, stop, no_comment, end_line, following, parse_line,
  parse_on,
}
use startup.ParseOn.Text.Tokens.{
  Continues, same_line, next_line, StopsAt, TokensFrom, last, more, read_token-TokenAt,
}

module _ (config : Config) (file : Str) where
  going : {c d : Cursor} → go_on c ≡ go_on d → c ≡ d
  going {c} {d} e = cc

  stopping : {c d : Cursor} → stop c ≡ stop d → c ≡ d
  stopping {c} {d} e = cc

  pair : (x : Bool × Cursor) (b : Bool) (c : Cursor) → x.0 ≡ b → x.1 ≡ c → x ≡ (b, c)
  pair (a, d) b c e f = rw (e, f) refl

  no_more :
      (pos depth : ℕ)
      → (ltb pos (length file) && not (depth == 0)) ≡ false
      → (length file ≤ pos) ⊎ (depth ≡ 0)
  no_more pos depth h = elim (Bool-cases (depth == 0)) [
    | inl y ↦ inr (ground (arith, y))
    | inr n ↦ inl (ground (arith, n, h))
  ]

  following-Continues :
      (cursor cursor' : Cursor) (depth : ℕ)
      → following config file cursor depth ≡ go_on cursor'
      → Continues config file cursor depth cursor'
  unfolding following end_line
  following-Continues cursor cursor' depth h =
      let after = (config.has_token file cursor).1 in
      elim (Bool-cases (config.has_token file cursor).0) [
        | inl y ↦
            let same : after ≡ cursor' = going (rw (y, following) at h) in
            same_line (pair (config.has_token file cursor) true cursor' y same)
        | inr n ↦ elim (Option-cases (config.skip_comment file after)) [
          | inl e ↦ cc (rw (n, e, following, end_line) at h)
          | inr (next, e) ↦ elim (Bool-cases (ltb next.pos (length file) && not (depth == 0))) [
            | inl y ↦
                subst (Continues config file cursor depth)
                  (going (rw (n, e, y, following, end_line) at h))
                  (next_line (pair (config.has_token file cursor) false after n refl) e
                    (ground (arith, y)) (λ z. ground (arith, y, z)))
            | inr m ↦ cc (rw (n, e, m, following, end_line) at h)
          ]
        ]
      ]

  following-StopsAt :
      (cursor end : Cursor) (depth : ℕ)
      → following config file cursor depth ≡ stop end
      → StopsAt config file cursor depth end
  unfolding following end_line
  following-StopsAt cursor end depth h =
      let after = (config.has_token file cursor).1 in
      elim (Bool-cases (config.has_token file cursor).0) [
        | inl y ↦ cc (rw (y, following) at h)
        | inr n ↦ elim (Option-cases (config.skip_comment file after)) [
          | inl e ↦ cc (rw (n, e, following, end_line) at h)
          | inr (next, e) ↦ elim (Bool-cases (ltb next.pos (length file) && not (depth == 0))) [
            | inl y ↦ cc (rw (n, e, y, following, end_line) at h)
            | inr m ↦
                let same = stopping (rw (n, e, m, following, end_line) at h) in
                (
                  after,
                  pair (config.has_token file cursor) false after n refl,
                  e ∙ ap some same,
                  subst (λ c. (length file ≤ c.pos) ⊎ (depth ≡ 0)) same (no_more next.pos depth m),
                )
          ]
        ]
      ]

  Line-cases :
      (l : Line)
      → ((c : Cursor) × (l ≡ go_on c)) ⊎ (((c : Cursor) × (l ≡ stop c)) ⊎ (l ≡ no_comment))
  Line-cases (go_on c) = inl (c, refl)
  Line-cases (stop c) = inr (inl (c, refl))
  Line-cases no_comment = inr (inr refl)

  parse_line-TokensFrom :
      (fuel : ℕ) (cursor : Cursor) (p p' : Parser) (end : Cursor)
      → IsCounted p
      → parse_line config file fuel cursor p ≡ ok (p', end)
      → (ts : List Token) × TokensFrom config file end p.paren cursor ts
        × (parse_tokens ts p ≡ ok p')
  unfolding parse_line parse_tokens
  parse_line-TokensFrom zero cursor p p' end n h = cc
  parse_line-TokensFrom (suc fuel) cursor p p' end n h =
      let ((t, next), et, h₁) = >>=-eq-ok (read_token config file cursor) _ h in
      let (q, eq, h₂) = >>=-eq-ok (parse_token t p) _ h₁ in
      let (counted, depth) = parse_token-IsCounted t p q n eq in
      let token = read_token-TokenAt config file cursor next t et in
      elim (Line-cases (following config file next q.paren)) [
        | inl (c, e) ↦
            let (ts, r, f) = parse_line-TokensFrom fuel c q p' end counted (rw e at h₂) in
            (
              t ∷ ts,
              more token
                  (subst (λ d. Continues config file next d c) depth
                    (following-Continues next c q.paren e))
                  (subst (λ d. TokensFrom config file end d c ts) depth r),
              rw eq f,
            )
        | inr (inl (c, e)) ↦
            let same = ok-injective (q, c) (p', end) (rw e at h₂) in
            let at_end = e ∙ ap {B = Line} (λ (x : Parser × Cursor). stop x.1) same in
            (
              t ∷ [],
              last token (
                  subst (λ d. StopsAt config file next d end) depth
                    (following-StopsAt next end q.paren at_end)),
              rw eq (ap {B = Result Parser} (λ (x : Parser × Cursor). ok x.0) same),
            )
        | inr (inr e) ↦ cc (rw e at h₂)
      ]

  finished :
      (r : Result EventOperator) (c end : Cursor) (root : EventOperator)
      → ◌≡◌ {A = Result (EventOperator × Cursor)}
          (◌>>=◌ {B = EventOperator × Cursor} r (λ x. ok (x, c)))
          (ok (root, end))
      → (r ≡ ok root) × (c ≡ end)
  finished (ok x) c end root h =
      let same = ok-injective (x, c) (root, end) h in
      (
        ap {B = Result EventOperator} (λ (y : EventOperator × Cursor). ok y.0) same,
        ap {B = Cursor} (λ (y : EventOperator × Cursor). y.1) same,
      )
  finished (raise e) c end root h = cc
  finished assertion_failed c end root h = cc
  finished diverges c end root h = cc

  -- What parse_on returns is the tree that the grammar gives the tokens that stand in the text, from
  -- the first one behind white space up to the cursor where it stops. A token is a parenthesis, a
  -- word that is written as `and` or `or`, or any other word without its quotes. Tokens follow each
  -- other on one line, or over comments and ends of lines as long as a parenthesis is open; the
  -- stanza stops at the end of the text or at the end of a line with no parenthesis open.
  pub parse_on-Expression :
      (cursor end : Cursor) (root : EventOperator)
      → parse_on config file cursor ≡ ok (root, end)
      → (ts : List Token) × TokensFrom config file end 0 (config.skip_whitespace file cursor) ts
        × Expression ts root
  unfolding parse_on
  parse_on-Expression cursor end root h =
      let ((p, c), e, h₁) =
        >>=-eq-ok
          (parse_line config file (suc (length file)) (config.skip_whitespace file cursor) start) _
          h in
      let (f, q) = finished (finish p) c end root h₁ in
      let (ts, r, g) =
        parse_line-TokensFrom (suc (length file)) (config.skip_whitespace file cursor) start p c
          refl e in
      (
        ts,
        subst (λ x. TokensFrom config file x 0 (config.skip_whitespace file cursor) ts) q r,
        Expression-of_parse ts p root g f,
      )
