-- ===== src/EventOperator/Matched.antt =====
-- event_operator_handle: which leaves an event matches, what becomes of the values, and how many
-- blocks it gains.
use startup.Base.{
  ℕ, zero, suc, ◌+◌, ◌<◌, Bool, true, false, not, Option, none, some, List, ◌==◌, ◌||◌,
  if◌then◌else◌, Str, ◌≡◌, refl, arith, Bool-cases, inl, inr, ap, ◌∙◌, is_some,
}
use startup.Environ.{environ_all_valid}
use startup.Event.{Event, Store, event_block}
use startup.Event.Block.{
  Untouched, Untouched-refl, Untouched-trans, event_block-Untouched, event_block-blockers, times_at,
  times_at-zero, times_at-one, times_at-add, times_at_self,
}
use startup.EventOperator.{
  EventOperator, gate, event_match, value, combine, event_operator_update, event_operator_match,
  event_operator_handle, event_operator_reset,
}
use startup.EventOperator.Match.{event_operator_match_total}
use startup.EventOperator.Handle.{refs, IsBlocked, cleared, event_operator_reset_lem}

-- The value of a leaf says whether it refers to an event, and that of a gate follows from its
-- children.
abbrev pub IsConsistent : EventOperator → Type 0
IsConsistent (gate g v l r) = (v ≡ combine g (value l) (value r)) × IsConsistent l × IsConsistent r
IsConsistent (event_match name oenv v e) = v ≡ is_some e

abbrev truth : Option Bool → Bool
truth none = false
truth (some b) = b

-- What an event's arrival makes of a leaf: it stays matched, or is matched by the event.
module _ (fnmatch : Str → Str → Bool) (env : List Str) (event : Event) where
  unfoldable pub becomes_true : EventOperator → Bool
  becomes_true (gate g v l r) = combine g (becomes_true l) (becomes_true r)
  becomes_true (event_match name oenv v e) =
      v || truth (event_operator_match fnmatch env name oenv event)

  -- The leaves that the event matches anew.
  unfoldable pub newly_matched : EventOperator → ℕ
  newly_matched (gate g v l r) = newly_matched l + newly_matched r
  newly_matched (event_match name oenv true e) = 0
  newly_matched (event_match name oenv false e) =
      if truth (event_operator_match fnmatch env name oenv event) then 1 else 0

  unfoldable pub handled : ℕ → EventOperator → EventOperator
  handled i (gate g v l r) = event_operator_update (gate g v (handled i l) (handled i r))
  handled i (event_match name oenv true e) = event_match name oenv true e
  handled i (event_match name oenv false e) =
      if truth (event_operator_match fnmatch env name oenv event)
      then event_match name oenv true (some i)
      else event_match name oenv false e

  value-handled : (i : ℕ) (t : EventOperator) → value (handled i t) ≡ becomes_true t
  unfolding handled becomes_true event_operator_update
  value-handled i (gate g v l r) = rw (value-handled i l, value-handled i r) refl
  value-handled i (event_match name oenv true e) = refl
  value-handled i (event_match name oenv false e) = ground arith

  handled-IsConsistent : (i : ℕ) (t : EventOperator) → IsConsistent t → IsConsistent (handled i t)
  unfolding handled event_operator_update
  handled-IsConsistent i (gate g v l r) c =
      (refl, handled-IsConsistent i l c.1, handled-IsConsistent i r c.2)
  handled-IsConsistent i (event_match name oenv true e) c = c
  handled-IsConsistent i (event_match name oenv false e) c = ground arith

  -- Each leaf matched anew refers to the event; no other reference changes.
  refs-handled :
      (i : ℕ) (t : EventOperator) (j : ℕ)
      → IsConsistent t
      → refs (handled i t) j ≡ refs t j + times_at i j (newly_matched t)
  unfolding handled newly_matched event_operator_update
  refs-handled i (gate g v l r) j c = omega (
    arith,
    refs-handled i l j c.1,
    refs-handled i r j c.2,
    times_at-add i j (newly_matched l) (newly_matched r),
  )
  refs-handled i (event_match name oenv true e) j c = omega (arith, times_at-zero i j)
  refs-handled i (event_match name oenv false none) j c =
      elim (Bool-cases (truth (event_operator_match fnmatch env name oenv event))) [
        | inl y ↦ rw y (omega (arith, times_at-one i j))
        | inr f ↦ rw f (omega (arith, times_at-zero i j))
      ]
  refs-handled i (event_match name oenv false (some e)) j c = cc

-- What a match reads of an event is not its counter.
module _ (fnmatch : Str → Str → Bool) (env : List Str) (event : Event) (b : ℕ) where
  newly_matched-blockers :
      (t : EventOperator)
      → newly_matched fnmatch env (record event { blockers = b }) t
        ≡ newly_matched fnmatch env event t
  unfolding newly_matched event_operator_match
  newly_matched-blockers (gate g v l r) =
      rw (newly_matched-blockers l, newly_matched-blockers r) refl
  newly_matched-blockers (event_match name oenv true e) = refl
  newly_matched-blockers (event_match name oenv false e) = refl

  handled-blockers :
      (i : ℕ) (t : EventOperator)
      → handled fnmatch env (record event { blockers = b }) i t ≡ handled fnmatch env event i t
  unfolding handled event_operator_match
  handled-blockers i (gate g v l r) = rw (handled-blockers i l, handled-blockers i r) refl
  handled-blockers i (event_match name oenv true e) = refl
  handled-blockers i (event_match name oenv false e) = refl

any-add : (m n : ℕ) → (not (m == 0) || not (n == 0)) ≡ not (m + n == 0)
any-add zero n = ground arith
any-add (suc m) n = ground arith

module _ (fnmatch : Str → Str → Bool) (env : List Str) where
  -- For an event with KEY=VALUE entries and a counter that does not overflow, event_operator_handle
  -- returns the tree in which the leaves that the event matches refer to it and the gates are
  -- updated, tells whether there is such a leaf, and blocks the event once for each, changing
  -- nothing else of any event.
  pub event_operator_handle_lem :
      (t : EventOperator) (i : ℕ) (st : Store)
      → environ_all_valid (st i).env ≡ true
      → (st i).blockers + newly_matched fnmatch env (st i) t < 4294967296
      → (st' : Store) × (event_operator_handle fnmatch env t i st
          ≡ some
              (handled fnmatch env (st i) i t, st', not (newly_matched fnmatch env (st i) t == 0)))
        × Untouched st st'
        × ((j : ℕ)
            → (st' j).blockers
              ≡ (st j).blockers + times_at i j (newly_matched fnmatch env (st i) t))
  unfolding event_operator_handle handled newly_matched
  event_operator_handle_lem (gate g v l r) i st valid bound =
      let nl = newly_matched fnmatch env (st i) l in
      let nr = newly_matched fnmatch env (st i) r in
      let (st₁, e₁, u₁, c₁) = event_operator_handle_lem l i st valid (omega arith) in
      let same : newly_matched fnmatch env (st₁ i) r ≡ nr =
        rw (u₁ i) (newly_matched-blockers fnmatch env (st i) (st₁ i).blockers r) in
      let same_tree : handled fnmatch env (st₁ i) i r ≡ handled fnmatch env (st i) i r =
        rw (u₁ i) (handled-blockers fnmatch env (st i) (st₁ i).blockers i r) in
      let (st₂, e₂, u₂, c₂) =
        event_operator_handle_lem r i st₁
          (ap (λ (e : Event). environ_all_valid e.env) (u₁ i) ∙ valid)
          (omega (arith, c₁ i, times_at_self i nl)) in
      (
        st₂,
        rw (e₁, e₂, same, same_tree)
            (ap (λ (b : Bool). some (handled fnmatch env (st i) i (gate g v l r), st₂, b))
              (any-add nl nr)),
        Untouched-trans st st₁ st₂ u₁ u₂,
        λ j. omega (arith, c₁ j, c₂ j, times_at-add i j nl nr, ap (times_at i j) same),
      )
  event_operator_handle_lem (event_match name oenv true e) i st valid bound =
      (st, refl, Untouched-refl st, λ j. omega (arith, times_at-zero i j))
  event_operator_handle_lem (event_match name oenv false e) i st valid bound =
      let (b, m) = event_operator_match_total fnmatch env name oenv (st i) valid in leaf b m
    where
      leaf :
          (b : Bool)
          → event_operator_match fnmatch env name oenv (st i) ≡ some b
          → (st' : Store) × (event_operator_handle fnmatch env (event_match name oenv false e) i st
              ≡ some (
                handled fnmatch env (st i) i (event_match name oenv false e),
                st',
                not (newly_matched fnmatch env (st i) (event_match name oenv false e) == 0),
              ))
            × Untouched st st'
            × ((j : ℕ)
                → (st' j).blockers
                  ≡ (st j).blockers
                    + times_at i j
                        (newly_matched fnmatch env (st i) (event_match name oenv false e)))
      leaf true m = (
        event_block i st,
        rw m refl,
        event_block-Untouched i st,
        λ j. rw m (omega (arith, times_at-one i j, event_block-blockers i st j (rw m at bound))),
      )
      leaf false m =
          (st, rw m refl, Untouched-refl st, λ j. rw m (omega (arith, times_at-zero i j)))

-- On a consistent tree, for an event with KEY=VALUE entries and a counter that does not overflow,
-- the value of the root after event_operator_handle is that of the expression over the leaves that
-- were matched before or are matched by the event, and the tree stays consistent.
pub event_operator_handle-value :
    (fnmatch : Str → Str → Bool) (env : List Str) (t : EventOperator) (i : ℕ) (st : Store)
    → environ_all_valid (st i).env ≡ true
    → (st i).blockers + newly_matched fnmatch env (st i) t < 4294967296
    → IsConsistent t
    → (t' : EventOperator) × (st' : Store) × (m : Bool) × (event_operator_handle fnmatch env t i st
        ≡ some (t', st', m))
      × (value t' ≡ becomes_true fnmatch env (st i) t)
      × IsConsistent t'
event_operator_handle-value fnmatch env t i st valid bound c =
    let (st', e, u, k) = event_operator_handle_lem fnmatch env t i st valid bound in
    (
      handled fnmatch env (st i) i t,
      st',
      not (newly_matched fnmatch env (st i) t == 0),
      e,
      value-handled fnmatch env (st i) i t,
      handled-IsConsistent fnmatch env (st i) i t c,
    )

cleared-handled :
    (fnmatch : Str → Str → Bool) (env : List Str) (event : Event) (i : ℕ) (t : EventOperator)
    → cleared (handled fnmatch env event i t) ≡ cleared t
unfolding handled event_operator_update
cleared-handled fnmatch env event i (gate g v l r) =
    rw (cleared-handled fnmatch env event i l, cleared-handled fnmatch env event i r) refl
cleared-handled fnmatch env event i (event_match name oenv true e) = refl
cleared-handled fnmatch env event i (event_match name oenv false e) = ground arith

-- On a consistent tree whose references all count as blocks, for an event with KEY=VALUE entries
-- and a counter that does not overflow, the references stay blocked through event_operator_handle,
-- so that a reset afterwards succeeds: it clears the tree and leaves each event blocked as often as it was, less the references that the
-- tree had before the event came.
pub event_operator_reset-handle :
    (fnmatch : Str → Str → Bool) (env : List Str) (t : EventOperator) (i : ℕ) (st : Store)
    → environ_all_valid (st i).env ≡ true
    → (st i).blockers + newly_matched fnmatch env (st i) t < 4294967296
    → IsConsistent t
    → IsBlocked t st
    → (t' : EventOperator) × (st' : Store) × (m : Bool) × (st'' : Store) × (event_operator_handle
          fnmatch env t i st
        ≡ some (t', st', m))
      × IsBlocked t' st'
      × (event_operator_reset t' st' ≡ some (cleared t, st''))
      × ((j : ℕ) → (st'' j).blockers + refs t j ≡ (st j).blockers)
event_operator_reset-handle fnmatch env t i st valid bound c b =
    let t' = handled fnmatch env (st i) i t in
    let (st', e, u, k) = event_operator_handle_lem fnmatch env t i st valid bound in
    let b' : IsBlocked t' st' =
      λ j. omega (arith, b j, k j, refs-handled fnmatch env (st i) i t j c) in
    let (st'', e', u', k') = event_operator_reset_lem t' st' b' in
    (
      t',
      st',
      not (newly_matched fnmatch env (st i) t == 0),
      st'',
      e,
      b',
      rw (cleared-handled fnmatch env (st i) i t) at e',
      λ j. omega (arith, k' j, k j, refs-handled fnmatch env (st i) i t j c),
    )
