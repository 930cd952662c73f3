-- ===== src/EventOperator/Handle.antt =====
-- event_operator_handle, event_operator_reset, copy and destroy: the tree that they leave, and the
-- blocks that they put on events and take away.
use startup.Base.{ℕ, ◌+◌, ◌≤◌, ◌<◌, Bool, false, none, some, ◌≡◌, refl, arith}
use startup.Event.{Store}
use startup.Event.Block.{
  Untouched, Untouched-refl, Untouched-trans, event_block-Untouched, one_at, one_at_self,
  event_block-blockers, event_unblock_lem,
}
use startup.EventOperator.{
  Gate, event_or, event_and, EventOperator, gate, event_match, value, event_operator_update,
  event_operator_reset, event_operator_copy, event_operator_destroy,
}

-- How often a tree refers to the event at an address.
abbrev pub refs : EventOperator → ℕ → ℕ
refs (gate g v l r) j = refs l j + refs r j
refs (event_match name oenv v none) j = 0
refs (event_match name oenv v (some e)) j = one_at e j

-- The tree with nothing matched.
abbrev pub cleared : EventOperator → EventOperator
cleared (gate g v l r) = gate g false (cleared l) (cleared r)
cleared (event_match name oenv v e) = event_match name oenv false none

value-cleared : (t : EventOperator) → value (cleared t) ≡ false
unfolding value
value-cleared (gate g v l r) = refl
value-cleared (event_match name oenv v e) = refl

update-cleared :
    (g : Gate) (v : Bool) (l r : EventOperator)
    → event_operator_update (gate g v (cleared l) (cleared r))
      ≡ gate g false (cleared l) (cleared r)
unfolding event_operator_update
update-cleared event_or v l r = rw (value-cleared l, value-cleared r) refl
update-cleared event_and v l r = rw (value-cleared l) refl

-- Every reference of the tree is one of the blocks that its event counts.
abbrev pub IsBlocked : EventOperator → Store → Type 0
IsBlocked t st = (j : ℕ) → refs t j ≤ (st j).blockers

-- On a tree whose references all count as blocks, event_operator_reset leaves no value set and no
-- event referred to, and takes from each event as many blocks as the tree had references to it,
-- changing nothing else of any event.
pub event_operator_reset_lem :
    (t : EventOperator) (st : Store)
    → IsBlocked t st
    → (st' : Store) × (event_operator_reset t st ≡ some (cleared t, st'))
      × Untouched st st'
      × ((j : ℕ) → (st' j).blockers + refs t j ≡ (st j).blockers)
unfolding event_operator_reset
event_operator_reset_lem (gate g v l r) st b =
    let (st₁, e₁, u₁, c₁) = event_operator_reset_lem l st (λ j. omega (arith, b j)) in
    let (st₂, e₂, u₂, c₂) = event_operator_reset_lem r st₁ (λ j. omega (arith, b j, c₁ j)) in
    (
      st₂,
      rw (e₁, e₂, update-cleared g v l r) refl,
      Untouched-trans st st₁ st₂ u₁ u₂,
      λ j. omega (arith, c₁ j, c₂ j),
    )
event_operator_reset_lem (event_match name oenv v none) st b =
    (st, refl, Untouched-refl st, λ j. omega arith)
event_operator_reset_lem (event_match name oenv v (some e)) st b =
    let (st₁, e₁, u₁, c₁) = event_unblock_lem e st (ground (arith, b e)) in
    (st₁, rw e₁ refl, u₁, c₁)

-- event_operator_copy is the same tree, and blocks each event as often again as it is referred to.
pub event_operator_copy_lem :
    (t : EventOperator) (st : Store)
    → ((j : ℕ) → (st j).blockers + refs t j < 4294967296)
    → ((event_operator_copy t st).0 ≡ t)
      × Untouched st (event_operator_copy t st).1
      × ((j : ℕ) → ((event_operator_copy t st).1 j).blockers ≡ (st j).blockers + refs t j)
unfolding event_operator_copy
event_operator_copy_lem (gate g v l r) st b =
    let (e₁, u₁, c₁) = event_operator_copy_lem l st (λ j. omega (arith, b j)) in
    let st₁ = (event_operator_copy l st).1 in
    let (e₂, u₂, c₂) = event_operator_copy_lem r st₁ (λ j. omega (arith, b j, c₁ j)) in
    (
      cc (e₁, e₂),
      Untouched-trans st st₁ (event_operator_copy r st₁).1 u₁ u₂,
      λ j. omega (arith, c₁ j, c₂ j),
    )
event_operator_copy_lem (event_match name oenv v none) st b =
    (refl, Untouched-refl st, λ j. omega arith)
event_operator_copy_lem (event_match name oenv v (some e)) st b = (
  refl,
  event_block-Untouched e st,
  λ j. event_block-blockers e st j (omega (arith, b e, one_at_self e)),
)

-- Freeing a tree takes away the blocks of its references.
pub event_operator_destroy_lem :
    (t : EventOperator) (st : Store)
    → IsBlocked t st
    → (st' : Store) × (event_operator_destroy t st ≡ some st')
      × Untouched st st'
      × ((j : ℕ) → (st' j).blockers + refs t j ≡ (st j).blockers)
unfolding event_operator_destroy
event_operator_destroy_lem (gate g v l r) st b =
    let (st₁, e₁, u₁, c₁) = event_operator_destroy_lem l st (λ j. omega (arith, b j)) in
    let (st₂, e₂, u₂, c₂) = event_operator_destroy_lem r st₁ (λ j. omega (arith, b j, c₁ j)) in
    (st₂, rw (e₁, e₂) refl, Untouched-trans st st₁ st₂ u₁ u₂, λ j. omega (arith, c₁ j, c₂ j))
event_operator_destroy_lem (event_match name oenv v none) st b =
    (st, refl, Untouched-refl st, λ j. omega arith)
event_operator_destroy_lem (event_match name oenv v (some e)) st b =
    let (st₁, e₁, u₁, c₁) = event_unblock_lem e st (ground (arith, b e)) in (st₁, e₁, u₁, c₁)
