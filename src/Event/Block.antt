-- ===== src/Event/Block.antt =====
-- Counting blocks on events.
use startup.Base.{
  ℕ, ◌+◌, ◌-◌, ◌<◌, some, ◌==◌, if◌then◌else◌, ◌≡◌, refl, arith, ==_refl, ==_iff, Bool-cases, inl,
  inr, ap, ◌∙◌,
}
use startup.Event.{Event, Store, store_event, event_block, event_unblock}

-- The changes that blocking and unblocking make, for every event: nothing but the counter.
abbrev pub Untouched : Store → Store → Type 0
Untouched st st' = (j : ℕ) → st' j ≡ record (st j) { blockers = (st' j).blockers }

pub Untouched-refl : (st : Store) → Untouched st st
Untouched-refl st j = refl

pub Untouched-trans : (st su sv : Store) → Untouched st su → Untouched su sv → Untouched st sv
Untouched-trans st su sv h k j =
    k j ∙ ap {B = Event} (λ (e : Event). record e { blockers = (sv j).blockers }) (h j)

pub event_block-Untouched : (i : ℕ) (st : Store) → Untouched st (event_block i st)
unfolding event_block
event_block-Untouched i st j = ground (arith, ==_iff i j)

abbrev pub one_at : ℕ → ℕ → ℕ
one_at i j = if i == j then 1 else 0

pub one_at_self : (i : ℕ) → one_at i i ≡ 1
one_at_self i = ground (arith, ==_refl i)

pub event_block-blockers :
    (i : ℕ) (st : Store) (j : ℕ)
    → (st i).blockers + 1 < 4294967296
    → (event_block i st j).blockers ≡ (st j).blockers + one_at i j
unfolding event_block
event_block-blockers i st j h = elim (Bool-cases (i == j)) [
  | inl y ↦ rw y (omega (arith, ap (λ (k : ℕ). (st k).blockers) ((==_iff i j).0 y)))
  | inr f ↦ rw f (omega arith)
]

-- An unblock succeeds on an event that something blocks, and lowers its counter by one.
pub event_unblock_lem :
    (i : ℕ) (st : Store)
    → 0 < (st i).blockers
    → (st' : Store) × (event_unblock i st ≡ some st')
      × Untouched st st'
      × ((j : ℕ) → (st' j).blockers + one_at i j ≡ (st j).blockers)
unfolding event_unblock
event_unblock_lem i st h = (
  store_event i (record (st i) { blockers = (st i).blockers - 1 }) st,
  ground arith,
  λ j. ground (arith, ==_iff i j),
  λ j. ground (arith, ==_iff i j),
)

-- `n` blocks on the event at `i`, seen at `j`.
pub times_at : ℕ → ℕ → ℕ → ℕ
times_at i j n = if i == j then n else 0

pub times_at-zero : (i j : ℕ) → times_at i j 0 ≡ 0
unfolding times_at
times_at-zero i j = ground arith

pub times_at-one : (i j : ℕ) → times_at i j 1 ≡ one_at i j
unfolding times_at
times_at-one i j = refl

pub times_at-add : (i j m n : ℕ) → times_at i j (m + n) ≡ times_at i j m + times_at i j n
unfolding times_at
times_at-add i j m n = ground arith

pub times_at_self : (i n : ℕ) → times_at i i n ≡ n
unfolding times_at
times_at_self i n = ground (arith, ==_refl i)
