-- ===== src/Event/Index.antt =====
-- Positions in the list of events, by which serialised references name them.
use startup.Base.{ℕ, ◌+◌, ◌≤◌, some, List, [], ◌∷◌, map, ◌≡◌, refl, arith, str_eq}
use startup.Event.{
  index_from, event_to_index, find_from, event_from_index, EventProgress, event_pending,
  event_handling, event_finished, event_progress_enum_to_str, event_progress_str_to_enum,
}

index_from-le : (k : ℕ) (es : List ℕ) (e i : ℕ) → index_from k es e ≡ some i → k ≤ i
unfolding index_from
index_from-le k [] e i h = cc
index_from-le k (x ∷ es) e i h = ground (arith, index_from-le (k + 1) es e i)

find_from-index_from :
    (f : ℕ → ℕ) (k : ℕ) (es : List ℕ) (e i : ℕ)
    → index_from k es e ≡ some i
    → find_from k (map f es) i ≡ some (f e)
unfolding index_from find_from
find_from-index_from f k [] e i h = cc
find_from-index_from f k (x ∷ es) e i h =
    ground (arith, index_from-le (k + 1) es e i, find_from-index_from f (k + 1) es e i)

-- The index of an event finds, in a list of as many events at other addresses, the event that took
-- its place.
pub event_from_index-event_to_index :
    (f : ℕ → ℕ) (events : List ℕ) (event i : ℕ)
    → event_to_index events event ≡ some i
    → event_from_index (map f events) i ≡ some (f event)
unfolding event_to_index event_from_index
event_from_index-event_to_index f events event i h = find_from-index_from f 0 events event i h

-- The name of a progress value reads back as that value.
pub event_progress-round_trip :
    (p : EventProgress) → event_progress_str_to_enum (event_progress_enum_to_str p) ≡ some p
unfolding event_progress_enum_to_str event_progress_str_to_enum str_eq
event_progress-round_trip event_pending = refl
event_progress-round_trip event_handling = refl
event_progress-round_trip event_finished = refl
