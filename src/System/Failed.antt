-- ===== src/System/Failed.antt =====
-- The events that event_finished of init/event.c queues for events that failed.
use startup.Base.{
  ℕ, ◌+◌, ◌&&◌, true, false, not, none, some, List, [], ◌∷◌, ◌++◌, ◌==◌, ==_refl, Str, codes,
  str_eq_iff, str_eq_refl, ◌≡◌, refl, ap, ◌∙◌, ◌↔◌, Bool-cases, Option-cases, some-injective, inl,
  inr,
}
use startup.Event.{event_pending, Events, event_new, store_event}
use startup.System.{from_last_slash, is_failed_name, queue_failed}

from_last_slash-append : (p : Str) → from_last_slash (p ++ codes "/failed") ≡ some (codes "/failed")
unfolding from_last_slash
from_last_slash-append [] = refl
from_last_slash-append (c ∷ p) = rw (from_last_slash-append p) refl

from_last_slash_lem :
    (name rest : Str) → from_last_slash name ≡ some rest → (p : Str) × (name ≡ p ++ rest)
unfolding from_last_slash
from_last_slash_lem [] rest h = cc
from_last_slash_lem (c ∷ name) rest h = elim (Option-cases (from_last_slash name)) [
  | inr (r, e) ↦
      let (p, q) = from_last_slash_lem name r e in
      (
        c ∷ p,
        ap (λ (x : Str). c ∷ x) q
            ∙ ap (λ (x : Str). c ∷ (p ++ x)) (some-injective r rest (rw e at h)),
      )
  | inl e ↦ elim (Bool-cases (c == b'/')) [
    | inl y ↦ ([], some-injective (c ∷ name) rest (rw (e, y) at h))
    | inr n ↦ cc (rw (e, n) at h)
  ]
]

is_failed_name_ends :
    (name : Str) → is_failed_name name ≡ true → (p : Str) × (name ≡ p ++ codes "/failed")
unfolding is_failed_name
is_failed_name_ends name h = elim (Option-cases (from_last_slash name)) [
  | inl e ↦ cc (rw (e, is_failed_name) at h)
  | inr (r, e) ↦
      let (p, q) = from_last_slash_lem name r e in
      (
        p,
        q
            ∙ ap (λ (x : Str). p ++ x)
                ((str_eq_iff r (codes "/failed")).0 (rw (e, is_failed_name) at h)),
      )
]

is_failed_name-append : (p : Str) → is_failed_name (p ++ codes "/failed") ≡ true
unfolding is_failed_name
is_failed_name-append p =
    rw (is_failed_name, from_last_slash-append p) (str_eq_refl (codes "/failed"))

-- The event for a failure is recognised by the end of its name, whatever other slashes it has: a
-- name passes exactly if it is one followed by "/failed".
pub is_failed_name_iff :
    (name : Str) → (is_failed_name name ≡ true) ↔ ((p : Str) × (name ≡ p ++ codes "/failed"))
is_failed_name_iff name = (is_failed_name_ends name, λ (p, q). rw q (is_failed_name-append p))

-- The list of events with one more, for a failure of an event with this name.
abbrev with_failed : Str → List Str → Events → Events
with_failed name env events = record {
  store =
      store_event events.fresh
        (record {
          name = name ++ codes "/failed";
          env = env;
          fd = none;
          progress = event_pending;
          failed = false;
          blockers = 0;
          blocking = [];
        })
        events.store;
  events = events.events ++ events.fresh ∷ [];
  fresh = events.fresh + 1;
}

event_new_failed :
    (name : Str) (env : List Str) (events : Events)
    → event_new (name ++ codes "/failed") env events
      ≡ some (events.fresh, with_failed name env events)
unfolding event_new
event_new_failed [] env events = refl
event_new_failed (c ∷ name) env events = refl

queue_failed_ends :
    (i : ℕ) (events : Events) (p : Str)
    → (events.store i).name ≡ p ++ codes "/failed"
    → queue_failed i events ≡ some events
unfolding queue_failed
queue_failed_ends i events p e =
    let ends : is_failed_name (events.store i).name ≡ true = rw e (is_failed_name-append p) in
    elim (Bool-cases (events.store i).failed) [ inl y ↦ rw (y, ends) refl | inr f ↦ rw f refl ]

-- When an event that failed is finished, and is not itself the event for a failure, one more event
-- is queued last, pending and with its environment, named after it with "/failed"; and whenever that
-- event finishes, failed or not, it queues no other.
pub queue_failed-once :
    (i : ℕ) (events : Events)
    → (events.store i).failed ≡ true
    → is_failed_name (events.store i).name ≡ false
    → (queued : Events) × (queue_failed i events ≡ some queued)
      × (queued.events ≡ events.events ++ events.fresh ∷ [])
      × ((queued.store events.fresh).name ≡ (events.store i).name ++ codes "/failed")
      × ((queued.store events.fresh).env ≡ (events.store i).env)
      × ((queued.store events.fresh).progress ≡ event_pending)
      × ((later : Events)
          → (later.store events.fresh).name ≡ (queued.store events.fresh).name
          → queue_failed events.fresh later ≡ some later)
unfolding queue_failed
queue_failed-once i events f n =
    let name = (events.store i).name in
    let env = (events.store i).env in
    let queued = with_failed name env events in
    (
      queued,
      rw (f, n, event_new_failed name env events) refl,
      refl,
      rw (==_refl events.fresh) refl,
      rw (==_refl events.fresh) refl,
      rw (==_refl events.fresh) refl,
      λ later e. queue_failed_ends events.fresh later name (e ∙ rw (==_refl events.fresh) refl),
    )

pub queue_failed_total :
    (i : ℕ) (events : Events) → (queued : Events) × (queue_failed i events ≡ some queued)
unfolding queue_failed
queue_failed_total i events =
    elim (Bool-cases ((events.store i).failed && not (is_failed_name (events.store i).name))) [
      | inl y ↦
          let event = events.store i in
          (
            with_failed event.name event.env events,
            rw (y, event_new_failed event.name event.env events) refl,
          )
      | inr n ↦ (events, rw n refl)
    ]
