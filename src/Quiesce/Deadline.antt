-- ===== src/Quiesce/Deadline.antt =====
-- When the timer of init/quiesce.c ends the shutdown of a session.
use startup.Base.{
  ℕ, ◌+◌, ◌-◌, ◌≤◌, Bool, true, false, not, some, List, [], ◌∷◌, ◌++◌, codes, length, ◌==◌, ◌&&◌,
  ◌||◌, ltb, if◌then◌else◌, ◌≡◌, refl, ap, ◌∙◌, arith, Bool-cases, inl, inr,
}
use startup.Job.{Run, done}
use startup.Quiesce.{
  QuiesceRequester, requester_invalid, requester_system, requester_session, reason, QuiescePhase,
  not_quiesced, phase_wait, phase_kill, phase_cleanup, Quiesce, Look, max_from,
  job_class_max_kill_timeout, quiesce_finalise, quiesce_complete, first_phase, begin_kill,
  first_steps, quiesce, leave, wait_over, in_phase, is_valid, quiesce_wait_callback, ticks,
}

-- The calls come every second after `now`.
abbrev pub EverySecond : ℕ → List Look → Type 0
EverySecond now [] = Unit {0}
EverySecond now (look ∷ looks) = (look.now ≡ now + 1) × EverySecond look.now looks

-- No class has a longer kill timeout.
abbrev pub AreBounded : ℕ → List Look → Type 0
AreBounded k [] = Unit {0}
AreBounded k (look ∷ looks) = (job_class_max_kill_timeout look.timeouts ≤ k) × AreBounded k looks

-- The calls return, and the main loop is left.
abbrev pub Exits : Run Quiesce → Type 0
Exits r = (q : Quiesce) × (r ≡ done q) × (q.exiting ≡ true) × (q.phase ≡ phase_cleanup)

max_from_bound : (t : ℕ) (timeouts : List ℕ) → t ≤ max_from t timeouts
unfolding max_from
max_from_bound t [] = omega arith
max_from_bound t (u ∷ timeouts) = elim (Bool-cases (ltb t u)) [
  | inl y ↦
      let up = max_from_bound u timeouts in
      let less : t ≤ u = ground (arith, y) in rw y (omega (arith, up, less))
  | inr n ↦ rw n (max_from_bound t timeouts)
]

ticks_left : (looks : List Look) (q : Quiesce) → q.timer ≡ false → ticks looks q ≡ done q
unfolding ticks
ticks_left [] q e = refl
ticks_left (look ∷ looks) q e = rw e refl

-- A quiesce under way in this phase, with a timer.
abbrev IsUnderWay : QuiescePhase → Quiesce → Type 0
IsUnderWay phase q =
    (q.timer ≡ true)
    × (q.phase ≡ phase)
    × ((q.phase_time == 0) ≡ false)
    × (is_valid q.requester ≡ true)
    × ((q.start_time == 0) ≡ false)

callback_step :
    (look : Look) (q : Quiesce) (phase : QuiescePhase) (next : Quiesce)
    → IsUnderWay phase q
    → in_phase phase look q ≡ done next
    → quiesce_wait_callback look q ≡ done next
unfolding quiesce_wait_callback
callback_step look q phase next (t, p, n, v, st) e =
    let guard : (q.timer && not (q.phase_time == 0) && is_valid q.requester) ≡ true =
      ground (arith, t, n, v) in
    let step : in_phase q.phase look q ≡ done next =
      ap (λ (ph : QuiescePhase). in_phase ph look q) p ∙ e in
    rw guard step

ticks_step :
    (look : Look) (looks : List Look) (q : Quiesce) (phase : QuiescePhase) (next : Quiesce)
    → IsUnderWay phase q
    → in_phase phase look q ≡ done next
    → ticks (look ∷ looks) q ≡ ticks looks next
unfolding ticks
ticks_step look looks q phase next u e =
    let timer = u.0 in rw (callback_step look q phase next u e, timer) refl

-- A quiesce that has ended.
abbrev left : Quiesce → Quiesce
left q = record q { phase = phase_cleanup; exiting = true; timer = false }

leave_lem : (q : Quiesce) → (q.start_time == 0) ≡ false → leave q ≡ done (left q)
unfolding leave quiesce_complete quiesce_finalise
leave_lem q n = elim (Bool-cases q.exiting) [ inl y ↦ rw (n, y) refl | inr f ↦ rw (n, f) refl ]

leaves :
    (look : Look) (looks : List Look) (q : Quiesce) (phase : QuiescePhase) (q' : Quiesce)
    → IsUnderWay phase q
    → (q'.start_time == 0) ≡ false
    → in_phase phase look q ≡ leave q'
    → Exits (ticks (look ∷ looks) q)
leaves look looks q phase q' u n e = (
  left q',
  ticks_step look looks q phase (left q') u (e ∙ leave_lem q' n) ∙ ticks_left looks (left q') refl,
  refl,
  refl,
)

kill_leaves :
    (look : Look) (q : Quiesce)
    → (q.max_kill_timeout == 0) ≡ false
    → (ltb q.max_kill_timeout (look.now - q.phase_time) || not look.running) ≡ true
    → in_phase phase_kill look q ≡ leave q
unfolding in_phase
kill_leaves look q m h = elim (Bool-cases (ltb q.max_kill_timeout (look.now - q.phase_time))) [
  | inl late ↦ rw (m, late) refl
  | inr early ↦
      let ended : look.running ≡ false = ground (arith, h, early) in rw (m, early, ended) refl
]

kill_waits :
    (look : Look) (q : Quiesce)
    → (q.max_kill_timeout == 0) ≡ false
    → (ltb q.max_kill_timeout (look.now - q.phase_time) || not look.running) ≡ false
    → in_phase phase_kill look q ≡ done q
unfolding in_phase
kill_waits look q m h =
    let early : ltb q.max_kill_timeout (look.now - q.phase_time) ≡ false = ground (arith, h) in
    let runs : look.running ≡ true = ground (arith, h) in rw (m, early, runs) refl

kill-Exits :
    (looks : List Look) (q : Quiesce) (now : ℕ)
    → IsUnderWay phase_kill q
    → (q.max_kill_timeout == 0) ≡ false
    → EverySecond now looks
    → now ≤ q.phase_time + q.max_kill_timeout
    → q.phase_time + q.max_kill_timeout + 1 ≤ now + length looks
    → Exits (ticks looks q)
kill-Exits [] q now u m c within enough = absurd (omega arith)
kill-Exits (look ∷ looks) q now u m (e, c) within enough =
    elim (Bool-cases (ltb q.max_kill_timeout (look.now - q.phase_time) || not look.running)) [
      | inl over ↦ leaves look looks q phase_kill q u u.4 (kill_leaves look q m over)
      | inr going ↦
          let early : look.now - q.phase_time ≤ q.max_kill_timeout = ground (arith, going) in
          let (q', r, x, p) = kill-Exits looks q look.now u m c (omega arith) (omega arith) in
          (q', ticks_step look looks q phase_kill q u (kill_waits look q m going) ∙ r, x, p)
    ]

max_kill_timeout_nonzero : (timeouts : List ℕ) → (job_class_max_kill_timeout timeouts == 0) ≡ false
unfolding job_class_max_kill_timeout
max_kill_timeout_nonzero timeouts = ground (arith, max_from_bound 5 timeouts)

-- The phase of killing as the callback begins it.
abbrev killing : Look → Quiesce → Quiesce
killing look q = begin_kill look (record q { phase_time = look.now })

wait_ends :
    (look : Look) (q : Quiesce)
    → wait_over look q ≡ true
    → in_phase phase_wait look q
      ≡ (if look.running_after then done (killing look q) else leave (killing look q))
unfolding in_phase
wait_ends look q h = rw h refl

still_running : (look : Look) (q : Quiesce) → wait_over look q ≡ false → look.running ≡ true
unfolding wait_over
still_running look q h = ground (arith, h)

still_early : (look : Look) (q : Quiesce) → wait_over look q ≡ false → look.now ≤ q.phase_time + 4
unfolding wait_over
still_early look q h = ground (arith, h)

wait_waits :
    (look : Look) (q : Quiesce) → wait_over look q ≡ false → in_phase phase_wait look q ≡ done q
unfolding in_phase
wait_waits look q h = let runs = still_running look q h in rw (h, runs) refl

killing-Exits :
    (k : ℕ) (look : Look) (looks : List Look) (q : Quiesce)
    → IsUnderWay phase_wait q
    → (look.now == 0) ≡ false
    → wait_over look q ≡ true
    → EverySecond look.now looks
    → job_class_max_kill_timeout look.timeouts ≤ k
    → k + 1 ≤ length looks
    → Exits (ticks (look ∷ looks) q)
killing-Exits k look looks q u n over c bound enough = elim (Bool-cases look.running_after) [
  | inl runs ↦
      let (q', r, x, p) =
        kill-Exits looks (killing look q) look.now (u.0, refl, n, u.3, u.4)
          (max_kill_timeout_nonzero look.timeouts) c (omega arith) (omega (arith, bound)) in
      (
        q',
        ticks_step look looks q phase_wait (killing look q) u (wait_ends look q over ∙ rw runs refl)
            ∙ r,
        x,
        p,
      )
  | inr ended ↦
      leaves look looks q phase_wait (killing look q) u u.4 (wait_ends look q over ∙ rw ended refl)
]

wait-Exits :
    (k : ℕ) (looks : List Look) (q : Quiesce) (now : ℕ)
    → IsUnderWay phase_wait q
    → EverySecond now looks
    → AreBounded k looks
    → now ≤ q.phase_time + 4
    → q.phase_time + 6 + k ≤ now + length looks
    → Exits (ticks looks q)
wait-Exits k [] q now u c b within enough = absurd (omega arith)
wait-Exits k (look ∷ looks) q now u (e, c) (bound, b) within enough =
    elim (Bool-cases (wait_over look q)) [
      | inl over ↦ killing-Exits k look looks q u (ground (arith, e)) over c bound (omega arith)
      | inr going ↦
          let early : look.now ≤ q.phase_time + 4 = still_early look q going in
          let (q', r, x, p) = wait-Exits k looks q look.now u c b early (omega arith) in
          (q', ticks_step look looks q phase_wait q u (wait_waits look q going) ∙ r, x, p)
    ]

abbrev started : QuiesceRequester → Bool → Look → Quiesce → Quiesce
started requester cares look q =
    record (first_steps (first_phase requester) cares look (record q {
      requester = requester;
      phase = first_phase requester;
      start_time = look.now;
      phase_time = look.now;
      disable_respawn = true;
      session_end = some ((codes "TYPE=" ++ reason requester) ∷ []);
    })) { timer = true }

quiesce_begins :
    (requester : QuiesceRequester) (cares : Bool) (look : Look) (q : Quiesce)
    → q.phase ≡ not_quiesced
    → quiesce requester cares look q ≡ started requester cares look q
unfolding quiesce
quiesce_begins requester cares look q p = rw p refl

started-Exits :
    (requester : QuiesceRequester) (cares : Bool) (k : ℕ) (look : Look) (looks : List Look)
    (q : Quiesce)
    → is_valid requester ≡ true
    → (look.now == 0) ≡ false
    → EverySecond look.now looks
    → AreBounded k (look ∷ looks)
    → k + 6 ≤ length looks
    → Exits (ticks looks (started requester cares look q))
started-Exits requester_invalid cares k look looks q v n c b enough = cc
started-Exits requester_system cares k look looks q v n c (m, b) enough =
    kill-Exits looks (started requester_system cares look q) look.now (refl, refl, n, refl, n)
      (max_kill_timeout_nonzero look.timeouts) c (omega arith) (omega (arith, m))
started-Exits requester_session false k look looks q v n c (m, b) enough =
    kill-Exits looks (started requester_session false look q) look.now (refl, refl, n, refl, n)
      (max_kill_timeout_nonzero look.timeouts) c (omega arith) (omega (arith, m))
started-Exits requester_session true k look looks q v n c (m, b) enough =
    wait-Exits k looks (started requester_session true look q) look.now (refl, refl, n, refl, n) c b
      (omega arith) (omega arith)

-- Once a shutdown has been asked for by the system or the session, init leaves its main loop within
-- six seconds more than the longest kill timeout of any class, the default of five seconds
-- included, whatever the jobs do, and no assertion fails on the way. It holds where no shutdown is
-- under way yet, the clock does not stand at zero, and the timer is called every second.
pub quiesce-Exits :
    (requester : QuiesceRequester) (cares : Bool) (k : ℕ) (look : Look) (looks : List Look)
    (q : Quiesce)
    → q.phase ≡ not_quiesced
    → is_valid requester ≡ true
    → (look.now == 0) ≡ false
    → EverySecond look.now looks
    → AreBounded k (look ∷ looks)
    → k + 6 ≤ length looks
    → Exits (ticks looks (quiesce requester cares look q))
quiesce-Exits requester cares k look looks q p v n c b enough =
    rw (quiesce_begins requester cares look q p)
      (started-Exits requester cares k look looks q v n c b enough)
