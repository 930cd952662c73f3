-- ===== src/Quiesce/Tests.antt =====
-- The deadline of a shutdown for a session with a job that does not end.
use startup.Base.{ℕ, ◌≤◌, true, false, none, List, [], ◌∷◌, ◌≡◌, refl, arith}
use startup.Quiesce.{
  requester_invalid, requester_session, not_quiesced, Quiesce, Look, max_from,
  job_class_max_kill_timeout, quiesce, ticks,
}
use startup.Quiesce.Deadline.{AreBounded, Exits, quiesce-Exits}

abbrev at : ℕ → Look
at now = record { now = now; timeouts = 2 ∷ []; running = true; running_after = true }

abbrev looks : List Look
looks =
    at 101
    ∷ at 102
    ∷ at 103
    ∷ at 104
    ∷ at 105
    ∷ at 106
    ∷ at 107
    ∷ at 108
    ∷ at 109
    ∷ at 110
    ∷ at 111
    ∷ []

abbrev idle : Quiesce
idle = record {
  requester = requester_invalid;
  phase = not_quiesced;
  phase_time = 0;
  start_time = 0;
  max_kill_timeout = 0;
  session_end_jobs = false;
  disable_respawn = false;
  timer = false;
  session_end = none;
  stops = 0;
  exiting = false;
}

longest : job_class_max_kill_timeout (2 ∷ []) ≡ 5
unfolding job_class_max_kill_timeout max_from
longest = refl

bounded : AreBounded 5 (at 100 ∷ looks)
bounded = (b, (b, (b, (b, (b, (b, (b, (b, (b, (b, (b, (b, tt))))))))))))
  where
    b : job_class_max_kill_timeout (2 ∷ []) ≤ 5
    b = omega (arith, longest)

quiesce-Exits_example : Exits (ticks looks (quiesce requester_session true (at 100) idle))
quiesce-Exits_example =
    quiesce-Exits requester_session true 5 (at 100) looks idle refl refl refl
      (refl, (refl, (refl, (refl, (refl, (refl, (refl, (refl, (refl, (refl, (refl, tt)))))))))))
      bounded (omega arith)
