-- ===== src/Process/Runaway.antt =====
-- The limit on respawns that catch_runaway sets, over several calls.
use startup.Base.{
  ℕ, ◌+◌, ◌-◌, ◌≤◌, ◌<◌, Bool, true, false, List, [], ◌∷◌, ◌==◌, ◌||◌, ltb, length, ◌≡◌, refl,
  arith, Bool-cases, inl, inr,
}
use startup.Job.{JobClass, Job}
use startup.Process.{catch_runaway}

-- Whether one of the calls at these times finds that the job respawns too fast.
unfoldable pub found : JobClass → List ℕ → Job → Bool
found class [] job = false
found class (now ∷ times) job =
    (catch_runaway now class job).1 || found class times (catch_runaway now class job).0

-- All the times lie within the interval from `start` on.
abbrev pub AllWithin : ℕ → ℕ → List ℕ → Type 0
AllWithin start interval [] = Unit {0}
AllWithin start interval (now ∷ times) = (now - start < interval) × AllWithin start interval times

abbrev counted : Job → Job
counted job = record job { respawn_count = job.respawn_count + 1 }

catch_runaway-early :
    (now : ℕ) (class : JobClass) (job : Job)
    → (class.respawn_limit == 0) ≡ false
    → (class.respawn_interval == 0) ≡ false
    → now - job.respawn_time < class.respawn_interval
    → catch_runaway now class job ≡ (counted job, ltb class.respawn_limit (job.respawn_count + 1))
unfolding catch_runaway
catch_runaway-early now class job l i h =
    let early : ltb (now - job.respawn_time) class.respawn_interval ≡ true = ground (arith, h) in
    rw (l, i, early) refl

catch_runaway-late :
    (now : ℕ) (class : JobClass) (job : Job)
    → (class.respawn_limit == 0) ≡ false
    → (class.respawn_interval == 0) ≡ false
    → class.respawn_interval ≤ now - job.respawn_time
    → catch_runaway now class job ≡ (record job { respawn_time = now; respawn_count = 1 }, false)
unfolding catch_runaway
catch_runaway-late now class job l i h =
    let late : ltb (now - job.respawn_time) class.respawn_interval ≡ false = ground (arith, h) in
    rw (l, i, late) refl

found-early :
    (class : JobClass) (times : List ℕ) (job : Job)
    → (class.respawn_limit == 0) ≡ false
    → (class.respawn_interval == 0) ≡ false
    → AllWithin job.respawn_time class.respawn_interval times
    → job.respawn_count ≤ class.respawn_limit
    → found class times job ≡ ltb class.respawn_limit (job.respawn_count + length times)
unfolding found
found-early class [] job l i h le = ground (arith, le)
found-early class (now ∷ times) job l i h le =
    rw (catch_runaway-early now class job l i h.0)
      (elim (Bool-cases (ltb class.respawn_limit (job.respawn_count + 1))) [
        | inl y ↦ ground (arith, y)
        | inr more ↦
            let within : job.respawn_count + 1 ≤ class.respawn_limit = ground (arith, more) in
            rw (more, found-early class times (counted job) l i h.1 within) (ground arith)
      ])

-- A service that respawns after its interval has passed, and then at further times within the
-- interval, is found to respawn too fast exactly if the respawns are more than the limit. It holds
-- where the limit and the interval are set.
pub catch_runaway-found :
    (class : JobClass) (now : ℕ) (times : List ℕ) (job : Job)
    → (class.respawn_limit == 0) ≡ false
    → (class.respawn_interval == 0) ≡ false
    → class.respawn_interval ≤ now - job.respawn_time
    → AllWithin now class.respawn_interval times
    → found class (now ∷ times) job ≡ ltb class.respawn_limit (length (now ∷ times))
unfolding found
catch_runaway-found class now times job l i late h =
    let fresh = record job { respawn_time = now; respawn_count = 1 } in
    rw
      (
        catch_runaway-late now class job l i late,
        found-early class times fresh l i h (ground (arith, l)),
      )
      (ground arith)
