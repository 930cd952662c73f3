-- ===== src/Process/Traced.antt =====
-- How the ptrace events of a service that forks into the background move its job on.
use startup.Base.{ℕ, ◌+◌, true, false, none, some, ◌≡◌, refl, subst}
use startup.Job.Emit.{Surroundings}
use startup.Job.Errors.{advance}
use startup.Job.{
  job_start, job_spawned, ProcessType, process_main, expect_daemon, expect_fork, TraceState,
  trace_none, trace_new, trace_normal, JobClass, World, Run, done, ◌>>=◌, emit_output,
  ptrace_continue, ptrace_detach,
}
use startup.Job.State.{either, next_of, job_next_state}
use startup.Job.State.Loop.{Settles}
use startup.Job.State.Start.Late.{rest_post_start, to_post_starting}
use startup.Process.{Moment}
use startup.Process.Handler.{
  Ptrace, child_trapped, child_ptrace, followed_traced, set_trace, job_process_trace_new, last_fork,
  job_process_trace_new_child, follow_child, job_process_trace_fork, trapped, syscall,
  job_process_handler,
}

-- ptrace when the new child has not stopped yet.
abbrev pub not_stopped_yet : Ptrace → Ptrace
not_stopped_yet ptrace = record ptrace { set_options = λ pid. false }

module _ (s : Surroundings) (class : JobClass) (self : ℕ) (ptrace : Ptrace) where
  -- The notice of a fork may come before the new child has stopped or after: what the job comes to is
  -- the same, whether the options can be set at once or the stop of the child is reported later. It
  -- holds for a job that is followed, where ptrace names the child and takes its options once the
  -- child has stopped.
  pub job_process_trace_fork-later :
      (p : ProcessType) (child : ℕ) (moment : Moment) (w : World)
      → followed_traced p w.job ≡ true
      → ptrace.event_message (w.job.pid p) ≡ some child
      → ptrace.set_options child ≡ true
      → job_process_handler s class self ptrace p child_ptrace 1 moment w ≡ (
          job_process_handler s class self (not_stopped_yet ptrace) p child_ptrace 1 moment w
          >>= λ w'. job_process_handler s class self ptrace p child_trapped 19 moment w')
  unfolding job_process_handler syscall trapped job_process_trace_fork
  job_process_trace_fork-later p child moment w f m o = rw (f, m, o) refl

  -- A job as it is while its main process is traced.
  abbrev traced_with : TraceState → ℕ → World → World
  traced_with t forks w = record w {
    job = record (w.job) {
      state = job_spawned;
      goal = job_start;
      blocker = none;
      trace_state = t;
      trace_forks = forks;
    };
  }

  forked_last :
      (child forks : ℕ) (moment : Moment) (w : World)
      → ptrace.event_message (w.job.pid process_main) ≡ some child
      → ptrace.set_options child ≡ true
      → last_fork s class self ptrace (forks + 1) ≡ true
      → Settles w
      → (w' : World) × (job_process_handler s class self ptrace process_main child_ptrace 1 moment
            (traced_with trace_normal forks w)
          ≡ done w')
        × (w'.job.state ≡ rest_post_start s class self)
        × (w'.job.goal ≡ job_start)
        × (w'.freed ≡ w.freed)
  unfolding job_process_handler syscall job_process_trace_fork job_process_trace_new_child advance
      job_next_state next_of either
  forked_last child forks moment w m o l h =
      let followed =
        follow_child s class self ptrace process_main child (traced_with trace_normal forks w) in
      let counted = record followed { job = record (followed.job) { trace_forks = forks + 1 } } in
      let detached = emit_output (ptrace_detach child) (set_trace trace_none counted) in
      let (w', e, st, g, fr) = to_post_starting s class self 16 detached h in
      (w', rw (m, o, l) e, st, g, fr)

  -- Followed to the child, with the fork counted.
  abbrev after_fork : ℕ → ℕ → World → World
  after_fork child forks w =
      let followed =
        follow_child s class self ptrace process_main child (traced_with trace_normal forks w) in
      let counted = record followed { job = record (followed.job) { trace_forks = forks + 1 } } in
      emit_output (ptrace_continue child 0) (set_trace trace_normal counted)

  forked_more :
      (child forks : ℕ) (moment : Moment) (w : World)
      → ptrace.event_message (w.job.pid process_main) ≡ some child
      → ptrace.set_options child ≡ true
      → last_fork s class self ptrace (forks + 1) ≡ false
      → job_process_handler s class self ptrace process_main child_ptrace 1 moment
          (traced_with trace_normal forks w)
        ≡ done (after_fork child forks w)
  unfolding job_process_handler syscall job_process_trace_fork job_process_trace_new_child
      job_process_trace_new
  forked_more child forks moment w m o l = rw (m, o, l) refl

  abbrev first_stop : World → World
  first_stop w =
      emit_output (ptrace_continue (w.job.pid process_main) 0) (traced_with trace_normal 0 w)

  trapped_first :
      (moment : Moment) (w : World)
      → ptrace.set_options (w.job.pid process_main) ≡ true
      → job_process_handler s class self ptrace process_main child_trapped 5 moment
          (traced_with trace_new 0 w)
        ≡ done (first_stop w)
  unfolding job_process_handler trapped job_process_trace_new
  trapped_first moment w o = rw o refl

  is_traced_with :
      (w : World)
      → w.job.state ≡ job_spawned
      → w.job.goal ≡ job_start
      → w.job.blocker ≡ none
      → w.job.trace_state ≡ trace_new
      → w.job.trace_forks ≡ 0
      → traced_with trace_new 0 w ≡ w
  is_traced_with w st g b t f = rw (st, g, b, t, f) refl

  abbrev pub fork_notice : Moment → World → Run World
  fork_notice moment w =
      job_process_handler s class self ptrace process_main child_ptrace 1 moment w

  abbrev pub first_trap : Moment → World → Run World
  first_trap moment w =
      job_process_handler s class self ptrace process_main child_trapped 5 moment w

  -- The main process of a class that expects a daemon has started when it forks for the second time:
  -- after the trap of its first exec and one fork, the job is still spawned and its main process is
  -- the child; the next fork takes it past spawned. It holds from a spawned job that is to run and
  -- whose trace is new, that no event blocks, where whatever waits for it can be released, and where
  -- ptrace takes the options of the three processes.
  pub job_process_handler-daemon :
      (child grandchild : ℕ) (moment : Moment) (w : World)
      → class.expect ≡ expect_daemon
      → w.job.state ≡ job_spawned
      → w.job.goal ≡ job_start
      → w.job.blocker ≡ none
      → w.job.trace_state ≡ trace_new
      → w.job.trace_forks ≡ 0
      → ptrace.set_options (w.job.pid process_main) ≡ true
      → ptrace.event_message (w.job.pid process_main) ≡ some child
      → ptrace.set_options child ≡ true
      → ptrace.event_message child ≡ some grandchild
      → ptrace.set_options grandchild ≡ true
      → Settles w
      → (w₁ : World) × ((first_trap moment w >>= fork_notice moment) ≡ done w₁)
        × (w₁.job.state ≡ job_spawned)
        × (w₁.job.pid process_main ≡ child)
        × (w₂ : World) × (fork_notice moment w₁ ≡ done w₂)
        × (w₂.job.state ≡ rest_post_start s class self)
        × (w₂.job.goal ≡ job_start)
        × (w₂.freed ≡ w.freed)
  job_process_handler-daemon child grandchild moment w d st g b t f o₀ m₁ o₁ m₂ o₂ h =
      let w₁ = after_fork child 0 (first_stop w) in
      let (w₂, e, st₂, g₂, fr₂) = forked_last grandchild 1 moment w₁ m₂ o₂ refl h in
      (
        w₁,
        subst (λ v. (first_trap moment v >>= fork_notice moment) ≡ done w₁)
            (is_traced_with w st g b t f)
            (rw (trapped_first moment w o₀)
              (forked_more child 0 moment (first_stop w) m₁ o₁ (rw d refl))),
        refl,
        refl,
        w₂,
        e,
        st₂,
        g₂,
        fr₂,
      )

  -- The main process of a class that expects a fork has started when it forks for the first time. It
  -- holds from a spawned job that is to run and whose trace is new, that no event blocks, where
  -- whatever waits for it can be released, and where ptrace takes the options of both processes.
  pub job_process_handler-fork :
      (child : ℕ) (moment : Moment) (w : World)
      → class.expect ≡ expect_fork
      → w.job.state ≡ job_spawned
      → w.job.goal ≡ job_start
      → w.job.blocker ≡ none
      → w.job.trace_state ≡ trace_new
      → w.job.trace_forks ≡ 0
      → ptrace.set_options (w.job.pid process_main) ≡ true
      → ptrace.event_message (w.job.pid process_main) ≡ some child
      → ptrace.set_options child ≡ true
      → Settles w
      → (w' : World) × ((first_trap moment w >>= fork_notice moment) ≡ done w')
        × (w'.job.state ≡ rest_post_start s class self)
        × (w'.job.goal ≡ job_start)
        × (w'.freed ≡ w.freed)
  job_process_handler-fork child moment w x st g b t f o₀ m₁ o₁ h =
      let (w', e, st', g', fr) = forked_last child 0 moment (first_stop w) m₁ o₁ (rw x refl) h in
      (
        w',
        subst (λ v. (first_trap moment v >>= fork_notice moment) ≡ done w')
            (is_traced_with w st g b t f) (rw (trapped_first moment w o₀) e),
        st',
        g',
        fr,
      )
