-- ===== src/Coordinator/Ends.antt =====
-- coordinator.rs: a job that is supervised ends.
use mathlib.Core.Path.{subst}
use rowtrail.Base.{
  Bool, Bool-cases, Ensures, Ensures-ok, Ensures-weaken, List, Option, OptionAll, OptionAll-value,
  OptionAny, OptionAny-of, OptionAny-value, Result-cases, Returns, Returns-of_Ensures,
  Returns-value, ap, arith, false, find, find-modify, if◌then◌else◌, inl, inr, none, refl, some,
  true, ℕ, ◌==◌, ◌∙◌, ◌≡◌,
}
use rowtrail.Jobs.{
  ErrorCode, Job, JobSpec, JobState, Tables, budget_exhausted, cancelled, failed, interrupted,
  is_some, terminal, worker_lost,
}
use rowtrail.Jobs.Queue.{set_worker}
use rowtrail.Jobs.Publish.{Disk}
use rowtrail.Jobs.Finish.{Outcome, end_job, finish, finish_as, is_completed, or_state, stop_error}
use rowtrail.Jobs.Finish.Events.{Ended, finish_as-Ended}
use rowtrail.Jobs.Finish.Total.{finish_failed}
use rowtrail.Jobs.Shape.{IsSound}
use rowtrail.Jobs.Lifecycle.Steps.{or_state-terminal}
use rowtrail.Coordinator.{
  Exit, Signal, conclude_as, conclude_exit, failed_with, no_report, or_recover, or_same, recover_as,
  reported_as, supervise, watch,
}
use rowtrail.Coordinator.Watch.{IsReport, watch-Holds}
use rowtrail.Coordinator.Held.{
  Held, IsHeld, JobHeld, StopsEarly, cancel-Held, invalidate-Held, publish-Held, set_schema-Held,
  set_worker-Held,
}

abbrev pub HasEnded : ℕ → Tables → Type 0
HasEnded id db = OptionAny (λ job. terminal job.state ≡ true) (find id db.jobs)

Ended-HasEnded :
    (spec : JobSpec) (state : JobState) (error : Option ErrorCode) (now : ℕ) (db db' : Tables)
    (job : Job)
    → find spec.job_id db.jobs ≡ some job
    → terminal state ≡ true
    → Ended spec state error now db db'
    → HasEnded spec.job_id db'
unfolding end_job
Ended-HasEnded spec state error now db db' job found t (jobs, counted) =
    let here : (spec.job_id == spec.job_id) ≡ true = ground arith in
    let at : find spec.job_id db'.jobs ≡ some (end_job state error now job) =
      ap (find spec.job_id) jobs
      ∙ find-modify spec.job_id spec.job_id (end_job state error now) db.jobs
      ∙ rw (here, found) refl in
    OptionAny-of (λ j. terminal j.state ≡ true) (find spec.job_id db'.jobs) at t

stop-IsStop :
    (stop : Option JobState) → OptionAll StopsEarly stop → OptionAll (λ s. terminal s ≡ true) stop
stop-IsStop none h = tt
stop-IsStop (some s) h = h.0

not_completed :
    (stop : Option JobState) (state : JobState)
    → OptionAll StopsEarly stop
    → is_completed state ≡ false
    → is_completed (or_state stop state) ≡ false
not_completed none state h e = e
not_completed (some s) state h e = h.1

module _ (decode : List ℕ → Option (List ℕ)) (digest : List ℕ → ℕ) (spec : JobSpec)
    (sources : List ℕ) (kinds : ℕ → Bool)
    (kind : kinds spec.result_ref ≡ is_some spec.analysis) where
  finish-HasEnded :
      (world : Outcome) (state : JobState) (error : Option ErrorCode) (now : ℕ) (db : Tables)
      → terminal state ≡ true
      → JobHeld spec kinds db
      → Ensures (HasEnded spec.job_id) (finish world spec state error now db)
  unfolding finish
  finish-HasEnded world state error now db t held =
      let (job, found, (going, taken, stop)) =
        OptionAny-value IsHeld (find spec.job_id db.jobs) held in
      let s = or_state job.stop_requested state in
      let x = stop_error job.stop_requested error in
      rw (found, going)
        (Ensures-weaken (Ended spec s x now db) (HasEnded spec.job_id)
          (finish_as world spec s x now db)
          (λ db' e.
            Ended-HasEnded spec s x now db db' job found
              (or_state-terminal job.stop_requested state (stop-IsStop job.stop_requested stop) t)
              e)
          (finish_as-Ended world spec s x now db))

  -- A job that did not complete can be ended.
  finish-Returns :
      (world : Outcome) (state : JobState) (error : Option ErrorCode) (now : ℕ) (db : Tables)
      → terminal state ≡ true
      → is_completed state ≡ false
      → Held spec kinds db
      → Returns (HasEnded spec.job_id) (finish world spec state error now db)
  finish-Returns world state error now db t e (held, (sound, present)) =
      let (job, found, (going, taken, stop)) =
        OptionAny-value IsHeld (find spec.job_id db.jobs) held in
      let (row, read, u) = OptionAny-value (λ r. Unit) (find spec.result_ref db.results) present in
      let good : IsSound (is_some spec.analysis) row =
        subst (λ b. IsSound b row) kind
          (OptionAll-value (IsSound (kinds spec.result_ref)) (find spec.result_ref db.results)
            (sound spec.result_ref) read) in
      Returns-of_Ensures (HasEnded spec.job_id)
        (Ended spec (or_state job.stop_requested state) (stop_error job.stop_requested error) now
          db)
        (finish world spec state error now db) (finish-HasEnded world state error now db t held)
        (finish_failed world spec state error now db job row found going
          (not_completed job.stop_requested state stop e) read good)

  recover-HasEnded :
      (world : Outcome) (pipe : Bool) (now : ℕ) (db : Tables)
      → Held spec kinds db
      → HasEnded spec.job_id (recover_as decode digest spec sources world pipe now db)
  unfolding recover_as or_same terminal is_completed
  recover-HasEnded world pipe now db h =
      let state = if pipe then interrupted else failed in
      let t : terminal state ≡ true = elim (Bool-cases pipe) [
        | inl e ↦ rw e refl
        | inr e ↦ rw e refl
      ] in
      let c : is_completed state ≡ false = elim (Bool-cases pipe) [
        | inl e ↦ rw e refl
        | inr e ↦ rw e refl
      ] in
      let (db', e, k) =
        Returns-value (HasEnded spec.job_id) (finish world spec state (some worker_lost) now db)
          (finish-Returns world state (some worker_lost) now db t c h) in
      rw e k

  conclude-HasEnded :
      (world : Outcome) (state : JobState) (error : Option ErrorCode) (now : ℕ) (db : Tables)
      → terminal state ≡ true
      → Held spec kinds db
      → HasEnded spec.job_id (conclude_as decode digest spec sources world state error now db)
  unfolding conclude_as or_recover
  conclude-HasEnded world state error now db t h =
      elim (Result-cases (finish world spec state error now db)) [
        | inl (e, x) ↦ rw x (recover-HasEnded world false now db h)
        | inr (db', x) ↦ rw x (
            Ensures-ok (HasEnded spec.job_id) (finish world spec state error now db)
              (finish-HasEnded world state error now db t h.0) x)
      ]

  exit-HasEnded :
      (world : Outcome) (now : ℕ) (exit : Exit) (db : Tables)
      → IsReport exit
      → Held spec kinds db
      → HasEnded spec.job_id (conclude_exit decode digest spec sources world now (exit, db))
  unfolding conclude_exit
  exit-HasEnded world now (reported_as state error) db t h =
      conclude-HasEnded world state error now db t h
  exit-HasEnded world now no_report db t h =
      conclude-HasEnded world interrupted (some worker_lost) now db (unfold terminal in refl) h
  exit-HasEnded world now (failed_with pipe) db t h = recover-HasEnded world pipe now db h

  -- A job that a worker holds has ended when its supervision returns, whatever the worker, its pipe, the
  -- clock and cancelling clients did in between, and whether its report could be committed or not. Its
  -- result is there and all results are sound, `kinds` tells which ones a progressive aggregate writes,
  -- and no stop request is stored that asks for completion.
  pub supervise-HasEnded :
      (world : Outcome) (pid token now : ℕ) (signals : List (ℕ × Signal)) (db : Tables)
      (disk : Disk)
      → Held spec kinds db
      → HasEnded spec.job_id
          (supervise decode digest spec sources world pid token now signals db disk)
  unfolding supervise
  supervise-HasEnded world pid token now signals db disk h =
      let begun = set_worker spec.job_id pid token db in
      let (report, held) =
        watch-Holds decode digest spec sources (Held spec kinds)
          (λ schema db h. set_schema-Held spec kinds schema db h)
          (λ part db db' disk' e h.
            publish-Held spec kinds decode digest part db db' disk' kind e h)
          (λ id db h. invalidate-Held spec kinds id db h)
          (λ n db db' e h.
            cancel-Held spec kinds budget_exhausted n db db'
              (unfold terminal in refl, unfold is_completed in refl) e h)
          (λ n db db' e h.
            cancel-Held spec kinds cancelled n db db'
              (unfold terminal in refl, unfold is_completed in refl) e h)
          signals begun disk (set_worker-Held spec kinds pid token db h) in
      let left = watch decode digest spec sources signals begun disk in
      exit-HasEnded world now left.0 left.1 report held
