-- ===== src/Jobs/Progress.antt =====
-- Every job can come to its end.
use ketebe_oss.Base.{ℕ, ◌≡◌, refl, subst, true, false, Bool-cases, inl, inr, [], ◌∷◌, arith}
use ketebe_oss.Jobs.Records.{
  JobRecord, JobFailure, Outcome, migrated, operated, queued, completed, cancelled, failed,
  is_queued, is_cancelled, is_terminal, cancel_update, running_update, completed_update,
  failed_update, touch,
}
use ketebe_oss.Jobs.Steps.{
  System, Task, Counters, waiting, admitted, starting, working, ended, looked, failing,
  failing_after, ◌⟶◌, ◌⟶*◌, stay, then_step, finds_cancelled, is_refused, advance, with_calls,
  asked, flagged, submitted, admit, refuse, look, go_on, give_up, leave, start, complete,
  fail_reads, fail_writes, cancel_reads, cancel_flags, cancel_writes,
}
use ketebe_oss.Jobs.Invariant.{Fits, runs-Fits}

first_step : {s t u : System} → s ⟶ t → t ⟶* u → s ⟶* u
first_step step (stay t) = then_step (stay _) step
first_step step (then_step run last) = then_step (first_step step run) last

-- A run to the end of the task.
abbrev Ends : System → Type 0
Ends s = (t : System) × (s ⟶* t) × (t.task ≡ ended)

onward : {s t : System} → s ⟶ t → Ends t → Ends s
onward step (u, run, over) = (u, first_step step run, over)

-- For a task that has not failed.
abbrev no_failure : JobFailure
no_failure = record { code = ""; reason = "" }

module _ (e : JobFailure) (result : Outcome) (now : ℕ) where
  failing_after-Ends : (s : System) → s.task ≡ failing_after e → Ends s
  failing_after-Ends s place = onward (fail_writes s e now place) (_, stay _, refl)

  failing-Ends : (s : System) → s.task ≡ failing e → Ends s
  failing-Ends s place = onward (fail_reads s e place) (failing_after-Ends _ refl)

  working-Ends : (s : System) → s.task ≡ working → Ends s
  working-Ends s place = onward (complete s result now place) (_, stay _, refl)

  starting-Ends : (s : System) → s.task ≡ starting → Ends s
  starting-Ends s place = onward (start s now place) (working-Ends _ refl)

  looked-Ends : (s : System) (current : JobRecord) → s.task ≡ looked current → Ends s
  looked-Ends s current place = elim (Bool-cases (finds_cancelled s current)) [
    | inr clear ↦ onward (go_on s current place clear) (starting-Ends _ refl)
    | inl found ↦ elim (Bool-cases (is_queued current.state)) [
      | inl was ↦ onward (give_up s current now place found was) (_, stay _, refl)
      | inr was_not ↦ onward (leave s current place found was_not) (_, stay _, refl)
    ]
  ]

  admitted-Ends : (s : System) → s.task ≡ admitted → Ends s
  admitted-Ends s place = onward (look s place) (looked-Ends _ s.job refl)

task-Ends : (result : Outcome) (now : ℕ) (s : System) (task : Task) → s.task ≡ task → Ends s
task-Ends result now s waiting place =
    onward (admit s place) (admitted-Ends no_failure result now _ refl)
task-Ends result now s admitted place = admitted-Ends no_failure result now s place
task-Ends result now s (looked c) place = looked-Ends no_failure result now s c place
task-Ends result now s starting place = starting-Ends no_failure result now s place
task-Ends result now s working place = working-Ends no_failure result now s place
task-Ends result now s (failing e) place = failing-Ends e result now s place
task-Ends result now s (failing_after e) place = failing_after-Ends e result now s place
task-Ends result now s ended place = (s, stay s, place)

-- No job is stuck: from every state in which the job and its task fit each other, with whatever
-- outcome of the work and at whatever time, some run leads to a task that is over and to a job that is
-- completed, failed or cancelled.
pub runs-terminal :
    (result : Outcome) (now : ℕ) (s : System)
    → Fits s.task s.job.state
    → (t : System) × (s ⟶* t) × (t.task ≡ ended) × (is_terminal t.job.state ≡ true)
runs-terminal result now s h =
    let (t, run, over) = task-Ends result now s s.task refl in
    (t, run, over, subst (λ task. Fits task t.job.state) over (runs-Fits run h))

-- Every queued job has a run in which a call of `cancel` answers that the job is cancelled, and in
-- which its task, which had read the job before, then runs and completes it.
pub cancelled_job_completes :
    (job : JobRecord) (c : Counters) (result : Outcome) (now : ℕ)
    → job.state ≡ queued
    → (s : System) × (t : System) × (submitted job c ⟶* s)
      × (s ⟶* t)
      × (s.answers ≡ touch now (cancel_update job) ∷ [])
      × ((cancel_update job).state ≡ cancelled)
      × (t.job.state ≡ completed)
unfolding cancel_update running_update completed_update
cancelled_job_completes job c result now h =
    let clear : is_cancelled job.state ≡ false = ground (arith, h) in
    let going_on : is_refused job ≡ false = ground (arith, h) in
    let was = is_queued job.state in
    let s0 = submitted job c in
    let s1 = advance s0 job admitted s0.counters in
    let s2 = advance s1 job (looked job) s1.counters in
    let s3 = advance s2 job starting s2.counters in
    let s4 = with_calls s3 job false (asked was ∷ []) [] s3.counters in
    let s5 = with_calls s4 job true (flagged was ∷ []) [] s4.counters in
    let read = then_step (then_step (stay s0) (admit s0 refl)) (look s1 refl) in
    let asked_run =
      then_step (then_step read (go_on s2 job refl clear)) (cancel_reads s3 going_on) in
    let flagged_run = then_step asked_run (cancel_flags s4 [] [] was refl) in
    let answered = then_step flagged_run (cancel_writes s5 [] [] was now refl) in
    let started_run = then_step (stay _) (start _ now refl) in
    (
      _,
      _,
      answered,
      then_step started_run (complete _ result now refl),
      refl,
      ground (arith, h),
      completes (touch now (running_update (touch now (cancel_update job)))) result,
    )
  where
    completes :
        (job : JobRecord) (result : Outcome) → (completed_update result job).state ≡ completed
    completes job (migrated records all) = refl
    completes job (operated r) = refl

pub cancelled_job_fails :
    (job : JobRecord) (c : Counters) (e : JobFailure) (now : ℕ)
    → job.state ≡ queued
    → (s : System) × (t : System) × (submitted job c ⟶* s)
      × (s ⟶* t)
      × (s.answers ≡ touch now (cancel_update job) ∷ [])
      × ((cancel_update job).state ≡ cancelled)
      × (t.job.state ≡ failed)
unfolding cancel_update failed_update
cancelled_job_fails job c e now h =
    let going_on : is_refused job ≡ false = ground (arith, h) in
    let was = is_queued job.state in
    let s0 = submitted job c in
    let s1 = with_calls s0 job false (asked was ∷ []) [] s0.counters in
    let s2 = with_calls s1 job true (flagged was ∷ []) [] s1.counters in
    let asked_run = then_step (stay s0) (cancel_reads s0 going_on) in
    let flagged_run = then_step asked_run (cancel_flags s1 [] [] was refl) in
    let answered = then_step flagged_run (cancel_writes s2 [] [] was now refl) in
    let refused_run = then_step (stay _) (refuse _ e refl) in
    let failing_run = then_step refused_run (fail_reads _ e refl) in
    (
      _,
      _,
      answered,
      then_step failing_run (fail_writes _ e now refl),
      refl,
      ground (arith, h),
      refl,
    )
