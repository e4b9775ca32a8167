-- ===== src/Jobs/Invariant.antt =====
-- What the state of a job and the place of its task have to do with each other.
use ketebe_oss.Base.{◌≡◌, refl, subst, Bool, true, false, not, ◌||◌, arith}
use ketebe_oss.Jobs.Records.{
  JobState, JobRecord, migrated, operated, running, completed, failed, is_queued, is_running,
  is_cancelled, is_terminal, cancel_update, give_up_update, running_update, completed_update,
  failed_update,
}
use ketebe_oss.Jobs.Steps.{
  System, Task, waiting, admitted, starting, working, ended, looked, failing, failing_after, ◌⟶◌,
  ◌⟶*◌, stay, then_step, admit, refuse, look, go_on, give_up, leave, start, complete, work_fails,
  fail_reads, fail_writes, cancel_returns, cancel_reads, cancel_flags, cancel_writes,
}

-- A job whose task has not begun its work.
abbrev pub is_pending : JobState → Bool
is_pending state = is_queued state || is_cancelled state

-- A task before its work has a queued or cancelled job, and what it has read of it holds up to a
-- cancellation since. A task at work has a running job. A task that fails has a job that is not yet
-- over but by a cancellation. A task that is over leaves a job that is over.
abbrev pub Fits : Task → JobState → Type 0
Fits waiting state = is_pending state ≡ true
Fits admitted state = is_pending state ≡ true
Fits starting state = is_pending state ≡ true
Fits (looked current) state =
    (is_pending current.state ≡ true)
    × (is_pending state ≡ true)
    × ((not (is_cancelled current.state) || is_cancelled state) ≡ true)
Fits working state = state ≡ running
Fits (failing e) state = (is_pending state || is_running state) ≡ true
Fits (failing_after e) state = (is_pending state || is_running state) ≡ true
Fits ended state = is_terminal state ≡ true

cancel_update-Fits :
    (task : Task) (job : JobRecord) → Fits task job.state → Fits task (cancel_update job).state
unfolding cancel_update
cancel_update-Fits waiting job h = ground (arith, h)
cancel_update-Fits admitted job h = ground (arith, h)
cancel_update-Fits starting job h = ground (arith, h)
cancel_update-Fits (looked c) job h = (h.0, ground (arith, h.1, h.2), ground (arith, h.1, h.2))
cancel_update-Fits working job h = ground (arith, h)
cancel_update-Fits (failing e) job h = ground (arith, h)
cancel_update-Fits (failing_after e) job h = ground (arith, h)
cancel_update-Fits ended job h = ground (arith, h)

-- A step keeps the place of the task and the state of the job together.
pub step-Fits : {s t : System} → s ⟶ t → Fits s.task s.job.state → Fits t.task t.job.state
unfolding give_up_update running_update completed_update failed_update
step-Fits (admit s at_place) h = subst (λ task. Fits task s.job.state) at_place h
step-Fits (refuse s e at_place) h = ground (arith, subst (λ task. Fits task s.job.state) at_place h)
step-Fits (look s at_place) h =
    let pending = subst (λ task. Fits task s.job.state) at_place h in
    (pending, pending, ground (arith, pending))
step-Fits (go_on s current at_place found) h = (subst (λ task. Fits task s.job.state) at_place h).1
step-Fits (give_up s current now at_place found was) h = refl
step-Fits (leave s current at_place found was) h =
    let (read_pending, pending, kept) = subst (λ task. Fits task s.job.state) at_place h in
    ground (arith, read_pending, pending, kept, was)
step-Fits (start s now at_place) h = refl
step-Fits (complete s (migrated n m) now at_place) h = refl
step-Fits (complete s (operated r) now at_place) h = refl
step-Fits (work_fails s e at_place) h =
    ground (arith, subst (λ task. Fits task s.job.state) at_place h)
step-Fits (fail_reads s e at_place) h = subst (λ task. Fits task s.job.state) at_place h
step-Fits (fail_writes s e now at_place) h = refl
step-Fits (cancel_returns s refused) h = h
step-Fits (cancel_reads s going_on) h = h
step-Fits (cancel_flags s before after was at_place) h = h
step-Fits (cancel_writes s before after was now at_place) h = cancel_update-Fits s.task s.job h

-- In every run the state of a job and the place of its task fit each other if they do at its start,
-- as they do for a submitted job: a task before its work has a queued or cancelled job, a task at
-- work a running one, and a task that is over has left its job completed, failed or cancelled.
pub runs-Fits : {s t : System} → s ⟶* t → Fits s.task s.job.state → Fits t.task t.job.state
runs-Fits (stay s) h = h
runs-Fits (then_step run step) h = step-Fits step (runs-Fits run h)

-- Completed or failed.
abbrev pub is_settled : JobState → Bool
is_settled completed = true
is_settled failed = true
is_settled _ = false

-- A settled job has a task that is over.
pub settled-ended :
    (task : Task) (state : JobState) → Fits task state → is_settled state ≡ true → task ≡ ended
settled-ended waiting state h k = absurd (ground (arith, h, k))
settled-ended admitted state h k = absurd (ground (arith, h, k))
settled-ended starting state h k = absurd (ground (arith, h, k))
settled-ended (looked c) state h k = absurd (ground (arith, h.1, k))
settled-ended working state h k = absurd (ground (arith, h, k))
settled-ended (failing e) state h k = absurd (ground (arith, h, k))
settled-ended (failing_after e) state h k = absurd (ground (arith, h, k))
settled-ended ended state h k = refl
