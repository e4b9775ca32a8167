-- ===== src/Jobs/Steps.antt =====
-- One job, the task that runs it and the calls that cancel it, as a step relation. A step is one
-- access to the store or to the flag, with the counters that follow it; between any two steps of a
-- task or of a call, the others may go on.
use ketebe_oss.Base.{ℕ, ◌+◌, ◌-◌, ◌≡◌, Bool, true, false, ◌&&◌, ◌||◌, List, [], ◌∷◌, ◌++◌}
use ketebe_oss.Jobs.Records.{
  JobRecord, JobFailure, Outcome, is_queued, is_running, is_cancelled, is_terminal, is_backup,
  cancel_update, give_up_update, running_update, completed_update, failed_update, touch,
}

-- The counters of crates/ketebe-server/src/jobs.rs.
pub record Counters : Type 0 where
  pub jobs_queued : ℕ
  pub jobs_running : ℕ
  pub jobs_completed : ℕ
  pub jobs_failed : ℕ
  pub jobs_cancelled : ℕ
  pub jobs_interrupted : ℕ

-- Where the task of a job is: before its permits; with them; after its `store.get`; after it has read
-- the flag and found no cancellation; at work; in `fail_job` before and after its `store.get`; over.
pub data Task : Type 0 where
  waiting admitted starting working ended : Task
  looked : JobRecord → Task
  failing : JobFailure → Task
  failing_after : JobFailure → Task

-- A call of `cancel` after its `store.get`, and after it has set the flag.
pub data Call : Type 0 where
  asked flagged : Bool → Call

pub record System : Type 0 where
  pub job : JobRecord
  pub flag : Bool
  pub task : Task
  pub calls : List Call
  pub answers : List JobRecord
  pub counters : Counters

-- `decrement` of a counter; the numbers of jobs that are added, of the kinds in their order.
abbrev pub count : ℕ → ℕ → ℕ → ℕ → ℕ → Counters → Counters
count less_queued less_running more_completed more_failed more_cancelled c = record {
  jobs_queued = c.jobs_queued - less_queued;
  jobs_running = c.jobs_running - less_running;
  jobs_completed = c.jobs_completed + more_completed;
  jobs_failed = c.jobs_failed + more_failed;
  jobs_cancelled = c.jobs_cancelled + more_cancelled;
  jobs_interrupted = c.jobs_interrupted;
}

abbrev pub one_if : Bool → ℕ
one_if true = 1
one_if false = 0

-- The system with another job, task and counters.
abbrev pub advance : System → JobRecord → Task → Counters → System
advance s job task counters = record {
  job = job;
  flag = s.flag;
  task = task;
  calls = s.calls;
  answers = s.answers;
  counters = counters;
}

abbrev pub started : Counters → Counters
started c = record {
  jobs_queued = c.jobs_queued - 1;
  jobs_running = c.jobs_running + 1;
  jobs_completed = c.jobs_completed;
  jobs_failed = c.jobs_failed;
  jobs_cancelled = c.jobs_cancelled;
  jobs_interrupted = c.jobs_interrupted;
}

-- A submitted job: filed, its flag installed, counted.
abbrev pub submitted : JobRecord → Counters → System
submitted job c = record {
  job = job;
  flag = false;
  task = waiting;
  calls = [];
  answers = [];
  counters = record {
    jobs_queued = c.jobs_queued + 1;
    jobs_running = c.jobs_running;
    jobs_completed = c.jobs_completed;
    jobs_failed = c.jobs_failed;
    jobs_cancelled = c.jobs_cancelled;
    jobs_interrupted = c.jobs_interrupted;
  };
}

-- A call of `cancel` that returns the job as it is.
abbrev pub is_refused : JobRecord → Bool
is_refused job = is_terminal job.state || (is_running job.state && is_backup job.kind)

abbrev pub with_calls : System → JobRecord → Bool → List Call → List JobRecord → Counters → System
with_calls s job flag calls answers counters = record {
  job = job;
  flag = flag;
  task = s.task;
  calls = calls;
  answers = answers;
  counters = counters;
}

-- Whether the task finds its job cancelled.
abbrev pub finds_cancelled : System → JobRecord → Bool
finds_cancelled s current = s.flag || is_cancelled current.state

infix 4 ◌⟶◌
pub data ◌⟶◌ : System → System → Type 0 where
  -- Both permits are acquired, or one is not.
  admit : (s : System) → s.task ≡ waiting → s ⟶ advance s s.job admitted s.counters
  refuse :
      (s : System) (e : JobFailure) → s.task ≡ waiting → s ⟶ advance s s.job (failing e) s.counters
  look : (s : System) → s.task ≡ admitted → s ⟶ advance s s.job (looked s.job) s.counters
  go_on :
      (s : System) (current : JobRecord)
      → s.task ≡ looked current
      → finds_cancelled s current ≡ false
      → s ⟶ advance s s.job starting s.counters
  give_up :
      (s : System) (current : JobRecord) (now : ℕ)
      → s.task ≡ looked current
      → finds_cancelled s current ≡ true
      → is_queued current.state ≡ true
      → s ⟶ advance s (touch now (give_up_update s.job)) ended (count 1 0 0 0 1 s.counters)
  leave :
      (s : System) (current : JobRecord)
      → s.task ≡ looked current
      → finds_cancelled s current ≡ true
      → is_queued current.state ≡ false
      → s ⟶ advance s s.job ended s.counters
  start :
      (s : System) (now : ℕ)
      → s.task ≡ starting
      → s ⟶ advance s (touch now (running_update s.job)) working (started s.counters)
  complete :
      (s : System) (result : Outcome) (now : ℕ)
      → s.task ≡ working
      → s ⟶ advance s (touch now (completed_update result s.job)) ended (count 0 1 1 0 0 s.counters)
  work_fails :
      (s : System) (e : JobFailure) → s.task ≡ working → s ⟶ advance s s.job (failing e) s.counters
  -- `fail_job`.
  fail_reads :
      (s : System) (e : JobFailure)
      → s.task ≡ failing e
      → s
        ⟶ advance s s.job (failing_after e) (
            count
              (one_if (is_queued s.job.state))
              (one_if (is_running s.job.state))
              0
              0
              0
              s.counters)
  fail_writes :
      (s : System) (e : JobFailure) (now : ℕ)
      → s.task ≡ failing_after e
      → s ⟶ advance s (touch now (failed_update e s.job)) ended (count 0 0 0 1 0 s.counters)
  -- `JobService::cancel`.
  cancel_returns :
      (s : System)
      → is_refused s.job ≡ true
      → s ⟶ with_calls s s.job s.flag s.calls (s.job ∷ s.answers) s.counters
  cancel_reads :
      (s : System)
      → is_refused s.job ≡ false
      → s ⟶ with_calls s s.job s.flag (asked (is_queued s.job.state) ∷ s.calls) s.answers s.counters
  cancel_flags :
      (s : System) (before after : List Call) (was_queued : Bool)
      → s.calls ≡ before ++ asked was_queued ∷ after
      → s ⟶ with_calls s s.job true (before ++ flagged was_queued ∷ after) s.answers s.counters
  cancel_writes :
      (s : System) (before after : List Call) (was_queued : Bool) (now : ℕ)
      → s.calls ≡ before ++ flagged was_queued ∷ after
      → s
        ⟶ with_calls s
            (touch now (cancel_update s.job))
            s.flag
            (before ++ after)
            (touch now (cancel_update s.job) ∷ s.answers)
            (count
              (one_if (was_queued && is_cancelled (cancel_update s.job).state))
              0
              0
              0
              (one_if (was_queued && is_cancelled (cancel_update s.job).state))
              s.counters)

-- Runs of any length.
infix 4 ◌⟶*◌
pub data ◌⟶*◌ : System → System → Type 0 where
  stay : (s : System) → s ⟶* s
  then_step : {s t u : System} → s ⟶* t → t ⟶ u → s ⟶* u
