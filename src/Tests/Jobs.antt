-- ===== src/Tests/Jobs.antt =====
-- A store of two jobs, and runs of one.
use ketebe_oss.Base.{◌≡◌, refl, true, false, none, some, [], ◌∷◌, arith}
use ketebe_oss.Base.Result.{ok}
use ketebe_oss.Base.Map.{get, insert, map_values, Entries}
use ketebe_oss.Jobs.Records.{
  JobRecord, queued, cancelled, completed, failed, backup_create, job_version, queued_progress,
  operated, backup_created, is_terminal, cancel_update, running_update, touch,
}
use ketebe_oss.Base.Order.{number_ord}
use ketebe_oss.Jobs.Store.{JobFiles, read, create, update, recover_interrupted}
use ketebe_oss.Jobs.Stored.{IsStore, create-stored, update-stored}
use ketebe_oss.Jobs.Recovered.{settle, unfinished, recover_interrupted-settle}
use ketebe_oss.Jobs.Steps.{
  System, Counters, admitted, ended, submitted, advance, with_calls, ◌⟶*◌, stay, then_step, admit,
  cancel_returns, is_refused,
}
use ketebe_oss.Jobs.Invariant.{Fits, runs-Fits}
use ketebe_oss.Jobs.Final.{has_begun, runs-settled, runs-withdrawn}
use ketebe_oss.Jobs.Progress.{runs-terminal, cancelled_job_completes, cancelled_job_fails}

abbrev backup_job : JobRecord
backup_job = record {
  version = job_version;
  id = 4;
  kind = backup_create "docs";
  state = queued;
  progress = queued_progress;
  error = none;
  result = none;
  cancel_requested = false;
  created_at = 10;
  updated_at = 10;
}

abbrev one_job : JobFiles
one_job = (4, backup_job) ∷ []

one_job-IsStore : IsStore one_job
one_job-IsStore = record {
  ordered = (tt, tt);
  filed = (record { numbered = refl; versioned = refl; positive = omega arith }, tt);
}

abbrev next_job : JobRecord
next_job = record {
  version = job_version;
  id = 5;
  kind = backup_create "docs";
  state = queued;
  progress = queued_progress;
  error = none;
  result = none;
  cancel_requested = false;
  created_at = 20;
  updated_at = 20;
}

abbrev two_jobs : JobFiles
two_jobs = (4, backup_job) ∷ (5, next_job) ∷ []

created : create one_job (backup_create "docs") 20 ≡ ok (next_job, two_jobs)
unfolding create insert
created = refl

create-stored_example :
    (get 5 one_job ≡ none)
    × (next_job.state ≡ queued)
    × (next_job.kind ≡ backup_create "docs")
    × (two_jobs ≡ insert 5 next_job one_job)
    × (read two_jobs 5 ≡ ok next_job)
    × IsStore two_jobs
create-stored_example =
    create-stored one_job (backup_create "docs") 20 next_job two_jobs one_job-IsStore created

stored_job : get 4 one_job ≡ some backup_job
unfolding get
stored_job = refl

same_number : (running_update backup_job).id ≡ backup_job.id
unfolding running_update
same_number = refl

same_version : (running_update backup_job).version ≡ backup_job.version
unfolding running_update
same_version = refl

update-stored_example :
    (update one_job 4 running_update 30
      ≡ ok (
        touch 30 (running_update backup_job),
        insert 4 (touch 30 (running_update backup_job)) one_job,
      ))
    × IsStore (insert 4 (touch 30 (running_update backup_job)) one_job)
update-stored_example =
    update-stored one_job 4 running_update 30 backup_job one_job-IsStore stored_job same_number
      same_version

recover_interrupted-settle_example :
    (recover_interrupted one_job 40 ≡ ok (unfinished one_job, map_values (settle 40) one_job))
    × IsStore (map_values (settle 40) one_job)
    × Entries (λ name job. is_terminal job.state ≡ true) (map_values (settle 40) one_job)
recover_interrupted-settle_example = recover_interrupted-settle one_job 40 one_job-IsStore

abbrev no_jobs : Counters
no_jobs = record {
  jobs_queued = 0;
  jobs_running = 0;
  jobs_completed = 0;
  jobs_failed = 0;
  jobs_cancelled = 0;
  jobs_interrupted = 0;
}

abbrev filed : System
filed = submitted backup_job no_jobs

abbrev with_permits : System
with_permits = advance filed backup_job admitted filed.counters

runs-Fits_example : Fits with_permits.task with_permits.job.state
runs-Fits_example = runs-Fits (then_step (stay filed) (admit filed refl)) refl

-- The job is cancelled before its task has read it.
abbrev withdrawn : System
withdrawn =
    with_calls with_permits (touch 30 (cancel_update backup_job)) true [] [] with_permits.counters

is_withdrawn : withdrawn.job.state ≡ cancelled
unfolding cancel_update
is_withdrawn = refl

is_refused_now : is_refused withdrawn.job ≡ true
unfolding cancel_update
is_refused_now = refl

runs-withdrawn_example :
    ((with_calls withdrawn withdrawn.job true [] (withdrawn.job ∷ []) withdrawn.counters).job.state
      ≡ cancelled)
    × (has_begun withdrawn.task ≡ false)
runs-withdrawn_example =
    runs-withdrawn (then_step (stay withdrawn) (cancel_returns withdrawn is_refused_now)) refl
      is_withdrawn

abbrev done_job : JobRecord
done_job = record {
  version = job_version;
  id = 4;
  kind = backup_create "docs";
  state = completed;
  progress = queued_progress;
  error = none;
  result = some (backup_created "b1");
  cancel_requested = false;
  created_at = 10;
  updated_at = 30;
}

abbrev finished_system : System
finished_system = advance filed done_job ended filed.counters

runs-settled_example :
    touch 0
      (with_calls finished_system done_job false [] (done_job ∷ []) finished_system.counters).job
    ≡ touch 0 finished_system.job
runs-settled_example =
    runs-settled (then_step (stay finished_system) (cancel_returns finished_system refl)) refl refl

runs-terminal_example :
    (t : System) × (filed ⟶* t) × (t.task ≡ ended) × (is_terminal t.job.state ≡ true)
runs-terminal_example = runs-terminal (operated (backup_created "b1")) 30 filed refl

cancelled_job_fails_example :
    (s : System) × (t : System) × (filed ⟶* s)
    × (s ⟶* t)
    × (s.answers ≡ touch 30 (cancel_update backup_job) ∷ [])
    × ((cancel_update backup_job).state ≡ cancelled)
    × (t.job.state ≡ failed)
cancelled_job_fails_example =
    cancelled_job_fails backup_job no_jobs (record { code = "a"; reason = "b" }) 30 refl

cancelled_job_completes_example :
    (s : System) × (t : System) × (filed ⟶* s)
    × (s ⟶* t)
    × (s.answers ≡ touch 30 (cancel_update backup_job) ∷ [])
    × ((cancel_update backup_job).state ≡ cancelled)
    × (t.job.state ≡ completed)
cancelled_job_completes_example =
    cancelled_job_completes backup_job no_jobs (operated (backup_created "b1")) 30 refl
