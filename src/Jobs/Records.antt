-- ===== src/Jobs/Records.antt =====
-- Jobs and the closures that update them.
use ketebe_oss.Base.{ℕ, Bool, true, false, Option, none, some, String}

pub data JobState : Type 0 where
  queued running completed failed cancelled : JobState

pub data JobKind : Type 0 where
  embedding_migration_catch_up backup_create backup_restore : String → JobKind

pub data JobResult : Type 0 where
  backup_created : String → JobResult
  backup_restored : String → String → JobResult

pub record JobProgress : Type 0 where
  pub done : ℕ
  pub total : Option ℕ
  pub message : Option String

pub record JobFailure : Type 0 where
  pub code : String
  pub reason : String

pub record JobRecord : Type 0 where
  pub version : ℕ
  pub id : ℕ
  pub kind : JobKind
  pub state : JobState
  pub progress : JobProgress
  pub error : Option JobFailure
  pub result : Option JobResult
  pub cancel_requested : Bool
  pub created_at : ℕ
  pub updated_at : ℕ

-- The parts of the message of a `Corrupt` error.
pub data Corruption : Type 0 where
  job_id_space_exhausted : Corruption
  unsupported_job_version : ℕ → Corruption
  identity_mismatch : ℕ → ℕ → Corruption

pub data JobServiceError : Type 0 where
  invalid_job_id runtime_draining : JobServiceError
  job_not_found : ℕ → JobServiceError
  corrupt : Corruption → JobServiceError

abbrev pub job_version : ℕ
job_version = 1

-- `JobProgress::queued`.
abbrev pub queued_progress : JobProgress
queued_progress = record { done = 0; total = none; message = some "queued" }

abbrev pub is_queued : JobState → Bool
is_queued queued = true
is_queued _ = false

abbrev pub is_running : JobState → Bool
is_running running = true
is_running _ = false

abbrev pub is_cancelled : JobState → Bool
is_cancelled cancelled = true
is_cancelled _ = false

-- `matches!(state, Completed | Failed | Cancelled)`.
abbrev pub is_terminal : JobState → Bool
is_terminal completed = true
is_terminal failed = true
is_terminal cancelled = true
is_terminal _ = false

-- `matches!(kind, BackupCreate { .. } | BackupRestore { .. })`.
abbrev pub is_backup : JobKind → Bool
is_backup (embedding_migration_catch_up c) = false
is_backup _ = true

abbrev pub with_message : JobProgress → String → JobProgress
with_message p text = record { done = p.done; total = p.total; message = some text }

-- The record with another state, message, error and cancellation mark, as the closures write it.
abbrev pub rewrite :
    JobRecord → JobState → JobProgress → Option JobFailure → Option JobResult → Bool → JobRecord
rewrite job next progress error result requested = record {
  version = job.version;
  id = job.id;
  kind = job.kind;
  state = next;
  progress = progress;
  error = error;
  result = result;
  cancel_requested = requested;
  created_at = job.created_at;
  updated_at = job.updated_at;
}

-- The closure of `cancel`.
unfoldable pub cancel_update : JobRecord → JobRecord
cancel_update job = elim job.state [
  | queued ↦
      rewrite job cancelled (with_message job.progress "cancelled before execution") none job.result
        true
  | running ↦ rewrite job running job.progress job.error job.result true
  | _ ↦ job
]

-- The closure of a task that finds its job cancelled.
unfoldable pub give_up_update : JobRecord → JobRecord
give_up_update job =
    rewrite job cancelled (with_message job.progress "cancelled before execution") job.error
      job.result true

-- What a task writes as its message and its total when it starts.
abbrev pub running_progress : JobKind → JobProgress → JobProgress
running_progress (embedding_migration_catch_up c) p =
    with_message p "embedding migration catch-up running"
running_progress (backup_create c) p = record {
  done = p.done;
  total = some 1;
  message = some "backup snapshot running";
}
running_progress (backup_restore b) p = record {
  done = p.done;
  total = some 1;
  message = some "backup restore running";
}

-- The closures that set `Running`.
unfoldable pub running_update : JobRecord → JobRecord
running_update job =
    rewrite job running (running_progress job.kind job.progress) job.error job.result
      job.cancel_requested

-- What the work of a job returns: the records that were migrated and managed, or the result of a
-- backup operation.
pub data Outcome : Type 0 where
  migrated : ℕ → ℕ → Outcome
  operated : JobResult → Outcome

-- The closures that set `Completed`.
unfoldable pub completed_update : Outcome → JobRecord → JobRecord
completed_update (migrated records all) job =
    rewrite job completed
      (record {
        done = records;
        total = some all;
        message = some "embedding migration catch-up completed";
      })
      none job.result job.cancel_requested
completed_update (operated r) job =
    rewrite job completed
      (record { done = 1; total = some 1; message = some "backup operation completed" }) none
      (some r) job.cancel_requested

-- The closure of `fail_job`.
unfoldable pub failed_update : JobFailure → JobRecord → JobRecord
failed_update failure job =
    rewrite job failed (with_message job.progress "job failed") (some failure) job.result
      job.cancel_requested

-- What `recover_interrupted` writes for a job that was not over.
unfoldable pub interrupted_update : JobRecord → JobRecord
interrupted_update job =
    rewrite job failed (with_message job.progress "interrupted by restart")
      (some (record {
        code = "interrupted_by_restart";
        reason = "job did not complete before the previous process stopped";
      }))
      job.result job.cancel_requested

-- The assignment of `updated_at_unix_ms`.
abbrev pub touch : ℕ → JobRecord → JobRecord
touch now job = record {
  version = job.version;
  id = job.id;
  kind = job.kind;
  state = job.state;
  progress = job.progress;
  error = job.error;
  result = job.result;
  cancel_requested = job.cancel_requested;
  created_at = job.created_at;
  updated_at = now;
}
