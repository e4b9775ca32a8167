-- ===== src/Jobs/Store.antt =====
-- `JobStore`: the directory of the job files, as the map from the number in a file's name to the
-- record in the file. What the calls of the file system and of JSON do is taken to succeed.
use ketebe_oss.Base.{
  ℕ, ◌+◌, ◌^◌, ◌-◌, false, not, Option, none, some, [], ◌∷◌, max, ◌==◌, ltb, if◌then◌else◌,
}
use ketebe_oss.Base.Result.{Result, ok, err, ◌>>=◌}
use ketebe_oss.Base.Order.{number_ord}
use ketebe_oss.Base.Map.{Map, get, insert}
use ketebe_oss.Jobs.Records.{
  JobRecord, JobKind, JobServiceError, queued, is_terminal, invalid_job_id, job_not_found, corrupt,
  job_id_space_exhausted, unsupported_job_version, identity_mismatch, job_version, queued_progress,
  interrupted_update, touch,
}

abbrev pub JobFiles : Type 0
JobFiles = Map ℕ JobRecord

-- `JobId::new`.
abbrev pub new_job_id : ℕ → Result JobServiceError ℕ
new_job_id value = if value == 0 then err invalid_job_id else ok value

unfoldable pub validate_record : JobRecord → Result JobServiceError (Unit {0})
validate_record job =
    if not (job.version == job_version)
    then err (corrupt (unsupported_job_version job.version))
    else new_job_id job.id >>= λ id. ok tt

unfoldable pub max_id : JobFiles → ℕ
max_id [] = 0
max_id ((name, job) ∷ files) = max name (max_id files)

unfoldable pub next_id : JobFiles → Result JobServiceError ℕ
unfolding max_id
next_id files =
    if ltb (max_id files) (2 ^ 64 - 1)
    then ok (max_id files + 1)
    else err (corrupt job_id_space_exhausted)

unfoldable pub read : JobFiles → ℕ → Result JobServiceError JobRecord
unfolding validate_record
read files id = elim (get id files) [
  | none ↦ err (job_not_found id)
  | some job ↦ validate_record job >>= λ _.
      if job.id == id then ok job else err (corrupt (identity_mismatch id job.id))
]

abbrev pub persist : JobRecord → JobFiles → JobFiles
persist job files = insert job.id job files

unfoldable pub create : JobFiles → JobKind → ℕ → Result JobServiceError (JobRecord × JobFiles)
unfolding next_id
create files kind now = next_id files >>= λ next. new_job_id next >>= λ id.
    let job : JobRecord = record {
      version = job_version;
      id = id;
      kind = kind;
      state = queued;
      progress = queued_progress;
      error = none;
      result = none;
      cancel_requested = false;
      created_at = now;
      updated_at = now;
    } in
    ok (job, persist job files)

unfoldable pub update :
    JobFiles → ℕ → (JobRecord → JobRecord) → ℕ → Result JobServiceError (JobRecord × JobFiles)
unfolding read
update files id change now =
    read files id >>= λ job. ok (touch now (change job), persist (touch now (change job)) files)

-- One file of the loop of `recover_interrupted`.
unfoldable pub recover_job : ℕ → JobRecord → JobFiles → ℕ → Result JobServiceError (ℕ × JobFiles)
unfolding validate_record
recover_job now job files interrupted = validate_record job >>= λ _.
    if is_terminal job.state
    then ok (interrupted, files)
    else ok (interrupted + 1, persist (touch now (interrupted_update job)) files)

-- No file that the directory listed goes away before its turn.
unfoldable pub recover_listed :
    ℕ → Option JobRecord → JobFiles → ℕ → Result JobServiceError (ℕ × JobFiles)
unfolding recover_job
recover_listed now none files interrupted = ok (interrupted, files)
recover_listed now (some job) files interrupted = recover_job now job files interrupted

-- The loop over the names that the directory lists at its start, in the order of their numbers.
unfoldable pub recover_files : ℕ → JobFiles → JobFiles → ℕ → Result JobServiceError (ℕ × JobFiles)
unfolding recover_listed
recover_files now [] files interrupted = ok (interrupted, files)
recover_files now ((name, listed) ∷ rest) files interrupted =
    recover_listed now (get name files) files interrupted >>= λ next.
    recover_files now rest next.1 next.0

unfoldable pub recover_interrupted : JobFiles → ℕ → Result JobServiceError (ℕ × JobFiles)
unfolding recover_files
recover_interrupted files now = recover_files now files files 0
