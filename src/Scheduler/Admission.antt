-- ===== src/Scheduler/Admission.antt =====
-- `ResourceScheduler::new` and `try_acquire`, and the drop of a permit.
use ketebe_oss.Base.{ℕ, ◌+◌, ◌-◌, ◌/◌, max, Bool, ◌||◌, none, some, ltb, ◌==◌, if◌then◌else◌}
use ketebe_oss.Base.Result.{Result, ok, err, ◌>>=◌}
use ketebe_oss.Scheduler.Budget.{
  WorkPriority, high, normal, low, WorkKind, embedding, lexical_build, compaction, migration, job,
  priority, resources, ResourceRequest, ResourceBudget, ResourceSchedulerError,
  request_exceeds_budget, overloaded, validate, background_cpu, background_memory, background_io,
}
use ketebe_oss.Scheduler.Semaphore.{SemaphoreOps}

-- The semaphores of a `SchedulerInner`, by their names.
pub data Pool : Type 0 where
  background_slots non_high_slots low_slots cpu memory io : Pool

abbrev pool_index : Pool → ℕ
pool_index background_slots = 0
pool_index non_high_slots = 1
pool_index low_slots = 2
pool_index cpu = 3
pool_index memory = 4
pool_index io = 5

abbrev pub same_pool : Pool → Pool → Bool
same_pool p q = pool_index p == pool_index q

-- Without `queued`, which counts the calls of `acquire` that wait.
pub record SchedulerMetrics : Type 0 where
  pub active : ℕ
  pub admitted_total : ℕ
  pub rejected_total : ℕ
  pub peak_active : ℕ
  pub embedding_admitted : ℕ
  pub lexical_admitted : ℕ
  pub compaction_admitted : ℕ
  pub migration_admitted : ℕ
  pub job_admitted : ℕ

abbrev pub no_metrics : SchedulerMetrics
no_metrics = record {
  active = 0;
  admitted_total = 0;
  rejected_total = 0;
  peak_active = 0;
  embedding_admitted = 0;
  lexical_admitted = 0;
  compaction_admitted = 0;
  migration_admitted = 0;
  job_admitted = 0;
}

-- The counter of a kind of work.
unfoldable pub count_kind : WorkKind → SchedulerMetrics → SchedulerMetrics
count_kind embedding m = record m { embedding_admitted = m.embedding_admitted + 1 }
count_kind lexical_build m = record m { lexical_admitted = m.lexical_admitted + 1 }
count_kind compaction m = record m { compaction_admitted = m.compaction_admitted + 1 }
count_kind migration m = record m { migration_admitted = m.migration_admitted + 1 }
count_kind job m = record m { job_admitted = m.job_admitted + 1 }

-- `SchedulerMetrics::admitted`.
unfoldable pub admitted : WorkKind → SchedulerMetrics → SchedulerMetrics
unfolding count_kind
admitted kind m =
    let counted = count_kind kind m in
    record counted {
      admitted_total = m.admitted_total + 1;
      active = m.active + 1;
      peak_active = max m.peak_active (m.active + 1);
    }

-- A permit: the kind of its work, and how many permits it holds of each semaphore.
pub record ResourcePermit : Type 0 where
  pub kind : WorkKind
  pub held : Pool → ℕ

pub record Scheduler (S : Type 0) : Type 0 where
  pub budget : ResourceBudget
  pub pools : Pool → S
  pub metrics : SchedulerMetrics

-- The semaphores in the course of a call, and the permits that it holds.
pub record Trying (S : Type 0) : Type 0 where
  pub pools : Pool → S
  pub held : Pool → ℕ

-- The permits that a semaphore starts with.
unfoldable pub limit : ResourceBudget → Pool → ℕ
limit b background_slots = b.max_background_tasks
limit b non_high_slots = max (b.max_background_tasks / 2) 1
limit b low_slots = max (max (b.max_background_tasks / 2) 1 / 2) 1
limit b cpu = background_cpu b
limit b memory = background_memory b
limit b io = background_io b

module _ {S : Type 0} (ops : SemaphoreOps S) where
  -- `ResourceScheduler::new`.
  unfoldable pub new_scheduler : ResourceBudget → Result ResourceSchedulerError (Scheduler S)
  unfolding limit
  new_scheduler budget = validate budget >>= λ b.
      ok (record { budget = b; pools = λ p. ops.new (limit b p); metrics = no_metrics })

  unfoldable pub validate_request :
      Scheduler S → WorkKind → ResourceRequest → Result ResourceSchedulerError (Unit {0})
  validate_request s kind request =
      if ltb (background_cpu s.budget) request.cpu
        || ltb (background_memory s.budget) request.memory
        || ltb (background_io s.budget) request.io
      then err (request_exceeds_budget kind request)
      else ok tt

  abbrev pub taken : Pool → ℕ → S → Trying S → Trying S
  taken p n left t = record {
    pools = λ q. if same_pool q p then left else t.pools q;
    held = λ q. if same_pool q p then t.held q + n else t.held q;
  }

  -- `try_acquire_owned` and `try_many`: a failure leaves what the call holds so far.
  unfoldable pub take_from : Pool → ℕ → Trying S → Result (Trying S) (Trying S)
  take_from p n t = if n == 0 then ok t else elim (ops.try_acquire_many n (t.pools p)) [
    | some left ↦ ok (taken p n left t)
    | none ↦ err t
  ]

  -- The slots that a priority asks for.
  unfoldable pub take_slots : WorkPriority → Trying S → Result (Trying S) (Trying S)
  unfolding take_from
  take_slots high t = ok t
  take_slots normal t = take_from non_high_slots 1 t
  take_slots low t = take_from low_slots 1 t >>= take_from non_high_slots 1

  unfoldable pub take_all : WorkKind → Trying S → Result (Trying S) (Trying S)
  unfolding take_slots take_from
  take_all kind t =
      let request = resources kind in
      take_slots (priority kind) t
      >>= take_from background_slots 1
      >>= take_from cpu request.cpu
      >>= take_from memory request.memory
      >>= take_from io request.io

  -- The permits go back to their semaphores when they are dropped.
  unfoldable pub give_back : (Pool → ℕ) → (Pool → S) → Pool → S
  give_back held pools p = if held p == 0 then pools p else ops.release (held p) (pools p)

  unfoldable pub finish_attempt :
      Scheduler S
      → WorkKind
      → Result (Trying S) (Trying S)
      → Result ResourceSchedulerError ResourcePermit × Scheduler S
  unfolding give_back admitted
  finish_attempt s kind (ok t) = (
    ok (record { kind = kind; held = t.held }),
    record { budget = s.budget; pools = t.pools; metrics = admitted kind s.metrics },
  )
  finish_attempt s kind (err t) =
      let m = s.metrics in
      (
        err (overloaded kind),
        record {
          budget = s.budget;
          pools = give_back t.held t.pools;
          metrics = record m { rejected_total = m.rejected_total + 1 };
        },
      )

  -- What follows the check of the request.
  unfoldable pub attempt :
      Scheduler S → WorkKind → Result ResourceSchedulerError ResourcePermit × Scheduler S
  unfolding take_all finish_attempt
  attempt s kind = finish_attempt s kind (take_all kind (record { pools = s.pools; held = λ p. 0 }))

  -- `ResourceScheduler::try_acquire`.
  unfoldable pub try_acquire :
      Scheduler S → WorkKind → Result ResourceSchedulerError ResourcePermit × Scheduler S
  unfolding validate_request attempt
  try_acquire s kind = elim (validate_request s kind (resources kind)) [
    | ok u ↦ attempt s kind
    | err e ↦ (err e, s)
  ]

  -- `ResourcePermit::drop`, and then the drop of its fields.
  unfoldable pub drop_permit : ResourcePermit → Scheduler S → Scheduler S
  unfolding give_back
  drop_permit permit s =
      let m = s.metrics in
      record {
        budget = s.budget;
        pools = give_back permit.held s.pools;
        metrics = record m { active = m.active - 1 };
      }
