-- ===== src/Tests/Scheduling.antt =====
-- A scheduler whose semaphores are counters.
use ketebe_oss.Base.{ℕ, ◌+◌, ◌-◌, ◌≡◌, refl, none, some, [], ◌∷◌, leb, if◌then◌else◌, arith}
use ketebe_oss.Base.Result.{ok}
use ketebe_oss.Scheduler.Budget.{compaction, default_budget, validate, resources, priority}
use ketebe_oss.Scheduler.Semaphore.{SemaphoreOps, IsSemaphore}
use ketebe_oss.Scheduler.Admission.{
  Pool, background_slots, non_high_slots, low_slots, cpu, memory, io, ResourcePermit, Scheduler,
  limit, no_metrics, new_scheduler, try_acquire, drop_permit,
}
use ketebe_oss.Scheduler.Limits.{Divides, new_scheduler-Divides}
use ketebe_oss.Scheduler.Conservation.{
  Conserved, total_held, live_after, try_acquire-Conserved, drop_permit-Conserved,
  new_scheduler-Conserved,
}

abbrev counter : SemaphoreOps ℕ
counter = record {
  new = λ n. n;
  available_permits = λ s. s;
  try_acquire_many = λ n s. if leb n s then some (s - n) else none;
  release = λ n s. s + n;
}

counter-acquired : (n s t : ℕ) → (if leb n s then some (s - n) else none) ≡ some t → t + n ≡ s
counter-acquired n s t h = ground arith

counter-IsSemaphore : IsSemaphore counter
counter-IsSemaphore = record {
  available-new = λ n. refl;
  available-acquired = counter-acquired;
  available-release = λ n s. refl;
}

abbrev started : Scheduler ℕ
started = record { budget = default_budget; pools = limit default_budget; metrics = no_metrics }

started_ok : new_scheduler counter default_budget ≡ ok started
unfolding new_scheduler validate
started_ok = refl

new_scheduler-Divides_example :
    (started.budget ≡ default_budget) × Divides default_budget 4 2 1 6 6 6
unfolding limit
new_scheduler-Divides_example =
    new_scheduler-Divides counter default_budget started counter-IsSemaphore started_ok

started-Conserved : Conserved counter started []
started-Conserved =
    new_scheduler-Conserved counter counter-IsSemaphore default_budget started started_ok

try_acquire-Conserved_example :
    Conserved counter
      (try_acquire counter started compaction).1
      (live_after (try_acquire counter started compaction).0 [])
try_acquire-Conserved_example =
    try_acquire-Conserved counter counter-IsSemaphore started compaction [] started-Conserved

-- The permit of a compaction, and the scheduler that gave it.
abbrev compacting : Scheduler ℕ
compacting = (try_acquire counter started compaction).1

abbrev compaction_held : Pool → ℕ
compaction_held background_slots = 1
compaction_held non_high_slots = 1
compaction_held low_slots = 1
compaction_held cpu = 2
compaction_held memory = 2
compaction_held io = 2

abbrev compaction_permit : ResourcePermit
compaction_permit = record { kind = compaction; held = compaction_held }

compacting-Conserved : Conserved counter compacting (compaction_permit ∷ [])
unfolding try_acquire limit resources priority
compacting-Conserved = record { permits = compaction_permits; active = refl }
  where
    compaction_permits :
        (p : Pool)
        → compacting.pools p + total_held p (compaction_permit ∷ []) ≡ limit default_budget p
    compaction_permits background_slots = refl
    compaction_permits non_high_slots = refl
    compaction_permits low_slots = refl
    compaction_permits cpu = refl
    compaction_permits memory = refl
    compaction_permits io = refl

drop_permit-Conserved_example :
    Conserved counter (drop_permit counter compaction_permit compacting) []
drop_permit-Conserved_example =
    drop_permit-Conserved counter counter-IsSemaphore compacting [] [] compaction_permit
      compacting-Conserved
