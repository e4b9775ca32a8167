-- ===== src/Scheduler/Semaphore.antt =====
-- What resource_scheduler.rs uses of `tokio::sync::Semaphore`, and what it relies on. The code
-- closes no semaphore, so an attempt fails for lack of permits only.
use ketebe_oss.Base.{ℕ, ◌+◌, ◌≡◌, Option, some}

pub record SemaphoreOps (S : Type 0) : Type 0 where
  pub new : ℕ → S
  pub available_permits : S → ℕ
  pub try_acquire_many : ℕ → S → Option S
  pub release : ℕ → S → S

pub record IsSemaphore {S : Type 0} (ops : SemaphoreOps S) : Type 0 where
  pub available-new : (n : ℕ) → ops.available_permits (ops.new n) ≡ n
  pub available-acquired :
      (n : ℕ) (s t : S)
      → ops.try_acquire_many n s ≡ some t
      → ops.available_permits t + n ≡ ops.available_permits s
  pub available-release :
      (n : ℕ) (s : S) → ops.available_permits (ops.release n s) ≡ ops.available_permits s + n
