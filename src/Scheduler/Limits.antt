-- ===== src/Scheduler/Limits.antt =====
-- What the semaphores of a new scheduler hold.
use ketebe_oss.Base.{
  ℕ, ◌+◌, ◌*◌, ◌/◌, ◌≤◌, ◌≡◌, max, leb, leb→le, Bool-cases, sym, ap, ◌∙◌, ◌⊎◌, inl, inr, arith,
}
use ketebe_oss.Base.Result.{ok, >>=-eq-ok}
use ketebe_oss.Scheduler.Budget.{ResourceBudget, validate}
use ketebe_oss.Scheduler.Semaphore.{SemaphoreOps, IsSemaphore}
use ketebe_oss.Scheduler.Admission.{
  Pool, background_slots, non_high_slots, low_slots, cpu, memory, io, Scheduler, limit, no_metrics,
  new_scheduler,
}

-- Half of a number, rounded down, but one at least.
abbrev pub IsHalf : ℕ → ℕ → Type 0
IsHalf half n = (1 ≤ half) × (((2 * half ≤ n) × (n ≤ 2 * half + 1)) ⊎ ((half ≡ 1) × (n ≤ 1)))

-- The reserves are left out of the resources, something remains of each, and the slots are halved
-- twice.
pub record Divides (b : ResourceBudget) (slots non_high low cpus memories ios : ℕ) : Type 0 where
  pub some_slot : (1 ≤ slots) × (slots ≡ b.max_background_tasks)
  pub half : IsHalf non_high slots
  pub quarter : IsHalf low non_high
  pub cpu_rest : (1 ≤ cpus) × (cpus + b.foreground_cpu_reserve ≡ b.cpu)
  pub memory_rest : (1 ≤ memories) × (memories + b.foreground_memory_reserve ≡ b.memory)
  pub io_rest : (1 ≤ ios) × (ios + b.foreground_io_reserve ≡ b.io)

max-IsHalf : (n : ℕ) → IsHalf (max (n / 2) 1) n
max-IsHalf n = elim (Bool-cases (leb 2 n)) [
  | inl two ↦
      let half : max (n / 2) 1 ≡ n / 2 = omega (arith, leb→le 2 n two) in
      (omega arith, inl (omega (arith, half), omega (arith, half)))
  | inr less ↦
      let one : max (n / 2) 1 ≡ 1 = ground (arith, less) in
      (omega arith, inr (one, ground (arith, less)))
]

validate-Divides :
    (b c : ResourceBudget)
    → validate b ≡ ok c
    → (b ≡ c)
      × Divides b
          (limit b background_slots)
          (limit b non_high_slots)
          (limit b low_slots)
          (limit b cpu)
          (limit b memory)
          (limit b io)
unfolding validate limit
validate-Divides b c h = (
  ground (arith, h),
  record {
    some_slot = ground (arith, h);
    half = max-IsHalf b.max_background_tasks;
    quarter = max-IsHalf (max (b.max_background_tasks / 2) 1);
    cpu_rest = ground (arith, h);
    memory_rest = ground (arith, h);
    io_rest = ground (arith, h);
  },
)

-- Over lawful semaphores, new takes over an accepted budget, and what its semaphores hold then
-- divides it: one slot for each background task, half of them, but one at least, for the work that is
-- not of high priority, half of these, but one at least, for that of low priority, and of each
-- resource what the reserve for the foreground leaves, which is one unit at least.
pub new_scheduler-Divides :
    {S : Type 0} (ops : SemaphoreOps S) (b : ResourceBudget) (s : Scheduler S)
    → IsSemaphore ops
    → new_scheduler ops b ≡ ok s
    → (s.budget ≡ b)
      × Divides b
          (ops.available_permits (s.pools background_slots))
          (ops.available_permits (s.pools non_high_slots))
          (ops.available_permits (s.pools low_slots))
          (ops.available_permits (s.pools cpu))
          (ops.available_permits (s.pools memory))
          (ops.available_permits (s.pools io))
unfolding new_scheduler
new_scheduler-Divides ops b s lawful h =
    let (c, valid, made) = >>=-eq-ok (validate b) _ h in
    let (same, divides) = validate-Divides b c valid in
    let shape : record { budget = c; pools = λ p. ops.new (limit c p); metrics = no_metrics } ≡ s =
      cc in
    let full : (p : Pool) → limit b p ≡ ops.available_permits (s.pools p) = λ p.
      ap (λ x. limit x p) same
      ∙ sym (lawful.available-new (limit c p))
      ∙ ap (λ (x : Scheduler _). ops.available_permits (x.pools p)) shape in
    (
      sym (same ∙ ap (λ (x : Scheduler _). x.budget) shape),
      rw
          (
            ← full background_slots,
            ← full non_high_slots,
            ← full low_slots,
            ← full cpu,
            ← full memory,
            ← full io,
          )
          divides,
    )
