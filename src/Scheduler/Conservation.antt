-- ===== src/Scheduler/Conservation.antt =====
-- The permits of resource_scheduler.rs, available and held.
use ketebe_oss.Base.{
  ℕ, suc, ◌+◌, ◌≡◌, refl, ap, ◌∙◌, true, Bool-cases, some, Option-cases, List, [], ◌∷◌, ◌++◌, subst,
  inl, inr, length, ◌==◌, arith,
}
use ketebe_oss.Base.Result.{Result, ok, err, ◌>>=◌, >>=-eq-ok, Result-cases}
use ketebe_oss.Scheduler.Budget.{
  WorkPriority, high, normal, low, WorkKind, priority, resources, ResourceBudget,
  ResourceSchedulerError, validate,
}
use ketebe_oss.Scheduler.Semaphore.{SemaphoreOps, IsSemaphore}
use ketebe_oss.Scheduler.Admission.{
  Pool, background_slots, non_high_slots, low_slots, cpu, memory, io, same_pool, ResourcePermit,
  Scheduler, Trying, limit, no_metrics, new_scheduler, validate_request, taken, take_from,
  take_slots, take_all, give_back, finish_attempt, attempt, try_acquire, drop_permit, admitted,
}

-- What the permits of a list hold of one semaphore.
abbrev pub total_held : Pool → List ResourcePermit → ℕ
total_held p [] = 0
total_held p (permit ∷ live) = permit.held p + total_held p live

-- The permits that are live after a call.
abbrev pub live_after :
    Result ResourceSchedulerError ResourcePermit → List ResourcePermit → List ResourcePermit
live_after (ok permit) live = permit ∷ live
live_after (err e) live = live

same_pool-eq : (p q : Pool) → same_pool q p ≡ true → q ≡ p
same_pool-eq background_slots background_slots h = refl
same_pool-eq non_high_slots non_high_slots h = refl
same_pool-eq low_slots low_slots h = refl
same_pool-eq cpu cpu h = refl
same_pool-eq memory memory h = refl
same_pool-eq io io h = refl
same_pool-eq _ _ h = ground arith

module _ {S : Type 0} (ops : SemaphoreOps S) where
  -- For the permits that are live, each semaphore has the rest of its limit, and the count of
  -- active work is theirs.
  pub record Conserved (s : Scheduler S) (live : List ResourcePermit) : Type 0 where
    pub permits :
        (p : Pool) → ops.available_permits (s.pools p) + total_held p live ≡ limit s.budget p
    pub active : s.metrics.active ≡ length live

  -- What a call that tries has taken is what is missing.
  abbrev Balanced : Trying S → Trying S → Type 0
  Balanced t u =
      (p : Pool)
      → ops.available_permits (u.pools p) + u.held p ≡ ops.available_permits (t.pools p) + t.held p

  -- The same of both outcomes.
  abbrev BalancedResult : Trying S → Result (Trying S) (Trying S) → Type 0
  BalancedResult t (ok u) = Balanced t u
  BalancedResult t (err u) = Balanced t u

module _ {S : Type 0} (ops : SemaphoreOps S) (lawful : IsSemaphore ops) where
  taken-Balanced :
      (p : Pool) (n : ℕ) (left : S) (t : Trying S)
      → ops.try_acquire_many n (t.pools p) ≡ some left
      → Balanced ops t (taken ops p n left t)
  taken-Balanced p n left t h q = elim (Bool-cases (same_pool q p)) [
    | inl same ↦
        let law = lawful.available-acquired n (t.pools p) left h in
        rw (same, same_pool-eq p q same) (omega (arith, law))
    | inr other ↦ rw other
  ]

  take_from-Balanced :
      (p : Pool) (n : ℕ) (t : Trying S) → BalancedResult ops t (take_from ops p n t)
  unfolding take_from
  take_from-Balanced p n t = elim (Bool-cases (n == 0)) [
    | inl nothing ↦ rw (nothing, take_from) (λ q. refl)
    | inr some_of ↦ elim (Option-cases (ops.try_acquire_many n (t.pools p))) [
      | inl gone ↦ rw (some_of, take_from, gone) (λ q. refl)
      | inr (left, there) ↦ rw (some_of, take_from, there) (taken-Balanced p n left t there)
    ]
  ]

  Balanced-trans :
      (t u : Trying S) (r : Result (Trying S) (Trying S))
      → Balanced ops t u
      → BalancedResult ops u r
      → BalancedResult ops t r
  Balanced-trans t u (ok v) h k = λ p. k p ∙ h p
  Balanced-trans t u (err v) h k = λ p. k p ∙ h p

  Balanced-bind :
      (t : Trying S) (r : Result (Trying S) (Trying S))
      (f : Trying S → Result (Trying S) (Trying S))
      → BalancedResult ops t r
      → ((u : Trying S) → BalancedResult ops u (f u))
      → BalancedResult ops t (r >>= f)
  Balanced-bind t (ok u) f h hf = Balanced-trans t u (f u) h (hf u)
  Balanced-bind t (err u) f h hf = h

  take_slots-Balanced :
      (w : WorkPriority) (t : Trying S) → BalancedResult ops t (take_slots ops w t)
  unfolding take_slots
  take_slots-Balanced high t = λ p. refl
  take_slots-Balanced normal t = take_from-Balanced non_high_slots 1 t
  take_slots-Balanced low t =
      Balanced-bind t _ _ (take_from-Balanced low_slots 1 t) (take_from-Balanced non_high_slots 1)

  take_all-Balanced : (kind : WorkKind) (t : Trying S) → BalancedResult ops t (take_all ops kind t)
  unfolding take_all
  take_all-Balanced kind t =
      Balanced-bind t _ _
        (Balanced-bind t _ _
          (Balanced-bind t _ _
            (Balanced-bind t _ _ (take_slots-Balanced (priority kind) t)
              (take_from-Balanced background_slots 1))
            (take_from-Balanced cpu (resources kind).cpu))
          (take_from-Balanced memory (resources kind).memory))
        (take_from-Balanced io (resources kind).io)

  available-give_back :
      (held : Pool → ℕ) (pools : Pool → S) (p : Pool)
      → ops.available_permits (give_back ops held pools p)
        ≡ ops.available_permits (pools p) + held p
  unfolding give_back
  available-give_back held pools p = elim (Bool-cases (held p == 0)) [
    | inl nothing ↦ rw (nothing, give_back) (ground arith)
    | inr some_of ↦ rw (some_of, give_back) (lawful.available-release (held p) (pools p))
  ]

  finish_attempt-Conserved :
      (s : Scheduler S) (kind : WorkKind) (live : List ResourcePermit)
      (r : Result (Trying S) (Trying S))
      → Conserved ops s live
      → BalancedResult ops (record { pools = s.pools; held = λ p. 0 }) r
      → Conserved ops
          (finish_attempt ops s kind r).1
          (live_after (finish_attempt ops s kind r).0 live)
  unfolding finish_attempt admitted
  finish_attempt-Conserved s kind live (ok t) h b = record {
    permits = λ p. omega (arith, h.permits p, b p);
    active = omega (arith, h.active);
  }
  finish_attempt-Conserved s kind live (err t) h b = record {
    permits = λ p. omega (arith, h.permits p, b p, available-give_back t.held t.pools p);
    active = h.active;
  }

  -- Over lawful semaphores and from a state in which this holds, a call of `try_acquire` loses no
  -- permit, whether it succeeds or fails at any semaphore: what is
  -- available and what the live permits hold stays the limit, and the count of active work is the
  -- number of live permits.
  pub try_acquire-Conserved :
      (s : Scheduler S) (kind : WorkKind) (live : List ResourcePermit)
      → Conserved ops s live
      → Conserved ops (try_acquire ops s kind).1 (live_after (try_acquire ops s kind).0 live)
  unfolding try_acquire attempt
  try_acquire-Conserved s kind live h =
      elim (Result-cases (validate_request ops s kind (resources kind))) [
        | inl (u, valid) ↦
            rw (valid, try_acquire)
              (finish_attempt-Conserved s kind live _ h
                (take_all-Balanced kind (record { pools = s.pools; held = λ p. 0 })))
        | inr (e, refused) ↦ rw (refused, try_acquire) h
      ]

  total_held-middle :
      (p : Pool) (before after : List ResourcePermit) (permit : ResourcePermit)
      → total_held p (before ++ permit ∷ after) ≡ permit.held p + total_held p (before ++ after)
  total_held-middle p [] after permit = refl
  total_held-middle p (x ∷ before) after permit =
      omega (arith, total_held-middle p before after permit)

  length-middle :
      (before after : List ResourcePermit) (permit : ResourcePermit)
      → length (before ++ permit ∷ after) ≡ suc (length (before ++ after))
  length-middle [] after permit = refl
  length-middle (x ∷ before) after permit = ap suc (length-middle before after permit)

  -- Over lawful semaphores and from such a state, the drop of any live permit gives back all that it
  -- holds, and counts it out.
  pub drop_permit-Conserved :
      (s : Scheduler S) (before after : List ResourcePermit) (permit : ResourcePermit)
      → Conserved ops s (before ++ permit ∷ after)
      → Conserved ops (drop_permit ops permit s) (before ++ after)
  unfolding drop_permit
  drop_permit-Conserved s before after permit h = record {
    permits = λ p. omega (
      arith,
      h.permits p,
      available-give_back permit.held s.pools p,
      total_held-middle p before after permit,
    );
    active = omega (arith, h.active, length-middle before after permit);
  }

  -- Over lawful semaphores, a scheduler that `new` returns has all permits of its limits, and no live permit.
  pub new_scheduler-Conserved :
      (b : ResourceBudget) (s : Scheduler S) → new_scheduler ops b ≡ ok s → Conserved ops s []
  unfolding new_scheduler
  new_scheduler-Conserved b s h =
      let (c, valid, made) = >>=-eq-ok (validate b) _ h in
      let shape : record { budget = c; pools = λ p. ops.new (limit c p); metrics = no_metrics }
          ≡ s =
        cc in
      subst (λ x. Conserved ops x []) shape
        (record { permits = λ p. omega (arith, lawful.available-new (limit c p)); active = refl })
