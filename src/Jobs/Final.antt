-- ===== src/Jobs/Final.antt =====
-- Jobs that are over.
use ketebe_oss.Base.{◌≡◌, refl, sym, ap, ◌∙◌, subst, Bool, true, false, arith}
use ketebe_oss.Jobs.Records.{JobState, JobRecord, cancelled, cancel_update, give_up_update, touch}
use ketebe_oss.Jobs.Steps.{
  System, Task, waiting, admitted, starting, working, ended, looked, failing, failing_after, ◌⟶◌,
  ◌⟶*◌, stay, then_step, admit, refuse, look, go_on, give_up, leave, start, complete, work_fails,
  fail_reads, fail_writes, cancel_returns, cancel_reads, cancel_flags, cancel_writes,
}
use ketebe_oss.Jobs.Invariant.{Fits, is_settled, settled-ended, runs-Fits}

cancel_update-settled : (job : JobRecord) → is_settled job.state ≡ true → cancel_update job ≡ job
unfolding cancel_update
cancel_update-settled job k = ground (arith, k)

step-settled :
    {s t : System}
    → s ⟶ t
    → Fits s.task s.job.state
    → is_settled s.job.state ≡ true
    → touch 0 t.job ≡ touch 0 s.job
step-settled (admit s place) h k = refl
step-settled (refuse s e place) h k = refl
step-settled (look s place) h k = refl
step-settled (go_on s current place found) h k = refl
step-settled (give_up s current now place found was) h k =
    cc (settled-ended s.task s.job.state h k, place)
step-settled (leave s current place found was) h k = refl
step-settled (start s now place) h k = cc (settled-ended s.task s.job.state h k, place)
step-settled (complete s result now place) h k = cc (settled-ended s.task s.job.state h k, place)
step-settled (work_fails s e place) h k = refl
step-settled (fail_reads s e place) h k = refl
step-settled (fail_writes s e now place) h k = cc (settled-ended s.task s.job.state h k, place)
step-settled (cancel_returns s refused) h k = refl
step-settled (cancel_reads s going_on) h k = refl
step-settled (cancel_flags s before after was place) h k = refl
step-settled (cancel_writes s before after was now place) h k =
    ap (touch 0) (cancel_update-settled s.job k)

-- A job that is completed or failed stays as it is in every run from there, whatever calls of
-- `cancel` come, but for the time of its last update.
pub runs-settled :
    {s t : System}
    → s ⟶* t
    → Fits s.task s.job.state
    → is_settled s.job.state ≡ true
    → touch 0 t.job ≡ touch 0 s.job
runs-settled (stay s) h k = refl
runs-settled {s} (then_step run step) h k =
    let before = runs-settled run h k in
    let same = ap (λ (job : JobRecord). is_settled job.state) before in
    step-settled step (runs-Fits run h) (same ∙ k) ∙ before

-- A job that is cancelled, with a task that has read that or is over.
abbrev Withdrawn : Task → JobState → Type 0
Withdrawn admitted state = state ≡ cancelled
Withdrawn (looked current) state = (current.state ≡ cancelled) × (state ≡ cancelled)
Withdrawn ended state = state ≡ cancelled
Withdrawn _ state = ⊥

moved :
    (s : System) {task : Task}
    → s.task ≡ task
    → Withdrawn s.task s.job.state
    → Withdrawn task s.job.state
moved s place h = subst (λ task. Withdrawn task s.job.state) place h

Withdrawn-cancelled : (task : Task) (state : JobState) → Withdrawn task state → state ≡ cancelled
Withdrawn-cancelled admitted state h = h
Withdrawn-cancelled (looked current) state h = h.1
Withdrawn-cancelled ended state h = h
Withdrawn-cancelled waiting state h = absurd h
Withdrawn-cancelled starting state h = absurd h
Withdrawn-cancelled working state h = absurd h
Withdrawn-cancelled (failing e) state h = absurd h
Withdrawn-cancelled (failing_after e) state h = absurd h

cancelled_stays :
    (task : Task) (job : JobRecord)
    → Withdrawn task job.state
    → job.state ≡ (cancel_update job).state
unfolding cancel_update
cancelled_stays task job h = ground (arith, Withdrawn-cancelled task job.state h)

step-Withdrawn :
    {s t : System} → s ⟶ t → Withdrawn s.task s.job.state → Withdrawn t.task t.job.state
unfolding give_up_update cancel_update
step-Withdrawn (admit s place) h = absurd (moved s place h)
step-Withdrawn (refuse s e place) h = absurd (moved s place h)
step-Withdrawn (look s place) h = (moved s place h, moved s place h)
step-Withdrawn (go_on s current place found) h =
    let (read, now_cancelled) = moved s place h in absurd (ground (arith, found, read))
step-Withdrawn (give_up s current now place found was) h = refl
step-Withdrawn (leave s current place found was) h = (moved s place h).1
step-Withdrawn (start s now place) h = absurd (moved s place h)
step-Withdrawn (complete s result now place) h = absurd (moved s place h)
step-Withdrawn (work_fails s e place) h = absurd (moved s place h)
step-Withdrawn (fail_reads s e place) h = absurd (moved s place h)
step-Withdrawn (fail_writes s e now place) h = absurd (moved s place h)
step-Withdrawn (cancel_returns s refused) h = h
step-Withdrawn (cancel_reads s going_on) h = h
step-Withdrawn (cancel_flags s before after was place) h = h
step-Withdrawn (cancel_writes s before after was now place) h =
    subst (Withdrawn s.task) (cancelled_stays s.task s.job h) h

runs-Withdrawn :
    {s t : System} → s ⟶* t → Withdrawn s.task s.job.state → Withdrawn t.task t.job.state
runs-Withdrawn (stay s) h = h
runs-Withdrawn (then_step run step) h = step-Withdrawn step (runs-Withdrawn run h)

-- A task that has gone past its check for a cancellation, to its work or to a failure.
abbrev pub has_begun : Task → Bool
has_begun starting = true
has_begun working = true
has_begun (failing e) = true
has_begun (failing_after e) = true
has_begun _ = false

Withdrawn-has_begun :
    (task : Task) (state : JobState) → Withdrawn task state → has_begun task ≡ false
Withdrawn-has_begun admitted state h = refl
Withdrawn-has_begun (looked current) state h = refl
Withdrawn-has_begun ended state h = refl
Withdrawn-has_begun waiting state h = absurd h
Withdrawn-has_begun starting state h = absurd h
Withdrawn-has_begun working state h = absurd h
Withdrawn-has_begun (failing e) state h = absurd h
Withdrawn-has_begun (failing_after e) state h = absurd h

-- A job that is found cancelled when its task has its permits and has not yet read the job is
-- cancelled at every point of every run from there, and its task is at no point past the check for a
-- cancellation: it is not about to start the work, not at work, and not failing.
pub runs-withdrawn :
    {s t : System}
    → s ⟶* t
    → s.task ≡ admitted
    → s.job.state ≡ cancelled
    → (t.job.state ≡ cancelled) × (has_begun t.task ≡ false)
runs-withdrawn {s} {t} run place h =
    let kept = runs-Withdrawn run (subst (λ task. Withdrawn task s.job.state) (sym place) h) in
    (Withdrawn-cancelled t.task t.job.state kept, Withdrawn-has_begun t.task t.job.state kept)
