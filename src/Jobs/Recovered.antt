-- ===== src/Jobs/Recovered.antt =====
-- What a restart leaves of the jobs.
use ketebe_oss.Base.{
  ℕ, suc, ◌+◌, ◌≡◌, refl, sym, ap, ap₂, ◌∙◌, true, Bool-cases, inl, inr, Option, none, some, [],
  ◌∷◌, if◌then◌else◌, arith,
}
use ketebe_oss.Base.Result.{ok}
use ketebe_oss.Base.Map.{
  get, insert, Sorted, Above, Entries, is_eq, insert-Sorted, get-insert_self, get-insert_ne,
  Map-ext, map_values, map_option, get-map_values, get-head, get-Above, get_other, insert_same,
  Entries-itself, map_values-Sorted, map_values-Entries,
}
use ketebe_oss.Jobs.Records.{JobRecord, is_terminal, interrupted_update, touch}
use ketebe_oss.Base.Order.{number_ord}
use ketebe_oss.Jobs.Store.{
  JobFiles, recover_job, recover_listed, recover_files, recover_interrupted,
}
use ketebe_oss.Jobs.Stored.{IsJob, IsStore, validate_record-ok}

-- A job after a restart: over as it was, or failed.
abbrev pub settle : ℕ → JobRecord → JobRecord
settle now job = if is_terminal job.state then job else touch now (interrupted_update job)

abbrev pub unfinished : JobFiles → ℕ
unfinished [] = 0
unfinished ((name, job) ∷ files) =
    if is_terminal job.state then unfinished files else suc (unfinished files)

settle-IsJob : (now name : ℕ) (job : JobRecord) → IsJob name job → IsJob name (settle now job)
unfolding interrupted_update
settle-IsJob now name job h = elim (Bool-cases (is_terminal job.state)) [
  | inl over ↦ rw (over) h
  | inr open_job ↦
      rw (open_job)
        (record { numbered = h.numbered; versioned = h.versioned; positive = h.positive })
]

pub settle-is_terminal : (now : ℕ) (job : JobRecord) → is_terminal (settle now job).state ≡ true
unfolding interrupted_update
settle-is_terminal now job = ground arith

-- The loop at a file that holds `job`.
recover_job-settle :
    (now n name : ℕ) (job : JobRecord) (files : JobFiles)
    → IsJob name job
    → get name files ≡ some job
    → Sorted files
    → recover_job now job files n
      ≡ ok ((if is_terminal job.state then n else n + 1), insert name (settle now job) files)
unfolding recover_job interrupted_update
recover_job-settle now n name job files h g s = elim (Bool-cases (is_terminal job.state)) [
  | inl over ↦
      rw (validate_record-ok name job h, over)
        (ap (λ l. ok (n, l)) (sym (insert_same name job files s g)))
  | inr open_job ↦
      rw (validate_record-ok name job h, open_job)
        (ap (λ i. ok (n + 1, insert i (touch now (interrupted_update job)) files)) h.numbered)
]

abbrev settle_all : ℕ → JobFiles → JobFiles → JobFiles
settle_all now [] files = files
settle_all now ((name, job) ∷ rest) files = settle_all now rest (insert name (settle now job) files)

-- The files hold what is listed of them.
abbrev Holds : JobFiles → JobFiles → Type 0
Holds rest files = Entries (λ name job. get name files ≡ some job) rest

Holds-insert :
    (rest files : JobFiles) (name : ℕ) (job : JobRecord)
    → Above name rest
    → Holds rest files
    → Holds rest (insert name job files)
Holds-insert [] files name job a h = tt
Holds-insert ((other, x) ∷ rest) files name job a h = (
  get-insert_ne name other job files (ap is_eq (number_ord.gt_of_lt name other a.0)) ∙ h.0,
  Holds-insert rest files name job a.1 h.1,
)

recover_files-settle :
    (now : ℕ) (rest files : JobFiles) (n : ℕ)
    → Sorted rest
    → Entries IsJob rest
    → Holds rest files
    → Sorted files
    → recover_files now rest files n ≡ ok (n + unfinished rest, settle_all now rest files)
unfolding recover_files recover_listed
recover_files-settle now [] files n s e h o = ap (λ i. ok (i, files)) (omega arith)
recover_files-settle now ((name, job) ∷ rest) files n s e h o =
    let next = insert name (settle now job) files in
    let later =
      recover_files-settle now rest next (if is_terminal job.state then n else n + 1) s.1 e.1
        (Holds-insert rest files name (settle now job) s.0 h.1)
        (insert-Sorted name (settle now job) files o) in
    rw (h.0, recover_job-settle now n name job files e.0 h.0 o)
      (later ∙ ap (λ i. ok (i, settle_all now rest next)) (ground arith))

abbrev settled_or : ℕ → Option JobRecord → Option JobRecord → Option JobRecord
settled_or now (some job) old = some (settle now job)
settled_or now none old = old

get-settle_all :
    (now j : ℕ) (rest files : JobFiles)
    → Sorted rest
    → get j (settle_all now rest files) ≡ settled_or now (get j rest) (get j files)
unfolding get
get-settle_all now j [] files s = refl
get-settle_all now j ((name, job) ∷ rest) files s =
    let next = insert name (settle now job) files in
    get-settle_all now j rest next s.1 ∙ (elim (Bool-cases (is_eq (number_ord.cmp j name))) [
      | inr other ↦
          rw (get_other j name job rest other, get-insert_ne name j (settle now job) files other)
      | inl same ↦
          let key : j ≡ name = ground (arith, same) in
          rw (
            key,
            get-Above name rest s.0,
            get-insert_self name (settle now job) files,
            get-head name job rest,
          )
    ])

settle_all-Sorted :
    (now : ℕ) (rest files : JobFiles) → Sorted files → Sorted (settle_all now rest files)
settle_all-Sorted now [] files s = s
settle_all-Sorted now ((name, job) ∷ rest) files s =
    settle_all-Sorted now rest _ (insert-Sorted name (settle now job) files s)

pub recover_interrupted-settle :
    (files : JobFiles) (now : ℕ)
    → IsStore files
    → (recover_interrupted files now ≡ ok (unfinished files, map_values (settle now) files))
      × IsStore (map_values (settle now) files)
      × Entries (λ name job. is_terminal job.state ≡ true) (map_values (settle now) files)
unfolding recover_interrupted
recover_interrupted-settle files now h =
    let all = settle_all now files files in
    let same : all ≡ map_values (settle now) files =
      Map-ext all (map_values (settle now) files) (settle_all-Sorted now files files h.ordered)
        (map_values-Sorted (settle now) files h.ordered)
        (λ j.
          get-settle_all now j files files h.ordered
          ∙ settled_or-itself (get j files)
          ∙ sym (get-map_values (settle now) j files)) in
    (
      recover_files-settle now files files 0 h.ordered h.filed (Entries-itself files h.ordered)
            h.ordered
          ∙ ap₂ (λ n l. ok (n, l)) (omega arith) same,
      record {
        ordered = map_values-Sorted (settle now) files h.ordered;
        filed = map_values-Entries (settle now) IsJob IsJob files (settle-IsJob now) h.filed;
      },
      map_values-Entries (settle now) IsJob _ files (λ name job valid. settle-is_terminal now job)
          h.filed,
    )
  where
    settled_or-itself :
        (old : Option JobRecord) → settled_or now old old ≡ map_option (settle now) old
    settled_or-itself none = refl
    settled_or-itself (some job) = refl
