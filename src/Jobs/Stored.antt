-- ===== src/Jobs/Stored.antt =====
-- The job files between operations, and what `create` and `update` do to them.
use ketebe_oss.Base.{
  ℕ, ◌+◌, ◌-◌, ◌^◌, ◌≤◌, ◌<◌, ◌≡◌, refl, sym, ap, ◌∙◌, subst, Bool-cases, inl, inr, none, some, [],
  ◌∷◌, ltb, arith,
}
use ketebe_oss.Base.Result.{ok}
use ketebe_oss.Base.Map.{
  get, insert, Sorted, Entries, insert-Sorted, insert-Entries, get-insert_self, Entries-get,
}
use ketebe_oss.Jobs.Records.{JobRecord, JobKind, queued, job_version, touch}
use ketebe_oss.Base.Order.{number_ord}
use ketebe_oss.Jobs.Store.{JobFiles, validate_record, max_id, next_id, read, create, update}

-- What a file of the number `name` holds.
pub record IsJob (name : ℕ) (job : JobRecord) : Type 0 where
  pub numbered : job.id ≡ name
  pub versioned : job.version ≡ job_version
  pub positive : 1 ≤ name

-- Well-formed files: in the order of their numbers, each with a job of its number.
pub record IsStore (files : JobFiles) : Type 0 where
  pub ordered : Sorted files
  pub filed : Entries IsJob files

pub validate_record-ok : (name : ℕ) (job : JobRecord) → IsJob name job → validate_record job ≡ ok tt
unfolding validate_record
validate_record-ok name job h = ground (arith, h.numbered, h.versioned, h.positive)

pub read-stored :
    (files : JobFiles) (id : ℕ) (job : JobRecord)
    → IsStore files
    → get id files ≡ some job
    → read files id ≡ ok job
unfolding read
read-stored files id job h g =
    let valid = Entries-get IsJob id job files h.filed g in
    rw (g, read, validate_record-ok id job valid) (ground (arith, valid.numbered))

max_id-fresh : (files : JobFiles) (id : ℕ) → max_id files < id → get id files ≡ none
unfolding max_id get
max_id-fresh [] id h = refl
max_id-fresh ((name, job) ∷ files) id h = ground (arith, max_id-fresh files id)

IsStore-insert :
    (files : JobFiles) (job : JobRecord)
    → IsStore files
    → IsJob job.id job
    → IsStore (insert job.id job files)
IsStore-insert files job h j = record {
  ordered = insert-Sorted job.id job files h.ordered;
  filed = insert-Entries IsJob job.id job files j h.filed;
}

-- `create` files a queued job under a number that no file had and changes no other file. The files
-- stay well-formed, and the job can be read back.
pub create-stored :
    (files : JobFiles) (kind : JobKind) (now : ℕ) (job : JobRecord) (after : JobFiles)
    → IsStore files
    → create files kind now ≡ ok (job, after)
    → (get job.id files ≡ none)
      × (job.state ≡ queued)
      × (job.kind ≡ kind)
      × (after ≡ insert job.id job files)
      × (read after job.id ≡ ok job)
      × IsStore after
unfolding create next_id
create-stored files kind now job after h c = elim (Bool-cases (ltb (max_id files) (2 ^ 64 - 1))) [
  | inr full ↦ absurd (ground (arith, c, full))
  | inl room ↦
      let number : job.id ≡ max_id files + 1 = ground (arith, c, room) in
      let same : after ≡ insert job.id job files = ground (arith, c, room) in
      let valid : IsJob job.id job = record {
        numbered = refl;
        versioned = ground (arith, c, room);
        positive = omega (arith, number);
      } in
      let stored : IsStore after = subst IsStore (sym same) (IsStore-insert files job h valid) in
      (
        max_id-fresh files job.id (omega (arith, number)),
        ground (arith, c, room),
        ground (arith, c, room),
        same,
        read-stored after job.id job stored
            (ap (get job.id) same ∙ get-insert_self job.id job files),
        stored,
      )
]

pub update-stored :
    (files : JobFiles) (id : ℕ) (change : JobRecord → JobRecord) (now : ℕ) (job : JobRecord)
    → IsStore files
    → get id files ≡ some job
    → (change job).id ≡ job.id
    → (change job).version ≡ job.version
    → (update files id change now
        ≡ ok (touch now (change job), insert id (touch now (change job)) files))
      × IsStore (insert id (touch now (change job)) files)
unfolding update
update-stored files id change now job h g same_id same_version =
    let valid = Entries-get IsJob id job files h.filed g in
    let number : (change job).id ≡ id = same_id ∙ valid.numbered in
    let next : IsJob id (touch now (change job)) = record {
      numbered = number;
      versioned = same_version ∙ valid.versioned;
      positive = valid.positive;
    } in
    (
      rw (read-stored files id job h g)
          (ap (λ n. ok (touch now (change job), insert n (touch now (change job)) files)) number),
      record {
        ordered = insert-Sorted id (touch now (change job)) files h.ordered;
        filed = insert-Entries IsJob id (touch now (change job)) files next h.filed;
      },
    )
