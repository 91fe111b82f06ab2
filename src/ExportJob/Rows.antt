-- ===== src/ExportJob/Rows.antt =====
-- The rows of the queue stand in the order of their keys.
use mathlib.Core.Option.{some-injective, none-ne-some}
use mathlib.Core.Path.{subst}
use gombit_forge.Prelude.{
  ℕ, suc, ◌≤◌, ◌<◌, ◌≡◌, refl, sym, ap, Bool, true, false, Option, none, some, List, [], ◌∷◌, ◌++◌,
  map, any, nat_beq, if◌then◌else◌, ◌∙◌, arith, Bool-cases, inl, inr, nat_beq_iff,
}
use gombit_forge.ExportJob.{
  ExportJob, queued, running, row, is_queued, is_running, is_claimable, claimed, claim_in,
  update_row, keep_head, matches,
}

-- The keys rise, from `lo` on, and stay under `next`.
abbrev pub Ordered : ℕ → ℕ → List ExportJob → Type 0
Ordered lo next [] = lo ≤ next
Ordered lo next (job ∷ rest) = (lo ≤ job.id) × Ordered (suc job.id) next rest

pub Ordered-append :
    (lo next : ℕ) (rows : List ExportJob) (job : ExportJob)
    → Ordered lo next rows
    → job.id ≡ next
    → Ordered lo (suc next) (rows ++ job ∷ [])
Ordered-append lo next [] job h same = (omega arith, omega arith)
Ordered-append lo next (first ∷ rest) job (h, hs) same =
    (h, Ordered-append (suc first.id) next rest job hs same)

row-below :
    (lo next id : ℕ) (rows : List ExportJob) → Ordered lo next rows → id < lo → row rows id ≡ none
unfolding row
row-below lo next id [] h small = refl
row-below lo next id (job ∷ rest) (h, hs) small =
    ground (arith, row-below (suc job.id) next id rest hs (omega arith))

pub update_row-id :
    (id : ℕ) (set : ExportJob → ExportJob) (job : ExportJob)
    → ((j : ExportJob) → (set j).id ≡ j.id)
    → (update_row id set job).id ≡ job.id
update_row-id id set job keeps = elim (Bool-cases (matches id job)) [
  | inl e ↦ ap (λ (j : ExportJob). j.id) (ap (λ b. if b then set job else job) e) ∙ keeps job
  | inr e ↦ ap (λ (j : ExportJob). j.id) (ap (λ b. if b then set job else job) e)
]

pub Ordered-map :
    (lo next : ℕ) (f : ExportJob → ExportJob) (rows : List ExportJob)
    → ((job : ExportJob) → (f job).id ≡ job.id)
    → Ordered lo next rows
    → Ordered lo next (map f rows)
Ordered-map lo next f [] keeps h = h
Ordered-map lo next f (job ∷ rest) keeps (h, hs) =
    rw (keeps job) (h, Ordered-map (suc job.id) next f rest keeps hs)

abbrev pub runs_at : Option ExportJob → Bool
runs_at none = false
runs_at (some job) = is_running job

-- What a claim finds: a row that was queued and that nobody holds, now running.
pub record Found (held : ℕ → Bool) (before after : List ExportJob) (job : ExportJob) : Type 0 where
  pub was : row before job.id ≡ some (record job { status = queued })
  pub now : row after job.id ≡ some job
  pub free : held job.id ≡ false
  pub runs : job.status ≡ running

was_queued : (job : ExportJob) → is_queued job ≡ true → job.status ≡ queued
was_queued job h = ground arith

row-head : (job : ExportJob) (rest : List ExportJob) → row (job ∷ rest) job.id ≡ some job
unfolding row
row-head job rest = rw ((nat_beq_iff job.id job.id).1 refl) refl

row-tail :
    (job : ExportJob) (rest : List ExportJob) (id : ℕ)
    → nat_beq job.id id ≡ false
    → row (job ∷ rest) id ≡ row rest id
unfolding row
row-tail job rest id h = rw h refl

some-above :
    (lo next id : ℕ) (rows : List ExportJob) (job : ExportJob)
    → Ordered lo next rows
    → row rows id ≡ some job
    → lo ≤ id
unfolding row
some-above lo next id [] job h found = absurd (ground arith)
some-above lo next id (first ∷ rest) job (h, hs) found = elim (Bool-cases (nat_beq first.id id)) [
  | inl e ↦ ground (arith, nat_beq_iff first.id id)
  | inr e ↦
      let above =
        some-above (suc first.id) next id rest job hs (sym (row-tail first rest id e) ∙ found) in
      omega (arith, above, h)
]

claimed-Found :
    (held : ℕ → Bool) (first : ExportJob) (rest : List ExportJob)
    → is_claimable held first ≡ true
    → Found held (first ∷ rest) (claimed first ∷ rest) (claimed first)
claimed-Found held first rest c = record {
  was =
      row-head first rest
      ∙ ap (λ st. some (record first { status = st })) (was_queued first (ground arith));
  now = row-head (claimed first) rest;
  free = ground arith;
  runs = refl;
}

later-Found :
    (held : ℕ → Bool) (next : ℕ) (first : ExportJob) (rest after : List ExportJob) (job : ExportJob)
    → Ordered (suc first.id) next rest
    → Found held rest after job
    → Found held (first ∷ rest) (first ∷ after) job
later-Found held next first rest after job hs found =
    let above = some-above (suc first.id) next job.id rest _ hs found.was in
    let differs : nat_beq first.id job.id ≡ false = ground arith in
    record {
      was = row-tail first rest job.id differs ∙ found.was;
      now = row-tail first after job.id differs ∙ found.now;
      free = found.free;
      runs = found.runs;
    }

claim_in-nil : (held : ℕ → Bool) → claim_in held [] ≡ (none, [])
unfolding claim_in
claim_in-nil held = refl

-- One row of a claim.
abbrev pub claim_row :
    (held : ℕ → Bool) → ExportJob → List ExportJob → Bool → Option ExportJob × List ExportJob
claim_row held job rest b =
    if b then (some (claimed job), claimed job ∷ rest) else keep_head job (claim_in held rest)

pub claim_in-cons :
    (held : ℕ → Bool) (job : ExportJob) (rest : List ExportJob)
    → claim_in held (job ∷ rest) ≡ claim_row held job rest (is_claimable held job)
unfolding claim_in
claim_in-cons held job rest = refl

pub claim_in-Found :
    (held : ℕ → Bool) (lo next : ℕ) (rows after : List ExportJob) (job : ExportJob)
    → Ordered lo next rows
    → claim_in held rows ≡ (some job, after)
    → Found held rows after job
claim_in-Found held lo next [] after job h e = absurd (
    none-ne-some _
      (ap (λ (p : Option ExportJob × List ExportJob). p.0) (sym (claim_in-nil held) ∙ e)))
claim_in-Found held lo next (first ∷ rest) after job (h, hs) e =
    elim (Bool-cases (is_claimable held first)) [
      | inl c ↦
          let e' : claim_row held first rest true ≡ (some job, after) =
            ap (claim_row held first rest) (sym c) ∙ sym (claim_in-cons held first rest) ∙ e in
          subst (λ a. Found held (first ∷ rest) a job) (ap (λ p. p.1) e')
            (subst (λ j. Found held (first ∷ rest) (claimed first ∷ rest) j)
              (some-injective _ _ (ap (λ p. p.0) e')) (claimed-Found held first rest c))
      | inr c ↦
          let e' : claim_row held first rest false ≡ (some job, after) =
            ap (claim_row held first rest) (sym c) ∙ sym (claim_in-cons held first rest) ∙ e in
          subst (λ a. Found held (first ∷ rest) a job) (ap (λ p. p.1) e')
            (later-Found held next first rest _ job hs (
              claim_in-Found held (suc first.id) next rest (claim_in held rest).1 job hs
                (λ i. ((e' i).0, (claim_in held rest).1))))
    ]

update_row-first :
    (id : ℕ) (set : ExportJob → ExportJob) (first : ExportJob) (rest : List ExportJob)
    → ((j : ExportJob) → (set j).id ≡ j.id)
    → nat_beq first.id id ≡ true
    → is_running first ≡ true
    → (any (matches id) (first ∷ rest) ≡ true)
      × (row (map (update_row id set) (first ∷ rest)) id ≡ some (set first))
unfolding row
update_row-first id set first rest keeps e r =
    (ground arith, rw e (rw r (rw (keeps first) (rw e refl))))

-- The update of `finish` reaches the running row that the table finds.
pub row-update_row :
    (id : ℕ) (set : ExportJob → ExportJob) (rows : List ExportJob) (job : ExportJob)
    → ((j : ExportJob) → (set j).id ≡ j.id)
    → row rows id ≡ some job
    → is_running job ≡ true
    → (any (matches id) rows ≡ true) × (row (map (update_row id set) rows) id ≡ some (set job))
unfolding row
row-update_row id set [] job keeps found runs = absurd (ground arith)
row-update_row id set (first ∷ rest) job keeps found runs =
    elim (Bool-cases (nat_beq first.id id)) [
      | inl e ↦
          let same : first ≡ job =
            some-injective _ _ (ap (λ b. if b then some first else row rest id) (sym e) ∙ found) in
          subst
            (λ j.
              (any (matches id) (first ∷ rest) ≡ true)
              × (row (map (update_row id set) (first ∷ rest)) id ≡ some (set j)))
            same (update_row-first id set first rest keeps e (ap is_running same ∙ runs))
      | inr e ↦
          let (there, now) =
            row-update_row id set rest job keeps (sym (row-tail first rest id e) ∙ found) runs in
          (ground arith, rw e (rw e now))
    ]

matches-row-below :
    (lo next id : ℕ) (rows : List ExportJob)
    → Ordered lo next rows
    → id < lo
    → any (matches id) rows ≡ false
matches-row-below lo next id [] h small = refl
matches-row-below lo next id (job ∷ rest) (h, hs) small =
    ground (arith, matches-row-below (suc job.id) next id rest hs (omega arith))

-- `finish` matches a row exactly when the row with the key is running.
pub matches-row :
    (lo next id : ℕ) (rows : List ExportJob)
    → Ordered lo next rows
    → any (matches id) rows ≡ runs_at (row rows id)
unfolding row
matches-row lo next id [] h = refl
matches-row lo next id (job ∷ rest) (h, hs) = ground (
  arith,
  nat_beq_iff job.id id,
  matches-row (suc job.id) next id rest hs,
  matches-row-below (suc job.id) next id rest hs,
)
