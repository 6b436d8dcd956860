-- ===== src/Cron/Sound.antt =====
-- What holds of the manager of pkg/cron/cron.go and of its scheduler between any two steps.
pub mod Jobs
pub mod Removal
pub mod Adding
use go_admin.Common.{
  ℕ, suc, ◌+◌, ◌<◌, ◌≤◌, ◌≡◌, ◌≢◌, refl, sym, ap, subst, ◌∙◌, ◌⊎◌, inl, inr, Bool, true, false,
  Bool-cases, Option, none, some, Option-cases, List, [], ◌∷◌, Bytes, if◌then◌else◌, ◌==◌, nat_eq,
  text_eq, list_beq_iff, nat_beq_iff, Elem, find, erase, assign, find-assign, find-erase, arith,
}
use go_admin.Outcome.{Outcome, ok, err, panic}
use go_admin.Cron.{
  Scheduler, WrappedTask, ManagedJob, TaskManager, new_task_manager, add_task, add_parsed,
  add_unless, added, remove_begin, remove_finish, store, store_in, lookup, unmapped, job_of,
}
use go_admin.Cron.Steps.{
  SchedulerLaws, entry_after, World, with_pending, without, Step, Reach, adds, begins_removal,
  finishes_removal, stores, created, after,
}

abbrev pub Distinct : List ℕ → Type 0
Distinct [] = Unit
Distinct (x ∷ xs) = (¬ Elem x xs) × Distinct xs

pub Elem-without :
    (id j : ℕ) (xs : List ℕ) → Distinct xs → Elem j (without id xs) → Elem j xs × (j ≢ id)
unfolding without
Elem-without id j [] d h = absurd h
Elem-without id j (x ∷ xs) d h = ground (arith, Elem-without id j xs d.1, nat_beq_iff x id)

pub Elem_of_without : (id j : ℕ) (xs : List ℕ) → Elem j xs → j ≢ id → Elem j (without id xs)
unfolding without
Elem_of_without id j [] h n = absurd h
Elem_of_without id j (x ∷ xs) h n = ground (arith, Elem_of_without id j xs, nat_beq_iff x id)

pub without-Distinct : (id : ℕ) (xs : List ℕ) → Distinct xs → Distinct (without id xs)
unfolding without
without-Distinct id [] d = tt
without-Distinct id (x ∷ xs) d =
    ground (arith, without-Distinct id xs d.1, Elem-without id x xs d.1, nat_beq_iff x id)

abbrev pub job_or : {F : Type 0} → Option (WrappedTask F) → ℕ
job_or none = 0
job_or (some wrapped) = wrapped.job

module _ {C D F : Type 0} (cron : Scheduler C D F) where
  -- The job `ref` of a task has an entry in the scheduler, which is not about to be removed.
  abbrev pub IsScheduled : World C D → ℕ → Type 0
  IsScheduled w ref =
      (job : ManagedJob D) × (task : F) × (find ref w.tm.jobs ≡ some job)
      × (cron.entry job.entry_id w.tm.scheduler ≡ some (record { job = ref; task = task }))
      × (¬ Elem job.entry_id w.removing)

  -- An entry is about to be removed, or is the entry of a task.
  abbrev pub IsAccounted : World C D → ℕ → ℕ → Type 0
  IsAccounted w id ref =
      Elem id w.removing
      ⊎ ((name : Bytes) × (job : ManagedJob D) × (find name w.tm.tasks ≡ some ref)
          × (find ref w.tm.jobs ≡ some job)
          × (job.entry_id ≡ id))

  pub record IsSound (w : World C D) : Type 0 where
    pub scheduled : (name : Bytes) (ref : ℕ) → find name w.tm.tasks ≡ some ref → IsScheduled w ref
    pub apart :
        (name other : Bytes) (ref : ℕ)
        → find name w.tm.tasks ≡ some ref
        → find other w.tm.tasks ≡ some ref
        → name ≡ other
    pub accounted :
        (id : ℕ) (wrapped : WrappedTask F)
        → cron.entry id w.tm.scheduler ≡ some wrapped
        → IsAccounted w id wrapped.job
    pub pending : (id : ℕ) → Elem id w.removing → cron.entry id w.tm.scheduler ≢ none
    pub distinct : Distinct w.removing
    pub fresh : (ref : ℕ) (job : ManagedJob D) → find ref w.tm.jobs ≡ some job → ref < w.tm.next_job
