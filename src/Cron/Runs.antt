-- ===== src/Cron/Runs.antt =====
-- All runs of the manager of pkg/cron/cron.go: its tasks and the entries of its scheduler.
use go_admin.Common.{
  ℕ, ◌≡◌, refl, sym, ap, subst, ◌∙◌, inl, inr, Bool, true, false, Option, none, some, [], Bytes,
  if◌then◌else◌, nat_eq, text_eq, Elem, find, arith,
}
use go_admin.Cron.{
  fire, due, unless_disabled, get_task_status, status_or, TaskStatus, running, paused, not_exist,
  Scheduler, WrappedTask, ManagedJob, new_task_manager, lookup, job_of,
}
use go_admin.Cron.Steps.{
  SchedulerLaws, World, Step, Reach, adds, begins_removal, finishes_removal, stores, created, after,
}
use go_admin.Cron.Sound.{IsSound}
use go_admin.Cron.Sound.Jobs.{store-IsSound}
use go_admin.Cron.Sound.Removal.{begin-IsSound, finish-IsSound}
use go_admin.Cron.Sound.Adding.{add-IsSound}

-- What an entry of a task with that status runs.
abbrev pub by_status : {F : Type 0} → TaskStatus → F → Option F
by_status running task = some task
by_status paused task = none
by_status not_exist task = none

module _ {C D F : Type 0} (cron : Scheduler C D F) (laws : SchedulerLaws cron) where
  created-IsSound : IsSound cron (record { tm = new_task_manager cron; removing = [] })
  unfolding find
  created-IsSound = record {
    scheduled = λ name ref h. cc;
    apart = λ name other ref h h'. cc;
    accounted = λ id wrapped h. cc (laws.entry-start id);
    pending = λ id h. absurd h;
    distinct = tt;
    fresh = λ ref job h. cc;
  }

  Step-IsSound : {v w : World C D} → Step cron v w → IsSound cron v → IsSound cron w
  Step-IsSound (adds name expr task w) s = add-IsSound cron laws name expr task w s
  Step-IsSound (begins_removal name w) s = begin-IsSound cron laws name w s
  Step-IsSound (finishes_removal id w m) s = finish-IsSound cron laws id w m s
  Step-IsSound (stores o b w) s = store-IsSound cron o b w s

  Reach-IsSound : {w : World C D} → Reach cron w → IsSound cron w
  Reach-IsSound created = created-IsSound
  Reach-IsSound (after r st) = Step-IsSound st (Reach-IsSound r)

  agree :
      (o : Option (ManagedJob D)) (task : F)
      → unless_disabled cron task o ≡ by_status (status_or cron o) task
  agree none task = refl
  agree (some job) task = go job.disabled
    where
      go :
          (b : Bool)
          → (if b then none else some task) ≡ by_status (if b then paused else running) task
      go true = refl
      go false = refl

  -- In every state that the steps of the calls of a manager reach, in any order: the job of a task
  -- has an entry in the scheduler, and what the scheduler runs when the entry is due is the task
  -- if GetTaskStatus answers running, and nothing if it answers paused.
  pub lookup-fire :
      (w : World C D) (name : Bytes) (job : ManagedJob D)
      → Reach cron w
      → lookup cron name w.tm ≡ some job
      → (task : F) × (ref : ℕ) × (cron.entry job.entry_id w.tm.scheduler
          ≡ some (record { job = ref; task = task }))
        × (fire cron job.entry_id w.tm ≡ by_status (get_task_status cron name w.tm) task)
  unfolding lookup fire get_task_status
  lookup-fire w name job r h = go (find name w.tm.tasks) refl h
    where
      s : IsSound cron w
      s = Reach-IsSound r

      go :
          (o : Option ℕ)
          → find name w.tm.tasks ≡ o
          → job_of cron w.tm o ≡ some job
          → (task : F) × (ref : ℕ) × (cron.entry job.entry_id w.tm.scheduler
              ≡ some (record { job = ref; task = task }))
            × (fire cron job.entry_id w.tm ≡ by_status (status_or cron (job_of cron w.tm o)) task)
      go none t e = cc
      go (some ref) t e =
          let (j, task, e', entry, n) = s.scheduled name ref t in
          let one : some j ≡ some job = sym e' ∙ e in
          let same : j ≡ job = ground (arith, one) in
          let entry' : cron.entry job.entry_id w.tm.scheduler
              ≡ some (record { job = ref; task = task }) =
            ap (λ x. cron.entry x.entry_id w.tm.scheduler) (sym same) ∙ entry in
          (task, ref, entry', ap (due cron w.tm) entry' ∙ agree (find ref w.tm.jobs) task)

  -- In every such state in which no RemoveTask is between its two steps, every entry of the
  -- scheduler is the entry of the job of a task of the manager.
  pub entry-lookup :
      (w : World C D) (id : ℕ) (wrapped : WrappedTask F)
      → Reach cron w
      → w.removing ≡ []
      → cron.entry id w.tm.scheduler ≡ some wrapped
      → (name : Bytes) × (job : ManagedJob D) × (lookup cron name w.tm ≡ some job)
        × (job.entry_id ≡ id)
  unfolding lookup
  entry-lookup w id wrapped r none_pending e = elim ((Reach-IsSound r).accounted id wrapped e) [
    | inl k ↦ absurd (subst (λ ids. Elem id ids) none_pending k)
    | inr (name, job, t, e', i) ↦ (name, job, ap (job_of cron w.tm) t ∙ e', i)
  ]
