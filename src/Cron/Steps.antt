-- ===== src/Cron/Steps.antt =====
-- pkg/cron/cron.go in use by several goroutines: the steps in which its calls run, in any order, and
-- what the code relies on in the scheduler of robfig/cron.
use go_admin.Common.{
  ℕ, ◌≡◌, Bool, Option, none, some, List, [], ◌∷◌, Bytes, if◌then◌else◌, ◌==◌, nat_eq, Elem,
}
use go_admin.Outcome.{Outcome, ok, err, panic}
use go_admin.Cron.{
  Scheduler, WrappedTask, TaskManager, new_task_manager, add_task, remove_begin, remove_finish,
  store,
}

abbrev pub entry_after :
    {F : Type 0} → Outcome ℕ → WrappedTask F → ℕ → Option (WrappedTask F) → Option (WrappedTask F)
entry_after (ok id) w j o = if id == j then some w else o
entry_after (err _) w j o = o
entry_after panic w j o = o

-- AddFunc adds an entry under an id that no entry has, or none; Remove removes one.
pub record SchedulerLaws {C D F : Type 0} (cron : Scheduler C D F) : Type 0 where
  pub entry-start : (j : ℕ) → cron.entry j cron.start ≡ none
  pub add_func_fresh :
      (expr : Bytes) (w : WrappedTask F) (c : C) (id : ℕ)
      → (cron.add_func expr w c).0 ≡ ok id
      → cron.entry id c ≡ none
  pub entry-add_func :
      (expr : Bytes) (w : WrappedTask F) (c : C) (j : ℕ)
      → cron.entry j (cron.add_func expr w c).1
        ≡ entry_after (cron.add_func expr w c).0 w j (cron.entry j c)
  pub entry-remove :
      (id j : ℕ) (c : C)
      → cron.entry j (cron.remove id c) ≡ (if id == j then none else cron.entry j c)

-- The manager, and the entries that calls of RemoveTask have yet to remove from the scheduler.
pub record World (C D : Type 0) : Type 0 where
  pub tm : TaskManager C D
  pub removing : List ℕ

abbrev pub with_pending : Option ℕ → List ℕ → List ℕ
with_pending none ids = ids
with_pending (some id) ids = id ∷ ids

-- Without the first occurrence.
unfoldable pub without : ℕ → List ℕ → List ℕ
without id [] = []
without id (i ∷ ids) = let rest = without id ids in if i == id then ids else i ∷ rest

module _ {C D F : Type 0} (cron : Scheduler C D F) where
  pub data Step : World C D → World C D → Type 0 where
    adds :
        (name expr : Bytes) (task : F) (w : World C D)
        → Step w (record w { tm = (add_task cron name expr task w.tm).1 })
    begins_removal :
        (name : Bytes) (w : World C D)
        → Step w (record {
          tm = (remove_begin cron name w.tm).1;
          removing = with_pending (remove_begin cron name w.tm).0 w.removing;
        })
    finishes_removal :
        (id : ℕ) (w : World C D)
        → Elem id w.removing
        → Step w
            (record { tm = remove_finish cron (some id) w.tm; removing = without id w.removing })
    -- The second step of PauseTask and ResumeTask, on a job found at any time before.
    stores :
        (job : Option ℕ) (disabled : Bool) (w : World C D)
        → Step w (record w { tm = store cron job disabled w.tm })

  pub data Reach : World C D → Type 0 where
    created : Reach (record { tm = new_task_manager cron; removing = [] })
    after : {v w : World C D} → Reach v → Step v w → Reach w
