-- ===== src/Cron/Sound/Adding.antt =====
-- AddTask of pkg/cron/cron.go keeps what holds between steps.
use go_admin.Common.{
  ℕ, suc, ◌<◌, ◌≡◌, ◌≢◌, refl, sym, ap, ◌∙◌, ◌⊎◌, inl, inr, true, Bool-cases, Option, none, some,
  Bytes, if◌then◌else◌, ◌==◌, nat_eq, text_eq, list_beq_iff, nat_beq_iff, find, assign, find-assign,
  arith,
}
use go_admin.Outcome.{Outcome, ok, err, panic}
use go_admin.Cron.{Scheduler, WrappedTask, ManagedJob, add_task, add_parsed, add_unless, added}
use go_admin.Cron.Steps.{SchedulerLaws, entry_after, World}
use go_admin.Cron.Sound.{job_or, IsSound}

module _ {C D F : Type 0} (cron : Scheduler C D F) (laws : SchedulerLaws cron) where
  entry-after :
      (expr : Bytes) (wrapped : WrappedTask F) (c : C) (o : Outcome ℕ) (c' : C)
      → cron.add_func expr wrapped c ≡ (o, c')
      → (j : ℕ) → cron.entry j c' ≡ entry_after o wrapped j (cron.entry j c)
  entry-after expr wrapped c o c' e j =
      ap (λ x. cron.entry j x.1) (sym e)
      ∙ laws.entry-add_func expr wrapped c j
      ∙ ap (λ x. entry_after x.0 wrapped j (cron.entry j c)) e

  scheduler-IsSound :
      (c : C) (w : World C D)
      → ((j : ℕ) → cron.entry j c ≡ cron.entry j w.tm.scheduler)
      → IsSound cron w
      → IsSound cron (record w { tm = record (w.tm) { scheduler = c } })
  scheduler-IsSound c w same s = record {
    scheduled = λ name ref h.
        let (job, task, e, entry, n) = s.scheduled name ref h in
        (job, task, e, same job.entry_id ∙ entry, n);
    apart = s.apart;
    accounted = λ id wrapped h. s.accounted id wrapped (sym (same id) ∙ h);
    pending = λ id h gone. s.pending id h (sym (same id) ∙ gone);
    distinct = s.distinct;
    fresh = s.fresh;
  }

  -- A new job and its entry, under a name without a task.
  new-IsSound :
      (name : Bytes) (task : F) (id : ℕ) (job : ManagedJob D) (c : C) (w : World C D)
      → find name w.tm.tasks ≡ none
      → job.entry_id ≡ id
      → cron.entry id w.tm.scheduler ≡ none
      → ((j : ℕ)
          → cron.entry j c ≡ (
              if id == j
              then some (record { job = w.tm.next_job; task = task })
              else cron.entry j w.tm.scheduler))
      → IsSound cron w
      → IsSound cron (record w {
        tm = record {
          scheduler = c;
          tasks = assign name w.tm.next_job w.tm.tasks;
          jobs = assign w.tm.next_job job w.tm.jobs;
          next_job = suc w.tm.next_job;
        };
      })
  new-IsSound name task id job c w free has unused entries s = record {
    scheduled = λ nm ref h. elim (cases nm ref h) [
      | inl (same, new) ↦ (
        job,
        task,
        ground (arith, find-assign w.tm.next_job ref job w.tm.jobs, nat_beq_iff w.tm.next_job ref),
        ground (arith, entries job.entry_id, nat_beq_iff id job.entry_id),
        λ k. s.pending job.entry_id k (ap (λ i. cron.entry i w.tm.scheduler) has ∙ unused),
      )
      | inr (other, before) ↦
          (let (j, t, e, entry, n) = s.scheduled nm ref before in
            (
              j,
              t,
              ground (
                arith,
                s.fresh ref j e,
                find-assign w.tm.next_job ref job w.tm.jobs,
                nat_beq_iff w.tm.next_job ref,
              ),
              ground (arith, entries j.entry_id, nat_beq_iff id j.entry_id),
              n,
            ))
    ];
    apart = λ nm other ref h h'. elim (cases nm ref h) [
      | inl (same, new) ↦ elim (cases other ref h') [
        | inl (same', _) ↦ sym same ∙ same'
        | inr (_, before) ↦ absurd (omega (arith, old other ref before))
      ]
      | inr (_, before) ↦ elim (cases other ref h') [
        | inl (same', new) ↦ absurd (omega (arith, old nm ref before))
        | inr (_, before') ↦ s.apart nm other ref before before'
      ]
    ];
    accounted = λ j wrapped h. elim (Bool-cases (id == j)) [
      | inl same ↦ inr (
        name,
        job,
        task_at j wrapped h same,
        job_at j wrapped h same,
        has ∙ (nat_beq_iff id j).0 same,
      )
      | inr other ↦ elim (s.accounted j wrapped (ground (arith, entries j))) [
        | inl k ↦ inl k
        | inr (nm, jb, t, e, i) ↦ inr (
          nm,
          jb,
          ground (arith, find-assign name nm w.tm.next_job w.tm.tasks, list_beq_iff name nm),
          ground (
            arith,
            s.fresh wrapped.job jb e,
            find-assign w.tm.next_job wrapped.job job w.tm.jobs,
            nat_beq_iff w.tm.next_job wrapped.job,
          ),
          i,
        )
      ]
    ];
    pending = λ j h gone. s.pending j h (ground (arith, entries j));
    distinct = s.distinct;
    fresh = λ r j h. ground (
      arith,
      s.fresh r j,
      find-assign w.tm.next_job r job w.tm.jobs,
      nat_beq_iff w.tm.next_job r,
    );
  }
    where
      cases :
          (nm : Bytes) (ref : ℕ)
          → find nm (assign name w.tm.next_job w.tm.tasks) ≡ some ref
          → ((name ≡ nm) × (ref ≡ w.tm.next_job)) ⊎ ((name ≢ nm) × (find nm w.tm.tasks ≡ some ref))
      cases nm ref h =
          ground (arith, find-assign name nm w.tm.next_job w.tm.tasks, list_beq_iff name nm)

      is_new :
          (j : ℕ) (wrapped : WrappedTask F)
          → cron.entry j c ≡ some wrapped
          → (id == j) ≡ true
          → wrapped.job ≡ w.tm.next_job
      is_new j wrapped h same =
          let found : some wrapped ≡ some (record { job = w.tm.next_job; task = task }) =
            sym h
            ∙ entries j
            ∙ ap
                (λ b.
                  if b
                  then some (record { job = w.tm.next_job; task = task })
                  else cron.entry j w.tm.scheduler)
                same in
          ap (λ o. job_or o) found

      task_at :
          (j : ℕ) (wrapped : WrappedTask F)
          → cron.entry j c ≡ some wrapped
          → (id == j) ≡ true
          → find name (assign name w.tm.next_job w.tm.tasks) ≡ some wrapped.job
      task_at j wrapped h same = ground (
        arith,
        is_new j wrapped h same,
        find-assign name name w.tm.next_job w.tm.tasks,
        list_beq_iff name name,
      )

      job_at :
          (j : ℕ) (wrapped : WrappedTask F)
          → cron.entry j c ≡ some wrapped
          → (id == j) ≡ true
          → find wrapped.job (assign w.tm.next_job job w.tm.jobs) ≡ some job
      job_at j wrapped h same = ground (
        arith,
        is_new j wrapped h same,
        find-assign w.tm.next_job wrapped.job job w.tm.jobs,
        nat_beq_iff w.tm.next_job wrapped.job,
      )

      old : (nm : Bytes) (ref : ℕ) → find nm w.tm.tasks ≡ some ref → ref < w.tm.next_job
      old nm ref h = let (j, t, e, _, _) = s.scheduled nm ref h in s.fresh ref j e

  added-IsSound :
      (name expr : Bytes) (schedule : D) (task : F) (w : World C D)
      → find name w.tm.tasks ≡ none
      → IsSound cron w
      → (o : Outcome ℕ) (c : C)
      → cron.add_func expr (record { job = w.tm.next_job; task = task }) w.tm.scheduler ≡ (o, c)
      → IsSound cron (record w { tm = (added cron name expr schedule (o, c) w.tm).1 })
  added-IsSound name expr schedule task w free s (ok id) c e =
      new-IsSound name task id _ c w free refl
        (laws.add_func_fresh expr _ w.tm.scheduler id (ap (λ x. x.0) e))
        (entry-after expr _ w.tm.scheduler (ok id) c e) s
  added-IsSound name expr schedule task w free s (err f) c e =
      scheduler-IsSound c w (entry-after expr _ w.tm.scheduler (err f) c e) s
  added-IsSound name expr schedule task w free s panic c e =
      scheduler-IsSound c w (entry-after expr _ w.tm.scheduler panic c e) s

  pub add-IsSound :
      (name expr : Bytes) (task : F) (w : World C D)
      → IsSound cron w
      → IsSound cron (record w { tm = (add_task cron name expr task w.tm).1 })
  unfolding add_task
  add-IsSound name expr task w s = go (find name w.tm.tasks) refl
    where
      parsed :
          (o : Outcome D)
          → find name w.tm.tasks ≡ none
          → IsSound cron (record w { tm = (add_parsed cron name expr task o w.tm).1 })
      parsed (ok schedule) free = added-IsSound name expr schedule task w free s _ _ refl
      parsed (err e) free = s
      parsed panic free = s

      go :
          (o : Option ℕ)
          → find name w.tm.tasks ≡ o
          → IsSound cron (record w { tm = (add_unless cron name expr task o w.tm).1 })
      go none e = parsed (cron.parse_standard expr) e
      go (some ref) e = s
