-- ===== src/Cron/Sound/Removal.antt =====
-- The two steps of RemoveTask of pkg/cron/cron.go keep what holds between steps.
use go_admin.Common.{
  ℕ, ◌≡◌, ◌≢◌, refl, sym, ap, subst, ◌∙◌, inl, inr, Bool-cases, Option, none, some, ◌∷◌, Bytes,
  ◌==◌, nat_eq, text_eq, list_beq_iff, nat_beq_iff, Elem, find, erase, find-erase, arith,
}
use go_admin.Cron.{
  Scheduler, WrappedTask, ManagedJob, remove_begin, remove_finish, lookup, unmapped, job_of,
}
use go_admin.Cron.Steps.{SchedulerLaws, World, with_pending, without}
use go_admin.Cron.Sound.{Elem-without, Elem_of_without, without-Distinct, job_or, IsSound}

module _ {C D F : Type 0} (cron : Scheduler C D F) (laws : SchedulerLaws cron) where
  pub finish-IsSound :
      (id : ℕ) (w : World C D)
      → Elem id w.removing
      → IsSound cron w
      → IsSound cron
          (record { tm = remove_finish cron (some id) w.tm; removing = without id w.removing })
  unfolding remove_finish
  finish-IsSound id w m s = record {
    scheduled = λ name ref h.
        let (job, task, e, e', n) = s.scheduled name ref h in
        (
          job,
          task,
          e,
          ground (
            arith,
            laws.entry-remove id job.entry_id w.tm.scheduler,
            nat_beq_iff id job.entry_id,
          ),
          λ k. n ((Elem-without id job.entry_id w.removing s.distinct k).0),
        );
    apart = s.apart;
    accounted = λ j wrapped h.
        let (n, before) = kept j wrapped h in
        elim (s.accounted j wrapped before) [
          | inl k ↦ inl (Elem_of_without id j w.removing k n)
          | inr owner ↦ inr owner
        ];
    pending = λ j h. ground (
      arith,
      Elem-without id j w.removing s.distinct h,
      s.pending j,
      laws.entry-remove id j w.tm.scheduler,
      nat_beq_iff id j,
    );
    distinct = without-Distinct id w.removing s.distinct;
    fresh = s.fresh;
  }
    where
      kept :
          (j : ℕ) (wrapped : WrappedTask F)
          → cron.entry j (cron.remove id w.tm.scheduler) ≡ some wrapped
          → (j ≢ id) × (cron.entry j w.tm.scheduler ≡ some wrapped)
      kept j wrapped h = ground (arith, laws.entry-remove id j w.tm.scheduler, nat_beq_iff id j)

  unmapped-IsSound :
      (name : Bytes) (ref : ℕ) (job : ManagedJob D) (w : World C D)
      → find name w.tm.tasks ≡ some ref
      → find ref w.tm.jobs ≡ some job
      → IsSound cron w
      → IsSound cron (record {
        tm = record (w.tm) { tasks = erase name w.tm.tasks };
        removing = job.entry_id ∷ w.removing;
      })
  unmapped-IsSound name ref job w t e s = record {
    scheduled = λ nm r h.
        let (n, before) = kept nm r h in
        let (j, task, e', entry, m) = s.scheduled nm r before in
        (
          j,
          task,
          e',
          entry,
          λ k. elim k [
            | inl same ↦ n (s.apart name nm ref t (before ∙ ap some (one_job r j task same entry)))
            | inr k ↦ m k
          ],
        );
    apart = λ nm other r h h'. s.apart nm other r (kept nm r h).1 (kept other r h').1;
    accounted = λ id wrapped h. elim (s.accounted id wrapped h) [
      | inl k ↦ inl (inr k)
      | inr (nm, j, t', e', i) ↦ elim (Bool-cases (name == nm)) [
        | inl same ↦ inl (inl (ground (arith, list_beq_iff name nm)))
        | inr other ↦ inr (nm, j, ground (arith, find-erase name nm w.tm.tasks), e', i)
      ]
    ];
    pending = λ id h. elim h [
      | inl same ↦ (λ gone. cc (own.1, ap (λ i. cron.entry i w.tm.scheduler) same))
      | inr k ↦ s.pending id k
    ];
    distinct = (own.2, s.distinct);
    fresh = s.fresh;
  }
    where
      own :
          (task : F) × (cron.entry job.entry_id w.tm.scheduler
            ≡ some (record { job = ref; task = task }))
          × (¬ Elem job.entry_id w.removing)
      own =
          let (j, task, e', entry, n) = s.scheduled name ref t in
          let same : j ≡ job = ground arith in
          (
            task,
            ap (λ x. cron.entry x.entry_id w.tm.scheduler) (sym same) ∙ entry,
            λ k. n (subst (λ x. Elem x.entry_id w.removing) (sym same) k),
          )

      kept :
          (nm : Bytes) (r : ℕ)
          → find nm (erase name w.tm.tasks) ≡ some r
          → (name ≢ nm) × (find nm w.tm.tasks ≡ some r)
      kept nm r h = ground (arith, find-erase name nm w.tm.tasks, list_beq_iff name nm)

      one_job :
          (r : ℕ) (j : ManagedJob D) (task : F)
          → j.entry_id ≡ job.entry_id
          → cron.entry j.entry_id w.tm.scheduler ≡ some (record { job = r; task = task })
          → r ≡ ref
      one_job r j task same entry =
          let found : some (record { job = r; task = task })
              ≡ some (record { job = ref; task = own.0 }) =
            sym entry ∙ ap (λ i. cron.entry i w.tm.scheduler) same ∙ own.1 in
          ap (λ o. job_or o) found

  pub begin-IsSound :
      (name : Bytes) (w : World C D)
      → IsSound cron w
      → IsSound cron (record {
        tm = (remove_begin cron name w.tm).1;
        removing = with_pending (remove_begin cron name w.tm).0 w.removing;
      })
  unfolding remove_begin lookup
  begin-IsSound name w s = go (find name w.tm.tasks) refl
    where
      found :
          (ref : ℕ) (o : Option (ManagedJob D))
          → find name w.tm.tasks ≡ some ref
          → find ref w.tm.jobs ≡ o
          → IsSound cron (record {
            tm = (unmapped cron name w.tm o).1;
            removing = with_pending (unmapped cron name w.tm o).0 w.removing;
          })
      found ref none t e = s
      found ref (some job) t e = unmapped-IsSound name ref job w t e s

      go :
          (o : Option ℕ)
          → find name w.tm.tasks ≡ o
          → IsSound cron (record {
            tm = (unmapped cron name w.tm (job_of cron w.tm o)).1;
            removing = with_pending (unmapped cron name w.tm (job_of cron w.tm o)).0 w.removing;
          })
      go none e = s
      go (some ref) e = found ref (find ref w.tm.jobs) e refl
