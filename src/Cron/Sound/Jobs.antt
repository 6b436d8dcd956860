-- ===== src/Cron/Sound/Jobs.antt =====
-- PauseTask and ResumeTask of pkg/cron/cron.go keep what holds between steps.
use go_admin.Common.{
  ℕ, ◌≡◌, refl, ap, subst, ◌∙◌, inl, inr, Bool, Bool-cases, Option, none, some, List, ◌==◌, nat_eq,
  text_eq, nat_beq_iff, Elem, find, assign, find-assign, arith,
}
use go_admin.Cron.{Scheduler, ManagedJob, store, store_in}
use go_admin.Cron.Steps.{World}
use go_admin.Cron.Sound.{IsSound}

module _ {C D F : Type 0} (cron : Scheduler C D F) where
  jobs-IsSound :
      (jobs : List (ℕ × ManagedJob D)) (w : World C D)
      → ((ref : ℕ) (job : ManagedJob D)
          → find ref w.tm.jobs ≡ some job
          → (other : ManagedJob D) × (find ref jobs ≡ some other) × (other.entry_id ≡ job.entry_id))
      → ((ref : ℕ) (other : ManagedJob D)
          → find ref jobs ≡ some other
          → (job : ManagedJob D) × (find ref w.tm.jobs ≡ some job))
      → IsSound cron w
      → IsSound cron (record w { tm = record (w.tm) { jobs = jobs } })
  jobs-IsSound jobs w there back s = record {
    scheduled = λ name ref h.
        let (job, task, e, entry, n) = s.scheduled name ref h in
        let (other, e', same) = there ref job e in
        (
          other,
          task,
          e',
          ap (λ i. cron.entry i w.tm.scheduler) same ∙ entry,
          λ k. n (subst (λ i. Elem i w.removing) same k),
        );
    apart = s.apart;
    accounted = λ id wrapped h. elim (s.accounted id wrapped h) [
      | inl k ↦ inl k
      | inr (name, job, t, e, i) ↦
          (let (other, e', same) = there wrapped.job job e in inr (name, other, t, e', same ∙ i))
    ];
    pending = s.pending;
    distinct = s.distinct;
    fresh = λ ref job h. let (j, e) = back ref job h in s.fresh ref j e;
  }

  pub store-IsSound :
      (o : Option ℕ) (b : Bool) (w : World C D)
      → IsSound cron w
      → IsSound cron (record w { tm = store cron o b w.tm })
  unfolding store
  store-IsSound none b w s = s
  store-IsSound (some ref) b w s = go (find ref w.tm.jobs) refl
    where
      go :
          (o : Option (ManagedJob D))
          → find ref w.tm.jobs ≡ o
          → IsSound cron (record w { tm = store_in cron ref b o w.tm })
      go none e = s
      go (some job) e =
          let new = record job { disabled = b } in
          jobs-IsSound (assign ref new w.tm.jobs) w
            (λ r j h. elim (Bool-cases (ref == r)) [
              | inl t ↦ (
                new,
                ground (arith, find-assign ref r new w.tm.jobs),
                ground (arith, nat_beq_iff ref r),
              )
              | inr t ↦ (j, ground (arith, find-assign ref r new w.tm.jobs), refl)
            ])
            (λ r j h. elim (Bool-cases (ref == r)) [
              | inl t ↦ (job, ground (arith, nat_beq_iff ref r))
              | inr t ↦ (j, ground (arith, find-assign ref r new w.tm.jobs))
            ])
            s
