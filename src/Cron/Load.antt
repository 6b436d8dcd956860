-- ===== src/Cron/Load.antt =====
-- LoadTasks of pkg/cron/cron.go: which tasks are there behind it.
use go_admin.Common.{
  ℕ, ◌≡◌, ◌≢◌, refl, ap, Bool, true, false, not, ◌&&◌, ◌||◌, Option, none, some, List, [], ◌∷◌,
  Bytes, if◌then◌else◌, ◌==◌, text_eq, list_beq_iff, find, find-assign, All, arith,
}
use go_admin.Outcome.{Outcome, ok, err, panic}
use go_admin.Cron.{
  Scheduler, WrappedTask, TaskManager, TaskConfig, add_task, add_unless, add_parsed, added,
  load_one, load_tasks, next_task,
}

abbrev pub is_some : {A : Type 0} → Option A → Bool
is_some none = false
is_some (some _) = true

abbrev pub is_ok : {A : Type 0} → Outcome A → Bool
is_ok (ok _) = true
is_ok (err _) = false
is_ok panic = false

module _ {C D F : Type 0} (cron : Scheduler C D F) where
  abbrev pub has_task : Bytes → TaskManager C D → Bool
  has_task name tm = is_some (find name tm.tasks)

  -- Whether a task of the list is to be loaded under that name.
  abbrev pub loads : Bytes → List (Bytes × F) → TaskConfig → Bool
  loads name registry cfg =
      (cfg.name == name)
      && not cfg.disabled
      && is_some (find cfg.name registry)
      && is_ok (cron.parse_standard cfg.cron_expr)

  abbrev pub any_loads : Bytes → List (Bytes × F) → List TaskConfig → Bool
  any_loads name registry [] = false
  any_loads name registry (cfg ∷ cfgs) = loads name registry cfg || any_loads name registry cfgs

  -- ParseStandard panics on none of the expressions.
  abbrev pub Parses : List TaskConfig → Type 0
  Parses = All (λ cfg. cron.parse_standard cfg.cron_expr ≢ panic)

module _ {C D F : Type 0} (cron : Scheduler C D F)
    (same : (expr : Bytes) (w : WrappedTask F) (c : C)
      → is_ok (cron.parse_standard expr) ≡ true
      → is_ok ((cron.add_func expr w c).0) ≡ true) where
  has_task-added :
      (name expr other : Bytes) (schedule : D) (o : Outcome ℕ) (c : C) (tm : TaskManager C D)
      → is_ok o ≡ true
      → ((added cron name expr schedule (o, c) tm).0 ≡ ok tt)
        × (has_task cron other (added cron name expr schedule (o, c) tm).1
            ≡ (has_task cron other tm || (name == other)))
  has_task-added name expr other schedule (ok id) c tm h =
      (refl, ground (arith, find-assign name other tm.next_job tm.tasks))
  has_task-added name expr other schedule (err e) c tm h = cc
  has_task-added name expr other schedule panic c tm h = cc

  -- AddTask: it does not panic, and the name has a task behind it if it had one or the expression parses.
  has_task-add_task :
      (name expr other : Bytes) (task : F) (tm : TaskManager C D)
      → cron.parse_standard expr ≢ panic
      → ((add_task cron name expr task tm).0 ≢ panic)
        × (has_task cron other (add_task cron name expr task tm).1
            ≡ (has_task cron other tm || ((name == other) && is_ok (cron.parse_standard expr))))
  unfolding add_task
  has_task-add_task name expr other task tm h = go (find name tm.tasks) refl
    where
      parsed :
          (o : Outcome D)
          → cron.parse_standard expr ≡ o
          → ((add_parsed cron name expr task o tm).0 ≢ panic)
            × (has_task cron other (add_parsed cron name expr task o tm).1
                ≡ (has_task cron other tm || ((name == other) && is_ok o)))
      parsed (ok schedule) e =
          let (o, c) =
            cron.add_func expr (record { job = tm.next_job; task = task }) tm.scheduler in
          let (a, b) =
            has_task-added name expr other schedule o c tm
              (same expr _ tm.scheduler (ap is_ok e)) in
          (λ p. cc, ground (arith, b))
      parsed (err e') e = (λ p. cc, ground arith)
      parsed panic e = absurd (h e)

      go :
          (o : Option ℕ)
          → find name tm.tasks ≡ o
          → ((add_unless cron name expr task o tm).0 ≢ panic)
            × (has_task cron other (add_unless cron name expr task o tm).1
                ≡ (has_task cron other tm || ((name == other) && is_ok (cron.parse_standard expr))))
      go none e = parsed (cron.parse_standard expr) refl
      go (some ref) e = (λ p. cc, ground (arith, list_beq_iff name other))

  -- One round of the loop, in front of rounds that end well and add a task of the name if `b`.
  round_lem :
      (cfg : TaskConfig) (o : Option F) (name : Bytes) (tm : TaskManager C D)
      (rest : TaskManager C D → Outcome (Unit {0}) × TaskManager C D) (b : Bool)
      → cron.parse_standard cfg.cron_expr ≢ panic
      → ((tm' : TaskManager C D)
          → ((rest tm').0 ≡ ok tt)
            × (has_task cron name (rest tm').1 ≡ (has_task cron name tm' || b)))
      → let x = if cfg.disabled then rest tm else next_task cron rest (load_one cron cfg o tm) in
        (x.0 ≡ ok tt)
        × (has_task cron name x.1 ≡ (
            has_task cron name tm
            || ((cfg.name == name)
                  && not cfg.disabled
                  && is_some o
                  && is_ok (cron.parse_standard cfg.cron_expr)
                || b)))
  unfolding load_one
  round_lem cfg o name tm rest b h ih = split cfg.disabled o
    where
      Ends : Bool → Outcome (Unit {0}) × TaskManager C D → Type 0
      Ends c x = (x.0 ≡ ok tt) × (has_task cron name x.1 ≡ (has_task cron name tm || (c || b)))

      go_on :
          (c : Bool) (x : Outcome (Unit {0}) × TaskManager C D)
          → x.0 ≢ panic
          → has_task cron name x.1 ≡ (has_task cron name tm || c)
          → Ends c (next_task cron rest x)
      go_on c (ok _, tm') n e = ground (arith, ih tm', e)
      go_on c (err _, tm') n e = ground (arith, ih tm', e)
      go_on c (panic, tm') n e = absurd (n refl)

      split :
          (d : Bool) (o : Option F)
          → Ends
              ((cfg.name == name)
                && not d
                && is_some o
                && is_ok (cron.parse_standard cfg.cron_expr))
              (if d then rest tm else next_task cron rest (load_one cron cfg o tm))
      split true o = ground (arith, ih tm)
      split false none = go_on _ (ok tt, tm) (λ p. cc) (ground arith)
      split false (some task) =
          let (a, b) = has_task-add_task cfg.name cfg.cron_expr name task tm h in
          go_on _ (add_task cron cfg.name cfg.cron_expr task tm) a (ground (arith, b))

  -- If AddFunc takes what ParseStandard takes and that panics on none of the expressions,
  -- LoadTasks returns no error, and a name has a task behind it exactly if it had one or some
  -- configuration of that name is enabled, has a registered handler and an expression that parses,
  -- whatever becomes of the others.
  pub load_tasks_lem :
      (cfgs : List TaskConfig) (registry : List (Bytes × F)) (name : Bytes) (tm : TaskManager C D)
      → Parses cron cfgs
      → ((load_tasks cron cfgs registry tm).0 ≡ ok tt)
        × (has_task cron name (load_tasks cron cfgs registry tm).1
            ≡ (has_task cron name tm || any_loads cron name registry cfgs))
  unfolding load_tasks
  load_tasks_lem [] registry name tm h = (refl, ground arith)
  load_tasks_lem (cfg ∷ cfgs) registry name tm h =
      round_lem cfg (find cfg.name registry) name tm (load_tasks cron cfgs registry)
        (any_loads cron name registry cfgs) h.0 (λ tm'. load_tasks_lem cfgs registry name tm' h.1)
