-- ===== src/Tests/Tasks.antt =====
-- pkg/cron/cron.go over a scheduler in memory that takes any expression but the empty one.
use go_admin.Common.{
  ℕ, suc, ◌+◌, ◌≡◌, refl, true, false, ◌||◌, Option, none, some, List, [], ◌∷◌, Bytes, bytes, ltb,
  if◌then◌else◌, ◌==◌, nat_eq, text_eq, find, assign, erase, arith,
}
use go_admin.Outcome.{new, Outcome, ok, err, panic}
use go_admin.Cron.{
  Scheduler, WrappedTask, ManagedJob, TaskManager, TaskConfig, new_task_manager, add_task, store,
  lookup, fire, get_task_status, load_tasks, paused,
}
use go_admin.Cron.Steps.{SchedulerLaws, entry_after, World, Reach, adds, stores, created, after}
use go_admin.Cron.Runs.{by_status, lookup-fire}
use go_admin.Cron.Load.{load_tasks_lem, has_task, any_loads, is_ok}

-- The next id and the entries.
abbrev Entries : Type 0
Entries = ℕ × (ℕ → Option (WrappedTask ℕ))

abbrev parse : Bytes → Outcome Bytes
parse [] = err (new "empty spec string")
parse (b ∷ expr) = ok (b ∷ expr)

abbrev add : Outcome Bytes → WrappedTask ℕ → Entries → Outcome ℕ × Entries
add (ok d) w (n, f) = (ok n, (suc n, λ j. if n == j then some w else f j))
add (err e) w c = (err e, c)
add panic w c = (panic, c)

abbrev memory_cron : Scheduler Entries Bytes ℕ
memory_cron = record {
  start = (0, λ j. none);
  parse_standard = parse;
  next = λ d now. now + 60;
  add_func = λ expr w c. add (parse expr) w c;
  remove = λ id c. (c.0, λ j. if id == j then none else c.1 j);
  entry = λ j c. if ltb j c.0 then c.1 j else none;
}

add_fresh :
    (o : Outcome Bytes) (w : WrappedTask ℕ) (c : Entries) (id : ℕ)
    → (add o w c).0 ≡ ok id
    → memory_cron.entry id c ≡ none
add_fresh (ok d) w (n, f) id h = ground arith
add_fresh (err e) w c id h = cc
add_fresh panic w c id h = cc

entry-add :
    (o : Outcome Bytes) (w : WrappedTask ℕ) (c : Entries) (j : ℕ)
    → memory_cron.entry j (add o w c).1 ≡ entry_after (add o w c).0 w j (memory_cron.entry j c)
entry-add (ok d) w (n, f) j = ground arith
entry-add (err e) w c j = refl
entry-add panic w c j = refl

memory_cron-Laws : SchedulerLaws memory_cron
memory_cron-Laws = record {
  entry-start = λ j. ground arith;
  add_func_fresh = λ expr w c id h. add_fresh (parse expr) w c id h;
  entry-add_func = λ expr w c j. entry-add (parse expr) w c j;
  entry-remove = λ id j c. ground arith;
}

-- Two tasks, the first of them paused.
abbrev two_tasks : TaskManager Entries Bytes
unfolding add_task assign erase find
two_tasks =
    (add_task memory_cron (bytes "mail") (bytes "@hourly") 8
      (add_task memory_cron (bytes "clean") (bytes "@daily") 7 (new_task_manager memory_cron)).1).1

abbrev busy : World Entries Bytes
unfolding store
busy = record { tm = store memory_cron (some 0) true two_tasks; removing = [] }

busy-Reach : Reach memory_cron busy
unfolding add_task store assign erase find two_tasks
busy-Reach =
    after
      (after (after created (adds (bytes "clean") (bytes "@daily") 7 _))
        (adds (bytes "mail") (bytes "@hourly") 8 _))
      (stores (some 0) true _)

abbrev paused_task : ManagedJob Bytes
paused_task = record {
  entry_id = 0;
  schedule = bytes "@daily";
  cron_expr = bytes "@daily";
  disabled = true;
}

paused_now : get_task_status memory_cron (bytes "clean") busy.tm ≡ paused
unfolding get_task_status lookup find add_task store assign erase
paused_now = refl

does_not_run : fire memory_cron 0 busy.tm ≡ none
unfolding fire find add_task store assign erase
does_not_run = refl

lookup-fire_example :
    (task : ℕ) × (ref : ℕ) × (memory_cron.entry 0 busy.tm.scheduler
      ≡ some (record { job = ref; task = task }))
    × (fire memory_cron 0 busy.tm
        ≡ by_status (get_task_status memory_cron (bytes "clean") busy.tm) task)
unfolding lookup find add_task store assign erase
lookup-fire_example =
    lookup-fire memory_cron memory_cron-Laws busy (bytes "clean") paused_task busy-Reach refl

abbrev configs : List TaskConfig
configs =
    record { name = bytes "clean"; cron_expr = []; disabled = false }
    ∷ record { name = bytes "mail"; cron_expr = bytes "@hourly"; disabled = false }
    ∷ record { name = bytes "other"; cron_expr = bytes "@daily"; disabled = true }
    ∷ []

abbrev handlers : List (Bytes × ℕ)
handlers = (bytes "clean", 7) ∷ (bytes "mail", 8) ∷ (bytes "other", 9) ∷ []

parse_same :
    (expr : Bytes) (w : WrappedTask ℕ) (c : Entries)
    → is_ok (parse expr) ≡ true
    → is_ok ((add (parse expr) w c).0) ≡ true
parse_same [] w c h = cc
parse_same (b ∷ expr) w (n, f) h = refl

load_tasks_example :
    let x = load_tasks memory_cron configs handlers (new_task_manager memory_cron) in
    (x.0 ≡ ok tt)
    × (has_task memory_cron (bytes "mail") x.1 ≡ (
        has_task memory_cron (bytes "mail") (new_task_manager memory_cron)
        || any_loads memory_cron (bytes "mail") handlers configs))
load_tasks_example =
    load_tasks_lem memory_cron parse_same configs handlers (bytes "mail")
      (new_task_manager memory_cron) ((λ p. cc), ((λ p. cc), ((λ p. cc), tt)))
