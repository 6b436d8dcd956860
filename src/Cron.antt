-- ===== src/Cron.antt =====
-- pkg/cron/cron.go: the manager of scheduled tasks. The scheduler of robfig/cron is a parameter. A
-- *managedJob is a reference into `jobs`, since the map of the tasks and the function given to the
-- scheduler share it. A call that holds the manager's mutex throughout is one step; RemoveTask,
-- PauseTask and ResumeTask let go of it between their two steps. Logging is left out.
pub mod Steps
pub mod Sound
pub mod Runs
pub mod Load
use go_admin.Common.{
  ℕ, zero, suc, Bool, true, false, Option, none, some, List, [], ◌∷◌, Bytes, if◌then◌else◌, ◌==◌,
  text_eq, nat_eq, find, erase, assign, map,
}
use go_admin.Outcome.{Error, new, wrap, Outcome, ok, err, panic}

-- TaskStatus
pub data TaskStatus : Type 0 where
  running paused not_exist : TaskStatus

-- The function that AddTask hands to the scheduler: its job and the task.
pub record WrappedTask (F : Type 0) : Type 0 where
  pub job : ℕ
  pub task : F

-- cron.New, cron.ParseStandard, Schedule.Next, Cron.AddFunc, Cron.Remove and the entries, by their EntryID. `C`
-- is the state of the scheduler, `D` a parsed schedule and `F` a function without arguments.
pub record Scheduler (C D F : Type 0) : Type 0 where
  pub start : C
  pub parse_standard : Bytes → Outcome D
  pub next : D → ℕ → ℕ
  pub add_func : Bytes → WrappedTask F → C → Outcome ℕ × C
  pub remove : ℕ → C → C
  pub entry : ℕ → C → Option (WrappedTask F)

-- managedJob
pub record ManagedJob (D : Type 0) : Type 0 where
  pub entry_id : ℕ
  pub schedule : D
  pub cron_expr : Bytes
  pub disabled : Bool

-- TaskManager: its scheduler and its tasks, with the jobs that were ever made.
pub record TaskManager (C D : Type 0) : Type 0 where
  pub scheduler : C
  pub tasks : List (Bytes × ℕ)
  pub jobs : List (ℕ × ManagedJob D)
  pub next_job : ℕ

-- TaskInfo
pub record TaskInfo : Type 0 where
  pub name : Bytes
  pub status : TaskStatus
  pub next_run : ℕ
  pub cron_expr : Bytes

-- TaskConfig
pub record TaskConfig : Type 0 where
  pub name : Bytes
  pub cron_expr : Bytes
  pub disabled : Bool

module _ {C D F : Type 0} (cron : Scheduler C D F) where
  -- NewTaskManager
  abbrev pub new_task_manager : TaskManager C D
  new_task_manager = record { scheduler = cron.start; tasks = []; jobs = []; next_job = 0 }

  -- What AddTask keeps of the scheduler's answer.
  abbrev pub added :
      Bytes → Bytes → D → Outcome ℕ × C → TaskManager C D → Outcome (Unit {0}) × TaskManager C D
  added name expr schedule (ok id, c) tm = (
    ok tt,
    record {
      scheduler = c;
      tasks = assign name tm.next_job tm.tasks;
      jobs =
          assign tm.next_job
            (record { entry_id = id; schedule = schedule; cron_expr = expr; disabled = false })
            tm.jobs;
      next_job = suc tm.next_job;
    },
  )
  added name expr schedule (err e, c) tm =
      (err (wrap "failed to add task" e), record tm { scheduler = c })
  added name expr schedule (panic, c) tm = (panic, record tm { scheduler = c })

  abbrev pub add_parsed :
      Bytes → Bytes → F → Outcome D → TaskManager C D → Outcome (Unit {0}) × TaskManager C D
  add_parsed name expr task (ok schedule) tm =
      added name expr schedule
        (cron.add_func expr (record { job = tm.next_job; task = task }) tm.scheduler) tm
  add_parsed name expr task (err e) tm = (err (wrap "failed to add task" e), tm)
  add_parsed name expr task panic tm = (panic, tm)

  abbrev pub add_unless :
      Bytes → Bytes → F → Option ℕ → TaskManager C D → Outcome (Unit {0}) × TaskManager C D
  add_unless name expr task (some _) tm = (err (new "task already exists"), tm)
  add_unless name expr task none tm = add_parsed name expr task (cron.parse_standard expr) tm

  -- AddTask
  unfoldable pub add_task :
      Bytes → Bytes → F → TaskManager C D → Outcome (Unit {0}) × TaskManager C D
  add_task name expr task tm = add_unless name expr task (find name tm.tasks) tm

  -- The job of a task; lookup of the manager.
  abbrev pub job_of : TaskManager C D → Option ℕ → Option (ManagedJob D)
  job_of tm none = none
  job_of tm (some ref) = find ref tm.jobs

  unfoldable pub lookup : Bytes → TaskManager C D → Option (ManagedJob D)
  lookup name tm = job_of tm (find name tm.tasks)

  -- RemoveTask, under the mutex: the entry that is to be removed from the scheduler, and the map
  -- without the task.
  abbrev pub unmapped : Bytes → TaskManager C D → Option (ManagedJob D) → Option ℕ × TaskManager C D
  unmapped name tm none = (none, tm)
  unmapped name tm (some job) = (some job.entry_id, record tm { tasks = erase name tm.tasks })

  unfoldable pub remove_begin : Bytes → TaskManager C D → Option ℕ × TaskManager C D
  unfolding lookup
  remove_begin name tm = unmapped name tm (lookup name tm)

  -- RemoveTask, behind the mutex.
  unfoldable pub remove_finish : Option ℕ → TaskManager C D → TaskManager C D
  remove_finish none tm = tm
  remove_finish (some id) tm = record tm { scheduler = cron.remove id tm.scheduler }

  unfoldable pub remove_task : Bytes → TaskManager C D → TaskManager C D
  unfolding remove_begin remove_finish
  remove_task name tm = let (o, tm') = remove_begin name tm in remove_finish o tm'

  -- job.disabled.Store(b) on the job that lookup returned, if it did.
  abbrev pub store_in : ℕ → Bool → Option (ManagedJob D) → TaskManager C D → TaskManager C D
  store_in ref b none tm = tm
  store_in ref b (some job) tm = record tm {
    jobs = assign ref (record job { disabled = b }) tm.jobs;
  }

  unfoldable pub store : Option ℕ → Bool → TaskManager C D → TaskManager C D
  store none b tm = tm
  store (some ref) b tm = store_in ref b (find ref tm.jobs) tm

  -- PauseTask, ResumeTask
  unfoldable pub pause_task : Bytes → TaskManager C D → TaskManager C D
  unfolding store
  pause_task name tm = store (find name tm.tasks) true tm

  unfoldable pub resume_task : Bytes → TaskManager C D → TaskManager C D
  unfolding store
  resume_task name tm = store (find name tm.tasks) false tm

  abbrev pub status_of : ManagedJob D → TaskStatus
  status_of job = if job.disabled then paused else running

  abbrev pub status_or : Option (ManagedJob D) → TaskStatus
  status_or none = not_exist
  status_or (some job) = status_of job

  -- GetTaskStatus
  unfoldable pub get_task_status : Bytes → TaskManager C D → TaskStatus
  unfolding lookup
  get_task_status name tm = status_or (lookup name tm)

  -- ListTasks at the time `now`, in the order of the list.
  abbrev info_of : ℕ → Bytes → Option (ManagedJob D) → List TaskInfo → List TaskInfo
  info_of now name none rest = rest
  info_of now name (some job) rest =
      record {
        name = name;
        status = status_of job;
        next_run = cron.next job.schedule now;
        cron_expr = job.cron_expr;
      }
      ∷ rest

  abbrev infos : ℕ → List (ℕ × ManagedJob D) → List (Bytes × ℕ) → List TaskInfo
  infos now jobs [] = []
  infos now jobs ((name, ref) ∷ ts) = info_of now name (find ref jobs) (infos now jobs ts)

  unfoldable pub list_tasks : ℕ → TaskManager C D → List TaskInfo
  list_tasks now tm = infos now tm.jobs tm.tasks

  -- What the scheduler runs when an entry is due: the wrapped task reads its job's flag.
  abbrev unless_disabled : F → Option (ManagedJob D) → Option F
  unless_disabled task none = none
  unless_disabled task (some job) = if job.disabled then none else some task

  abbrev due : TaskManager C D → Option (WrappedTask F) → Option F
  due tm none = none
  due tm (some w) = unless_disabled w.task (find w.job tm.jobs)

  unfoldable pub fire : ℕ → TaskManager C D → Option F
  fire id tm = due tm (cron.entry id tm.scheduler)

  -- LoadTasks, with a registry of functions by name. Every path of its loop goes on to the next task;
  -- `none` is a panic.
  unfoldable pub load_one :
      TaskConfig → Option F → TaskManager C D → Outcome (Unit {0}) × TaskManager C D
  unfolding add_task
  load_one cfg none tm = (ok tt, tm)
  load_one cfg (some handler) tm = add_task cfg.name cfg.cron_expr handler tm

  abbrev next_task :
      (TaskManager C D → Outcome (Unit {0}) × TaskManager C D)
      → Outcome (Unit {0}) × TaskManager C D
      → Outcome (Unit {0}) × TaskManager C D
  next_task rest (ok _, tm) = rest tm
  next_task rest (err e, tm) = rest tm
  next_task rest (panic, tm) = (panic, tm)

  unfoldable pub load_tasks :
      List TaskConfig → List (Bytes × F) → TaskManager C D → Outcome (Unit {0}) × TaskManager C D
  load_tasks [] registry tm = (ok tt, tm)
  load_tasks (cfg ∷ cfgs) registry tm =
      let rest = load_tasks cfgs registry in
      if cfg.disabled then rest tm else next_task rest (load_one cfg (find cfg.name registry) tm)

-- TaskRegistry.Register
abbrev pub register : {F : Type 0} → Bytes → F → List (Bytes × F) → List (Bytes × F)
register name handler tasks = assign name handler tasks
