-- ===== src/DeferredWork.antt =====
-- Modules whose init function leaves something to be run later, a timer, a tasklet or a work item:
-- Timers/timer1.c, Timers/timer2.c, Tasklet/tasklet1.c, Tasklet/tasklet2.c, Tasklet/tasklet3.c and
-- WaitQueue/wait2.c.
use linux_kernel_development.Prelude.{Bool, true, false, ◌≡◌, ◌≢◌, ◌⊎◌}
pub mod Unload
mod Tests

pub data Module : Type 0 where
  timer1 timer2 tasklet1 tasklet2 tasklet3 wait2 : Module

-- A timer, a tasklet or a work item: not there or done, to be run, and running.
pub data JobPlace : Type 0 where
  idle pending running : JobPlace

-- Where the module stands: in its init function, loaded, or unloaded.
pub data ModulePlace : Type 0 where
  initing loaded unloaded : ModulePlace

-- `timer` is the timer of timer1.c, timer2.c and tasklet2.c, `job` the tasklet or the work item,
-- `condition` the flag of wait2.c, and `disabled` tells that the `tasklet_disable` of tasklet1.c has
-- returned. `fired` is no variable of the code: it tells that the timer's function has returned.
pub record Deferred : Type 0 where
  pub timer : JobPlace
  pub job : JobPlace
  pub condition : Bool
  pub disabled : Bool
  pub fired : Bool
  pub place : ModulePlace

-- `mod_timer`, `hrtimer_start` or `add_timer`.
abbrev pub has_timer : Module → JobPlace
has_timer timer1 = pending
has_timer timer2 = pending
has_timer tasklet2 = pending
has_timer m = idle

-- `tasklet_schedule` or `schedule_work`.
abbrev pub has_job : Module → JobPlace
has_job tasklet1 = pending
has_job tasklet3 = pending
has_job wait2 = pending
has_job m = idle

-- Only the init function of wait2.c sleeps before it returns.
abbrev pub init_place : Module → ModulePlace
init_place wait2 = initing
init_place m = loaded

-- What the init functions have set up.
abbrev pub begun : Module → Deferred
begun m = record {
  timer = has_timer m;
  job = has_job m;
  condition = false;
  disabled = false;
  fired = false;
  place = init_place m;
}

-- What a timer's function does last: `ISR_handler` schedules the tasklet; the others print.
abbrev pub job_after : Module → JobPlace → JobPlace
job_after tasklet2 job = pending
job_after m job = job

-- The kernel runs what is due. `my_tasklet_handler` of tasklet1.c, which runs as the tasklet, first
-- calls `tasklet_disable`, which returns when the tasklet does not run. `work_handler` sets the flag
-- before it wakes the init function.
pub data KernelStep (m : Module) (s : Deferred) : Deferred → Type 0 where
  timer_fires : s.timer ≡ pending → KernelStep m s (record s { timer = running })
  timer_returns :
      s.timer ≡ running
      → KernelStep m s (record s { timer = idle; job = job_after m s.job; fired = true })
  job_starts : s.job ≡ pending → KernelStep m s (record s { job = running })
  flag_is_set : m ≡ wait2 → s.job ≡ running → KernelStep m s (record s { condition = true })
  tasklet_disable_returns :
      m ≡ tasklet1
      → s.job ≡ running
      → s.job ≢ running
      → KernelStep m s (record s { disabled = true })
  job_returns :
      (m ≢ tasklet1) ⊎ (s.disabled ≡ true)
      → (m ≢ wait2) ⊎ (s.condition ≡ true)
      → s.job ≡ running
      → KernelStep m s (record s { job = idle })

-- The init function of wait2.c wakes up when the flag is set, or on a signal, which it does not look at.
pub data InitStep (s : Deferred) : Deferred → Type 0 where
  woken : s.place ≡ initing → s.condition ≡ true → InitStep s (record s { place = loaded })
  interrupted : s.place ≡ initing → InitStep s (record s { place = loaded })

-- The exit functions: `del_timer` takes back a timer that has not fired, `hrtimer_cancel` and
-- `del_timer_sync` also wait until its function has returned, `tasklet_kill` waits until the tasklet
-- has run, and that of wait2.c prints.
pub data ExitStep (m : Module) (s : Deferred) : Deferred → Type 0 where
  del_timer_running :
      m ≡ timer1
      → s.place ≡ loaded
      → s.timer ≡ running
      → ExitStep m s (record s { place = unloaded })
  del_timer :
      m ≡ timer1
      → s.place ≡ loaded
      → s.timer ≢ running
      → ExitStep m s (record s { place = unloaded; timer = idle })
  hrtimer_cancel :
      m ≡ timer2
      → s.place ≡ loaded
      → s.timer ≢ running
      → ExitStep m s (record s { place = unloaded; timer = idle })
  del_timer_sync :
      m ≡ tasklet2
      → s.place ≡ loaded
      → s.timer ≢ running
      → ExitStep m s (record s { place = unloaded; timer = idle })
  tasklet_kill :
      (m ≡ tasklet1) ⊎ (m ≡ tasklet3)
      → s.place ≡ loaded
      → s.job ≡ idle
      → ExitStep m s (record s { place = unloaded })
  my_exit : m ≡ wait2 → s.place ≡ loaded → ExitStep m s (record s { place = unloaded })

pub data DeferredStep (m : Module) (s : Deferred) : Deferred → Type 0 where
  kernel : {t : Deferred} → KernelStep m s t → DeferredStep m s t
  init : {t : Deferred} → InitStep s t → DeferredStep m s t
  exit : {t : Deferred} → ExitStep m s t → DeferredStep m s t

pub data DeferredReach (m : Module) : Deferred → Type 0 where
  start : DeferredReach m (begun m)
  later : {s t : Deferred} → DeferredReach m s → DeferredStep m s t → DeferredReach m t
