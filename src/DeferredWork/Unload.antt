-- ===== src/DeferredWork/Unload.antt =====
-- What the modules of DeferredWork leave to be run when they are unloaded.
use linux_kernel_development.Prelude.{
  Bool, true, false, not, ◌&&◌, ◌||◌, ◌≡◌, ◌≢◌, refl, arith, ◌⊎◌, inl, inr,
}
use linux_kernel_development.DeferredWork.{
  Module, timer1, timer2, tasklet1, tasklet2, tasklet3, wait2, JobPlace, idle, pending, running,
  ModulePlace, initing, unloaded, Deferred, begun, KernelStep, timer_fires, timer_returns,
  job_starts, flag_is_set, tasklet_disable_returns, job_returns, InitStep, woken, interrupted,
  ExitStep, del_timer_running, del_timer, hrtimer_cancel, del_timer_sync, tasklet_kill, my_exit,
  kernel, init, exit, DeferredReach, start, later,
}

abbrev is_idle : JobPlace → Bool
is_idle idle = true
is_idle j = false

abbrev is_pending : JobPlace → Bool
is_pending pending = true
is_pending j = false

abbrev is_unloaded : ModulePlace → Bool
is_unloaded unloaded = true
is_unloaded p = false

abbrev is_initing : ModulePlace → Bool
is_initing initing = true
is_initing p = false

-- The work item runs once, and sets the flag.
abbrev flagged : JobPlace → Bool → Bool
flagged idle c = c
flagged pending c = not c
flagged running c = true

-- What holds of a timer, a job, the flags and a place that can be reached.
abbrev sound : Module → JobPlace → JobPlace → Bool → Bool → Bool → ModulePlace → Bool
sound timer1 t j c d f p =
    is_idle j && (not (is_initing p) && (not (is_unloaded p) || not (is_pending t)))
sound timer2 t j c d f p = is_idle j && (not (is_initing p) && (not (is_unloaded p) || is_idle t))
sound tasklet1 t j c d f p =
    is_idle t && (not (is_idle j) && (not d && (not (is_initing p) && not (is_unloaded p))))
sound tasklet2 t j c d f p =
    not (is_initing p) && ((not (is_unloaded p) || is_idle t) && (f || is_idle j))
sound tasklet3 t j c d f p = is_idle t && (not (is_initing p) && (not (is_unloaded p) || is_idle j))
sound wait2 t j c d f p = is_idle t && flagged j c

abbrev IsSound : Module → Deferred → Type 0
IsSound m s = sound m s.timer s.job s.condition s.disabled s.fired s.place ≡ true

KernelStep-IsSound : {m : Module} {s t : Deferred} → KernelStep m s t → IsSound m s → IsSound m t
KernelStep-IsSound {m} (timer_fires here) ok = ground arith
KernelStep-IsSound {m} (timer_returns here) ok = ground arith
KernelStep-IsSound {m} (job_starts here) ok = ground arith
KernelStep-IsSound {m} (flag_is_set same here) ok = ground arith
KernelStep-IsSound {m} (tasklet_disable_returns same here over) ok = absurd (over here)
KernelStep-IsSound {m} (job_returns (inl other) (inl third) here) ok = ground arith
KernelStep-IsSound {m} (job_returns (inl other) (inr set) here) ok = ground arith
KernelStep-IsSound {m} (job_returns (inr off) (inl third) here) ok = ground arith
KernelStep-IsSound {m} (job_returns (inr off) (inr set) here) ok = ground arith

InitStep-IsSound : (m : Module) {s t : Deferred} → InitStep s t → IsSound m s → IsSound m t
InitStep-IsSound m (woken here set) ok = ground arith
InitStep-IsSound m (interrupted here) ok = ground arith

ExitStep-IsSound : {m : Module} {s t : Deferred} → ExitStep m s t → IsSound m s → IsSound m t
ExitStep-IsSound {m} (del_timer_running same here fired) ok = ground arith
ExitStep-IsSound {m} (del_timer same here waits) ok = ground arith
ExitStep-IsSound {m} (hrtimer_cancel same here waits) ok = ground arith
ExitStep-IsSound {m} (del_timer_sync same here waits) ok = ground arith
ExitStep-IsSound {m} (tasklet_kill (inl same) here done) ok = ground arith
ExitStep-IsSound {m} (tasklet_kill (inr same) here done) ok = ground arith
ExitStep-IsSound {m} (my_exit same here) ok = ground arith

DeferredReach-IsSound : {m : Module} {s : Deferred} → DeferredReach m s → IsSound m s
DeferredReach-IsSound {m} start = started m
  where
    started : (m : Module) → IsSound m (begun m)
    started timer1 = refl
    started timer2 = refl
    started tasklet1 = refl
    started tasklet2 = refl
    started tasklet3 = refl
    started wait2 = refl
DeferredReach-IsSound (later r (kernel st)) = KernelStep-IsSound st (DeferredReach-IsSound r)
DeferredReach-IsSound {m} (later r (init st)) = InitStep-IsSound m st (DeferredReach-IsSound r)
DeferredReach-IsSound (later r (exit st)) = ExitStep-IsSound st (DeferredReach-IsSound r)

-- What an unloaded module has left to be run.
abbrev pub AtUnload : Module → Deferred → Type 0
AtUnload timer1 s = (s.timer ≢ pending) × (s.job ≡ idle)
AtUnload timer2 s = (s.timer ≡ idle) × (s.job ≡ idle)
AtUnload tasklet1 s = ⊥
AtUnload tasklet2 s = (s.timer ≡ idle) × ((s.fired ≡ true) ⊎ (s.job ≡ idle))
AtUnload tasklet3 s = (s.timer ≡ idle) × (s.job ≡ idle)
AtUnload wait2 s =
    (s.timer ≡ idle)
    × ((s.job ≢ idle) ⊎ (s.condition ≡ true))
    × ((s.job ≢ pending) ⊎ (s.condition ≡ false))

-- However the module, its timer and its tasklet or work item are interleaved: timer2.c and tasklet3.c
-- are unloaded only when nothing of theirs runs or will run; timer1.c leaves no timer that will fire;
-- tasklet2.c leaves no timer, and its tasklet only if the timer has fired; wait2.c leaves its work
-- item unless that has run, and then has set the flag, and no second one; and tasklet1.c is never
-- unloaded.
pub unloaded-AtUnload :
    {m : Module} {s : Deferred} → DeferredReach m s → s.place ≡ unloaded → AtUnload m s
unloaded-AtUnload {m} {s} r over = left m s over (DeferredReach-IsSound r)
  where
    left : (m : Module) (s : Deferred) → s.place ≡ unloaded → IsSound m s → AtUnload m s
    left timer1 s over ok = ground arith
    left timer2 s over ok = ground arith
    left tasklet1 s over ok = ground arith
    left tasklet2 s over ok = ground arith
    left tasklet3 s over ok = ground arith
    left wait2 s over ok = ground arith

-- Something of the module runs or will run.
abbrev pub Unfinished : Deferred → Type 0
Unfinished s = (s.timer ≢ idle) ⊎ (s.job ≢ idle)

-- The modules that do not wait for all that they have started.
abbrev pub is_hasty : Module → Bool
is_hasty timer1 = true
is_hasty tasklet2 = true
is_hasty wait2 = true
is_hasty m = false

-- Each of timer1.c, tasklet2.c and wait2.c can be unloaded while something of its own is running or
-- will run: the timer's function, the tasklet that it has scheduled, and the work item, by way of a
-- signal that ends the wait of the init function.
pub unload_too_early :
    (m : Module)
    → is_hasty m ≡ true
    → (s : Deferred) × DeferredReach m s × (s.place ≡ unloaded) × Unfinished s
unload_too_early timer1 hasty = (
  record (begun timer1) { timer = running; place = unloaded },
  later (later start (kernel (timer_fires refl))) (exit (del_timer_running refl refl refl)),
  refl,
  inl (λ e. cc e),
)
unload_too_early tasklet2 hasty = (
  record (begun tasklet2) { timer = idle; job = pending; fired = true; place = unloaded },
  later (later (later start (kernel (timer_fires refl))) (kernel (timer_returns refl)))
      (exit (del_timer_sync refl refl (λ e. cc e))),
  refl,
  inr (λ e. cc e),
)
unload_too_early wait2 hasty = (
  record (begun wait2) { place = unloaded },
  later (later start (init (interrupted refl))) (exit (my_exit refl refl)),
  refl,
  inr (λ e. cc e),
)
unload_too_early timer2 hasty = cc hasty
unload_too_early tasklet1 hasty = cc hasty
unload_too_early tasklet3 hasty = cc hasty
