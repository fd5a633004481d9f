-- ===== src/DeferredWork/Tests.antt =====
-- The theorems on the unloads of DeferredWork at concrete runs.
use linux_kernel_development.Prelude.{◌≡◌, refl, inl, inr}
use linux_kernel_development.DeferredWork.{
  tasklet3, wait2, begun, idle, unloaded, Deferred, job_starts, job_returns, tasklet_kill, kernel,
  exit, DeferredReach, start, later,
}
use linux_kernel_development.DeferredWork.Unload.{
  AtUnload, unloaded-AtUnload, Unfinished, unload_too_early,
}

-- tasklet3.c, loaded, its tasklet run, and unloaded.
abbrev tasklet_done : Deferred
tasklet_done = record (begun tasklet3) { job = idle; place = unloaded }

tasklet_done-reached : DeferredReach tasklet3 tasklet_done
tasklet_done-reached =
    later
      (later (later start (kernel (job_starts refl)))
        (kernel (job_returns (inl (λ e. cc e)) (inl (λ e. cc e)) refl)))
      (exit (tasklet_kill (inr refl) refl refl))

unloaded-AtUnload_example : AtUnload tasklet3 tasklet_done
unloaded-AtUnload_example = unloaded-AtUnload tasklet_done-reached refl

unload_too_early_example :
    (s : Deferred) × DeferredReach wait2 s × (s.place ≡ unloaded) × Unfinished s
unload_too_early_example = unload_too_early wait2 refl
