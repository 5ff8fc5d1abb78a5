-- ===== src/Proc/Scheduler.antt =====
-- kernel/proc/scheduler.c, with the sleeping and waking of kernel/proc/proc.c that it calls, and
-- `syscall_usleep` of kernel/proc/syscall_wrappers.c. Loops around the ring are on fuel. What the
-- end of an interrupt writes to its ports is left out.
pub mod Tick
pub mod Round
pub mod Choice
use fruity_orange.Base.{
  ℕ, zero, suc, ◌+◌, ◌-◌, ◌/◌, ◌%◌, ◌^◌, Bool, true, false, ◌==◌, ◌||◌, ◌&&◌, not, if◌then◌else◌,
  Option, none, some,
}
use fruity_orange.Proc.Task.{Proc, Procs, Kernel, ProcStatus, is_active, is_sleep, never, modify}

-- The result and the store: -1 when the process is awake already.
unfoldable pub proc_wake : ℕ → Procs → ℕ × Procs
proc_wake p m =
    if is_active (m p).status
    then (2 ^ 32 - 1, m)
    else (0, modify p (λ r. record r { status = ProcStatus.active }) m)

-- The body of the first loop of `schedule`.
pub tick_proc : ℕ → Procs → Procs
unfolding proc_wake
tick_proc p m =
    if is_sleep (m p).status && not ((m p).ticks_util_wake == never)
    then (let m1 =
          modify p (λ r. record r { ticks_util_wake = (r.ticks_util_wake + never) % 2 ^ 32 }) m in
        if (m1 p).ticks_util_wake == 0
        then (proc_wake p (modify p (λ r. record r { ticks_util_wake = never }) m1)).1
        else m1)
    else m

-- `do { p = p->next; ... } while(p != current_proc)`
pub wake_loop : ℕ → ℕ → ℕ → Procs → Option Procs
wake_loop zero p stop m = none
wake_loop (suc k) p stop m =
    let q = (m p).next in
    let m1 = tick_proc q m in
    let rest = wake_loop k q stop m1 in if q == stop then some m1 else rest

-- `LOOK_FOR_ACTIVE_PROC`
pub look_for_active : ℕ → Procs → ℕ → Option ℕ
look_for_active zero m p = none
look_for_active (suc k) m p =
    let q = (m p).next in
    let rest = look_for_active k m q in if is_active (m q).status then some q else rest

abbrev pub cpu_state_size : ℕ
cpu_state_size = 72

-- `vmm_activate_context` of kernel/mm/vmm.c, but for the copy of the kernel's page tables.
pub activate_context : ℕ → Kernel → Kernel
activate_context context k =
    if (k.current_context == context) || (context == 0)
    then k
    else record k { current_context = context }

pub activate_proc : ℕ → Kernel → Kernel
activate_proc p k =
    activate_context (k.procs p).context (record k {
      new_cpu = (k.procs p).cpu;
      tss_esp0 = ((k.procs p).cpu + cpu_state_size) % 2 ^ 32;
    })

abbrev pub switch_to : Kernel → Procs → Option ℕ → Option Kernel
switch_to k m none = none
switch_to k m (some q) = some (activate_proc q (record k { procs = m; current_proc = q }))

-- The rest of `schedule` after the loop that wakes processes.
abbrev pub choose : ℕ → Kernel → Option Procs → Option Kernel
choose fuel k none = none
choose fuel k (some m) =
    let m2 = modify k.current_proc (λ r. record r { cpu = k.new_cpu }) m in
    switch_to k m2 (look_for_active fuel m2 k.current_proc)

pub schedule : ℕ → Kernel → Option Kernel
schedule fuel k =
    if k.current_proc == 0
    then (if k.first_proc == 0
        then some k
        else switch_to k k.procs (look_for_active fuel k.procs k.first_proc))
    else choose fuel k (wake_loop fuel k.current_proc k.current_proc k.procs)
