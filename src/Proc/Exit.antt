-- ===== src/Proc/Exit.antt =====
-- Falling asleep, waiting for a child and ending: `proc_sleep`, `proc_waitpid`, `proc_exit` and
-- `proc_kill` of kernel/proc/proc.c, and the system calls of kernel/proc/syscall_wrappers.c that
-- call them. The memory that a process frees is left out.
pub mod Sleep
pub mod Leave
use fruity_orange.Base.{
  ℕ, zero, suc, ◌+◌, ◌-◌, ◌/◌, ◌%◌, ◌^◌, Bool, true, false, ◌==◌, ◌||◌, ◌&&◌, not, if◌then◌else◌,
  Option, none, some,
}
use fruity_orange.Proc.Task.{
  Proc, Procs, Kernel, ProcStatus, is_active, is_sleep, never, modify, unlink,
}
use fruity_orange.Proc.Scheduler.{proc_wake, schedule}

abbrev pub with_result : ℕ → Option Kernel → Option (ℕ × Kernel)
with_result r none = none
with_result r (some k) = some (r, k)

-- The result, -1 when the process sleeps already, and the kernel.
pub proc_sleep : ℕ → ℕ → Kernel → Option (ℕ × Kernel)
proc_sleep fuel p k =
    if is_sleep (k.procs p).status
    then some (never, k)
    else (let k1 = record k {
      procs = modify p (λ r. record r { status = ProcStatus.sleep }) k.procs;
    } in
        if p == k.current_proc then with_result 0 (schedule fuel k1) else some (0, k1))

abbrev set_waitpid : ℕ → ℕ → Option (ℕ × Kernel) → Option Kernel
set_waitpid p pid none = none
set_waitpid p pid (some (r, k)) =
    some (record k { procs = modify p (λ r. record r { waitpid = pid }) k.procs })

pub proc_waitpid : ℕ → ℕ → ℕ → Kernel → Option Kernel
unfolding proc_sleep
proc_waitpid fuel p pid k = set_waitpid p pid (proc_sleep fuel p k)

-- `if(proc->parent) { ... }` of `proc_exit`
unfoldable pub notify_parent : ℕ → Procs → Procs
notify_parent p m =
    let parent = (m p).parent in
    if parent == 0
    then m
    else if (m parent).waitpid == (m p).ppid
    then (proc_wake parent (modify parent (λ r. record r { waitpid = never }) m)).1
    else m

pub unlinked : ℕ → Option Kernel → Option Kernel
unlinked p none = none
unlinked p (some k) = some (record k { procs = unlink p k.procs })

pub proc_kill : ℕ → ℕ → Kernel → Option Kernel
unfolding unlinked
proc_kill fuel p k =
    if p == k.current_proc then unlinked p (schedule fuel k) else unlinked p (some k)

-- The kernel when `proc_exit` comes to `proc_kill`.
unfoldable pub leave : ℕ → Kernel → Kernel
unfolding notify_parent
leave p k = record k {
  procs = notify_parent p (modify p (λ r. record r { status = ProcStatus.zombie }) k.procs);
}

pub proc_exit : ℕ → ℕ → ℕ → Kernel → Option (ℕ × Kernel)
unfolding proc_kill leave
proc_exit fuel p status k = with_result status (proc_kill fuel p (leave p k))

pub syscall_exit : ℕ → ℕ → Kernel → Option (ℕ × Kernel)
unfolding proc_exit
syscall_exit fuel ebx k = proc_exit fuel k.current_proc ebx k

abbrev pub pit_freq : ℕ
pit_freq = 50

pub syscall_usleep : ℕ → ℕ → Kernel → Option (ℕ × Kernel)
unfolding proc_sleep
syscall_usleep fuel ebx k = proc_sleep fuel k.current_proc (record k {
  procs =
      modify k.current_proc (λ r. record r { ticks_util_wake = ebx / (1000000 / pit_freq) })
        k.procs;
})

pub syscall_waitpid : ℕ → ℕ → Kernel → Option Kernel
unfolding proc_waitpid
syscall_waitpid fuel ebx k = proc_waitpid fuel k.current_proc ebx k
