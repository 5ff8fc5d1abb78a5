-- ===== src/Proc/Tests.antt =====
-- The theorems on kernel/proc at rings of one and of two processes.
use fruity_orange.Base.{
  ℕ, ◌+◌, ◌-◌, ◌%◌, ◌^◌, ◌<◌, ◌≡◌, ◌≢◌, refl, some, none, [], ◌∷◌, ◌++◌, arith,
}
use fruity_orange.Proc.Task.{Kernel, Proc, ProcStatus, create_proc, modify, never, Procs}
use fruity_orange.Proc.Task.Ring.{Ring}
use fruity_orange.Proc.Task.Create.{IsFresh, create_proc_first, create_proc-Ring}
use fruity_orange.Proc.Scheduler.{schedule}
use fruity_orange.Proc.Scheduler.Tick.{ready}
use fruity_orange.Proc.Scheduler.Choice.{first_such, Scheduled, schedule-first_such}
use fruity_orange.Proc.Exit.{leave, notify_parent, proc_exit, proc_kill}
use fruity_orange.Proc.Exit.Sleep.{Sleeps, tick_many, sleeper-wakes}
use fruity_orange.Proc.Exit.Leave.{kill-Ring, proc_exit-Ring}
use fruity_orange.Proc.Env.{Env, getenv, proc_copy_env}
use fruity_orange.Proc.Env.Laws.{getenv-copy_env}
use fruity_orange.Proc.Fd.{FdState, Fds, proc_get_unused_fd}
use fruity_orange.Proc.Fd.Slots.{Outcome, unused_fd-Outcome}

-- Memory before a structure is filled in.
abbrev blank : Proc
blank = record {
  pid = 0;
  ppid = 0;
  waitpid = 0;
  child_count = 0;
  uid = 0;
  dpl = 0;
  cpu = 0;
  context = 0;
  used_mem_pages = 0;
  ticks = 0;
  ticks_util_wake = 0;
  status = ProcStatus.zombie;
  parent = 0;
  next = 0;
  prev = 0;
}

abbrev booted : Kernel
booted = record {
  procs = λ a. blank;
  first_proc = 0;
  current_proc = 0;
  proc_count = 0;
  new_cpu = 0;
  tss_esp0 = 0;
  current_context = 0;
}

-- After the idle process, at 16, was made.
abbrev with_idle : Kernel
with_idle = create_proc 16 0x1000 0 0x2000 booted

with_idle_count : with_idle.proc_count ≡ 1
unfolding create_proc
with_idle_count = refl

abbrev with_two : Kernel
with_two = create_proc 32 0x3000 3 0x4000 with_idle

first_created :
    Ring with_idle.procs with_idle.first_proc []
    × (with_idle.first_proc ≡ 16)
    × IsFresh (with_idle.procs 16) 0 0x1000 0 0x2000
first_created = create_proc_first 16 0x1000 0 0x2000 booted refl

first_16 : with_idle.first_proc ≢ 32
first_16 e = absurd (ground (arith, first_created.1, e))

counted : (with_idle.proc_count + 1) % 2 ^ 32 ≢ 1
counted e = absurd (ground (arith, with_idle_count, e))

create_proc-Ring_example :
    Ring with_two.procs with_two.first_proc (with_idle.first_proc ∷ [])
    × (with_two.first_proc ≡ 32)
    × IsFresh (with_two.procs 32) with_idle.proc_count 0x3000 3 0x4000
create_proc-Ring_example =
    create_proc-Ring 32 0x3000 3 0x4000 with_idle [] first_created.0 (first_16, tt) counted

-- The second process runs.
abbrev running : Kernel
running = record with_two { current_proc = 32 }

running-Ring : Ring running.procs running.current_proc (16 ∷ [])
unfolding create_proc
running-Ring =
    (create_proc-Ring 32 0x3000 3 0x4000 with_idle []
      (create_proc_first 16 0x1000 0 0x2000 booted refl).0 (first_16, tt) counted).0

idle_ready : first_such (λ x. ready (running.procs x)) ((16 ∷ []) ++ 32 ∷ []) ≡ some 16
unfolding create_proc modify
idle_ready = refl

schedule-first_such_example :
    (k' : Kernel) × (schedule 2 running ≡ some k') × Scheduled running (16 ∷ []) 16 k'
schedule-first_such_example =
    schedule-first_such 2 running (16 ∷ []) 16 running-Ring (omega arith) (omega arith) idle_ready

idle_ready_later :
    first_such (λ x. ready ((leave 32 running).procs x)) ((16 ∷ []) ++ 32 ∷ []) ≡ some 16
unfolding create_proc modify leave notify_parent
idle_ready_later = refl

proc_exit-Ring_example :
    (k' : Kernel) × (proc_exit 2 32 7 running ≡ some (7, k'))
    × (k'.current_proc ≡ 16)
    × Ring k'.procs 16 []
proc_exit-Ring_example =
    proc_exit-Ring 2 7 16 [] 16 running running-Ring (omega arith) (omega arith) idle_ready_later

kill-Ring_example :
    (k' : Kernel) × (proc_kill 0 16 running ≡ some k')
    × Ring k'.procs 32 []
    × (k'.current_proc ≡ 32)
kill-Ring_example = kill-Ring 0 32 [] 16 [] running running-Ring (omega arith)

abbrev asleep : ℕ → Procs
asleep n a = record blank { status = ProcStatus.sleep; ticks_util_wake = n }

sleeper-wakes_example :
    ((j : ℕ) → j < 3 → Sleeps (tick_many j 16 (asleep 3) 16) (3 - j))
    × ((tick_many 3 16 (asleep 3) 16).status ≡ ProcStatus.active)
    × ((tick_many 3 16 (asleep 3) 16).ticks_util_wake ≡ never)
sleeper-wakes_example = sleeper-wakes 16 3 (asleep 3) (refl, refl) (omega arith) (omega arith)

-- "A" is "1" and "B" is "2".
abbrev variables : Env
variables =
    record { name = 65 ∷ []; value = 49 ∷ [] } ∷ record { name = 66 ∷ []; value = 50 ∷ [] } ∷ []

getenv-copy_env_example : getenv (66 ∷ []) (proc_copy_env variables []) ≡ getenv (66 ∷ []) variables
getenv-copy_env_example =
    getenv-copy_env (66 ∷ []) variables (((λ e. absurd (ground (arith, e))), tt), (tt, tt))

abbrev zeroed : FdState
zeroed = record { inode = 0; mode = 0; flags = 0; pos = 0 }

-- Descriptor 1 is not in use.
abbrev descriptors : Fds
descriptors = some zeroed ∷ none ∷ some zeroed ∷ []

unused_fd-Outcome_example : Outcome zeroed descriptors (proc_get_unused_fd zeroed descriptors)
unused_fd-Outcome_example = unused_fd-Outcome zeroed descriptors
