-- ===== src/Proc/Task.antt =====
-- kernel/include/proc/proc.h and kernel/proc/proc.c: the process structures and the ring that
-- `next` and `prev` link them into. The structures are a function from addresses; what `malloc`
-- returns for a new one is an argument. 0 is NULL, `unsigned int` has 32 bits.
pub mod Ring
pub mod Create
pub mod Rotate
pub mod Unlink
use fruity_orange.Base.{ℕ, ◌+◌, ◌-◌, ◌%◌, ◌^◌, Bool, true, false, ◌==◌, if◌then◌else◌, List, []}

pub data ProcStatus : Type 0 where
  active sleep zombie : ProcStatus

abbrev pub is_active : ProcStatus → Bool
is_active ProcStatus.active = true
is_active _ = false

abbrev pub is_sleep : ProcStatus → Bool
is_sleep ProcStatus.sleep = true
is_sleep _ = false

-- -1 as an unsigned number.
abbrev pub never : ℕ
never = 2 ^ 32 - 1

-- `proc_t`, without the file descriptors and the environment, which `Fd` and `Env` model. A
-- process's registers and its address space are the pointers `cpu` and `context`.
pub record Proc : Type 0 where
  pub pid : ℕ
  pub ppid : ℕ
  pub waitpid : ℕ
  pub child_count : ℕ
  pub uid : ℕ
  pub dpl : ℕ
  pub cpu : ℕ
  pub context : ℕ
  pub used_mem_pages : ℕ
  pub ticks : ℕ
  pub ticks_util_wake : ℕ
  pub status : ProcStatus
  pub parent : ℕ
  pub next : ℕ
  pub prev : ℕ

abbrev pub Procs : Type 0
Procs = ℕ → Proc

-- A write to fields of the structure at `p`.
unfoldable pub modify : ℕ → (Proc → Proc) → Procs → Procs
modify p f m x = if p == x then f (m x) else m x

-- The globals of proc.c, scheduler.c, kernel/interrupt/idt.c (`new_cpu`), kernel/init/gdt.c
-- (`tss[1]`) and kernel/mm/vmm.c (`current_context`).
pub record Kernel : Type 0 where
  pub procs : Procs
  pub first_proc : ℕ
  pub current_proc : ℕ
  pub proc_count : ℕ
  pub new_cpu : ℕ
  pub tss_esp0 : ℕ
  pub current_context : ℕ

abbrev pub set_next : ℕ → ℕ → Procs → Procs
set_next p q m = modify p (λ r. record r { next = q }) m

abbrev pub set_prev : ℕ → ℕ → Procs → Procs
set_prev p q m = modify p (λ r. record r { prev = q }) m

abbrev pub get_pid : Kernel → ℕ
get_pid k = k.proc_count

-- The fields that `create_proc` fills in before it links the structure; `old` is what stood in
-- the memory. `cpu` is the address of the frame on the new kernel stack.
abbrev pub fresh_proc : Proc → ℕ → ℕ → ℕ → ℕ → Proc
fresh_proc old pid context dpl cpu = record old {
  pid = pid;
  ppid = 0;
  waitpid = 0;
  child_count = 0;
  uid = 0;
  dpl = dpl;
  cpu = cpu;
  context = context;
  used_mem_pages = 0;
  ticks = 3;
  ticks_util_wake = never;
  status = ProcStatus.active;
  parent = 0;
}

-- The else branch of the linking in `create_proc`, write by write.
abbrev pub link_before_first : ℕ → ℕ → Procs → Procs
link_before_first p first m0 =
    let m1 = set_next p first m0 in
    let m2 = set_prev p (m1 first).prev m1 in
    let m3 = set_next (m2 first).prev p m2 in set_prev first p m3

-- `p` is what `malloc` returns for the structure. The count has been raised by `get_pid`.
unfoldable pub create_proc : ℕ → ℕ → ℕ → ℕ → Kernel → Kernel
unfolding modify
create_proc p context dpl cpu k = record k { procs = linked; first_proc = p; proc_count = count }
  where
    count : ℕ
    count = (k.proc_count + 1) % 2 ^ 32

    filled : Procs
    filled = modify p (λ r. fresh_proc r (get_pid k) context dpl cpu) k.procs

    linked : Procs
    linked =
        if count == 1
        then set_prev p p (set_next p p filled)
        else link_before_first p k.first_proc filled

-- `proc->prev->next = proc->next; proc->next->prev = proc->prev`
pub unlink : ℕ → Procs → Procs
unfolding modify
unlink p m = let m1 = set_next (m p).prev (m p).next m in set_prev (m1 p).next (m1 p).prev m1
