-- ===== src/Driver/Reading.antt =====
-- kernel/driver/kbc/syscall_wrapper.c: the system calls that wait for keys, and what a key does for
-- the process that waits. The static variables of the file and of `syscall_step` are fields of
-- `Reading`, with the kernel, the bytes that the current context maps, the register `ebx` of the
-- frames by their address, the standard inputs of the processes, and the characters printed, the
-- latest first.
pub mod Line
use fruity_orange.Base.{
  ℕ, zero, suc, ◌+◌, ◌-◌, ◌%◌, ◌^◌, Bool, true, false, ◌==◌, ltb, if◌then◌else◌, Option, none, some,
  List, [], ◌∷◌,
}
use fruity_orange.Clib.Mem.{Memory, write}
use fruity_orange.Driver.Keyboard.{Keyboard}
use fruity_orange.Driver.Keyboard.Translate.{translate_keycode}
use fruity_orange.Proc.Exit.{proc_sleep}
use fruity_orange.Proc.Scheduler.{proc_wake}
use fruity_orange.Proc.Task.{Kernel}
use fruity_orange.Vfs.Inode.{Inode, vfs_write}

pub data Use : Type 0 where
  no_use getc_use gets_use : Use

pub record Reading : Type 0 where
  pub in_use : Use
  pub proc : ℕ
  pub i : ℕ
  pub kernel : Kernel
  pub mem : Memory
  pub ebx : ℕ → ℕ
  pub stdin : ℕ → Inode
  pub printed : List ℕ

abbrev pub set_at {ℓ} : {A : Type ℓ} → ℕ → A → (ℕ → A) → ℕ → A
set_at p v f x = if p == x then v else f x

-- Both system calls, which differ in what they note. `none` is a search of the scheduler that does
-- not end.
abbrev pub wait_as : Use → ℕ → Reading → Option Reading
wait_as kind fuel r = elim r.in_use [
  | no_use ↦ elim (proc_sleep fuel r.kernel.current_proc r.kernel) [
    | none ↦ none
    | some (result, k) ↦ some (record r { in_use = kind; proc = r.kernel.current_proc; kernel = k })
  ]
  | getc_use ↦ some r
  | gets_use ↦ some r
]

unfoldable pub getc_syscall_wrapper : ℕ → Reading → Option Reading
getc_syscall_wrapper = wait_as Use.getc_use

unfoldable pub gets_syscall_wrapper : ℕ → Reading → Option Reading
gets_syscall_wrapper = wait_as Use.gets_use

-- A `char` in a register of 32 bits.
abbrev pub char_word : ℕ → ℕ
char_word ch = if ltb ch 128 then ch else 2 ^ 32 - 256 + ch

-- `vfs_write(current_proc->stdin, current_proc->stdin->length, &ch, 1)`, with `&ch` at `at`.
pub to_stdin : ℕ → ℕ → ℕ → ℕ → ℕ → Reading → Reading
to_stdin uid gid ptr at ch r =
    let p = r.kernel.current_proc in
    let inode = r.stdin p in
    let res = vfs_write uid gid ptr inode inode.length at 1 (write at ch r.mem) in
    record r { stdin = set_at p res.0 r.stdin; mem = res.1 }

-- `proc_wake(proc)`, and nobody waits any more.
unfoldable pub finish_wait : Reading → Reading
finish_wait r = record r {
  in_use = Use.no_use;
  proc = 0;
  kernel = record r.kernel { procs = (proc_wake r.proc r.kernel.procs).1 };
}

-- The case GETC.
unfoldable pub give_char : ℕ → Reading → Reading
unfolding finish_wait
give_char ch r =
    finish_wait (record r { ebx = set_at (r.kernel.procs r.proc).cpu (char_word ch) r.ebx })

-- The case GETS, for the buffer at `s`.
unfoldable pub give_line : ℕ → ℕ → ℕ → Reading → Reading
unfolding finish_wait
give_line buf ch s r =
    if buf == 66
    then finish_wait
        (record r { mem = write ((s + r.i) % 2 ^ 32) 0 r.mem; i = 0; printed = 10 ∷ r.printed })
    else if buf == 65
    then (if ltb 0 r.i then record r { printed = 13 ∷ r.printed; i = r.i - 1 } else r)
    else record r {
      mem = write ((s + r.i) % 2 ^ 32) ch r.mem;
      i = r.i + 1;
      printed = ch ∷ r.printed;
    }

abbrev pub give : ℕ → ℕ → Reading → Reading
give buf ch r = elim r.in_use [
  | no_use ↦ r
  | getc_use ↦ give_char ch r
  | gets_use ↦ give_line buf ch (r.ebx (r.kernel.procs r.proc).cpu) r
]

-- `none` is a key outside of the table.
pub syscall_step : ℕ → ℕ → ℕ → ℕ → ℕ → Keyboard → Reading → Option Reading
syscall_step assignment uid gid ptr at k r = elim r.in_use [
  | no_use ↦ some r
  | getc_use ↦ elim (translate_keycode assignment k.modus k.buffer) [
    | none ↦ none
    | some ch ↦ some (give k.buffer ch (to_stdin uid gid ptr at ch r))
  ]
  | gets_use ↦ elim (translate_keycode assignment k.modus k.buffer) [
    | none ↦ none
    | some ch ↦ some (give k.buffer ch (to_stdin uid gid ptr at ch r))
  ]
]
