-- ===== src/Driver/Tests.antt =====
-- The theorems on kernel/driver/kbc at a keyboard that was just started, and runs.
use fruity_orange.Base.{◌≡◌, refl, none, some, [], ◌∷◌, arith, ◌==◌, if◌then◌else◌}
use fruity_orange.Driver.Keyboard.{
  Keyboard, keyboard_irq_handler, handle_all, make_code, send_key_event,
}
use fruity_orange.Driver.Keyboard.Translate.{translate_scancode}
use fruity_orange.Driver.Keyboard.States.{IsKeyboard, handle_all-IsKeyboard, handler_waits}
use fruity_orange.Driver.Reading.{Use, Reading, give_line}
use fruity_orange.Driver.Reading.Line.{Holds, give_line-Holds}
use fruity_orange.Proc.Task.{Proc, ProcStatus, Kernel}
use fruity_orange.Vfs.Inode.{Inode}

abbrev started : Keyboard
started = record { buffer = 0; modus = 0; e0_code = 0; e1_code = 0; e1_prev = 0 }

started-IsKeyboard : IsKeyboard started
started-IsKeyboard = record {
  e0 = refl;
  e1 = omega arith;
  modus = omega arith;
  buffer = omega arith;
}

-- Shift and A are pressed, and A is released.
abbrev shifted : Keyboard
shifted = record { buffer = 41; modus = 1; e0_code = 0; e1_code = 0; e1_prev = 0 }

shift_a : handle_all (0x2a ∷ 0x1e ∷ 0x9e ∷ []) started ≡ some shifted
unfolding handle_all keyboard_irq_handler make_code send_key_event translate_scancode
shift_a = refl

handle_all-IsKeyboard_example : IsKeyboard shifted
handle_all-IsKeyboard_example =
    handle_all-IsKeyboard (0x2a ∷ 0x1e ∷ 0x9e ∷ []) started shifted started-IsKeyboard shift_a

abbrev waiting : Keyboard
waiting = record { buffer = 0; modus = 0; e0_code = 0; e1_code = 1; e1_prev = 0 }

released : keyboard_irq_handler 0x9d waiting ≡ some (waiting, none)
unfolding keyboard_irq_handler send_key_event translate_scancode
released = refl

handler_waits_example : waiting.e1_code ≡ 1
handler_waits_example =
    handler_waits 0x9d waiting waiting none refl (omega arith) (omega arith) (omega arith) released

-- A process that sleeps until its line has been typed, of which "a" stands at 100.
abbrev sleeper : Proc
sleeper = record {
  pid = 1;
  ppid = 0;
  waitpid = 0;
  child_count = 0;
  uid = 0;
  dpl = 3;
  cpu = 0x2000;
  context = 0;
  used_mem_pages = 0;
  ticks = 3;
  ticks_util_wake = 0;
  status = ProcStatus.sleep;
  parent = 0;
  next = 16;
  prev = 16;
}

abbrev machine : Kernel
machine = record {
  procs = λ p. sleeper;
  first_proc = 16;
  current_proc = 16;
  proc_count = 1;
  new_cpu = 0;
  tss_esp0 = 0;
  current_context = 0;
}

abbrev input : Inode
input = record { mode = 0; size = 0; id = 0; uid = 0; gid = 0; base = 0; length = 0 }

abbrev reading : Reading
reading = record {
  in_use = Use.gets_use;
  proc = 16;
  i = 1;
  kernel = machine;
  mem = λ a. if a == 100 then 97 else 0;
  ebx = λ frame. 100;
  stdin = λ p. input;
  printed = 97 ∷ [];
}

-- "ab" after the key of "b", and nothing after the one that deletes.
give_line-Holds_example : Holds 100 (98 ∷ 97 ∷ []) (give_line 46 98 100 reading)
give_line-Holds_example =
    give_line-Holds 46 98 100 (97 ∷ []) reading (omega arith) (omega arith)
      (record { count = refl; text = (refl, tt) })

delete_a : (give_line 65 0 100 reading).i ≡ 0
unfolding give_line
delete_a = refl
