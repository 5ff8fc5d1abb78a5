-- ===== src/Driver/Reading/Line.antt =====
-- What the system calls of kernel/driver/kbc/syscall_wrapper.c and the step of a key do.
use fruity_orange.Base.{
  ℕ, ◌+◌, ◌-◌, ◌%◌, ◌^◌, ◌<◌, ◌≤◌, ◌≡◌, ◌≢◌, ◌⊎◌, inl, inr, refl, ap, ◌∙◌, true, false, some, List,
  [], ◌∷◌, length, ◌==◌, arith, if◌then◌else◌, ltb, Bool-cases,
}
use fruity_orange.Clib.Mem.{Memory, write}
use fruity_orange.Clib.Mem.Laws.{write_self, write_other}
use fruity_orange.Driver.Reading.{
  Use, Reading, give_line, finish_wait, getc_syscall_wrapper, gets_syscall_wrapper,
}
use fruity_orange.Proc.Scheduler.{proc_wake}
use fruity_orange.Proc.Task.{Procs, is_active, modify}

-- The line that the keys up to now make: key 65 takes its last character away.
abbrev edit_line : ℕ → ℕ → List ℕ → List ℕ
edit_line buf ch line = if buf == 65 then elim line [ [] ↦ [] | c ∷ cs ↦ cs ] else ch ∷ line

-- The characters of a line, the last one first, stand at `s`.
abbrev StandsAt : Memory → ℕ → List ℕ → Type 0
StandsAt m s [] = Unit
StandsAt m s (c ∷ cs) = (m (s + length cs) ≡ c) × StandsAt m s cs

-- A write behind a line keeps it.
behind-StandsAt :
    (m : Memory) (s p x : ℕ) (line : List ℕ)
    → s + length line ≤ p
    → StandsAt m s line
    → StandsAt (write p x m) s line
behind-StandsAt m s p x [] h v = tt
behind-StandsAt m s p x (c ∷ cs) h v = (
  write_other p x (s + length cs) m (omega arith) ∙ v.0,
  behind-StandsAt m s p x cs (omega arith) v.1,
)

-- The state of the case GETS holds the line `line` in the buffer at `s`.
pub record Holds (s : ℕ) (line : List ℕ) (r : Reading) : Type 0 where
  pub count : r.i ≡ length line
  pub text : StandsAt r.mem s line

-- A key that is typed, and the one that deletes.
type_key :
    (ch s : ℕ) (line : List ℕ) (r : Reading)
    → s + length line < 2 ^ 32
    → Holds s line r
    → Holds s (ch ∷ line) (record r {
      mem = write ((s + r.i) % 2 ^ 32) ch r.mem;
      i = r.i + 1;
      printed = ch ∷ r.printed;
    })
type_key ch s line r l v =
    let c = v.count in
    let e : (s + r.i) % 2 ^ 32 ≡ s + length line = omega arith in
    record {
      count = omega arith;
      text = (
        ap (λ (p : ℕ). write p ch r.mem (s + length line)) e
            ∙ write_self (s + length line) ch r.mem,
        behind-StandsAt r.mem s ((s + r.i) % 2 ^ 32) ch line (omega arith) v.text,
      );
    }

delete_key :
    (s : ℕ) (line : List ℕ) (r : Reading)
    → Holds s line r
    → Holds s
        (elim line [ [] ↦ [] | c ∷ cs ↦ cs ])
        (if ltb 0 r.i then record r { printed = 13 ∷ r.printed; i = r.i - 1 } else r)
delete_key s [] r v = let e : ltb 0 r.i ≡ false = ground (arith, v.count) in rw (e) v
delete_key s (c ∷ cs) r v =
    let e : ltb 0 r.i ≡ true = ground (arith, v.count) in
    let k = v.count in rw (e) (record { count = omega arith; text = v.text.1 })

-- In the case GETS each key but the one that ends the line (66) changes the buffer as it changes the
-- line that the keys make: 65 takes the last character away and any other key adds its character,
-- where the place behind the line lies below 2 ^ 32.
pub give_line-Holds :
    (buf ch s : ℕ) (line : List ℕ) (r : Reading)
    → buf ≢ 66
    → s + length line < 2 ^ 32
    → Holds s line r
    → Holds s (edit_line buf ch line) (give_line buf ch s r)
unfolding give_line
give_line-Holds buf ch s line r h l v =
    let ne : (buf == 66) ≡ false = ground arith in
    elim (Bool-cases (buf == 65)) [
      | inl e ↦ rw (ne, e) (delete_key s line r v)
      | inr e ↦ rw (ne, e) (type_key ch s line r l v)
    ]

-- Whoever is awake stays so, and `proc_wake` makes a process active.
wake_active : (p : ℕ) (m : Procs) → is_active ((proc_wake p m).1 p).status ≡ true
unfolding proc_wake modify
wake_active p m = ground (arith)

-- The key that ends the line puts the zero behind it, ends the wait and makes the process active.
give_line_end :
    (ch s : ℕ) (line : List ℕ) (r : Reading)
    → s + length line < 2 ^ 32
    → Holds s line r
    → let r' = give_line 66 ch s r in
      StandsAt r'.mem s line
      × (r'.mem (s + length line) ≡ 0)
      × (r'.in_use ≡ Use.no_use)
      × (is_active (r'.kernel.procs r.proc).status ≡ true)
unfolding give_line finish_wait
give_line_end ch s line r l v =
    let e : (s + r.i) % 2 ^ 32 ≡ s + length line = let c = v.count in omega arith in
    (
      behind-StandsAt r.mem s ((s + r.i) % 2 ^ 32) 0 line (omega arith) v.text,
      ap (λ (p : ℕ). write p 0 r.mem (s + length line)) e ∙ write_self (s + length line) 0 r.mem,
      refl,
      wake_active r.proc r.kernel.procs,
    )

Use-cases : (u : Use) → (u ≡ Use.no_use) ⊎ ((u ≡ Use.getc_use) ⊎ (u ≡ Use.gets_use))
Use-cases Use.no_use = inl refl
Use-cases Use.getc_use = inr (inl refl)
Use-cases Use.gets_use = inr (inr refl)

-- While a process waits for a key, a second one that asks for keys is not put to sleep: the calls change nothing.
wrappers_busy :
    (fuel : ℕ) (r : Reading)
    → r.in_use ≢ Use.no_use
    → (getc_syscall_wrapper fuel r ≡ some r) × (gets_syscall_wrapper fuel r ≡ some r)
unfolding getc_syscall_wrapper gets_syscall_wrapper
wrappers_busy fuel r h = elim (Use-cases r.in_use) [
  | inl e ↦ absurd (h e)
  | inr (inl e) ↦ rw (e) (refl, refl)
  | inr (inr e) ↦ rw (e) (refl, refl)
]
