-- ===== src/Proc/Scheduler/Tick.antt =====
-- The first loop of `schedule`: the timer tick of every process in the ring.
use fruity_orange.Base.{
  ℕ, ◌+◌, ◌%◌, ◌^◌, ◌≡◌, ◌≢◌, refl, ◌∙◌, ap, Bool, true, false, ◌==◌, ◌||◌, ◌&&◌, not,
  if◌then◌else◌, Bool-cases, inl, inr, arith,
}
use fruity_orange.Proc.Task.{Proc, Procs, ProcStatus, is_active, is_sleep, never, modify}
use fruity_orange.Proc.Scheduler.{proc_wake, tick_proc}

-- What a tick does to a process: a sleeper with a waking time is a tick nearer to it, and at the
-- end of it awake and without one.
abbrev pub ticked : Proc → Proc
ticked r =
    if is_sleep r.status && not (r.ticks_util_wake == never)
    then (if (r.ticks_util_wake + never) % 2 ^ 32 == 0
        then record r { ticks_util_wake = never; status = ProcStatus.active }
        else record r { ticks_util_wake = (r.ticks_util_wake + never) % 2 ^ 32 })
    else r

-- A process that can run after a tick: it is awake, or this is the tick it sleeps for.
abbrev pub ready : Proc → Bool
ready r = is_active r.status || (is_sleep r.status && (r.ticks_util_wake % 2 ^ 32 == 1))

pub sleep_not_active : (s : ProcStatus) → is_sleep s ≡ true → is_active s ≡ false
sleep_not_active ProcStatus.active e = absurd (ground (arith, e))
sleep_not_active ProcStatus.sleep e = refl
sleep_not_active ProcStatus.zombie e = refl

pub modify-own : (p : ℕ) (f : Proc → Proc) (m : Procs) → modify p f m p ≡ f (m p)
unfolding modify
modify-own p f m = let e : (p == p) ≡ true = ground arith in rw e refl

pub modify-other : (p : ℕ) (f : Proc → Proc) (m : Procs) (x : ℕ) → p ≢ x → modify p f m x ≡ m x
unfolding modify
modify-other p f m x ne = let e : (p == x) ≡ false = ground arith in rw e refl

abbrev count_down : Proc → Proc
count_down r = record r { ticks_util_wake = (r.ticks_util_wake + never) % 2 ^ 32 }

abbrev end_of_count : Proc → Proc
end_of_count r = record r { ticks_util_wake = never }

abbrev wake : Proc → Proc
wake r = record r { status = ProcStatus.active }

-- A sleeper with a waking time.
abbrev waits : Proc → Bool
waits r = is_sleep r.status && not (r.ticks_util_wake == never)

module _ (p : ℕ) (m : Procs) where
  abbrev counted : Procs
  counted = modify p count_down m

  abbrev ended : Procs
  ended = modify p end_of_count counted

  tick_idle : waits (m p) ≡ false → tick_proc p m ≡ m
  unfolding tick_proc
  tick_idle e = rw e refl

  counted_ticks : (counted p).ticks_util_wake ≡ ((m p).ticks_util_wake + never) % 2 ^ 32
  counted_ticks = ap (λ (r : Proc). r.ticks_util_wake) (modify-own p count_down m)

  tick_counts :
      waits (m p) ≡ true
      → (((m p).ticks_util_wake + never) % 2 ^ 32 == 0) ≡ false
      → tick_proc p m ≡ counted
  unfolding tick_proc
  tick_counts e z =
      let c : ((counted p).ticks_util_wake == 0) ≡ false =
        ap (λ (t : ℕ). t == 0) counted_ticks ∙ z in
      rw e (rw c refl)

  ended_asleep : waits (m p) ≡ true → is_active (ended p).status ≡ false
  ended_asleep e =
      ap (λ (r : Proc). is_active r.status) (modify-own p end_of_count counted)
      ∙ ap (λ (r : Proc). is_active r.status) (modify-own p count_down m)
      ∙ sleep_not_active (m p).status (ground (arith, e))

  tick_wakes :
      waits (m p) ≡ true
      → (((m p).ticks_util_wake + never) % 2 ^ 32 == 0) ≡ true
      → tick_proc p m ≡ modify p wake ended
  unfolding tick_proc proc_wake
  tick_wakes e z =
      let c : ((counted p).ticks_util_wake == 0) ≡ true =
        ap (λ (t : ℕ). t == 0) counted_ticks ∙ z in
      rw e (rw c (rw (ended_asleep e) refl))

  pub tick_proc-own : tick_proc p m p ≡ ticked (m p)
  tick_proc-own = elim (Bool-cases (waits (m p))) [
    | inl e ↦ elim (Bool-cases (((m p).ticks_util_wake + never) % 2 ^ 32 == 0)) [
      | inl z ↦ rw (tick_wakes e z) (
          rw e (
            rw z (
              modify-own p wake ended
              ∙ ap wake (
                  modify-own p end_of_count counted
                  ∙ ap end_of_count (modify-own p count_down m)))))
      | inr z ↦ rw (tick_counts e z) (rw e (rw z (modify-own p count_down m)))
    ]
    | inr e ↦ rw (tick_idle e) (rw e refl)
  ]

  pub tick_proc-other : (x : ℕ) → p ≢ x → tick_proc p m x ≡ m x
  tick_proc-other x ne = elim (Bool-cases (waits (m p))) [
    | inl e ↦ elim (Bool-cases (((m p).ticks_util_wake + never) % 2 ^ 32 == 0)) [
      | inl z ↦ rw (tick_wakes e z) (
          modify-other p wake ended x ne
          ∙ modify-other p end_of_count counted x ne
          ∙ modify-other p count_down m x ne)
      | inr z ↦ rw (tick_counts e z) (modify-other p count_down m x ne)
    ]
    | inr e ↦ rw (tick_idle e) refl
  ]
