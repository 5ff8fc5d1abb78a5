-- ===== src/Proc/Exit/Sleep.antt =====
-- How long a sleeper sleeps: `syscall_usleep` of kernel/proc/syscall_wrappers.c against the timer
-- tick of kernel/proc/scheduler.c.
use fruity_orange.Base.{
  ℕ, zero, suc, ◌+◌, ◌-◌, ◌%◌, ◌^◌, ◌<◌, ◌≡◌, ◌≢◌, refl, ◌∙◌, ap, true, false, ◌==◌, arith,
}
use fruity_orange.Proc.Task.{Proc, Procs, ProcStatus, is_sleep, never}
use fruity_orange.Proc.Scheduler.{tick_proc}
use fruity_orange.Proc.Scheduler.Tick.{ticked, tick_proc-own}

-- `n` ticks of the process at `p`.
abbrev pub tick_many : ℕ → ℕ → Procs → Procs
tick_many zero p m = m
tick_many (suc n) p m = tick_many n p (tick_proc p m)

-- Asleep with `t` ticks to go.
abbrev pub Sleeps : Proc → ℕ → Type 0
Sleeps r t = (r.status ≡ ProcStatus.sleep) × (r.ticks_util_wake ≡ t)

pub ticked_counts :
    (r : Proc) (t : ℕ) → t < never → t ≢ 1 → Sleeps r t → Sleeps (ticked r) ((t + never) % 2 ^ 32)
ticked_counts r t h ne s =
    let asleep : is_sleep r.status ≡ true = ap is_sleep s.0 in
    let timed : (r.ticks_util_wake == never) ≡ false = ground (arith, s.1) in
    let more : ((r.ticks_util_wake + never) % 2 ^ 32 == 0) ≡ false = ground (arith, s.1) in
    rw asleep (rw timed (rw more (s.0, ap (λ (v : ℕ). (v + never) % 2 ^ 32) s.1)))

pub ticked_wakes :
    (r : Proc)
    → Sleeps r 1
    → ((ticked r).status ≡ ProcStatus.active) × ((ticked r).ticks_util_wake ≡ never)
ticked_wakes r s =
    let asleep : is_sleep r.status ≡ true = ap is_sleep s.0 in
    let timed : (r.ticks_util_wake == never) ≡ false = ground (arith, s.1) in
    let over : ((r.ticks_util_wake + never) % 2 ^ 32 == 0) ≡ true = ground (arith, s.1) in
    rw asleep (rw timed (rw over (refl, refl)))

ticked_never : (r : Proc) → Sleeps r never → Sleeps (ticked r) never
ticked_never r s =
    let asleep : is_sleep r.status ≡ true = ap is_sleep s.0 in
    let timeless : (r.ticks_util_wake == never) ≡ true = ground (arith, s.1) in
    rw asleep (rw timeless s)

module _ (p : ℕ) where
  ticked_at : (m : Procs) (t : ℕ) → Sleeps (ticked (m p)) t → Sleeps (tick_proc p m p) t
  ticked_at m t s = rw (tick_proc-own p m) s

  count_down :
      (j n : ℕ) (m : Procs)
      → Sleeps (m p) n
      → j < n
      → n < never
      → Sleeps (tick_many j p m p) (n - j)
  count_down zero n m s h b = let all : n ≡ n - 0 = omega arith in (s.0, s.1 ∙ all)
  count_down (suc j) n m s h b =
      let less : (n + never) % 2 ^ 32 ≡ n - 1 = omega arith in
      let next : Sleeps (tick_proc p m p) (n - 1) =
        ticked_at m (n - 1) (rw less at (ticked_counts (m p) n b (omega arith) s)) in
      let rest : Sleeps (tick_many j p (tick_proc p m) p) (n - 1 - j) =
        count_down j (n - 1) (tick_proc p m) next (omega arith) (omega arith) in
      let same : n - 1 - j ≡ n - suc j = omega arith in (rest.0, rest.1 ∙ same)

  wakes_up :
      (n : ℕ) (m : Procs)
      → Sleeps (m p) (suc n)
      → suc n < never
      → ((tick_many (suc n) p m p).status ≡ ProcStatus.active)
        × ((tick_many (suc n) p m p).ticks_util_wake ≡ never)
  wakes_up zero m s b = rw (tick_proc-own p m) (ticked_wakes (m p) s)
  wakes_up (suc n) m s b =
      let less : (suc (suc n) + never) % 2 ^ 32 ≡ suc n = omega arith in
      wakes_up n (tick_proc p m)
        (ticked_at m (suc n) (rw less at (ticked_counts (m p) (suc (suc n)) b (omega arith) s)))
        (omega arith)

  stays_asleep :
      (j : ℕ) (m : Procs) → Sleeps (m p) never → (tick_many j p m p).status ≡ ProcStatus.sleep
  stays_asleep zero m s = s.0
  stays_asleep (suc j) m s =
      stays_asleep j (tick_proc p m) (ticked_at m never (ticked_never (m p) s))

-- A process that sleeps for `n` ticks, `n` being neither 0 nor -1, sleeps with one tick less to go
-- after each of them, and is awake after `n`, with no waking time.
pub sleeper-wakes :
    (p n : ℕ) (m : Procs)
    → Sleeps (m p) n
    → 0 < n
    → n < never
    → ((j : ℕ) → j < n → Sleeps (tick_many j p m p) (n - j))
      × ((tick_many n p m p).status ≡ ProcStatus.active)
      × ((tick_many n p m p).ticks_util_wake ≡ never)
sleeper-wakes p zero m s pos b = absurd (omega arith)
sleeper-wakes p (suc n) m s pos b =
    let (awake, timeless) = wakes_up p n m s b in
    ((λ j h. count_down p j (suc n) m s h b), awake, timeless)

-- A process that sleeps for 0 ticks never wakes: its time wraps to -1, which stands for none.
pub sleeper_zero :
    (p j : ℕ) (m : Procs) → Sleeps (m p) 0 → (tick_many j p m p).status ≡ ProcStatus.sleep
sleeper_zero p zero m s = s.0
sleeper_zero p (suc j) m s =
    stays_asleep p j (tick_proc p m)
      (ticked_at p m never (ticked_counts (m p) 0 (omega arith) (omega arith) s))
