-- ===== src/Proc/Scheduler/Round.antt =====
-- The two loops of `schedule` around the ring of processes.
use fruity_orange.Base.{
  ℕ, zero, suc, ◌+◌, ◌%◌, ◌^◌, ◌<◌, ◌≡◌, ◌≢◌, refl, sym, ◌∙◌, ap, Bool, true, false, ◌==◌, ◌||◌,
  ◌&&◌, not, if◌then◌else◌, some, List, [], ◌∷◌, ◌++◌, length, Bool-cases, inl, inr, arith,
}
use mathlib.Core.Path.{subst}
use fruity_orange.Proc.Task.{Proc, Procs, ProcStatus, is_sleep, never}
use fruity_orange.Proc.Task.Ring.{Links, Links-frame, Differs, Distinct}
use fruity_orange.Proc.Scheduler.{tick_proc, wake_loop}
use fruity_orange.Proc.Scheduler.Tick.{ticked, tick_proc-own, tick_proc-other}

abbrev pub elem : ℕ → List ℕ → Bool
elem x [] = false
elem x (y ∷ ys) = (y == x) || elem x ys

-- Every process of the list had one tick, and nothing else was written.
abbrev pub IsTicked : List ℕ → Procs → Procs → Type 0
IsTicked zs m m' = (x : ℕ) → m' x ≡ (if elem x zs then ticked (m x) else m x)

-- A tick writes the waking time and the status only.
module _ (field : Proc → ℕ)
    (same : (r : Proc) (t : ℕ) (s : ProcStatus)
      → field (record r { ticks_util_wake = t; status = s }) ≡ field r) where
  ticked_field : (r : Proc) → field (ticked r) ≡ field r
  ticked_field r = elim (Bool-cases (is_sleep r.status && not (r.ticks_util_wake == never))) [
    | inl e ↦ elim (Bool-cases ((r.ticks_util_wake + never) % 2 ^ 32 == 0)) [
      | inl z ↦ rw e (rw z (same r never ProcStatus.active))
      | inr z ↦ rw e (rw z (same r ((r.ticks_util_wake + never) % 2 ^ 32) r.status))
    ]
    | inr e ↦ rw e refl
  ]

ticked_next : (r : Proc) → (ticked r).next ≡ r.next
ticked_next = ticked_field (λ r. r.next) (λ r t s. refl)

ticked_prev : (r : Proc) → (ticked r).prev ≡ r.prev
ticked_prev = ticked_field (λ r. r.prev) (λ r t s. refl)

pub ticked_context : (r : Proc) → (ticked r).context ≡ r.context
ticked_context = ticked_field (λ r. r.context) (λ r t s. refl)

-- A tick keeps what a field holds if it keeps it for the process itself.
module _ (field : Proc → ℕ) (kept : (r : Proc) → field (ticked r) ≡ field r) where
  tick_keeps : (p : ℕ) (m : Procs) (x : ℕ) → field (tick_proc p m x) ≡ field (m x)
  tick_keeps p m x = elim (Bool-cases (p == x)) [
    | inl e ↦
        let q : p ≡ x = ground (arith, e) in
        ap (λ (t : ℕ). field (tick_proc p m t)) (sym q)
        ∙ ap field (tick_proc-own p m)
        ∙ kept (m p)
        ∙ ap (λ (t : ℕ). field (m t)) q
    | inr e ↦ ap field (tick_proc-other p m x (ground (arith, e)))
  ]

  pub ticked_keeps :
      (zs : List ℕ) (m m' : Procs) → IsTicked zs m m' → (x : ℕ) → field (m' x) ≡ field (m x)
  ticked_keeps zs m m' t x = elim (Bool-cases (elem x zs)) [
    | inl e ↦ ap field (t x) ∙ rw e (kept (m x))
    | inr e ↦ ap field (t x) ∙ rw e refl
  ]

-- The links stay through a tick, and through a round of ticks.
pub tick-Links :
    (q : ℕ) (m : Procs) (a : ℕ) (xs : List ℕ) (b : ℕ)
    → Links m a xs b
    → Links (tick_proc q m) a xs b
tick-Links q m a xs b l =
    Links-frame m (tick_proc q m) a xs b (tick_keeps (λ r. r.next) ticked_next q m)
      (tick_keeps (λ r. r.prev) ticked_prev q m) l

pub ticked-Links :
    (zs : List ℕ) (m m' : Procs) (a : ℕ) (xs : List ℕ) (b : ℕ)
    → IsTicked zs m m'
    → Links m a xs b
    → Links m' a xs b
ticked-Links zs m m' a xs b t l =
    Links-frame m m' a xs b (ticked_keeps (λ r. r.next) ticked_next zs m m' t)
      (ticked_keeps (λ r. r.prev) ticked_prev zs m m' t) l

elem-Differs : (q : ℕ) (zs : List ℕ) → Differs q zs → elem q zs ≡ false
elem-Differs q [] d = refl
elem-Differs q (z ∷ zs) d = ground (arith, d.0, elem-Differs q zs d.1)

-- A tick of `q` and ticks of others are ticks of all of them.
tick_more :
    (q : ℕ) (zs : List ℕ) (m m' : Procs)
    → Differs q zs
    → IsTicked zs (tick_proc q m) m'
    → IsTicked (q ∷ zs) m m'
tick_more q zs m m' d t x = elim (Bool-cases (q == x)) [
  | inl e ↦
      let s : q ≡ x = ground (arith, e) in
      subst (λ (y : ℕ). m' y ≡ (if elem y (q ∷ zs) then ticked (m y) else m y)) s own
  | inr e ↦ let ne : q ≢ x = ground (arith, e) in t x ∙ rw e (rw (tick_proc-other q m x ne) refl)
]
  where
    own : m' q ≡ (if elem q (q ∷ zs) then ticked (m q) else m q)
    own =
        let e : (q == q) ≡ true = ground arith in
        t q ∙ rw (elem-Differs q zs d) (rw e (tick_proc-own q m))

tick_one : (q : ℕ) (m : Procs) → IsTicked (q ∷ []) m (tick_proc q m)
tick_one q m = tick_more q [] m (tick_proc q m) tt (λ x. refl)

Differs-end : (x stop : ℕ) (xs : List ℕ) → Differs x xs → stop ≢ x → Differs x (xs ++ stop ∷ [])
Differs-end x stop [] d ne = (ne, tt)
Differs-end x stop (y ∷ ys) d ne = (d.0, Differs-end x stop ys d.1 ne)

loop_end :
    (k p stop : ℕ) (m : Procs)
    → (m p).next ≡ stop
    → wake_loop (suc k) p stop m ≡ some (tick_proc stop m)
unfolding wake_loop
loop_end k p stop m e = let s : (stop == stop) ≡ true = ground arith in rw e (rw s refl)

loop_next :
    (k p q stop : ℕ) (m : Procs)
    → (m p).next ≡ q
    → q ≢ stop
    → wake_loop (suc k) p stop m ≡ wake_loop k q stop (tick_proc q m)
unfolding wake_loop
loop_next k p q stop m e ne = let s : (q == stop) ≡ false = ground arith in rw e (rw s refl)

-- From `p` on, the loop ticks everything up to and with `stop`.
pub wake_loop-IsTicked :
    (k p stop : ℕ) (xs : List ℕ) (m : Procs)
    → Links m p xs stop
    → Distinct xs
    → Differs stop xs
    → length xs < k
    → (m' : Procs) × (wake_loop k p stop m ≡ some m') × IsTicked (xs ++ stop ∷ []) m m'
wake_loop-IsTicked zero p stop xs m l u d h = absurd (omega arith)
wake_loop-IsTicked (suc k) p stop [] m l u d h =
    (tick_proc stop m, loop_end k p stop m l.0, tick_one stop m)
wake_loop-IsTicked (suc k) p stop (x ∷ xs) m l u d h =
    let (m', run, t) =
      wake_loop-IsTicked k x stop xs (tick_proc x m) (tick-Links x m x xs stop l.2) u.1 d.1
        (omega arith) in
    (
      m',
      loop_next k p x stop m l.0 d.0 ∙ run,
      tick_more x (xs ++ stop ∷ []) m m' (Differs-end x stop xs u.0 (λ e. d.0 (sym e))) t,
    )
