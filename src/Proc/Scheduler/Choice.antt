-- ===== src/Proc/Scheduler/Choice.antt =====
-- What `schedule` of kernel/proc/scheduler.c chooses, and what it leaves behind.
use fruity_orange.Base.{
  ℕ, zero, suc, ◌+◌, ◌%◌, ◌^◌, ◌<◌, ◌≡◌, ◌≢◌, refl, sym, ◌∙◌, ap, Bool, true, false, ◌==◌, ◌||◌,
  ◌&&◌, not, if◌then◌else◌, Option, none, some, List, [], ◌∷◌, ◌++◌, length, All, Bool-cases, inl,
  inr, arith,
}
use mathlib.Core.Path.{subst}
use fruity_orange.Proc.Task.{Proc, Procs, Kernel, modify, is_active, is_sleep, never}
use fruity_orange.Proc.Task.Ring.{Links, Links-frame, Ring}
use fruity_orange.Proc.Scheduler.{
  look_for_active, schedule, activate_proc, activate_context, cpu_state_size,
}
use fruity_orange.Proc.Scheduler.Tick.{ticked, ready, sleep_not_active, modify-own, modify-other}
use fruity_orange.Proc.Scheduler.Round.{
  elem, IsTicked, wake_loop-IsTicked, ticked-Links, ticked_keeps, ticked_context,
}

-- The first member of a list that passes a test.
abbrev pub first_such : (ℕ → Bool) → List ℕ → Option ℕ
first_such f [] = none
first_such f (x ∷ xs) = if f x then some x else first_such f xs

first_such-cong :
    (f g : ℕ → Bool) (xs : List ℕ) → All (λ x. f x ≡ g x) xs → first_such f xs ≡ first_such g xs
first_such-cong f g [] h = refl
first_such-cong f g (x ∷ xs) h = rw h.0 (rw (first_such-cong f g xs h.1) refl)

All-elem : (Q : ℕ → Type 0) (zs : List ℕ) → ((x : ℕ) → elem x zs ≡ true → Q x) → All Q zs
All-elem Q [] f = tt
All-elem Q (y ∷ ys) f = (f y (ground arith), All-elem Q ys (λ x e. f x (ground (arith, e))))

first_such-holds :
    (f : ℕ → Bool) (xs : List ℕ) (q : ℕ)
    → first_such f xs ≡ some q
    → (f q ≡ true) × (elem q xs ≡ true)
first_such-holds f [] q e = absurd (ground (arith, e))
first_such-holds f (x ∷ xs) q e = elim (Bool-cases (f x)) [
  | inl t ↦
      let s : some x ≡ some q =
        ap (λ (b : Bool). if b then some x else first_such f xs) (sym t) ∙ e in
      (ground (arith, s, t), ground (arith, s))
  | inr t ↦
      let s : first_such f xs ≡ some q =
        ap (λ (b : Bool). if b then some x else first_such f xs) (sym t) ∙ e in
      let (p, r) = first_such-holds f xs q s in (p, ground (arith, r))
]

ready_lem : (r : Proc) → is_active (ticked r).status ≡ ready r
ready_lem r = elim (Bool-cases (is_sleep r.status && not (r.ticks_util_wake == never))) [
  | inl e ↦ elim (Bool-cases ((r.ticks_util_wake + never) % 2 ^ 32 == 0)) [
    | inl z ↦ rw e (rw z (ground (arith, e, z, sleep_not_active r.status)))
    | inr z ↦ rw e (rw z (ground (arith, e, z, sleep_not_active r.status)))
  ]
  | inr e ↦ rw e (ground (arith, e, sleep_not_active r.status))
]

-- Among the processes behind `p`, the loop finds the first one that is awake.
look-first_such :
    (k p stop : ℕ) (xs : List ℕ) (m : Procs) (q : ℕ)
    → Links m p xs stop
    → length xs < k
    → first_such (λ x. is_active (m x).status) (xs ++ stop ∷ []) ≡ some q
    → look_for_active k m p ≡ some q
unfolding look_for_active
look-first_such zero p stop xs m q l h f = absurd (omega arith)
look-first_such (suc k) p stop [] m q l h f = rw l.0 (ground (arith, f))
look-first_such (suc k) p stop (x ∷ xs) m q l h f =
    rw l.0 (elim (Bool-cases (is_active (m x).status)) [
      | inl e ↦ rw e (rw e at f)
      | inr e ↦ rw e (look-first_such k x stop xs m q l.2 (omega arith) (rw e at f))
    ])

elem-end : (c : ℕ) (xs : List ℕ) → elem c (xs ++ c ∷ []) ≡ true
elem-end c [] = ground arith
elem-end c (x ∷ xs) = ground (arith, elem-end c xs)

elem-other : (c x : ℕ) (xs : List ℕ) → c ≢ x → elem x (xs ++ c ∷ []) ≡ elem x xs
elem-other c x [] ne = ground arith
elem-other c x (y ∷ ys) ne = ground (arith, elem-other c x ys ne)

-- The registers of the interrupted process are kept in its structure.
abbrev save : ℕ → Proc → Proc
save frame r = record r { cpu = frame }

save_keeps {ℓ} :
    {A : Type ℓ} (field : Proc → A) (kept : (frame : ℕ) (r : Proc) → field (save frame r) ≡ field r)
    (c frame : ℕ) (m : Procs) (x : ℕ)
    → field (modify c (save frame) m x) ≡ field (m x)
save_keeps field kept c frame m x = elim (Bool-cases (c == x)) [
  | inl e ↦
      let s : c ≡ x = ground (arith, e) in
      subst (λ (y : ℕ). field (modify c (save frame) m y) ≡ field (m y)) s
        (ap field (modify-own c (save frame) m) ∙ kept frame (m c))
  | inr e ↦ ap field (modify-other c (save frame) m x (ground (arith, e)))
]

-- What `schedule` leaves: the chosen process runs, the ring is as before, every process of it had
-- one tick, and the registers of the interrupted process are kept.
pub record Scheduled (k : Kernel) (xs : List ℕ) (q : ℕ) (k' : Kernel) : Type 0 where
  pub current : k'.current_proc ≡ q
  pub running : is_active (k'.procs q).status ≡ true
  pub frame : k'.new_cpu ≡ (k'.procs q).cpu
  pub stack : k'.tss_esp0 ≡ (k'.new_cpu + cpu_state_size) % 2 ^ 32
  pub space :
      k'.current_context
      ≡ (if (k.procs q).context == 0 then k.current_context else (k.procs q).context)
  pub ring : Ring k'.procs k.current_proc xs
  pub interrupted :
      k'.procs k.current_proc ≡ record (ticked (k.procs k.current_proc)) { cpu = k.new_cpu }
  pub others :
      (x : ℕ)
      → k.current_proc ≢ x
      → k'.procs x ≡ (if elem x xs then ticked (k.procs x) else k.procs x)

abbrev new_context : ℕ → ℕ → ℕ
new_context old context = if context == 0 then old else context

activate_proc_lem :
    (p : ℕ) (k : Kernel)
    → activate_proc p k ≡ record k {
      new_cpu = (k.procs p).cpu;
      tss_esp0 = ((k.procs p).cpu + cpu_state_size) % 2 ^ 32;
      current_context = new_context k.current_context (k.procs p).context;
    }
unfolding activate_proc activate_context
activate_proc_lem p k =
    elim (Bool-cases ((k.current_context == (k.procs p).context) || ((k.procs p).context == 0))) [
      | inl e ↦
          let same : k.current_context ≡ new_context k.current_context (k.procs p).context =
            ground (arith, e) in
          rw e (
            ap
              (λ (v : ℕ). record k {
                new_cpu = (k.procs p).cpu;
                tss_esp0 = ((k.procs p).cpu + cpu_state_size) % 2 ^ 32;
                current_context = v;
              })
              same)
      | inr e ↦
          let same : (k.procs p).context ≡ new_context k.current_context (k.procs p).context =
            ground (arith, e) in
          rw e (
            ap
              (λ (v : ℕ). record k {
                new_cpu = (k.procs p).cpu;
                tss_esp0 = ((k.procs p).cpu + cpu_state_size) % 2 ^ 32;
                current_context = v;
              })
              same)
    ]

-- One run of `schedule`, once its loops have come to an end.
module _ (k : Kernel) (xs : List ℕ) (q : ℕ) (m' : Procs) (r : Ring k.procs k.current_proc xs)
    (t : IsTicked (xs ++ k.current_proc ∷ []) k.procs m')
    (f : first_such (λ x. ready (k.procs x)) (xs ++ k.current_proc ∷ []) ≡ some q) where
  abbrev c : ℕ
  c = k.current_proc

  abbrev m2 : Procs
  m2 = modify c (save k.new_cpu) m'

  abbrev final : Kernel
  final = record k {
    procs = m2;
    current_proc = q;
    new_cpu = (m2 q).cpu;
    tss_esp0 = ((m2 q).cpu + cpu_state_size) % 2 ^ 32;
    current_context = new_context k.current_context (m2 q).context;
  }

  final_activate : activate_proc q (record k { procs = m2; current_proc = q }) ≡ final
  final_activate = activate_proc_lem q (record k { procs = m2; current_proc = q })

  saved-Links : Links m2 c xs c
  saved-Links =
      Links-frame m' m2 c xs c (save_keeps (λ r. r.next) (λ frame r. refl) c k.new_cpu m')
        (save_keeps (λ r. r.prev) (λ frame r. refl) c k.new_cpu m')
        (ticked-Links (xs ++ c ∷ []) k.procs m' c xs c t r.links)

  ready_after : (x : ℕ) → elem x (xs ++ c ∷ []) ≡ true → is_active (m2 x).status ≡ ready (k.procs x)
  ready_after x e =
      save_keeps (λ r. is_active r.status) (λ frame r. refl) c k.new_cpu m' x
      ∙ ap (λ (p : Proc). is_active p.status) (t x)
      ∙ rw e (ready_lem (k.procs x))

  found_after : first_such (λ x. is_active (m2 x).status) (xs ++ c ∷ []) ≡ some q
  found_after =
      first_such-cong (λ x. is_active (m2 x).status) (λ x. ready (k.procs x)) (xs ++ c ∷ [])
        (All-elem _ (xs ++ c ∷ []) ready_after)
      ∙ f

  context_kept : (m2 q).context ≡ (k.procs q).context
  context_kept =
      save_keeps (λ r. r.context) (λ frame r. refl) c k.new_cpu m' q
      ∙ ticked_keeps (λ r. r.context) ticked_context (xs ++ c ∷ []) k.procs m' t q

  own_tick : m' c ≡ ticked (k.procs c)
  own_tick = t c ∙ rw (elem-end c xs) refl

  final-Scheduled : Scheduled k xs q final
  final-Scheduled = record {
    current = refl;
    running = (first_such-holds (λ x. is_active (m2 x).status) (xs ++ c ∷ []) q found_after).0;
    frame = refl;
    stack = refl;
    space = ap (λ (v : ℕ). new_context k.current_context v) context_kept;
    ring = record { links = saved-Links; distinct = r.distinct };
    interrupted = modify-own c (save k.new_cpu) m' ∙ ap (save k.new_cpu) own_tick;
    others = λ x ne. modify-other c (save k.new_cpu) m' x ne ∙ t x ∙ rw (elem-other c x xs ne) refl;
  }

-- `schedule` ends and goes on with the first process that can run: it is searched in the order of
-- the ring from behind the interrupted process up to that one, and a sleeper whose time is over at
-- this tick counts. There must be one, and each loop is given a round for every process.
pub schedule-first_such :
    (fuel : ℕ) (k : Kernel) (xs : List ℕ) (q : ℕ)
    → Ring k.procs k.current_proc xs
    → k.current_proc ≢ 0
    → length xs < fuel
    → first_such (λ x. ready (k.procs x)) (xs ++ k.current_proc ∷ []) ≡ some q
    → (k' : Kernel) × (schedule fuel k ≡ some k') × Scheduled k xs q k'
unfolding schedule
schedule-first_such fuel k xs q r ne h f =
    let (m', run, t) =
      wake_loop-IsTicked fuel k.current_proc k.current_proc xs k.procs r.links r.distinct.1
        r.distinct.0 h in
    let some_proc : (k.current_proc == 0) ≡ false = ground arith in
    let look : look_for_active fuel (m2 k xs q m' r t f) k.current_proc ≡ some q =
      look-first_such fuel k.current_proc k.current_proc xs (m2 k xs q m' r t f) q
        (saved-Links k xs q m' r t f) h (found_after k xs q m' r t f) in
    (
      final k xs q m' r t f,
      rw some_proc
          (rw run (rw look (ap (λ (v : Kernel). some v) (final_activate k xs q m' r t f)))),
      final-Scheduled k xs q m' r t f,
    )
