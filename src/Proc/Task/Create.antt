-- ===== src/Proc/Task/Create.antt =====
-- `create_proc` of kernel/proc/proc.c puts the new process into the ring, in front of the first.
use fruity_orange.Base.{
  ℕ, ◌+◌, ◌%◌, ◌^◌, ◌≡◌, ◌≢◌, refl, sym, List, [], ◌∷◌, Bool-cases, inl, inr, ◌==◌, if◌then◌else◌,
  true, false, arith, ◌∙◌, ap,
}
use fruity_orange.Proc.Task.{
  Proc, Procs, Kernel, modify, set_next, set_prev, link_before_first, create_proc, fresh_proc,
  ProcStatus, never,
}
use fruity_orange.Proc.Task.Ring.{
  Differs, Ring, last, prev_of_end, Links-retarget, Links-frame, All-Differs, All-Differs_two,
  next-set_next, prev-set_next, next-set_prev, prev-set_prev,
}

-- The links after the writes of `link_before_first`.
module _ (m : Procs) (p first l : ℕ) where
  abbrev m1 : Procs
  m1 = set_next p first m

  abbrev m2 : Procs
  m2 = set_prev p l m1

  abbrev m3 : Procs
  m3 = set_next l p m2

  writes : (m first).prev ≡ l → p ≢ first → link_before_first p first m ≡ set_prev first p m3
  writes before ne =
      let e1 : (m1 first).prev ≡ l = prev-set_next p first m first ∙ before in
      let e2 : (m2 first).prev ≡ l = ground (arith, prev-set_prev p l m1 first, e1) in
      ap (λ (t : ℕ). set_prev first p (set_next (set_prev p t m1 first).prev p (set_prev p t m1)))
        e1
      ∙ ap (λ (t : ℕ). set_prev first p (set_next t p m2)) e2

  linked_next :
      (x : ℕ)
      → (set_prev first p m3 x).next ≡ (if l == x then p else if p == x then first else (m x).next)
  linked_next x = ground (
    arith,
    next-set_prev first p m3 x,
    next-set_next l p m2 x,
    next-set_prev p l m1 x,
    next-set_next p first m x,
  )

  linked_prev :
      (x : ℕ)
      → (set_prev first p m3 x).prev ≡ (if first == x then p else if p == x then l else (m x).prev)
  linked_prev x = ground (
    arith,
    prev-set_prev first p m3 x,
    prev-set_next l p m2 x,
    prev-set_prev p l m1 x,
    prev-set_next p first m x,
  )

Differs-last : (p a : ℕ) (xs : List ℕ) → Differs p (a ∷ xs) → p ≢ last a xs
Differs-last p a [] d e = d.0 (sym e)
Differs-last p a (y ∷ ys) d e = Differs-last p y ys d.1 e

-- The ring after the writes.
link-Ring :
    (m : Procs) (p first : ℕ) (xs : List ℕ)
    → Ring m first xs
    → Differs p (first ∷ xs)
    → Ring (link_before_first p first m) p (first ∷ xs)
link-Ring m p first xs r new = rw (writes m p first l before ne_first) (record {
  links = (
    ground (arith, linked_next m p first l p, ne_l),
    ground (arith, linked_prev m p first l first),
    Links-retarget m (set_prev first p (m3 m p first l)) first xs first p r.links r.distinct
        (All-Differs _ p (first ∷ xs) new
          (λ x n o. ground (arith, linked_next m p first l x, n, o)))
        (ground (arith, linked_next m p first l l))
        (All-Differs_two _ p first xs new.1 r.distinct.0
          (λ x n o. ground (arith, linked_prev m p first l x, n, o)))
        (ground (arith, linked_prev m p first l p, ne_first)),
  );
  distinct = (new, r.distinct);
})
  where
    l : ℕ
    l = last first xs

    before : (m first).prev ≡ l
    before = prev_of_end m first xs first r.links

    ne_first : p ≢ first
    ne_first e = new.0 (sym e)

    ne_l : p ≢ l
    ne_l = Differs-last p first xs new

-- What `create_proc` fills in leaves the links of the others alone, and those of `p` too.
module _ (m : Procs) (p pid context dpl cpu : ℕ) where
  abbrev filled : Procs
  filled = modify p (λ r. fresh_proc r pid context dpl cpu) m

  filled_next : (x : ℕ) → (filled x).next ≡ (m x).next
  unfolding modify
  filled_next x = ground arith

  filled_prev : (x : ℕ) → (filled x).prev ≡ (m x).prev
  unfolding modify
  filled_prev x = ground arith

  filled-Ring : (first : ℕ) (xs : List ℕ) → Ring m first xs → Ring filled first xs
  filled-Ring first xs r = record {
    links = Links-frame m filled first xs first filled_next filled_prev r.links;
    distinct = r.distinct;
  }

-- A process structure that was just made: its number, its address space, ready to run, and no
-- waking time.
pub record IsFresh (r : Proc) (number space level frame : ℕ) : Type 0 where
  pub pid : r.pid ≡ number
  pub context : r.context ≡ space
  pub dpl : r.dpl ≡ level
  pub cpu : r.cpu ≡ frame
  pub status : r.status ≡ ProcStatus.active
  pub ticks_util_wake : r.ticks_util_wake ≡ never
  pub parent : r.parent ≡ 0

module _ (number space level frame p q : ℕ) (m : Procs) (x : ℕ)
    (f : IsFresh (m x) number space level frame) where
  set_next-IsFresh : IsFresh (set_next p q m x) number space level frame
  unfolding modify
  set_next-IsFresh = elim (Bool-cases (p == x)) [
    | inl e ↦ rw e (record {
      pid = f.pid;
      context = f.context;
      dpl = f.dpl;
      cpu = f.cpu;
      status = f.status;
      ticks_util_wake = f.ticks_util_wake;
      parent = f.parent;
    })
    | inr e ↦ rw e f
  ]

  set_prev-IsFresh : IsFresh (set_prev p q m x) number space level frame
  unfolding modify
  set_prev-IsFresh = elim (Bool-cases (p == x)) [
    | inl e ↦ rw e (record {
      pid = f.pid;
      context = f.context;
      dpl = f.dpl;
      cpu = f.cpu;
      status = f.status;
      ticks_util_wake = f.ticks_util_wake;
      parent = f.parent;
    })
    | inr e ↦ rw e f
  ]

filled-IsFresh :
    (m : Procs) (p n context dpl cpu : ℕ)
    → IsFresh (filled m p n context dpl cpu p) n context dpl cpu
unfolding modify
filled-IsFresh m p n context dpl cpu =
    let e : (p == p) ≡ true = ground arith in
    rw e (record {
      pid = refl;
      context = refl;
      dpl = refl;
      cpu = refl;
      status = refl;
      ticks_util_wake = refl;
      parent = refl;
    })

-- Linking leaves what was filled in.
linked-IsFresh :
    (n context dpl cpu p first l : ℕ) (m : Procs)
    → (m first).prev ≡ l
    → p ≢ first
    → IsFresh (m p) n context dpl cpu
    → IsFresh (link_before_first p first m p) n context dpl cpu
linked-IsFresh n context dpl cpu p first l m before ne f = rw (writes m p first l before ne) (
    set_prev-IsFresh n context dpl cpu first p (m3 m p first l) p (
      set_next-IsFresh n context dpl cpu l p (m2 m p first l) p (
        set_prev-IsFresh n context dpl cpu p l (m1 m p first l) p
          (set_next-IsFresh n context dpl cpu p first m p f))))

-- When a process is there already and the new structure lies at an address of its own,
-- `create_proc` puts the new one in front of the first one and
-- makes it the first, numbered by the count of processes made before and ready to run.
pub create_proc-Ring :
    (p context dpl cpu : ℕ) (k : Kernel) (xs : List ℕ)
    → Ring k.procs k.first_proc xs
    → Differs p (k.first_proc ∷ xs)
    → (k.proc_count + 1) % 2 ^ 32 ≢ 1
    → let k' = create_proc p context dpl cpu k in
      Ring k'.procs k'.first_proc (k.first_proc ∷ xs)
      × (k'.first_proc ≡ p)
      × IsFresh (k'.procs p) k.proc_count context dpl cpu
unfolding create_proc
create_proc-Ring p context dpl cpu k xs r new later =
    let no : ((k.proc_count + 1) % 2 ^ 32 == 1) ≡ false = ground arith in
    rw no (
      link-Ring m p first xs (filled-Ring k.procs p k.proc_count context dpl cpu first xs r) new,
      refl,
      linked-IsFresh n context dpl cpu p first (last first xs) m
          (filled_prev k.procs p n context dpl cpu first
            ∙ prev_of_end k.procs first xs first r.links)
          (λ e. new.0 (sym e)) (filled-IsFresh k.procs p n context dpl cpu),
    )
  where
    n : ℕ
    n = k.proc_count

    first : ℕ
    first = k.first_proc

    m : Procs
    m = filled k.procs p n context dpl cpu

numbered :
    (r : Proc) (n n' context dpl cpu : ℕ)
    → n ≡ n'
    → IsFresh r n context dpl cpu
    → IsFresh r n' context dpl cpu
numbered r n n' context dpl cpu e f = record {
  pid = f.pid ∙ e;
  context = f.context;
  dpl = f.dpl;
  cpu = f.cpu;
  status = f.status;
  ticks_util_wake = f.ticks_util_wake;
  parent = f.parent;
}

-- The first process is a ring of its own.
pub create_proc_first :
    (p context dpl cpu : ℕ) (k : Kernel)
    → k.proc_count ≡ 0
    → let k' = create_proc p context dpl cpu k in
      Ring k'.procs k'.first_proc [] × (k'.first_proc ≡ p) × IsFresh (k'.procs p) 0 context dpl cpu
unfolding create_proc
create_proc_first p context dpl cpu k none_yet =
    let yes_one : ((k.proc_count + 1) % 2 ^ 32 == 1) ≡ true = ground arith in
    rw yes_one (
      record {
        links = (
          ground (arith, next-set_prev p p (set_next p p m) p, next-set_next p p m p),
          ground (arith, prev-set_prev p p (set_next p p m) p),
        );
        distinct = (tt, tt);
      },
      refl,
      numbered (set_prev p p (set_next p p m) p) k.proc_count 0 context dpl cpu none_yet (
          set_prev-IsFresh k.proc_count context dpl cpu p p (set_next p p m) p (
            set_next-IsFresh k.proc_count context dpl cpu p p m p
              (filled-IsFresh k.procs p k.proc_count context dpl cpu))),
    )
  where
    m : Procs
    m = filled k.procs p k.proc_count context dpl cpu
