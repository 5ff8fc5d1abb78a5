-- ===== src/Proc/Exit/Leave.antt =====
-- The end of the running process: `proc_exit` and `proc_kill` of kernel/proc/proc.c.
use fruity_orange.Base.{
  ℕ, suc, ◌<◌, ◌≡◌, ◌≢◌, refl, ◌∙◌, ap, true, false, ◌==◌, Bool-cases, inl, inr, arith, some, List,
  [], ◌∷◌, ◌++◌, length,
}
use mathlib.Core.Path.{subst}
use fruity_orange.Proc.Task.{Proc, Procs, Kernel, ProcStatus, is_active, never, modify, unlink}
use fruity_orange.Proc.Task.Ring.{Ring, Links-frame}
use fruity_orange.Proc.Task.Unlink.{unlink-rest, unlink-Ring}
use fruity_orange.Proc.Scheduler.{proc_wake}
use fruity_orange.Proc.Scheduler.Tick.{ready, modify-own, modify-other}
use fruity_orange.Proc.Scheduler.Choice.{first_such, schedule-first_such}
use fruity_orange.Proc.Exit.{leave, notify_parent, proc_kill, proc_exit, unlinked}

-- A write to another field keeps the links.
module _ (field : Proc → ℕ) (f : Proc → Proc) (kept : (r : Proc) → field (f r) ≡ field r) where
  modify_keeps : (p : ℕ) (m : Procs) (x : ℕ) → field (modify p f m x) ≡ field (m x)
  modify_keeps p m x = elim (Bool-cases (p == x)) [
    | inl e ↦
        let s : p ≡ x = ground (arith, e) in
        subst (λ (y : ℕ). field (modify p f m y) ≡ field (m y)) s
          (ap field (modify-own p f m) ∙ kept (m p))
    | inr e ↦ ap field (modify-other p f m x (ground (arith, e)))
  ]

-- Neither the status nor the end of a wait is a link.
module _ (field : Proc → ℕ)
    (status : (r : Proc) (s : ProcStatus) → field (record r { status = s }) ≡ field r)
    (wait : (r : Proc) (w : ℕ) → field (record r { waitpid = w }) ≡ field r) where
  wake_keeps : (p : ℕ) (m : Procs) (x : ℕ) → field ((proc_wake p m).1 x) ≡ field (m x)
  unfolding proc_wake
  wake_keeps p m x = elim (Bool-cases (is_active (m p).status)) [
    | inl e ↦ rw e refl
    | inr e ↦ rw e (
        modify_keeps field (λ r. record r { status = ProcStatus.active })
          (λ r. status r ProcStatus.active) p m x)
  ]

  notify_keeps : (p : ℕ) (m : Procs) (x : ℕ) → field (notify_parent p m x) ≡ field (m x)
  unfolding notify_parent
  notify_keeps p m x = elim (Bool-cases ((m p).parent == 0)) [
    | inl e ↦ rw e refl
    | inr e ↦ elim (Bool-cases ((m (m p).parent).waitpid == (m p).ppid)) [
      | inl w ↦ rw e (
          rw w (
            wake_keeps (m p).parent (modify (m p).parent (λ r. record r { waitpid = never }) m) x
            ∙ modify_keeps field (λ r. record r { waitpid = never }) (λ r. wait r never)
                (m p).parent m x))
      | inr w ↦ rw e (rw w refl)
    ]
  ]

  leave_keeps : (p : ℕ) (k : Kernel) (x : ℕ) → field ((leave p k).procs x) ≡ field (k.procs x)
  unfolding leave
  leave_keeps p k x =
      notify_keeps p (modify p (λ r. record r { status = ProcStatus.zombie }) k.procs) x
      ∙ modify_keeps field (λ r. record r { status = ProcStatus.zombie })
          (λ r. status r ProcStatus.zombie) p k.procs x

leave-Ring :
    (p : ℕ) (k : Kernel) (a : ℕ) (xs : List ℕ) → Ring k.procs a xs → Ring (leave p k).procs a xs
leave-Ring p k a xs r = record {
  links =
      Links-frame k.procs (leave p k).procs a xs a
        (leave_keeps (λ r. r.next) (λ r s. refl) (λ r w. refl) p k)
        (leave_keeps (λ r. r.prev) (λ r s. refl) (λ r w. refl) p k) r.links;
  distinct = r.distinct;
}

leave_current : (p : ℕ) (k : Kernel) → (leave p k).current_proc ≡ k.current_proc
unfolding leave
leave_current p k = refl

-- When `proc_kill` is called for a process that does not run, nothing is scheduled and the rest of
-- the ring stays in its order.
pub kill-Ring :
    (fuel a : ℕ) (xs : List ℕ) (p : ℕ) (ys : List ℕ) (k : Kernel)
    → Ring k.procs a (xs ++ p ∷ ys)
    → p ≢ k.current_proc
    → (k' : Kernel) × (proc_kill fuel p k ≡ some k')
      × Ring k'.procs a (xs ++ ys)
      × (k'.current_proc ≡ k.current_proc)
unfolding proc_kill unlinked
kill-Ring fuel a xs p ys k r ne =
    let other : (p == k.current_proc) ≡ false = ground arith in
    (record k { procs = unlink p k.procs }, rw other refl, unlink-Ring k.procs a xs p ys r, refl)

-- When the running process ends, `proc_exit` returns its status, the first process behind it that
-- can run is the current one, and the ring is what is left of it. There must be such a process,
-- once the parent was told and woken, and each loop is given a round for every process.
pub proc_exit-Ring :
    (fuel status y : ℕ) (ys : List ℕ) (q : ℕ) (k : Kernel)
    → Ring k.procs k.current_proc (y ∷ ys)
    → k.current_proc ≢ 0
    → suc (length ys) < fuel
    → first_such (λ x. ready ((leave k.current_proc k).procs x)) ((y ∷ ys) ++ k.current_proc ∷ [])
      ≡ some q
    → (k' : Kernel) × (proc_exit fuel k.current_proc status k ≡ some (status, k'))
      × (k'.current_proc ≡ q)
      × Ring k'.procs y ys
unfolding proc_exit proc_kill unlinked leave
proc_exit-Ring fuel status y ys q k r ne h f =
    let p = k.current_proc in
    let (k2, run, s) =
      schedule-first_such fuel (leave p k) (y ∷ ys) q (leave-Ring p k p (y ∷ ys) r) ne h f in
    let own : (p == p) ≡ true = ground arith in
    (
      record k2 { procs = unlink p k2.procs },
      rw own (rw run refl),
      s.current,
      unlink-rest k2.procs p y ys s.ring,
    )
