-- ===== src/Proc/Task/Unlink.antt =====
-- `proc_kill` of kernel/proc/proc.c takes a process out of the ring.
use fruity_orange.Base.{
  ℕ, ◌≡◌, ◌≢◌, sym, List, [], ◌∷◌, ◌++◌, All, ◌==◌, if◌then◌else◌, arith, ◌∙◌, ap, append-nil,
}
use fruity_orange.Proc.Task.{Procs, set_next, set_prev, unlink}
use fruity_orange.Proc.Task.Ring.{
  Differs, Ring, last, prev_of_end, Links-retarget, All-Differs, next-set_next, prev-set_next,
  next-set_prev, prev-set_prev,
}
use fruity_orange.Proc.Task.Rotate.{Ring-rotate}

-- The neighbours `l` and `n` of `p` are read before anything of `p` is written.
module _ (m : Procs) (p l n : ℕ) (before : (m p).prev ≡ l) (behind : (m p).next ≡ n)
    (ne : p ≢ l) where
  abbrev m1 : Procs
  m1 = set_next l n m

  unlink-writes : unlink p m ≡ set_prev n l m1
  unfolding unlink
  unlink-writes =
      let e1 : (m1 p).next ≡ n = ground (arith, next-set_next l n m p, behind) in
      let e2 : (m1 p).prev ≡ l = prev-set_next l n m p ∙ before in
      ap
        (λ (t : ℕ).
          set_prev (set_next t (m p).next m p).next (set_next t (m p).next m p).prev
            (set_next t (m p).next m))
        before
      ∙ ap (λ (t : ℕ). set_prev (set_next l t m p).next (set_next l t m p).prev (set_next l t m))
          behind
      ∙ ap (λ (t : ℕ). set_prev t (m1 p).prev m1) e1
      ∙ ap (λ (t : ℕ). set_prev n t m1) e2

  unlinked_next : (x : ℕ) → (set_prev n l m1 x).next ≡ (if l == x then n else (m x).next)
  unlinked_next x = ground (arith, next-set_prev n l m1 x, next-set_next l n m x)

  unlinked_prev : (x : ℕ) → (set_prev n l m1 x).prev ≡ (if n == x then l else (m x).prev)
  unlinked_prev x = ground (arith, prev-set_prev n l m1 x, prev-set_next l n m x)

All-of : (Q : ℕ → Type 0) (xs : List ℕ) → ((x : ℕ) → Q x) → All Q xs
All-of Q [] f = tt
All-of Q (x ∷ xs) f = (f x, All-of Q xs f)

last-Differs : (p y : ℕ) (ys : List ℕ) → Differs p (y ∷ ys) → p ≢ last y ys
last-Differs p y [] d e = d.0 (sym e)
last-Differs p y (z ∷ ys) d e = last-Differs p z ys d.1 e

-- Taken out of the ring, a process leaves the others in their order.
pub unlink-rest : (m : Procs) (p y : ℕ) (ys : List ℕ) → Ring m p (y ∷ ys) → Ring (unlink p m) y ys
unlink-rest m p y ys r = rw (unlink-writes m p l y before r.links.0 ne) (record {
  links =
      Links-retarget m (set_prev y l m1') y ys p y r.links.2 r.distinct.1
        (All-of (λ x. x ≢ l → (set_prev y l m1' x).next ≡ (m x).next) (y ∷ ys)
          (λ x d. ground (arith, unlinked_next m p l y before r.links.0 ne x, d)))
        (ground (arith, unlinked_next m p l y before r.links.0 ne l))
        (All-Differs _ y ys r.distinct.1.0
          (λ x d. ground (arith, unlinked_prev m p l y before r.links.0 ne x, d)))
        (ground (arith, unlinked_prev m p l y before r.links.0 ne y));
  distinct = r.distinct.1;
})
  where
    l : ℕ
    l = last y ys

    before : (m p).prev ≡ l
    before = prev_of_end m y ys p r.links.2

    ne : p ≢ l
    ne = last-Differs p y ys r.distinct.0

    m1' : Procs
    m1' = m1 m p l y before r.links.0 ne

-- When `proc_kill` takes a process out of the ring of another, the others stay in their order.
pub unlink-Ring :
    (m : Procs) (a : ℕ) (xs : List ℕ) (p : ℕ) (ys : List ℕ)
    → Ring m a (xs ++ p ∷ ys)
    → Ring (unlink p m) a (xs ++ ys)
unlink-Ring m a xs p [] r = rw (append-nil xs) (unlink-rest m p a xs (Ring-rotate m a xs p [] r))
unlink-Ring m a xs p (y ∷ ys) r =
    Ring-rotate (unlink p m) y ys a xs
      (unlink-rest m p y (ys ++ a ∷ xs) (Ring-rotate m a xs p (y ∷ ys) r))
