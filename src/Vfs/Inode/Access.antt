-- ===== src/Vfs/Inode/Access.antt =====
-- What `vfs_access` of kernel/vfs/inode.c grants, and whether `vfs_write` agrees.
use fruity_orange.Base.{
  ℕ, zero, suc, ◌+◌, ◌-◌, ◌*◌, ◌^◌, ◌≡◌, ◌<◌, refl, ap, Bool, true, false, ◌==◌, ◌||◌, ◌&&◌, not,
  if◌then◌else◌, Bool-cases, inl, inr, arith, digit, bit_test, digit-le-one, ◌↔◌,
}
use fruity_orange.Vfs.Inode.{
  Inode, has_bit, refused, vfs_access, writable, r_ok, w_ok, x_ok, s_irusr, s_irgrp, s_iroth,
}

-- The class whose permissions count: those of the owner, of the group or of the others.
abbrev pub class : ℕ → ℕ → Inode → ℕ
class uid gid inode = if inode.uid == uid then 0 else if inode.gid == gid then 1 else 2

-- Each of reading, writing and executing that is asked for is granted to the class.
abbrev pub Granted : ℕ → ℕ → ℕ → Type 0
Granted modus mode c = (i : ℕ) → i < 3 → digit modus i ≡ 1 → digit mode (4 + 3 * c + i) ≡ 1

has_bit-digit : (x j : ℕ) → has_bit x j ≡ not (digit x j == 0)
has_bit-digit x j = ap not (bit_test x j)

below_three : (P : ℕ → Type 0) → P 0 → P 1 → P 2 → (i : ℕ) → i < 3 → P i
below_three P a b c zero h = a
below_three P a b c (suc zero) h = b
below_three P a b c (suc (suc zero)) h = c
below_three P a b c (suc (suc (suc i))) h = absurd (omega arith)

-- One of the tests.
test_lem :
    (modus mode i j : ℕ)
    → ((has_bit modus i && not (has_bit mode j)) ≡ false) ↔ (digit modus i ≡ 1 → digit mode j ≡ 1)
test_lem modus mode i j = (
  (λ e d. ground (arith, has_bit-digit modus i, has_bit-digit mode j, e, d, digit-le-one mode j)),
  (λ f. elim (Bool-cases (has_bit modus i)) [
    | inl e ↦
        let one : digit modus i ≡ 1 =
          ground (arith, has_bit-digit modus i, e, digit-le-one modus i) in
        ground (arith, has_bit-digit mode j, f one)
    | inr e ↦ ground (arith, e)
  ]),
)

none_true : (a b c : Bool) → (a || b || c) ≡ false → (a ≡ false) × (b ≡ false) × (c ≡ false)
none_true a b c e = (ground (arith, e), ground (arith, e), ground (arith, e))

refused_lem :
    (modus mode first : ℕ)
    → (refused modus mode first ≡ false)
      ↔ ((i : ℕ) → i < 3 → digit modus i ≡ 1 → digit mode (first + i) ≡ 1)
refused_lem modus mode first = (granted, back)
  where
    read : Bool
    read = has_bit modus r_ok && not (has_bit mode first)

    writing : Bool
    writing = has_bit modus w_ok && not (has_bit mode (first + 1))

    execute : Bool
    execute = has_bit modus x_ok && not (has_bit mode (first + 2))

    here : first + 0 ≡ first
    here = omega arith

    granted :
        refused modus mode first ≡ false
        → (i : ℕ) → i < 3
        → digit modus i ≡ 1
        → digit mode (first + i) ≡ 1
    granted e =
        let (r, w, x) = none_true read writing execute e in
        below_three (λ i. digit modus i ≡ 1 → digit mode (first + i) ≡ 1)
          (rw here ((test_lem modus mode r_ok first).0 r))
          ((test_lem modus mode w_ok (first + 1)).0 w) ((test_lem modus mode x_ok (first + 2)).0 x)

    back :
        ((i : ℕ) → i < 3 → digit modus i ≡ 1 → digit mode (first + i) ≡ 1)
        → refused modus mode first ≡ false
    back f =
        let r : read ≡ false =
          (test_lem modus mode r_ok first).1 (rw here at (f 0 (omega arith))) in
        let w : writing ≡ false = (test_lem modus mode w_ok (first + 1)).1 (f 1 (omega arith)) in
        let x : execute ≡ false = (test_lem modus mode x_ok (first + 2)).1 (f 2 (omega arith)) in
        rw r (rw w x)

answer : (b : Bool) → ((if b then 2 ^ 32 - 1 else 0) ≡ 0) ↔ (b ≡ false)
answer true = ((λ e. absurd (ground (arith, e))), λ e. absurd (ground (arith, e)))
answer false = ((λ e. refl), λ e. refl)

-- `vfs_access` answers 0 exactly if everything that is asked for is granted to the class that the
-- user belongs to: the owner's, else the group's, else the others'.
pub vfs_access_iff :
    (uid gid : ℕ) (inode : Inode) (modus : ℕ)
    → (vfs_access uid gid inode modus ≡ 0) ↔ Granted modus inode.mode (class uid gid inode)
unfolding vfs_access
vfs_access_iff uid gid inode modus = elim (Bool-cases (inode.uid == uid)) [
  | inl e ↦ rw e (both s_irusr)
  | inr e ↦ elim (Bool-cases (inode.gid == gid)) [
    | inl g ↦ rw e (rw g (both s_irgrp))
    | inr g ↦ rw e (rw g (both s_iroth))
  ]
]
  where
    both :
        (first : ℕ)
        → ((if refused modus inode.mode first then 2 ^ 32 - 1 else 0) ≡ 0)
          ↔ ((i : ℕ) → i < 3 → digit modus i ≡ 1 → digit inode.mode (first + i) ≡ 1)
    both first =
        let a = answer (refused modus inode.mode first) in
        let l = refused_lem modus inode.mode first in ((λ e. l.0 (a.0 e)), λ g. a.1 (l.1 g))

-- If `vfs_access` grants writing, `vfs_write` writes.
pub access-writable :
    (uid gid : ℕ) (inode : Inode) (modus : ℕ)
    → digit modus w_ok ≡ 1
    → vfs_access uid gid inode modus ≡ 0
    → writable uid gid inode ≡ true
unfolding writable
access-writable uid gid inode modus asked granted =
    let d = (vfs_access_iff uid gid inode modus).0 granted 1 (omega arith) asked in
    elim (Bool-cases (inode.uid == uid)) [
      | inl e ↦
          let own : digit inode.mode 5 ≡ 1 = rw e at d in
          let b : has_bit inode.mode 5 ≡ true = ground (arith, has_bit-digit inode.mode 5, own) in
          rw e (rw b refl)
      | inr e ↦ elim (Bool-cases (inode.gid == gid)) [
        | inl g ↦
            let own : digit inode.mode 8 ≡ 1 = rw g at (rw e at d) in
            let b : has_bit inode.mode 8 ≡ true = ground (arith, has_bit-digit inode.mode 8, own) in
            rw e (rw g (rw b refl))
        | inr g ↦
            let own : digit inode.mode 11 ≡ 1 = rw g at (rw e at d) in
            let b : has_bit inode.mode 11 ≡ true =
              ground (arith, has_bit-digit inode.mode 11, own) in
            rw e (rw g (rw b refl))
      ]
    ]
