-- ===== src/Proc/Task/Rotate.antt =====
-- The ring of processes seen from another of its members.
use fruity_orange.Base.{ℕ, ◌≢◌, sym, List, [], ◌∷◌, ◌++◌, All}
use fruity_orange.Proc.Task.{Procs}
use fruity_orange.Proc.Task.Ring.{Links, Links-append, Differs, Distinct, Ring}

Links-split :
    (m : Procs) (a : ℕ) (xs : List ℕ) (b : ℕ) (ys : List ℕ) (c : ℕ)
    → Links m a (xs ++ b ∷ ys) c
    → Links m a xs b × Links m b ys c
Links-split m a [] b ys c l = ((l.0, l.1), l.2)
Links-split m a (x ∷ xs) b ys c l =
    let (before, after) = Links-split m x xs b ys c l.2 in ((l.0, l.1, before), after)

All-split : (Q : ℕ → Type 0) (xs ys : List ℕ) → All Q (xs ++ ys) → All Q xs × All Q ys
All-split Q [] ys h = (tt, h)
All-split Q (x ∷ xs) ys h = let (p, q) = All-split Q xs ys h.1 in ((h.0, p), q)

All-join : (Q : ℕ → Type 0) (xs ys : List ℕ) → All Q xs → All Q ys → All Q (xs ++ ys)
All-join Q [] ys h k = k
All-join Q (x ∷ xs) ys h k = (h.0, All-join Q xs ys h.1 k)

-- Everything in `xs` differs from everything in `ys`.
abbrev Apart : List ℕ → List ℕ → Type 0
Apart [] ys = Unit
Apart (x ∷ xs) ys = Differs x ys × Apart xs ys

Apart-split : (y : ℕ) (ys xs : List ℕ) → Apart xs (y ∷ ys) → Differs y xs × Apart xs ys
Apart-split y ys [] h = (tt, tt)
Apart-split y ys (x ∷ xs) h =
    let (p, q) = Apart-split y ys xs h.1 in (((λ e. h.0.0 (sym e)), p), (h.0.1, q))

Apart-sym : (xs ys : List ℕ) → Apart xs ys → Apart ys xs
Apart-sym xs [] h = tt
Apart-sym xs (y ∷ ys) h = let (p, q) = Apart-split y ys xs h in (p, Apart-sym xs ys q)

Distinct-split : (xs ys : List ℕ) → Distinct (xs ++ ys) → Distinct xs × Distinct ys × Apart xs ys
Distinct-split [] ys h = (tt, h, tt)
Distinct-split (x ∷ xs) ys h =
    let (p, q, r) = Distinct-split xs ys h.1 in
    let (d, e) = All-split (λ z. z ≢ x) xs ys h.0 in ((d, p), q, (e, r))

Distinct-join : (xs ys : List ℕ) → Distinct xs → Distinct ys → Apart xs ys → Distinct (xs ++ ys)
Distinct-join [] ys h k r = k
Distinct-join (x ∷ xs) ys h k r =
    (All-join (λ z. z ≢ x) xs ys h.0 r.0, Distinct-join xs ys h.1 k r.1)

-- The ring may be read from any of its members.
pub Ring-rotate :
    (m : Procs) (a : ℕ) (xs : List ℕ) (b : ℕ) (ys : List ℕ)
    → Ring m a (xs ++ b ∷ ys)
    → Ring m b (ys ++ a ∷ xs)
Ring-rotate m a xs b ys r =
    let (before, after) = Links-split m a xs b ys a r.links in
    let (p, q, d) = Distinct-split (a ∷ xs) (b ∷ ys) r.distinct in
    record {
      links = Links-append m b ys a xs b after before;
      distinct = Distinct-join (b ∷ ys) (a ∷ xs) q p (Apart-sym (a ∷ xs) (b ∷ ys) d);
    }
