-- ===== src/Proc/Task/Ring.antt =====
-- The ring of processes as a list, and how writes to `next` and `prev` change it.
use fruity_orange.Base.{ℕ, ◌≡◌, ◌≢◌, sym, List, [], ◌∷◌, ◌++◌, All, ◌==◌, if◌then◌else◌, arith, ◌∙◌}
use fruity_orange.Proc.Task.{Procs, modify, set_next, set_prev}

-- From `a` the structures `xs` follow, and then `b`, in both directions.
abbrev pub Links : Procs → ℕ → List ℕ → ℕ → Type 0
Links m a [] b = ((m a).next ≡ b) × ((m b).prev ≡ a)
Links m a (x ∷ xs) b = ((m a).next ≡ x) × ((m x).prev ≡ a) × Links m x xs b

abbrev pub Differs : ℕ → List ℕ → Type 0
Differs a xs = All (λ x. x ≢ a) xs

abbrev pub Distinct : List ℕ → Type 0
Distinct [] = Unit
Distinct (a ∷ xs) = Differs a xs × Distinct xs

-- The ring that starts at `a`: going on from it one meets `xs` and then `a` again.
pub record Ring (m : Procs) (a : ℕ) (xs : List ℕ) : Type 0 where
  pub links : Links m a xs a
  pub distinct : Distinct (a ∷ xs)

-- The last structure before the way comes to its end.
abbrev pub last : ℕ → List ℕ → ℕ
last a [] = a
last a (x ∷ xs) = last x xs

pub prev_of_end :
    (m : Procs) (a : ℕ) (xs : List ℕ) (b : ℕ) → Links m a xs b → (m b).prev ≡ last a xs
prev_of_end m a [] b l = l.1
prev_of_end m a (x ∷ xs) b l = prev_of_end m x xs b l.2

pub next_of_last :
    (m : Procs) (a : ℕ) (xs : List ℕ) (b : ℕ) → Links m a xs b → (m (last a xs)).next ≡ b
next_of_last m a [] b l = l.0
next_of_last m a (x ∷ xs) b l = next_of_last m x xs b l.2

-- Writes that leave the links alone keep them.
pub Links-frame :
    (m m' : Procs) (a : ℕ) (xs : List ℕ) (b : ℕ)
    → ((x : ℕ) → (m' x).next ≡ (m x).next)
    → ((x : ℕ) → (m' x).prev ≡ (m x).prev)
    → Links m a xs b
    → Links m' a xs b
Links-frame m m' a [] b n p l = (n a ∙ l.0, p b ∙ l.1)
Links-frame m m' a (x ∷ xs) b n p l = (n a ∙ l.0, p x ∙ l.1, Links-frame m m' x xs b n p l.2)

not_last : (a x : ℕ) (xs : List ℕ) → Differs a (x ∷ xs) → a ≢ last x xs
not_last a x [] d e = d.0 (sym e)
not_last a x (y ∷ ys) d e = not_last a y ys d.1 e

-- The way from `a` is led to `c` in place of `b`: only the last `next` and the `prev` of the new
-- end are written.
pub Links-retarget :
    (m m' : Procs) (a : ℕ) (xs : List ℕ) (b c : ℕ)
    → Links m a xs b
    → Distinct (a ∷ xs)
    → All (λ x. x ≢ last a xs → (m' x).next ≡ (m x).next) (a ∷ xs)
    → (m' (last a xs)).next ≡ c
    → All (λ x. (m' x).prev ≡ (m x).prev) xs
    → (m' c).prev ≡ last a xs
    → Links m' a xs c
Links-retarget m m' a [] b c l d n e p q = (e, q)
Links-retarget m m' a (x ∷ xs) b c l d n e p q =
    (n.0 (not_last a x xs d.0) ∙ l.0, p.0 ∙ l.1, Links-retarget m m' x xs b c l.2 d.1 n.1 e p.1 q)

-- What differs from `p` and from `q` satisfies `Q`.
pub All-Differs :
    (Q : ℕ → Type 0) (p : ℕ) (xs : List ℕ) → Differs p xs → ((x : ℕ) → x ≢ p → Q x) → All Q xs
All-Differs Q p [] d f = tt
All-Differs Q p (x ∷ xs) d f = (f x d.0, All-Differs Q p xs d.1 f)

pub All-Differs_two :
    (Q : ℕ → Type 0) (p q : ℕ) (xs : List ℕ)
    → Differs p xs
    → Differs q xs
    → ((x : ℕ) → x ≢ p → x ≢ q → Q x)
    → All Q xs
All-Differs_two Q p q [] d e f = tt
All-Differs_two Q p q (x ∷ xs) d e f = (f x d.0 e.0, All-Differs_two Q p q xs d.1 e.1 f)

pub Links-append :
    (m : Procs) (a : ℕ) (xs : List ℕ) (b : ℕ) (ys : List ℕ) (c : ℕ)
    → Links m a xs b
    → Links m b ys c
    → Links m a (xs ++ b ∷ ys) c
Links-append m a [] b ys c l k = (l.0, l.1, k)
Links-append m a (x ∷ xs) b ys c l k = (l.0, l.1, Links-append m x xs b ys c l.2 k)

-- What the writes leave in the two fields.
module _ (p q : ℕ) (m : Procs) (x : ℕ) where
  pub next-set_next : (set_next p q m x).next ≡ (if p == x then q else (m x).next)
  unfolding modify
  next-set_next = ground arith

  pub prev-set_next : (set_next p q m x).prev ≡ (m x).prev
  unfolding modify
  prev-set_next = ground arith

  pub next-set_prev : (set_prev p q m x).next ≡ (m x).next
  unfolding modify
  next-set_prev = ground arith

  pub prev-set_prev : (set_prev p q m x).prev ≡ (if p == x then q else (m x).prev)
  unfolding modify
  prev-set_prev = ground arith
