-- ===== src/Clib/Tar/Entries.antt =====
-- `tar_get_num_entries` of lib/common/tar/tar.c counts the headers up to the first one with an
-- empty name.
use fruity_orange.Base.{
  ℕ, zero, suc, ◌+◌, ◌-◌, ◌*◌, ◌%◌, ◌^◌, ◌≤◌, ◌<◌, ◌≡◌, ◌≢◌, some, arith, ap, ◌∙◌,
}
use fruity_orange.Clib.Mem.{Memory}
use fruity_orange.Clib.Tar.{
  tar_size, size_field, tar_getsize, tar_next, entries_loop, tar_get_num_entries,
}

-- Where the header behind the one at `addr` stands.
abbrev pub following : Memory → ℕ → ℕ
following m addr = tar_next addr (tar_getsize m (addr + size_field))

-- `n` headers stand from `addr` on, and the one behind them has an empty name.
pub data Archive (m : Memory) : ℕ → ℕ → Type 0 where
  end : (addr : ℕ) → m addr ≡ 0 → Archive m addr 0
  entry : (addr n : ℕ) → m addr ≢ 0 → Archive m (following m addr) n → Archive m addr (suc n)

-- The next header starts at a multiple of 512 bytes behind, and the file between them has room.
pub tar_next_room :
    (addr size : ℕ)
    → (addr + tar_size + size ≤ tar_next addr size)
      × (tar_next addr size < addr + 2 * tar_size + size)
      × ((tar_next addr size - addr) % tar_size ≡ 0)
unfolding tar_next
tar_next_room addr size = (ground arith, ground arith, ground arith)

step :
    (k addr i : ℕ) (m : Memory) (header : ℕ)
    → m header ≢ 0
    → entries_loop (suc k) m header addr i
      ≡ entries_loop k m addr (following m addr) ((i + 1) % 2 ^ 32)
unfolding entries_loop
step k addr i m header h = ground arith

stop :
    (k addr i : ℕ) (m : Memory) (header : ℕ)
    → m header ≡ 0
    → entries_loop (suc k) m header addr i ≡ some i
unfolding entries_loop
stop k addr i m header h = ground arith

loop_counts :
    (k n addr i : ℕ) (m : Memory) (header : ℕ)
    → Archive m addr n
    → m header ≢ 0
    → suc n < k
    → entries_loop k m header addr i ≡ some ((i + n + 1) % 2 ^ 32)
loop_counts zero n addr i m header a h f = absurd (omega arith)
loop_counts (suc zero) n addr i m header a h f = absurd (omega arith)
loop_counts (suc (suc k)) zero addr i m header (end _ z) h f =
    step (suc k) addr i m header h
    ∙ stop k (following m addr) ((i + 1) % 2 ^ 32) m addr z
    ∙ ap some (omega arith)
loop_counts (suc (suc k)) (suc n) addr i m header (entry _ _ nz a) h f =
    step (suc k) addr i m header h
    ∙ loop_counts (suc k) n (following m addr) ((i + 1) % 2 ^ 32) m addr a nz (omega arith)
    ∙ ap some (omega arith)

-- An archive of `n` headers is counted as `n`, if it has one and `n` is an int, whatever the
-- sizes of its files, and the loop ends after `n + 2` tests.
pub num_entries_lem :
    (k n addr : ℕ) (m : Memory)
    → Archive m addr (suc n)
    → suc n < 2 ^ 31
    → suc (suc n) < k
    → tar_get_num_entries k m addr ≡ some (suc n)
unfolding tar_get_num_entries
num_entries_lem k n addr m a small f =
    loop_counts k (suc n) addr (2 ^ 32 - 1) m addr a (first a) f ∙ ap some (omega arith)
  where
    first : Archive m addr (suc n) → m addr ≢ 0
    first (entry _ _ nz _) = nz
