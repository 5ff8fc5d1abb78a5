-- ===== src/Clib/Mem.antt =====
-- lib/common/string/mem.c. Memory is a function from addresses to bytes; each loop is a recursion
-- on the rounds that are left, and a pointer is the address that it holds.
pub mod Laws
use fruity_orange.Base.{ℕ, zero, suc, ◌+◌, ◌%◌, ◌==◌, if◌then◌else◌}

abbrev pub Memory : Type 0
Memory = ℕ → ℕ

-- `*p = v` for a byte.
unfoldable pub write : ℕ → ℕ → Memory → Memory
write p v m x = if p == x then v else m x

-- `while(n-- > 0) *dp++ = *sp++`
pub memcpy : ℕ → ℕ → ℕ → Memory → Memory
memcpy dp sp zero m = m
memcpy dp sp (suc n) m = memcpy (dp + 1) (sp + 1) n (write dp (m sp) m)

-- `sp` and `dp` start at `src+n` and `dest+n`: `while(n-- > 0) *dp-- = *sp--`
pub memmove : ℕ → ℕ → ℕ → Memory → Memory
memmove dest src zero m = m
memmove dest src (suc n) m = memmove dest src n (write (dest + suc n) (m (src + suc n)) m)

-- A byte is stored, so `value` is cut to 8 bits.
pub memset : ℕ → ℕ → ℕ → Memory → Memory
memset tmp value zero m = m
memset tmp value (suc n) m = memset (tmp + 1) value n (write tmp (value % 256) m)

pub memclr : ℕ → ℕ → Memory → Memory
memclr tmp zero m = m
memclr tmp (suc n) m = memclr (tmp + 1) n (write tmp 0 m)
