-- ===== src/Exchange/Levels.antt =====
-- src/e3x/exchange.c: the larger of two numbers, and tests of numbers whose order is known.
use telehash_c.Prelude.{ℕ, ◌≤◌, ◌<◌, ◌≡◌, ◌⊎◌, true, false, arith, ◌==◌}
use telehash_c.Exchange.Receiving.{raise}

pub le-cases : (a b : ℕ) → a ≤ b → (a < b) ⊎ (a ≡ b)
le-cases a b le = ground arith

pub lt-or-le : (a b : ℕ) → (a < b) ⊎ (b ≤ a)
lt-or-le a b = ground arith

pub raise_level : (out at : ℕ) → at ≤ out → raise out at ≡ out
unfolding raise
raise_level out at le = ground arith

pub raise_higher : (out at : ℕ) → out < at → raise out at ≡ at
unfolding raise
raise_higher out at lt = ground arith

pub raise_below : (out at m : ℕ) → out < m → at < m → raise out at < m
unfolding raise
raise_below out at m lt lt' = ground arith

pub raise_pos : (out at : ℕ) → 0 < at → 0 < raise out at
unfolding raise
raise_pos out at pos = ground arith

pub level : (n : ℕ) → (n == n) ≡ true
level n = ground arith

pub other : (a b : ℕ) → a < b → (a == b) ≡ false
other a b lt = ground arith
