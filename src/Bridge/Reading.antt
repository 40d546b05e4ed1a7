-- ===== src/Bridge/Reading.antt =====
-- js/include/index.js: what is read back from the compiled program's memory.
use telehash_c.Prelude.{
  ℕ, zero, suc, ◌+◌, ◌≤◌, ◌<◌, ◌≡◌, refl, ap, ap₂, ◌∙◌, inl, inr, List, [], ◌∷◌, arith, length, All,
}
use telehash_c.Bridge.Heap.{int8, uint8, Memory, poke, write_array, read_buffer, Apart}

abbrev pub IsByte : ℕ → Type 0
IsByte b = b < 256

pub uint8-int8 : (b : ℕ) → b < 256 → uint8 (int8 b) ≡ b
unfolding uint8 int8
uint8-int8 b h = ground arith

pub write_array_below :
    (bs : List ℕ) (p q : ℕ) (cells : ℕ → ℕ) → q < p → write_array bs p cells q ≡ cells q
unfolding write_array poke
write_array_below [] p q cells h = refl
write_array_below (b ∷ bs) p q cells h =
    write_array_below bs (p + 1) q (poke p b cells) (omega arith) ∙ ground arith

pub write_array_above :
    (bs : List ℕ) (p q : ℕ) (cells : ℕ → ℕ) → p + length bs ≤ q → write_array bs p cells q ≡ cells q
unfolding write_array poke
write_array_above [] p q cells h = refl
write_array_above (b ∷ bs) p q cells h =
    write_array_above bs (p + 1) q (poke p b cells) (omega arith) ∙ ground arith

-- Only the bytes of the block are read.
pub read_buffer-agree :
    (n p : ℕ) (m m' : Memory)
    → ((q : ℕ) → p ≤ q → q < p + n → m'.cells q ≡ m.cells q)
    → read_buffer p n m' ≡ read_buffer p n m
unfolding read_buffer
read_buffer-agree zero p m m' h = refl
read_buffer-agree (suc n) p m m' h =
    ap₂ (λ (b : ℕ) (bs : List ℕ). b ∷ bs)
      (ap (λ (c : ℕ). uint8 (int8 c)) (h p (omega arith) (omega arith)))
      (read_buffer-agree n (p + 1) m m' (λ q a b. h q (omega arith) (omega arith)))

poke_self : (b p : ℕ) (cells : ℕ → ℕ) → b < 256 → poke p b cells p ≡ b
unfolding poke
poke_self b p cells h = ground arith

-- Bytes that were written are read back.
pub read_buffer-write_array :
    (bs : List ℕ) (p : ℕ) (cells : ℕ → ℕ) (blocks : List (ℕ × ℕ))
    → All IsByte bs
    → read_buffer p (length bs) (record { cells = write_array bs p cells; blocks = blocks }) ≡ bs
unfolding read_buffer write_array
read_buffer-write_array [] p cells blocks h = refl
read_buffer-write_array (b ∷ bs) p cells blocks h =
    ap₂ (λ (b : ℕ) (bs : List ℕ). b ∷ bs)
      (ap (λ (c : ℕ). uint8 (int8 c))
          (write_array_below bs (p + 1) p (poke p b cells) (omega arith) ∙ poke_self b p cells h.0)
        ∙ uint8-int8 b h.0)
      (read_buffer-write_array bs (p + 1) (poke p b cells) blocks h.1)

-- A block that is written does not change what a block apart from it holds.
pub read_buffer-Apart :
    (bs : List ℕ) (p q n : ℕ) (cells : ℕ → ℕ) (blocks blocks' : List (ℕ × ℕ))
    → Apart p (length bs) (q, n)
    → read_buffer q n (record { cells = write_array bs p cells; blocks = blocks })
      ≡ read_buffer q n (record { cells = cells; blocks = blocks' })
read_buffer-Apart bs p q n cells blocks blocks' (inl before) =
    read_buffer-agree n q _ _ (λ r a b. write_array_above bs p r cells (omega arith))
read_buffer-Apart bs p q n cells blocks blocks' (inr after) =
    read_buffer-agree n q _ _ (λ r a b. write_array_below bs p r cells (omega arith))
