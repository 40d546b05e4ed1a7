-- ===== src/Bridge/Heap.antt =====
-- js/include/thc.js: the compiled program's memory, as js/include/index.js uses it: `_malloc`,
-- `writeArrayToMemory`, `writeStringToMemory` and `getValue`, and the encoding of texts.
use telehash_c.Prelude.{
  ℕ, zero, suc, ◌+◌, ◌-◌, ◌*◌, ◌/◌, ◌%◌, ◌≤◌, ◌⊎◌, Bool, ◌&&◌, List, [], ◌∷◌, ◌++◌, leb, ltb, ◌==◌,
  if◌then◌else◌, All,
}

-- A signed number; `negsuc n` is -(n + 1).
pub data ℤ : Type 0 where
  pos : ℕ → ℤ
  negsuc : ℕ → ℤ

-- What an element of an Int8Array reads as, and what an element of a Buffer makes of a number.
unfoldable pub int8 : ℕ → ℤ
int8 b = if ltb b 128 then pos b else negsuc (255 - b)

unfoldable pub uint8 : ℤ → ℕ
uint8 (pos n) = n % 256
uint8 (negsuc n) = 255 - n % 256

-- The bytes, and the live blocks that `_malloc` has given out: address and size.
pub record Memory : Type 0 where
  pub cells : ℕ → ℕ
  pub blocks : List (ℕ × ℕ)

-- `_malloc` is compiled C: it chooses an address by the live blocks and the size.
abbrev pub Malloc : Type 0
Malloc = List (ℕ × ℕ) → ℕ → ℕ

abbrev pub Apart : ℕ → ℕ → ℕ × ℕ → Type 0
Apart p n (q, m) = (p + n ≤ q) ⊎ (q + m ≤ p)

-- What the C library promises: a block that meets no live one.
abbrev pub Allocates : Malloc → Type 0
Allocates malloc = (blocks : List (ℕ × ℕ)) (n : ℕ) → All (Apart (malloc blocks n) n) blocks

-- `HEAP8[p] = b`
unfoldable pub poke : ℕ → ℕ → (ℕ → ℕ) → ℕ → ℕ
poke p b cells q = if p == q then b % 256 else cells q

unfoldable pub write_array : List ℕ → ℕ → (ℕ → ℕ) → ℕ → ℕ
write_array [] p cells = cells
write_array (b ∷ bs) p cells = write_array bs (p + 1) (poke p b cells)

-- `getValue(ptr)` reads an i8.
unfoldable pub get_value : ℕ → Memory → ℤ
get_value p m = int8 (m.cells p)

-- js/include/index.js: `th.BUFFER`.
unfoldable pub read_buffer : ℕ → ℕ → Memory → List ℕ
unfolding get_value
read_buffer p zero m = []
read_buffer p (suc n) m = uint8 (get_value p m) ∷ read_buffer (p + 1) n m

-- A text is its UTF-16 code units. `stringToUTF8Array` joins a unit from 0xd800 to 0xdfff with the one
-- that follows.
abbrev pub is_surrogate : ℕ → Bool
is_surrogate u = leb 55296 u && leb u 57343

abbrev pub pair : ℕ → ℕ → List ℕ
pair u v =
    let c : ℕ = 65536 + u % 1024 * 1024 + v % 1024 in
    (240 + c / 262144) ∷ (128 + c / 4096 % 64) ∷ (128 + c / 64 % 64) ∷ (128 + c % 64) ∷ []

abbrev pub single : ℕ → List ℕ
single u =
    if ltb u 128
    then u ∷ []
    else (if ltb u 2048
        then (192 + u / 64) ∷ (128 + u % 64) ∷ []
        else (224 + u / 4096) ∷ (128 + u / 64 % 64) ∷ (128 + u % 64) ∷ [])

unfoldable pub utf8 : List ℕ → List ℕ
utf8 [] = []
utf8 (u ∷ []) = if is_surrogate u then pair u 0 else single u
utf8 (u ∷ v ∷ us) =
    let joined = pair u v ++ utf8 us in
    let apart = single u ++ utf8 (v ∷ us) in if is_surrogate u then joined else apart

-- `writeStringToMemory`: the bytes and a null.
unfoldable pub string_bytes : List ℕ → List ℕ
string_bytes s = utf8 s ++ 0 ∷ []
