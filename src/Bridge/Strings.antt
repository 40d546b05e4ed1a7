-- ===== src/Bridge/Strings.antt =====
-- js/include/index.js: `Wrappers.string` allocates a byte for each UTF-16 code unit and one more, and
-- writes the UTF-8 bytes and a null.
use telehash_c.Prelude.{
  ℕ, suc, ◌+◌, ◌≤◌, ◌<◌, ◌≡◌, refl, ◌↔◌, true, false, List, [], ◌∷◌, ◌++◌, arith, length,
  length-append, ltb, if◌then◌else◌,
}
use telehash_c.Bridge.Heap.{utf8, string_bytes, is_surrogate, single}

abbrev pub IsAscii : ℕ → Type 0
IsAscii u = u < 128

-- The units that are no ASCII.
unfoldable pub wide : List ℕ → ℕ
wide [] = 0
wide (u ∷ us) = if ltb u 128 then wide us else suc (wide us)

length-single : (u : ℕ) → (if ltb u 128 then 1 else 2) ≤ length (single u)
length-single u = ground arith

single_ascii : (u : ℕ) → u < 128 → single u ≡ u ∷ []
single_ascii u h = ground arith

surrogate_wide : (u : ℕ) → is_surrogate u ≡ true → ltb u 128 ≡ false
surrogate_wide u h = ground arith

-- Each unit takes a byte at least.
length-utf8 : (s : List ℕ) → length s ≤ length (utf8 s)
unfolding utf8
length-utf8 [] = omega arith
length-utf8 (u ∷ []) = ground (arith, length-single u)
length-utf8 (u ∷ v ∷ us) = ground (
  arith,
  length-single u,
  length-append (single u) (utf8 (v ∷ us)),
  length-utf8 us,
  length-utf8 (v ∷ us),
)

-- With a unit that is no ASCII there are more bytes than units.
utf8_longer : (s : List ℕ) → 0 < wide s → length s < length (utf8 s)
unfolding utf8 wide
utf8_longer [] h = absurd (omega arith)
utf8_longer (u ∷ []) h = ground (arith, length-single u)
utf8_longer (u ∷ v ∷ us) h = ground (
  arith,
  length-single u,
  length-append (single u) (utf8 (v ∷ us)),
  length-utf8 us,
  length-utf8 (v ∷ us),
  utf8_longer (v ∷ us),
)

utf8_ascii : (s : List ℕ) → wide s ≡ 0 → utf8 s ≡ s
unfolding utf8 wide
utf8_ascii [] h = refl
utf8_ascii (u ∷ []) h = ground (arith, single_ascii u)
utf8_ascii (u ∷ v ∷ us) h = ground (arith, single_ascii u, utf8_ascii (v ∷ us), surrogate_wide u)

-- The block that is allocated for a text holds what is written to it exactly when the text is ASCII:
-- any other text is written past the end of its block, and an ASCII text fills the block.
pub string_fits_iff :
    (s : List ℕ)
    → ((length (string_bytes s) ≤ length s + 1) ↔ (wide s ≡ 0))
      × (wide s ≡ 0 → string_bytes s ≡ s ++ 0 ∷ [])
unfolding string_bytes
string_fits_iff s = (
  (
    λ h. ground (arith, utf8_longer s, length-append (utf8 s) (0 ∷ [])),
    λ h. rw (utf8_ascii s h) (omega (arith, length-append s (0 ∷ []))),
  ),
  λ h. rw (utf8_ascii s h),
)
