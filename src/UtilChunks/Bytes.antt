-- ===== src/UtilChunks/Bytes.antt =====
-- src/util/chunks.c: `_util_chunks_append` copies as much as it can at once. It does what a reader of
-- single bytes does, and so the calls that bring the bytes make no difference.
use Prim.Native.Nat.{min}
use telehash_c.Prelude.{
  ℕ, zero, suc, ◌-◌, ◌≤◌, ◌<◌, ◌≡◌, refl, sym, ap, ◌∙◌, false, inl, inr, List, [], ◌∷◌, ◌++◌,
  append-nil, append_assoc, arith, ◌==◌, if◌then◌else◌, length, take, drop, length-append,
  length-take, length-drop, take-append-drop, Bool-cases, ==_iff,
}
use telehash_c.UtilChunks.{Chunk, UtilChunks, quota, open_chunk, fill, append_loop, read}
use telehash_c.UtilChunks.Writing.{nonzero}
use telehash_c.UtilChunks.Reading.{append_filled, append_size}

-- The reader of single bytes: a byte that no chunk wants is the size of a new one.
unfoldable pub read_byte : ℕ → UtilChunks → UtilChunks
read_byte b c =
    if quota c.reading == 0 then open_chunk b c else record c { reading = fill (b ∷ []) c.reading }

unfoldable pub read_bytes : List ℕ → UtilChunks → UtilChunks
read_bytes [] c = c
read_bytes (b ∷ bytes) c = read_bytes bytes (read_byte b c)

fill-nil : (cs : List Chunk) → fill [] cs ≡ cs
unfolding fill
fill-nil [] = refl
fill-nil (h ∷ cs) = ap (λ b. record h { payload = b } ∷ cs) (append-nil h.payload)

fill-fill : (xs ys : List ℕ) (cs : List Chunk) → fill ys (fill xs cs) ≡ fill (xs ++ ys) cs
unfolding fill
fill-fill xs ys [] = refl
fill-fill xs ys (h ∷ cs) = ap (λ b. record h { payload = b } ∷ cs) (append_assoc h.payload xs ys)

quota-fill : (x : ℕ) (cs : List Chunk) → quota (fill (x ∷ []) cs) ≡ quota cs - 1
unfolding quota fill
quota-fill x [] = omega arith
quota-fill x (h ∷ cs) = omega (arith, length-append h.payload (x ∷ []))

read_byte_wanted :
    (b : ℕ) (c : UtilChunks)
    → 0 < quota c.reading
    → read_byte b c ≡ record c { reading = fill (b ∷ []) c.reading }
unfolding read_byte
read_byte_wanted b c pos = rw (nonzero (quota c.reading) pos)

-- Bytes that the newest chunk wants.
read_bytes-fill :
    (xs : List ℕ) (c : UtilChunks)
    → length xs ≤ quota c.reading
    → read_bytes xs c ≡ record c { reading = fill xs c.reading }
unfolding read_bytes
read_bytes-fill [] c le = ap (λ cs. record c { reading = cs }) (sym (fill-nil c.reading))
read_bytes-fill (x ∷ xs) c le =
    let next : UtilChunks = record c { reading = fill (x ∷ []) c.reading } in
    ap (read_bytes xs) (read_byte_wanted x c (omega arith))
    ∙ read_bytes-fill xs next (omega (arith, quota-fill x c.reading))
    ∙ ap (λ cs. record c { reading = cs }) (fill-fill (x ∷ []) xs c.reading)

read_bytes-append :
    (xs ys : List ℕ) (c : UtilChunks) → read_bytes (xs ++ ys) c ≡ read_bytes ys (read_bytes xs c)
unfolding read_bytes
read_bytes-append [] ys c = refl
read_bytes-append (x ∷ xs) ys c = read_bytes-append xs ys (read_byte x c)

positive_of : (q : ℕ) → (q == 0) ≡ false → 0 < q
positive_of q h = ground arith

append_wanted :
    (k b : ℕ) (bytes : List ℕ) (c : UtilChunks)
    → 0 < quota c.reading
    → append_loop (suc k) (b ∷ bytes) c
      ≡ append_loop k (drop (min (length (b ∷ bytes)) (quota c.reading)) (b ∷ bytes)) (record c {
        reading = fill (take (min (length (b ∷ bytes)) (quota c.reading)) (b ∷ bytes)) c.reading;
      })
unfolding append_loop
append_wanted k b bytes c pos = append_filled k b bytes c (quota c.reading) pos

append_loop-read_bytes :
    (k : ℕ) (bytes : List ℕ) (c : UtilChunks)
    → length bytes ≤ k
    → append_loop k bytes c ≡ read_bytes bytes c
unfolding read_bytes
append_loop-read_bytes zero [] c le = unfold append_loop in refl
append_loop-read_bytes zero (b ∷ bytes) c le = absurd (omega arith)
append_loop-read_bytes (suc k) [] c le = unfold append_loop in refl
append_loop-read_bytes (suc k) (b ∷ bytes) c le = elim (Bool-cases (quota c.reading == 0)) [
  | inl idle ↦
      append_size k b bytes c ((==_iff (quota c.reading) 0).0 idle)
      ∙ append_loop-read_bytes k bytes (open_chunk b c) (omega arith)
      ∙ ap (read_bytes bytes) (unfold read_byte in rw idle)
  | inr wants ↦
      let whole : List ℕ = b ∷ bytes in
      let q : ℕ = quota c.reading in
      let n : ℕ = min (length whole) q in
      let pos : 0 < q = positive_of q wants in
      let filled : UtilChunks = record c { reading = fill (take n whole) c.reading } in
      append_wanted k b bytes c pos
      ∙ append_loop-read_bytes k (drop n whole) filled (omega (arith, length-drop n whole))
      ∙ ap (read_bytes (drop n whole))
          (sym (read_bytes-fill (take n whole) c (omega (arith, length-take n whole))))
      ∙ sym (read_bytes-append (take n whole) (drop n whole) c)
      ∙ ap (λ l. read_bytes l c) (take-append-drop n whole)
]

-- One call of util_chunks_read with all the bytes does what two calls with the parts do, wherever the
-- bytes are cut.
pub read-append : (xs ys : List ℕ) (c : UtilChunks) → read (xs ++ ys) c ≡ read ys (read xs c)
unfolding read
read-append xs ys c =
    append_loop-read_bytes (length (xs ++ ys)) (xs ++ ys) c (omega arith)
    ∙ read_bytes-append xs ys c
    ∙ ap (read_bytes ys) (sym (append_loop-read_bytes (length xs) xs c (omega arith)))
    ∙ sym (append_loop-read_bytes (length ys) ys (append_loop (length xs) xs c) (omega arith))
