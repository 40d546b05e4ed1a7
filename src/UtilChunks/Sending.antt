-- ===== src/UtilChunks/Sending.antt =====
-- src/util/chunks.c: all the blocks of one packet.
use Prim.Native.Nat.{min}
use native.Mathlib.Nat.{mod-eq_of_lt, mod-eq-sub-mod}
use telehash_c.Prelude.{
  ℕ, zero, suc, ◌+◌, ◌-◌, ◌%◌, ◌≤◌, ◌<◌, ◌≡◌, refl, sym, ap, ap₂, ◌∙◌, inl, inr, Bool, true, false,
  not, ◌&&◌, List, [], ◌∷◌, ◌++◌, append-nil, append_assoc, arith, ltb, ltb→lt, ==_iff, ◌==◌,
  if◌then◌else◌, length, take, drop, length-drop, Bool-cases,
}
use telehash_c.UtilChunks.{UtilChunks, written, transmit}
use telehash_c.UtilChunks.Chunking.{chunks_of}
use telehash_c.UtilChunks.Writing.{
  nonzero, between, within, after, chunks_len-between, chunks_len-within, written_size,
  written_data, written_alone, written_flush, write_size, write_data, prepend, transmit_some,
  transmit-after, drop-drop, chunks_of_pos, rounds, ending,
}

true≢false : true ≡ false → ⊥
true≢false e = cc

ltb_not : (a b : ℕ) → ltb a b ≡ false → b ≤ a
ltb_not a b h = ground arith

-- The byte of a chunk does not end the packet, when more than a byte was left.
not_last : (w n len : ℕ) → w ≤ len → (len - w ≡ 1 → ⊥) → (n == 1 && w + n == len) ≡ false
not_last w n len le two = elim (Bool-cases (n == 1)) [
  | inr other ↦ rw other
  | inl one ↦
      let size : n ≡ 1 = (==_iff n 1).0 one in
      rw one (elim (Bool-cases (w + n == len)) [
        | inr other ↦ other
        | inl last ↦
            let whole : w + n ≡ len = (==_iff (w + n) len).0 last in absurd (two (omega arith))
      ])
]

lone-nil : (cap rem : ℕ) → rem ≡ 0 → ending cap rem ≡ 0 ∷ []
lone-nil cap rem e = rw e

lone_one : (cap rem : ℕ) → 0 < cap → rem ≡ 1 → ending cap rem ≡ []
lone_one cap rem pos e =
    let least : 0 % cap ≡ 0 = mod-eq_of_lt pos in
    rw e (ap (λ (r : ℕ). if r == 0 then [] else 0 ∷ []) least)

last_long : (cap rem : ℕ) → 1 < rem → rem ≤ cap → ending cap rem ≡ 0 ∷ []
last_long cap rem long le =
    let small : (rem - 1) % cap ≡ rem - 1 = mod-eq_of_lt (omega arith) in ground arith

ending_more : (cap rem : ℕ) → 0 < cap → cap < rem → ending cap (rem - cap) ≡ ending cap rem
ending_more cap rem pos lt =
    let same : (rem - 1) % cap ≡ (rem - 1 - cap) % cap = mod-eq-sub-mod (omega arith) in
    let swap : rem - cap - 1 ≡ rem - 1 - cap = omega arith in
    let test : (rem - cap - 1) % cap ≡ (rem - 1) % cap = ap (λ r. r % cap) swap ∙ sym same in
    let more : (rem - cap == 0) ≡ false = nonzero (rem - cap) (omega arith) in
    let any : (rem == 0) ≡ false = nonzero rem (omega arith) in
    ap₂ (λ z (r : ℕ). if not z && r == 0 then [] else 0 ∷ []) (more ∙ sym any) test

chunks_of-nil : (cap k : ℕ) (l : List ℕ) → length l ≤ 0 → chunks_of cap k l ≡ []
unfolding chunks_of
chunks_of-nil cap zero l h = refl
chunks_of-nil cap (suc k) [] h = refl
chunks_of-nil cap (suc k) (b ∷ l) h = absurd (omega arith)

-- The next chunk of what is left.
chunks_of-drop :
    (cap k w : ℕ) (p : List ℕ)
    → 0 < length p - w
    → chunks_of cap (suc k) (drop w p)
      ≡ (min (length p - w) cap ∷ take (min (length p - w) cap) (drop w p))
        ++ chunks_of cap k (drop (w + min (length p - w) cap) p)
chunks_of-drop cap k w p pos =
    chunks_of_pos cap k (drop w p) (omega (arith, length-drop w p))
    ∙ ap
        (λ r.
          min r cap
          ∷ (take (min r cap) (drop w p) ++ chunks_of cap k (drop (min r cap) (drop w p))))
        (length-drop w p)
    ∙ ap
        (λ l.
          min (length p - w) cap ∷ (take (min (length p - w) cap) (drop w p) ++ chunks_of cap k l))
        (drop-drop w (min (length p - w) cap) p)

-- After a chunk that does not end the packet, the packet ends as before.
ending_chunk :
    (cap rem : ℕ)
    → 0 < cap
    → 0 < rem
    → (rem ≡ 1 → ⊥)
    → ending cap (rem - min rem cap) ≡ ending cap rem
ending_chunk cap rem pos left two = elim (Bool-cases (ltb cap rem)) [
  | inl more ↦
      let lt = ltb→lt cap rem more in
      let full : min rem cap ≡ cap = omega arith in
      ap (λ r. ending cap (rem - r)) full ∙ ending_more cap rem pos lt
  | inr last ↦
      let le = ltb_not cap rem last in
      lone-nil cap (rem - min rem cap) (omega arith) ∙ sym (last_long cap rem (omega arith) le)
]

module _ (c : UtilChunks) (p : List ℕ) (ps : List (List ℕ)) (positive : 0 < c.cap)
    (blocks : c.blocking ≡ true) where
  -- The empty chunk.
  transmit_flush :
      (k w : ℕ) (a : Bool)
      → w ≡ length p
      → transmit (suc k) (between c p ps w a) ≡ (0 ∷ [], after c ps)
  transmit_flush k w a e =
      let none_left : min (length p - w) c.cap ≡ 0 = omega arith in
      transmit_some k _ _ 1 (chunks_len-between c p ps w a 0 none_left) (omega arith)
      ∙ ap₂ (λ b s. prepend b (transmit k s)) (write_size c p ps w a 0 none_left)
          (written_flush c p ps w a positive e)
      ∙ ap (prepend (0 ∷ [])) (transmit-after k c ps blocks)

  -- A size byte and its chunk.
  transmit_chunk :
      (k w n : ℕ) (a : Bool)
      → min (length p - w) c.cap ≡ n
      → 0 < n
      → transmit (suc (suc k)) (between c p ps w a)
        ≡ prepend (n ∷ take n (drop w p)) (transmit k (written n (within c p ps w n)).0)
  transmit_chunk k w n a e pos =
      transmit_some (suc k) _ _ 1 (chunks_len-between c p ps w a n e) (omega arith)
      ∙ ap₂ (λ b s. prepend b (transmit (suc k) s)) (write_size c p ps w a n e)
          (written_size c p ps w a n e pos)
      ∙ ap (prepend (n ∷ [])) (
          transmit_some k _ _ n (chunks_len-within c p ps w n pos) pos
          ∙ ap (λ b. prepend b (transmit k (written n (within c p ps w n)).0))
              (write_data c p ps w n pos))

  no_more :
      (k j w : ℕ) (a : Bool)
      → w ≡ length p
      → transmit (suc k) (between c p ps w a)
        ≡ (chunks_of c.cap j (drop w p) ++ ending c.cap (length p - w), after c ps)
  no_more k j w a e =
      transmit_flush k w a e
      ∙ ap₂ (λ l q. (l ++ q, after c ps))
          (sym (chunks_of-nil c.cap j (drop w p) (omega (arith, length-drop w p))))
          (sym (lone-nil c.cap (length p - w) (omega arith)))

  -- The blocks of what is left of a packet: its chunks, and what ends the packet.
  transmit-rounds :
      (k m w : ℕ) (a : Bool)
      → w ≤ length p
      → length p - w ≤ k
      → transmit (rounds k m) (between c p ps w a)
        ≡ (chunks_of c.cap k (drop w p) ++ ending c.cap (length p - w), after c ps)
  unfolding rounds
  transmit-rounds zero m w a le enough = no_more m zero w a (omega arith)
  transmit-rounds (suc k) m w a le enough = elim (Bool-cases (ltb 0 (length p - w))) [
    | inr none_left ↦
        let all = ltb_not 0 (length p - w) none_left in
        no_more (suc (rounds k m)) (suc k) w a (omega arith)
    | inl some_left ↦
        let pos = ltb→lt 0 (length p - w) some_left in
        let n : ℕ = min (length p - w) c.cap in
        let least : 0 < n = omega arith in
        let chunk : List ℕ = n ∷ take n (drop w p) in
        transmit_chunk (rounds k m) w n a refl least ∙ elim (Bool-cases (length p - w == 1)) [
          | inl alone ↦
              let one : length p - w ≡ 1 = (==_iff (length p - w) 1).0 alone in
              let size : n ≡ 1 = omega arith in
              ap (prepend chunk) (
                ap (transmit (rounds k m)) (
                  ap (λ i. (written i (within c p ps w i)).0) size
                  ∙ written_alone c p ps w positive (omega arith))
                ∙ transmit-after (rounds k m) c ps blocks)
              ∙ ap₂ (λ l q. (l ++ q, after c ps))
                  (sym (append-nil chunk)
                    ∙ ap (λ l. chunk ++ l)
                        (sym (
                          chunks_of-nil c.cap k (drop (w + n) p)
                            (omega (arith, length-drop (w + n) p))))
                    ∙ sym (chunks_of-drop c.cap k w p pos))
                  (sym (lone_one c.cap (length p - w) positive one))
          | inr more ↦
              let two : (length p - w ≡ 1) → ⊥ = λ e. true≢false (sym ((==_iff _ 1).1 e) ∙ more) in
              let left_over : length p - (w + n) ≡ length p - w - n = omega arith in
              let test : (n == 1 && w + n == length p) ≡ false = not_last w n (length p) le two in
              ap (prepend chunk) (
                ap (transmit (rounds k m)) (written_data c p ps w n least positive test)
                ∙ transmit-rounds k m (w + n) false (omega arith) (omega arith))
              ∙ ap (λ l. (l, after c ps))
                  (sym (append_assoc chunk (chunks_of c.cap k (drop (w + n) p)) _)
                    ∙ ap₂ (λ l q. l ++ q) (sym (chunks_of-drop c.cap k w p pos))
                        (ap (ending c.cap) left_over
                          ∙ ending_chunk c.cap (length p - w) positive pos two))
        ]
  ]

  -- What the blocks of a packet are: its chunks and an empty one, which is missing if the last chunk
  -- has one byte; then the packet is done, and the writer blocked.
  pub transmit_packet :
      (m : ℕ) (a : Bool)
      → transmit (rounds (length p) m) (between c p ps 0 a)
        ≡ (chunks_of c.cap (length p) p ++ ending c.cap (length p), after c ps)
  transmit_packet m a =
      let whole : length p - 0 ≡ length p = omega arith in
      transmit-rounds (length p) m 0 a (omega arith) (omega arith)
      ∙ ap (λ r. (chunks_of c.cap (length p) p ++ ending c.cap r, after c ps)) whole
