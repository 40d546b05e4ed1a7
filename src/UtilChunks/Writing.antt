-- ===== src/UtilChunks/Writing.antt =====
-- src/util/chunks.c: the blocks that `util_chunks_write` gives, one packet at a time.
use Prim.Native.Nat.{min}
use telehash_c.Prelude.{
  ℕ, zero, suc, ◌+◌, ◌-◌, ◌%◌, ◌<◌, ◌≡◌, refl, sym, ap, ◌∙◌, inl, inr, Bool, true, false, not, ◌&&◌,
  List, [], ◌∷◌, ◌++◌, arith, ◌==◌, if◌then◌else◌, length, take, drop, Bool-cases,
}
use telehash_c.UtilChunks.{
  UtilChunks, chunks_len, chunks_len_of, write, write_of, end_packet, end_chunk, written, transmit,
}
use telehash_c.UtilChunks.Chunking.{chunks_of}

-- Between two chunks of a packet `p`, `w` bytes of which were written.
unfoldable pub between : UtilChunks → List ℕ → List (List ℕ) → ℕ → Bool → UtilChunks
between c p ps w a = record c {
  writing = p ∷ ps;
  writeat = w;
  waitat = 0;
  waiting = 0;
  blocked = false;
  ack = a;
}

-- After the size byte of a chunk of `n` bytes.
unfoldable pub within : UtilChunks → List ℕ → List (List ℕ) → ℕ → ℕ → UtilChunks
within c p ps w n = record c {
  writing = p ∷ ps;
  writeat = w;
  waitat = 1;
  waiting = n;
  blocked = false;
  ack = false;
}

-- After a packet.
unfoldable pub after : UtilChunks → List (List ℕ) → UtilChunks
after c ps = record c {
  writing = ps;
  writeat = 0;
  waitat = 0;
  waiting = 0;
  blocked = c.blocking;
  ack = false;
}

pub nonzero : (n : ℕ) → 0 < n → (n == 0) ≡ false
nonzero n pos = ground arith

module _ (c : UtilChunks) (p : List ℕ) (ps : List (List ℕ)) (w : ℕ) where
  pub chunks_len-between :
      (a : Bool) (n : ℕ)
      → min (length p - w) c.cap ≡ n
      → chunks_len (between c p ps w a) ≡ (1, record (between c p ps w a) { waiting = n })
  unfolding chunks_len chunks_len_of between
  chunks_len-between a n e = rw e

  pub written_size :
      (a : Bool) (n : ℕ)
      → min (length p - w) c.cap ≡ n
      → 0 < n
      → (written 1 (record (between c p ps w a) { waiting = n })).0 ≡ within c p ps w n
  unfolding written chunks_len chunks_len_of between within
  written_size a n e pos = ground arith

  pub chunks_len-within : (n : ℕ) → 0 < n → chunks_len (within c p ps w n) ≡ (n, within c p ps w n)
  unfolding chunks_len chunks_len_of within
  chunks_len-within n pos = ground arith

  -- A chunk's data; its last byte ends the packet where it is a byte alone.
  pub written_data :
      (n : ℕ)
      → 0 < n
      → 0 < c.cap
      → (n == 1 && w + n == length p) ≡ false
      → (written n (within c p ps w n)).0 ≡ between c p ps (w + n) false
  unfolding written end_chunk end_packet within between chunks_len chunks_len_of
  written_data n pos cap e = ground arith

  pub written_alone : 0 < c.cap → w + 1 ≡ length p → (written 1 (within c p ps w 1)).0 ≡ after c ps
  unfolding written end_chunk end_packet within after chunks_len chunks_len_of
  written_alone cap e = ground arith

  pub written_flush :
      (a : Bool)
      → 0 < c.cap
      → w ≡ length p
      → (written 1 (record (between c p ps w a) { waiting = 0 })).0 ≡ after c ps
  unfolding written end_chunk end_packet between after chunks_len chunks_len_of
  written_flush a cap e = ground arith

  pub chunks_len_again :
      (a : Bool) (n : ℕ)
      → min (length p - w) c.cap ≡ n
      → chunks_len (record (between c p ps w a) { waiting = n })
        ≡ (1, record (between c p ps w a) { waiting = n })
  unfolding chunks_len chunks_len_of between
  chunks_len_again a n e = elim (Bool-cases (n == 0)) [
    | inl none_left ↦ rw (none_left, e)
    | inr some_left ↦ rw some_left
  ]

pub write_by :
    (d e : UtilChunks) (n : ℕ)
    → chunks_len d ≡ (n, e)
    → (n == 0) ≡ false
    → write d ≡ write_of e.writing n e
unfolding write
write_by d e n at pos =
    ap (λ (r : ℕ × UtilChunks). if r.0 == 0 then [] else write_of r.1.writing r.0 r.1) at
    ∙ ap (λ b. if b then [] else write_of e.writing n e) pos

module _ (c : UtilChunks) (p : List ℕ) (ps : List (List ℕ)) (w : ℕ) where
  pub write_size :
      (a : Bool) (n : ℕ)
      → min (length p - w) c.cap ≡ n
      → write (record (between c p ps w a) { waiting = n }) ≡ n ∷ []
  unfolding write_of between
  write_size a n e = write_by _ _ 1 (chunks_len_again c p ps w a n e) refl

  pub write_data : (n : ℕ) → 0 < n → write (within c p ps w n) ≡ take n (drop w p)
  unfolding write_of within
  write_data n pos =
      write_by _ _ n (chunks_len-within c p ps w n pos) (nonzero n pos)
      ∙ ap (λ k. take n (drop k p)) (omega arith)

abbrev pub prepend : List ℕ → List ℕ × UtilChunks → List ℕ × UtilChunks
prepend b (bytes, c) = (b ++ bytes, c)

pub transmit_some :
    (k : ℕ) (c d : UtilChunks) (n : ℕ)
    → chunks_len c ≡ (n, d)
    → 0 < n
    → transmit (suc k) c ≡ prepend (write d) (transmit k (written n d).0)
unfolding transmit
transmit_some k c d n e pos =
    ap
      (λ (r : ℕ × UtilChunks).
        let rest = transmit k (written r.0 r.1).0 in
        if r.0 == 0 then ([], r.1) else (write r.1 ++ rest.0, rest.1))
      e
    ∙ ap (λ b. if b then ([], d) else prepend (write d) (transmit k (written n d).0))
        (nonzero n pos)

pub chunks_len-after :
    (c : UtilChunks) (ps : List (List ℕ))
    → c.blocking ≡ true
    → chunks_len (after c ps) ≡ (0, after c ps)
unfolding chunks_len after
chunks_len-after c ps blocks =
    ap (λ b. if b then (0, after c ps) else chunks_len_of ps (after c ps)) blocks

-- A blocked writer writes nothing.
pub transmit-after :
    (k : ℕ) (c : UtilChunks) (ps : List (List ℕ))
    → c.blocking ≡ true
    → transmit k (after c ps) ≡ ([], after c ps)
unfolding transmit
transmit-after zero c ps blocks = refl
transmit-after (suc k) c ps blocks =
    ap
      (λ (r : ℕ × UtilChunks).
        let rest = transmit k (written r.0 r.1).0 in
        if r.0 == 0 then ([], r.1) else (write r.1 ++ rest.0, rest.1))
      (chunks_len-after c ps blocks)

pub drop-nil : (n : ℕ) → drop {A = ℕ} n [] ≡ []
drop-nil zero = refl
drop-nil (suc n) = refl

pub drop-drop : (m n : ℕ) (xs : List ℕ) → drop n (drop m xs) ≡ drop (m + n) xs
drop-drop zero n xs = let same : n ≡ 0 + n = omega arith in ap (λ k. drop k xs) same
drop-drop (suc m) n [] = drop-nil n ∙ sym (drop-nil (suc m + n))
drop-drop (suc m) n (x ∷ xs) =
    let same : suc (m + n) ≡ suc m + n = omega arith in
    drop-drop m n xs ∙ ap (λ k. drop k (x ∷ xs)) same

pub chunks_of_pos :
    (cap k : ℕ) (l : List ℕ)
    → 0 < length l
    → chunks_of cap (suc k) l
      ≡ min (length l) cap
        ∷ (take (min (length l) cap) l ++ chunks_of cap k (drop (min (length l) cap) l))
unfolding chunks_of
chunks_of_pos cap k [] pos = elim pos [ ]
chunks_of_pos cap k (b ∷ l) pos = refl

-- Rounds of a size byte and a chunk each, one byte more, and `m` calls to spare.
unfoldable pub rounds : ℕ → ℕ → ℕ
rounds zero m = suc m
rounds (suc k) m = suc (suc (rounds k m))

-- Of `rem` bytes, the last chunk would have one byte.
abbrev pub lone_byte : ℕ → ℕ → Bool
lone_byte cap rem = not (rem == 0) && (rem - 1) % cap == 0

-- What ends a packet on the wire.
abbrev pub ending : ℕ → ℕ → List ℕ
ending cap rem = if lone_byte cap rem then [] else 0 ∷ []
