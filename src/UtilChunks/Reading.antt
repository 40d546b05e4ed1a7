-- ===== src/UtilChunks/Reading.antt =====
-- src/util/chunks.c: chunks read from a stream, and the packet that they make.
use Prim.Native.Nat.{min}
use telehash_c.Prelude.{
  ℕ, zero, suc, ◌+◌, ◌≤◌, ◌<◌, ◌≡◌, refl, sym, ap, ap₂, subst, ◌∙◌, Bool, none, some, List, [], ◌∷◌,
  ◌++◌, append-nil, append_assoc, arith, ◌==◌, if◌then◌else◌, length, take, drop, All,
  length-append, length-take, length-drop, take-append-drop, take-append_self, drop-append_self,
}
use telehash_c.UtilChunks.{
  Chunk, UtilChunks, quota, open_chunk, fill, append_loop, read, split_at, split_flush, join,
  receive_split, receive_loop, receive,
}
use telehash_c.UtilChunks.Chunking.{chunks_of}
use telehash_c.UtilChunks.Writing.{nonzero}
use telehash_c.UtilFrames.{lob_direct}

abbrev pub HasData : Chunk → Type 0
HasData h = 0 < h.size

-- A size byte, where no chunk wants more.
-- The call on a size byte or on data, by what the newest chunk wants.
abbrev pub append_by : ℕ → ℕ → List ℕ → UtilChunks → ℕ → UtilChunks
append_by k b bytes c q =
    let n : ℕ = min (length (b ∷ bytes)) q in
    if q == 0
    then append_loop k bytes (open_chunk b c)
    else append_loop k (drop n (b ∷ bytes))
        (record c { reading = fill (take n (b ∷ bytes)) c.reading })

pub append_filled :
    (k b : ℕ) (bytes : List ℕ) (c : UtilChunks) (q : ℕ)
    → 0 < q
    → append_by k b bytes c q
      ≡ append_loop k
          (drop (min (length (b ∷ bytes)) q) (b ∷ bytes))
          (record c { reading = fill (take (min (length (b ∷ bytes)) q) (b ∷ bytes)) c.reading })
append_filled k b bytes c q pos = rw (nonzero q pos)

pub append_size :
    (k b : ℕ) (bytes : List ℕ) (c : UtilChunks)
    → quota c.reading ≡ 0
    → append_loop (suc k) (b ∷ bytes) c ≡ append_loop k bytes (open_chunk b c)
unfolding append_loop
append_size k b bytes c e = ap (append_by k b bytes c) e

-- The data of a chunk that wants as much.
append_payload :
    (k : ℕ) (payload bytes : List ℕ) (c : UtilChunks)
    → 0 < length payload
    → quota c.reading ≡ length payload
    → append_loop (suc k) (payload ++ bytes) c
      ≡ append_loop k bytes (record c { reading = fill payload c.reading })
unfolding append_loop
append_payload k [] bytes c pos e = elim pos [ ]
append_payload k (b ∷ payload) bytes c pos e =
    let whole : List ℕ = b ∷ payload in
    let n_eq : min (length (whole ++ bytes)) (length whole) ≡ length whole =
      omega (arith, length-append whole bytes) in
    ap (append_by k b (payload ++ bytes) c) e
    ∙ append_filled k b (payload ++ bytes) c (length whole) pos
    ∙ ap
        (λ (n : ℕ).
          append_loop k (drop n (whole ++ bytes))
            (record c { reading = fill (take n (whole ++ bytes)) c.reading }))
        n_eq
    ∙ ap₂ (λ r t. append_loop k r (record c { reading = fill t c.reading }))
        (drop-append_self whole bytes) (take-append_self whole bytes)

split_none : (cs : List Chunk) → All HasData cs → split_flush cs ≡ none
unfolding split_flush split_at
split_none [] h = refl
split_none (h ∷ cs) (pos, rest) =
    ap (split_at h cs) (split_none cs rest)
    ∙ ap (λ b. if b then some ([], cs) else none) (nonzero h.size pos)

length-chunk :
    (n : ℕ) (payload more tail : List ℕ)
    → length (n ∷ (payload ++ more) ++ tail) ≡ suc (length payload + length (more ++ tail))
length-chunk n payload more tail = omega (
  arith,
  length-append (payload ++ more) tail,
  length-append payload more,
  length-append more tail,
)

-- Chunks that come after complete ones leave their bytes behind those read, and wait for the next size
-- byte.
read_chunks :
    (cap j k : ℕ) (rest tail : List ℕ) (c : UtilChunks)
    → 0 < cap
    → length rest ≤ j
    → length (chunks_of cap j rest ++ tail) ≤ k
    → quota c.reading ≡ 0
    → All HasData c.reading
    → (m : ℕ) × (d : UtilChunks) × (append_loop k (chunks_of cap j rest ++ tail) c
        ≡ append_loop m tail d)
      × (length tail ≤ m)
      × (quota d.reading ≡ 0)
      × (join d.reading ≡ join c.reading ++ rest)
      × All HasData d.reading
unfolding chunks_of open_chunk fill quota join
read_chunks cap zero k [] tail c pos le enough idle full =
    (k, c, refl, enough, idle, sym (append-nil (join c.reading)), full)
read_chunks cap zero k (b ∷ rest) tail c pos le enough idle full = absurd (omega arith)
read_chunks cap (suc j) k [] tail c pos le enough idle full =
    (k, c, refl, enough, idle, sym (append-nil (join c.reading)), full)
read_chunks cap (suc j) zero (b ∷ rest) tail c pos le enough idle full = absurd (omega arith)
read_chunks cap (suc j) (suc zero) (b ∷ rest) tail c pos le enough idle full = absurd (
    omega (
      arith,
      length-chunk (min (length (b ∷ rest)) cap) (take (min (length (b ∷ rest)) cap) (b ∷ rest))
          (chunks_of cap j (drop (min (length (b ∷ rest)) cap) (b ∷ rest))) tail,
      length-take (min (length (b ∷ rest)) cap) (b ∷ rest),
    ))
read_chunks cap (suc j) (suc (suc k)) (b ∷ rest) tail c pos le enough idle full =
    let n : ℕ = min (length (b ∷ rest)) cap in
    let payload : List ℕ = take n (b ∷ rest) in
    let more : List ℕ = chunks_of cap j (drop n (b ∷ rest)) in
    let size : length payload ≡ n = omega (arith, length-take n (b ∷ rest)) in
    let opened : UtilChunks = open_chunk n c in
    let filled : UtilChunks = record opened { reading = fill payload opened.reading } in
    let last =
      read_chunks cap j k (drop n (b ∷ rest)) tail filled pos
        (omega (arith, length-drop n (b ∷ rest))) (omega (arith, length-chunk n payload more tail))
        (omega (arith)) (omega arith, full) in
    (
      last.0,
      last.1,
      append_size (suc k) n _ c idle
          ∙ ap (λ l. append_loop (suc k) l opened) (append_assoc payload more tail)
          ∙ append_payload k payload (more ++ tail) opened (omega arith) (omega arith)
          ∙ last.2,
      last.3,
      last.4,
      last.5
          ∙ append_assoc (join c.reading) payload (drop n (b ∷ rest))
          ∙ ap (λ l. join c.reading ++ l) (take-append-drop n (b ∷ rest)),
      last.6,
    )

append_nothing : (k : ℕ) (c : UtilChunks) → append_loop k [] c ≡ c
unfolding append_loop
append_nothing zero c = refl
append_nothing (suc k) c = refl

append_end :
    (k : ℕ) (c : UtilChunks)
    → 1 ≤ k
    → quota c.reading ≡ 0
    → (append_loop k (0 ∷ []) c).reading ≡ record { size = 0; payload = [] } ∷ c.reading
unfolding open_chunk
append_end zero c le idle = elim le [ ]
append_end (suc k) c le idle =
    ap (λ (d : UtilChunks). d.reading)
      (append_size k 0 [] c idle ∙ append_nothing k (open_chunk 0 c))

module _ (js0n : List ℕ → Bool) where
  receive_none : (c : UtilChunks) → All HasData c.reading → (receive js0n c).0 ≡ none
  unfolding receive receive_loop receive_split
  receive_none c full =
      ap (λ o. (receive_split js0n (λ d. receive_loop js0n (length c.reading) d) o c).0)
        (split_none c.reading full)

  receive_one :
      (c : UtilChunks) (cs : List Chunk)
      → c.reading ≡ record { size = 0; payload = [] } ∷ cs
      → All HasData cs
      → 0 < length (join cs)
      → ((receive js0n c).0 ≡ lob_direct js0n (join cs)) × ((receive js0n c).1.reading ≡ [])
  unfolding receive receive_loop receive_split split_flush split_at join
  receive_one c [] e full pos = elim pos [ ]
  receive_one c (h ∷ cs) e full pos =
      let found : split_flush c.reading ≡ some ([], h ∷ cs) =
        ap split_flush e
        ∙ ap (split_at (record { size = 0; payload = [] }) (h ∷ cs)) (split_none (h ∷ cs) full) in
      let again = λ (d : UtilChunks). receive_loop js0n (length c.reading) d in
      (
        ap (λ o. (receive_split js0n again o c).0) found,
        ap (λ o. (receive_split js0n again o c).1.reading) found,
      )

  -- The chunks of a packet, read from the start, with the empty chunk behind them.
  pub read_packet :
      (cap : ℕ) (p : List ℕ) (d : UtilChunks)
      → 0 < cap
      → 0 < length p
      → d.reading ≡ []
      → ((receive js0n (read (chunks_of cap (length p) p ++ 0 ∷ []) d)).0 ≡ lob_direct js0n p)
        × ((receive js0n (read (chunks_of cap (length p) p ++ 0 ∷ []) d)).1.reading ≡ [])
  unfolding read quota join
  read_packet cap p d pos some_bytes empty =
      let bytes : List ℕ = chunks_of cap (length p) p ++ 0 ∷ [] in
      let got =
        read_chunks cap (length p) (length bytes) p (0 ∷ []) d pos (omega arith) (omega arith)
          (ap quota empty) (subst (All HasData) (sym empty) tt) in
      let joined = got.5 ∙ ap (λ cs. join cs ++ p) empty in
      let last = ap (λ (c : UtilChunks). c.reading) got.2 ∙ append_end got.0 got.1 got.3 got.4 in
      let packet =
        receive_one (append_loop (length bytes) bytes d) got.1.reading last got.6
          (omega (arith, ap length joined)) in
      (packet.0 ∙ ap (lob_direct js0n) joined, packet.1)

  -- The same without the empty chunk.
  pub read_unended :
      (cap : ℕ) (p : List ℕ) (d : UtilChunks)
      → 0 < cap
      → d.reading ≡ []
      → (receive js0n (read (chunks_of cap (length p) p ++ []) d)).0 ≡ none
  unfolding read quota join
  read_unended cap p d pos empty =
      let bytes : List ℕ = chunks_of cap (length p) p ++ [] in
      let got =
        read_chunks cap (length p) (length bytes) p [] d pos (omega arith) (omega arith)
          (ap quota empty) (subst (All HasData) (sym empty) tt) in
      let last = got.2 ∙ append_nothing got.0 got.1 in
      receive_none (append_loop (length bytes) bytes d)
        (subst (λ (c : UtilChunks). All HasData c.reading) (sym last) got.6)
