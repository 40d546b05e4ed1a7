-- ===== src/UtilChunks/Transfer.antt =====
-- src/util/chunks.c: a packet written in blocks by one side and read by the other.
use telehash_c.Prelude.{
  ℕ, ◌<◌, ◌≡◌, ap, ◌∙◌, Bool, true, false, none, List, [], ◌∷◌, ◌++◌, length, if◌then◌else◌,
}
use telehash_c.UtilFrames.{lob_direct}
use telehash_c.UtilChunks.{UtilChunks, read, receive, transmit}
use telehash_c.UtilChunks.Chunking.{chunks_of}
use telehash_c.UtilChunks.Writing.{between, after, rounds, lone_byte}
use telehash_c.UtilChunks.Sending.{transmit_packet}
use telehash_c.UtilChunks.Reading.{read_packet, read_unended}

module _ (js0n : List ℕ → Bool) (c d : UtilChunks) (p : List ℕ) (ps : List (List ℕ)) (m : ℕ)
    (a : Bool) (positive : 0 < c.cap) (blocks : c.blocking ≡ true) (empty : d.reading ≡ []) where
  -- A writer with a cap of at least one byte that blocks after a packet, at the start of a packet
  -- that is not empty and whose last chunk has not just one byte, and a reader with nothing read: when
  -- whole blocks are written, in two rounds a byte and one more, the reader gets what lob_direct
  -- makes of the packet and has nothing left, and the writer goes on with the packets behind it.
  pub transmit-received :
      0 < length p
      → lone_byte c.cap (length p) ≡ false
      → ((receive js0n (read (transmit (rounds (length p) m) (between c p ps 0 a)).0 d)).0
          ≡ lob_direct js0n p)
        × ((receive js0n (read (transmit (rounds (length p) m) (between c p ps 0 a)).0 d)).1.reading
            ≡ [])
        × ((transmit (rounds (length p) m) (between c p ps 0 a)).1.writing ≡ ps)
  unfolding after
  transmit-received some_bytes long =
      let sent = transmit_packet c p ps positive blocks m a in
      let whole = ap (λ b. chunks_of c.cap (length p) p ++ (if b then [] else 0 ∷ [])) long in
      let bytes = ap (λ (r : List ℕ × UtilChunks). r.0) sent ∙ whole in
      let got = read_packet js0n c.cap p d positive some_bytes empty in
      (
        ap (λ b. (receive js0n (read b d)).0) bytes ∙ got.0,
        ap (λ b. (receive js0n (read b d)).1.reading) bytes ∙ got.1,
        ap (λ (r : List ℕ × UtilChunks). r.1.writing) sent,
      )

  -- A writer with a cap of at least one byte that blocks after a packet, at the start of a packet
  -- whose last chunk has one byte, and a reader with nothing read: when whole blocks are written,
  -- in two rounds a byte and one more, the writer goes on with the packets behind it, and the
  -- reader gets nothing.
  pub transmit_lost :
      lone_byte c.cap (length p) ≡ true
      → ((receive js0n (read (transmit (rounds (length p) m) (between c p ps 0 a)).0 d)).0 ≡ none)
        × ((transmit (rounds (length p) m) (between c p ps 0 a)).1.writing ≡ ps)
  unfolding after
  transmit_lost alone =
      let sent = transmit_packet c p ps positive blocks m a in
      let whole = ap (λ b. chunks_of c.cap (length p) p ++ (if b then [] else 0 ∷ [])) alone in
      let bytes = ap (λ (r : List ℕ × UtilChunks). r.0) sent ∙ whole in
      (
        ap (λ b. (receive js0n (read b d)).0) bytes ∙ read_unended js0n c.cap p d positive empty,
        ap (λ (r : List ℕ × UtilChunks). r.1.writing) sent,
      )
