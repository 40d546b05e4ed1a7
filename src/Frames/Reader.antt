-- ===== src/Frames/Reader.antt =====
-- js/core.js, class Frames: the loop that cuts the buffered stream into frames.
use native.Mathlib.Nat.{mod-eq_of_lt, mod-eq-sub-mod, mod-lt}
use telehash_c.Prelude.{
  ℕ, zero, suc, ◌-◌, ◌%◌, ◌≤◌, ◌<◌, ◌≡◌, refl, sym, ◌∙◌, ap, inl, inr, List, ◌++◌, arith, length,
  leb, leb→le, leb-false→lt, le→leb, lt→leb-false, length-append, length-drop, take-append,
  drop-append, Bool-cases,
}
use telehash_c.Native.{FramesApi}
use telehash_c.Frames.{Frames, read_frame, read_loop, read_all, buffer}

module _ {F M P : Type 0} (fa : FramesApi F P) (frame_size : ℕ) where
  -- The loop's two branches, with the test as an order.
  read_loop_more :
      (k : ℕ) (t : Frames F M)
      → frame_size ≤ length t.readbuf
      → read_loop fa frame_size (suc k) t ≡ read_loop fa frame_size k (read_frame fa frame_size t)
  unfolding read_loop
  read_loop_more k t h = rw (le→leb _ _ h)

  read_loop_end :
      (k : ℕ) (t : Frames F M)
      → length t.readbuf < frame_size
      → read_loop fa frame_size (suc k) t ≡ t
  unfolding read_loop
  read_loop_end k t h = rw (lt→leb-false _ _ h)

  length-read_frame :
      (t : Frames F M) → length (read_frame fa frame_size t).readbuf ≡ length t.readbuf - frame_size
  unfolding read_frame
  length-read_frame t = length-drop frame_size t.readbuf

  read_frame-buffer :
      (bytes : List ℕ) (t : Frames F M)
      → frame_size ≤ length t.readbuf
      → read_frame fa frame_size (buffer bytes t) ≡ buffer bytes (read_frame fa frame_size t)
  unfolding read_frame buffer
  read_frame-buffer bytes t h =
      rw (take-append frame_size t.readbuf bytes h, drop-append frame_size t.readbuf bytes h)

  module _ (positive : 0 < frame_size) where
    read_loop_fuel :
        (m n : ℕ) (t : Frames F M)
        → length t.readbuf < m
        → length t.readbuf < n
        → read_loop fa frame_size m t ≡ read_loop fa frame_size n t
    read_loop_fuel zero n t hm hn = elim hm [ ]
    read_loop_fuel (suc m) zero t hm hn = elim hn [ ]
    read_loop_fuel (suc m) (suc n) t hm hn = elim (Bool-cases (leb frame_size (length t.readbuf))) [
      | inl more ↦
          let le = leb→le _ _ more in
          rw (read_loop_more m t le, read_loop_more n t le)
            (read_loop_fuel m n (read_frame fa frame_size t) (omega (arith, length-read_frame t))
              (omega (arith, length-read_frame t)))
      | inr end ↦ let lt = leb-false→lt _ _ end in rw (read_loop_end m t lt, read_loop_end n t lt)
    ]

    first_step :
        (bytes : List ℕ) (t : Frames F M)
        → frame_size ≤ length t.readbuf
        → read_all fa frame_size (buffer bytes t)
          ≡ read_all fa frame_size (buffer bytes (read_frame fa frame_size t))
    unfolding read_all buffer
    first_step bytes t h =
        read_loop_more _ (buffer bytes t) (omega (arith, length-append t.readbuf bytes))
        ∙ ap (read_loop fa frame_size (length (t.readbuf ++ bytes))) (read_frame-buffer bytes t h)
        ∙ read_loop_fuel _ _ (buffer bytes (read_frame fa frame_size t))
            (omega (
              arith,
              length-read_frame t,
              length-append t.readbuf bytes,
              length-append (read_frame fa frame_size t).readbuf bytes,
            ))
            (omega arith)

    -- Reading what is buffered before more bytes come changes nothing.
    read_loop-buffer :
        (k : ℕ) (bytes : List ℕ) (t : Frames F M)
        → read_all fa frame_size (buffer bytes (read_loop fa frame_size k t))
          ≡ read_all fa frame_size (buffer bytes t)
    unfolding read_all
    read_loop-buffer zero bytes t = unfold read_loop in refl
    read_loop-buffer (suc k) bytes t = elim (Bool-cases (leb frame_size (length t.readbuf))) [
      | inl more ↦
          let le = leb→le _ _ more in
          rw (read_loop_more k t le)
            (read_loop-buffer k bytes (read_frame fa frame_size t) ∙ sym (first_step bytes t le))
      | inr end ↦ rw (read_loop_end k t (leb-false→lt _ _ end))
    ]

    length-read_loop :
        (k : ℕ) (t : Frames F M)
        → length t.readbuf < k
        → length (read_loop fa frame_size k t).readbuf ≡ length t.readbuf % frame_size
    length-read_loop zero t h = elim h [ ]
    length-read_loop (suc k) t h = elim (Bool-cases (leb frame_size (length t.readbuf))) [
      | inl more ↦
          let le = leb→le _ _ more in
          rw (read_loop_more k t le) (
            length-read_loop k (read_frame fa frame_size t) (omega (arith, length-read_frame t))
            ∙ ap (λ n. n % frame_size) (length-read_frame t)
            ∙ sym (mod-eq-sub-mod le))
      | inr end ↦ let lt = leb-false→lt _ _ end in rw (read_loop_end k t lt) (sym (mod-eq_of_lt lt))
    ]

    -- With frames of at least one byte the loop ends, and leaves less than a frame in the buffer:
    -- the buffered bytes modulo the frame's size.
    pub read_all-remainder :
        (t : Frames F M)
        → (length (read_all fa frame_size t).readbuf ≡ length t.readbuf % frame_size)
          × (length (read_all fa frame_size t).readbuf < frame_size)
    unfolding read_all
    read_all-remainder t =
        let rest = length-read_loop (suc (length t.readbuf)) t (omega arith) in
        (rest, rw rest (mod-lt (length t.readbuf) positive))
