-- ===== src/Frames/Flow.antt =====
-- js/core.js, class Frames: at most one write at a time and one pipe, over any run of events.
use telehash_c.Prelude.{
  ℕ, zero, suc, ◌≤◌, ◌≡◌, refl, Bool, true, false, Option, none, some, List, [], ◌∷◌, arith, All,
}
use telehash_c.Native.{FramesApi, MeshApi}
use telehash_c.Frames.{
  Frames, Event, write_done, buffer, write_frame, frames_flush, pipe, read_all, on_written,
  on_callback, on_timeout, step, run, start,
}
use telehash_c.Frames.Runs.{WhileOpen, Kept, read_loop_fields, run-Kept}

abbrev pub listed : Option ℕ → List ℕ
listed none = []
listed (some link) = link ∷ []

-- One write at most is under way and only behind `flushing`; the link that `cleanup` compares with is
-- the linked one, and it alone was given the pipe.
pub record Flow {F M : Type 0} (t : Frames F M) : Type 0 where
  pub one_write : t.in_flight ≤ 1
  pub idle : t.flushing ≡ false → t.in_flight ≡ 0
  pub same_link : t.c_link ≡ t.linked
  pub one_pipe : t.pipes ≡ listed t.linked

-- A failed write: `flushing` is set, and no callback is left to reset it.
pub record Stalled {F M : Type 0} (sofar : List (List ℕ)) (t : Frames F M) : Type 0 where
  pub stuck : t.flushing ≡ true
  pub silent : t.in_flight ≡ 0
  pub unchanged : t.written ≡ sofar

on_callback-Flow :
    {F M : Type 0} (n : ℕ) (err : Bool) (t : Frames F M)
    → n ≡ t.in_flight
    → Flow t
    → Flow (on_callback n err t)
unfolding on_callback on_written
on_callback-Flow zero err t e v = v
on_callback-Flow (suc n) true t e v = ground arith
on_callback-Flow (suc n) false t e v = ground arith

on_callback-Stalled :
    {F M : Type 0} {sofar : List (List ℕ)} (n : ℕ) (err : Bool) (t : Frames F M)
    → n ≡ t.in_flight
    → Stalled sofar t
    → Stalled sofar (on_callback n err t)
unfolding on_callback
on_callback-Stalled zero err t e v = v
on_callback-Stalled (suc n) err t e v = absurd (omega arith)

module _ {F M P : Type 0} (fa : FramesApi F P) (frame_size : ℕ) where
  frames_flush-Flow : (t : Frames F M) → Flow t → Flow (frames_flush fa frame_size t)
  unfolding frames_flush write_frame
  frames_flush-Flow t v = ground arith

  on_timeout-Flow : (n : ℕ) (t : Frames F M) → Flow t → Flow (on_timeout fa frame_size n t)
  unfolding on_timeout
  on_timeout-Flow zero t v = v
  on_timeout-Flow (suc n) t v = frames_flush-Flow _ (ground arith)

  read_all-Flow :
      (bytes : List ℕ) (t : Frames F M) → Flow t → Flow (read_all fa frame_size (buffer bytes t))
  unfolding read_all buffer
  read_all-Flow bytes t v = rw (read_loop_fields fa frame_size _ _) (ground arith)

  Flow-Kept : Kept {M = M} fa frame_size (λ err. Unit) Flow
  unfolding pipe
  Flow-Kept = record {
    flushed = frames_flush-Flow;
    sent = λ p t v. frames_flush-Flow _ (ground arith);
    meshed = λ m t v. ground arith;
    linked = λ link m t e v. ground arith;
    took = λ t v. ground arith;
    cut = λ bytes t v. frames_flush-Flow _ (read_all-Flow bytes t v);
    called = λ err t o v. on_callback-Flow t.in_flight err t refl v;
    timed = λ t v. on_timeout-Flow t.timers t v;
  }

  frames_flush-Stalled :
      (sofar : List (List ℕ)) (t : Frames F M)
      → Stalled sofar t
      → Stalled sofar (frames_flush fa frame_size t)
  unfolding frames_flush
  frames_flush-Stalled sofar t v = ground arith

  on_timeout-Stalled :
      (sofar : List (List ℕ)) (n : ℕ) (t : Frames F M)
      → Stalled sofar t
      → Stalled sofar (on_timeout fa frame_size n t)
  unfolding on_timeout
  on_timeout-Stalled sofar zero t v = v
  on_timeout-Stalled sofar (suc n) t v = frames_flush-Stalled sofar _ (ground arith)

  read_all-Stalled :
      (sofar : List (List ℕ)) (bytes : List ℕ) (t : Frames F M)
      → Stalled sofar t
      → Stalled sofar (read_all fa frame_size (buffer bytes t))
  unfolding read_all buffer
  read_all-Stalled sofar bytes t v = rw (read_loop_fields fa frame_size _ _) (ground arith)

  Stalled-Kept : (sofar : List (List ℕ)) → Kept {M = M} fa frame_size (λ err. Unit) (Stalled sofar)
  unfolding pipe
  Stalled-Kept sofar = record {
    flushed = frames_flush-Stalled sofar;
    sent = λ p t v. frames_flush-Stalled sofar _ (ground arith);
    meshed = λ m t v. ground arith;
    linked = λ link m t e v. ground arith;
    took = λ t v. ground arith;
    cut = λ bytes t v. frames_flush-Stalled sofar _ (read_all-Stalled sofar bytes t v);
    called = λ err t o v. on_callback-Stalled t.in_flight err t refl v;
    timed = λ t v. on_timeout-Stalled sofar t.timers t v;
  }

module _ {F M P : Type 0} (fa : FramesApi F P) (ma : MeshApi M P) (frame_size : ℕ) where
  start-Flow : (f : F) (m : M) → Flow (start fa ma frame_size f m)
  unfolding start pipe
  start-Flow f m = frames_flush-Flow fa frame_size _ (ground arith)

  -- From the constructor on, whatever the stream, the timers, the mesh and the application do while
  -- the stream is open: at most one write is under way, none unless `flushing` is set, and the
  -- pipe was given to the linked link only, once.
  pub run-start-Flow :
      (f : F) (m : M) (es : List (Event P))
      → All WhileOpen es
      → Flow (run fa ma frame_size es (start fa ma frame_size f m))
  run-start-Flow f m es o =
      run-Kept fa ma frame_size Flow (Flow-Kept fa frame_size) es _ o (start-Flow f m)

  write_error-Stalled :
      (t : Frames F M)
      → Flow t
      → t.in_flight ≡ 1
      → Stalled t.written (step fa ma frame_size (write_done true) t)
  unfolding step on_callback on_written
  write_error-Stalled t v e = ground arith

  -- After a write that fails, nothing is written again while the stream is open, whatever is
  -- sent and however often the timers fire: the callback returns with `flushing` still set.
  pub write_error_stalls :
      (t : Frames F M) (es : List (Event P))
      → Flow t
      → t.in_flight ≡ 1
      → All WhileOpen es
      → (run fa ma frame_size es (step fa ma frame_size (write_done true) t)).written ≡ t.written
  write_error_stalls t es v e o =
      (run-Kept fa ma frame_size (Stalled t.written) (Stalled-Kept fa frame_size t.written) es _ o
        (write_error-Stalled t v e)).unchanged
