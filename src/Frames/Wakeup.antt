-- ===== src/Frames/Wakeup.antt =====
-- js/core.js, class Frames: a frame that waits is not forgotten.
use telehash_c.Prelude.{
  ℕ, zero, suc, ◌<◌, ◌≡◌, refl, ◌⊎◌, inl, inr, true, false, List, [], ◌∷◌, ◌++◌, arith, All,
}
use telehash_c.Native.{FramesApi, FramesLaws, MeshApi}
use telehash_c.Frames.{
  Frames, Event, write_done, timeout, buffer, write_frame, frames_flush, pipe, read_all, on_written,
  on_callback, on_timeout, step, run, start,
}
use telehash_c.Frames.Runs.{Healthy, Kept, read_loop_fields, run-Kept}

module _ {F M P : Type 0} (fa : FramesApi F P) (laws : FramesLaws fa) (frame_size : ℕ) where
  -- A pending frame is behind a write that is under way, or a timer will look at it.
  pub record Awake (t : Frames F M) : Type 0 where
    pub clean : t.flushing ≡ true → t.in_flight ≡ 1
    pub idle : t.flushing ≡ false → t.in_flight ≡ 0
    pub soon : fa.pending t.frames ≡ true → (t.flushing ≡ true) ⊎ (0 < t.timers)

  abbrev Clean : Frames F M → Type 0
  Clean t = (t.flushing ≡ true → t.in_flight ≡ 1) × (t.flushing ≡ false → t.in_flight ≡ 0)

  frames_flush-Awake : (t : Frames F M) → Clean t → Awake (frames_flush fa frame_size t)
  unfolding frames_flush write_frame
  frames_flush-Awake t v = ground arith

  on_callback-Awake :
      (n : ℕ) (t : Frames F M) → n ≡ t.in_flight → Awake t → Awake (on_callback n false t)
  unfolding on_callback on_written
  on_callback-Awake zero t e v = v
  on_callback-Awake (suc n) t e v = ground arith

  on_timeout-Awake : (n : ℕ) (t : Frames F M) → Awake t → Awake (on_timeout fa frame_size n t)
  unfolding on_timeout
  on_timeout-Awake zero t v = v
  on_timeout-Awake (suc n) t v = frames_flush-Awake _ (v.clean, v.idle)

  read_all-Clean :
      (bytes : List ℕ) (t : Frames F M) → Clean t → Clean (read_all fa frame_size (buffer bytes t))
  unfolding read_all buffer
  read_all-Clean bytes t v = rw (read_loop_fields fa frame_size _ _) v

  Awake-Kept : Kept fa frame_size (λ err. err ≡ false) Awake
  unfolding pipe
  Awake-Kept = record {
    flushed = λ t v. frames_flush-Awake t (v.clean, v.idle);
    sent = λ p t v. frames_flush-Awake _ (v.clean, v.idle);
    meshed = λ m t v. ground arith;
    linked = λ link m t e v. ground arith;
    took = λ t v. ground (arith, laws.pending-receive t.frames);
    cut = λ bytes t v. frames_flush-Awake _ (read_all-Clean bytes t (v.clean, v.idle));
    called = λ err t o v. rw o (on_callback-Awake t.in_flight t refl v);
    timed = λ t v. on_timeout-Awake t.timers t v;
  }

module _ {F M P : Type 0} (fa : FramesApi F P) (laws : FramesLaws fa) (ma : MeshApi M P)
    (frame_size : ℕ) where
  start-Awake : (f : F) (m : M) → Awake fa laws frame_size (start fa ma frame_size f m)
  unfolding start pipe
  start-Awake f m = frames_flush-Awake fa laws frame_size _ (ground arith)

  run-Awake :
      (f : F) (m : M) (es : List (Event P))
      → All Healthy es
      → Awake fa laws frame_size (run fa ma frame_size es (start fa ma frame_size f m))
  run-Awake f m es o =
      run-Kept fa ma frame_size (Awake fa laws frame_size) (Awake-Kept fa laws frame_size) es _ o
        (start-Awake f m)

  -- While writes succeed, a frame that is pending has one write under way, or a timer is set: no
  -- frame is forgotten.
  pub pending_awake :
      (f : F) (m : M) (es : List (Event P))
      → All Healthy es
      → fa.pending (run fa ma frame_size es (start fa ma frame_size f m)).frames ≡ true
      → ((run fa ma frame_size es (start fa ma frame_size f m)).in_flight ≡ 1)
        ⊎ (0 < (run fa ma frame_size es (start fa ma frame_size f m)).timers)
  pending_awake f m es o h =
      let v = run-Awake f m es o in
      elim (v.soon h) [ inl flushing ↦ inl (v.clean flushing) | inr timer ↦ inr timer ]

  -- The write that is under way ends well, if there is one, and then a timer fires, if one is set.
  abbrev pub round : Frames F M → Frames F M
  round t = step fa ma frame_size timeout (step fa ma frame_size (write_done false) t)

  abbrev pub after : F → M → List (Event P) → Frames F M
  after f m es = run fa ma frame_size es (start fa ma frame_size f m)

  writes_next :
      (t : Frames F M)
      → Awake fa laws frame_size t
      → fa.pending t.frames ≡ true
      → (round t).written ≡ t.written ++ (fa.outbox t.frames frame_size).1 ∷ []
  unfolding step on_callback on_written on_timeout frames_flush write_frame
  writes_next t v h = ground (arith, v.clean, v.idle, v.soon)

  -- If a frame is pending after a run on an open stream whose writes succeed, the next write that ends
  -- and the next timer that fires write one more frame, the one that util_frames_outbox gives, given
  -- that received packets do not make frames pending.
  pub round_writes :
      (f : F) (m : M) (es : List (Event P))
      → All Healthy es
      → fa.pending (after f m es).frames ≡ true
      → (round (after f m es)).written
        ≡ (after f m es).written ++ (fa.outbox (after f m es).frames frame_size).1 ∷ []
  round_writes f m es o h = writes_next _ (run-Awake f m es o) h
