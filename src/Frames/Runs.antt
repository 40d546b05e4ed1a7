-- ===== src/Frames/Runs.antt =====
-- js/core.js, class Frames: induction over the events of an open stream. A property that the few
-- primitive changes of the state keep holds after any run.
use telehash_c.Prelude.{
  ℕ, zero, suc, ◌≡◌, refl, Bool, false, inl, inr, Option, none, some, List, [], ◌∷◌, ◌++◌, arith,
  All, Option-cases,
}
use telehash_c.Native.{FramesApi, MeshApi}
use telehash_c.Frames.{
  Frames, Event, incoming, write_done, timeout, close, deliver, accepted, buffer, frames_flush,
  pipe, pipe_all, establish, attach, found, on_packet, receive_loop, read_frame, read_loop,
  read_all, receive_all, on_data, on_callback, on_timeout, step, run,
}

-- Every event but 'close', with a condition on how writes end.
abbrev pub Within : {P : Type 0} → (Bool → Type 0) → Event P → Type 0
Within ends close = ⊥
Within ends (incoming bytes) = Unit
Within ends (write_done err) = ends err
Within ends timeout = Unit
Within ends (deliver packet) = Unit
Within ends (accepted packet) = Unit

-- The stream is open.
abbrev pub WhileOpen : {P : Type 0} → Event P → Type 0
WhileOpen = Within (λ err. Unit)

-- The stream is open, and no write fails.
abbrev pub Healthy : {P : Type 0} → Event P → Type 0
Healthy = Within (λ err. err ≡ false)

-- What `establish` writes before it calls the C library's `link_pipe`.
abbrev pub joined : {F M : Type 0} → ℕ → M → Frames F M → Frames F M
joined link m t = record t {
  mesh = m;
  linked = some link;
  c_link = some link;
  pipes = t.pipes ++ link ∷ [];
}

pub record Kept {F M P : Type 0} (fa : FramesApi F P) (frame_size : ℕ) (ends : Bool → Type 0)
    (I : Frames F M → Type 0) : Type 0 where
  pub flushed : (t : Frames F M) → I t → I (frames_flush fa frame_size t)
  pub sent : (p : P) (t : Frames F M) → I t → I (pipe fa frame_size (some p) t)
  pub meshed : (m : M) (t : Frames F M) → I t → I (record t { mesh = m })
  pub linked : (link : ℕ) (m : M) (t : Frames F M) → t.linked ≡ none → I t → I (joined link m t)
  pub took : (t : Frames F M) → I t → I (record t { frames = (fa.receive t.frames).1 })
  pub cut :
      (bytes : List ℕ) (t : Frames F M)
      → I t
      → I (frames_flush fa frame_size (read_all fa frame_size (buffer bytes t)))
  pub called : (err : Bool) (t : Frames F M) → ends err → I t → I (on_callback t.in_flight err t)
  pub timed : (t : Frames F M) → I t → I (on_timeout fa frame_size t.timers t)

module _ {F M P : Type 0} (fa : FramesApi F P) (frame_size : ℕ) where
  -- The read loop writes two fields only.
  pub read_loop_fields :
      (k : ℕ) (t : Frames F M)
      → let u = read_loop fa frame_size k t in
        u ≡ record t { readbuf = u.readbuf; frames = u.frames }
  unfolding read_loop read_frame
  read_loop_fields zero t = refl
  read_loop_fields (suc k) t = ground (arith, read_loop_fields k (read_frame fa frame_size t))

module _ {F M P : Type 0} (fa : FramesApi F P) (ma : MeshApi M P) (frame_size : ℕ)
    {ends : Bool → Type 0} (I : Frames F M → Type 0) (kept : Kept fa frame_size ends I) where
  pipe_all-Kept : (ps : List P) (t : Frames F M) → I t → I (pipe_all fa frame_size ps t)
  unfolding pipe_all
  pipe_all-Kept [] t v = v
  pipe_all-Kept (p ∷ ps) t v = pipe_all-Kept ps _ (kept.sent p t v)

  attach-Kept :
      (link old : Option ℕ) (t : Frames F M)
      → t.linked ≡ old
      → I t
      → I (attach fa ma frame_size link old t)
  unfolding attach establish
  attach-Kept none old t e v = v
  attach-Kept (some link) none t e v = pipe_all-Kept _ _ (kept.linked link _ t e v)
  attach-Kept (some link) (some old) t e v = v

  found-Kept : (r : M × Option ℕ × List P) (t : Frames F M) → I t → I (found fa ma frame_size r t)
  unfolding found
  found-Kept (m, link, ps) t v = attach-Kept link _ _ refl (pipe_all-Kept ps _ (kept.meshed m t v))

  receive_loop-Kept : (k : ℕ) (t : Frames F M) → I t → I (receive_loop fa ma frame_size k t)
  unfolding receive_loop on_packet
  receive_loop-Kept zero t v = v
  receive_loop-Kept (suc k) t v = elim (Option-cases (fa.receive t.frames).0) [
    | inl e ↦ rw (e, receive_loop) (kept.took t v)
    | inr (p, e) ↦ rw (e, receive_loop) (receive_loop-Kept k _ (found-Kept _ _ (kept.took t v)))
  ]

  pub step-Kept :
      (e : Event P) (t : Frames F M) → Within ends e → I t → I (step fa ma frame_size e t)
  unfolding step on_data receive_all
  step-Kept (incoming bytes) t o v = receive_loop-Kept _ _ (kept.cut bytes t v)
  step-Kept (write_done err) t o v = kept.called err t o v
  step-Kept timeout t o v = kept.timed t v
  step-Kept close t o v = absurd o
  step-Kept (deliver none) t o v = unfold pipe in v
  step-Kept (deliver (some p)) t o v = kept.sent p t v
  step-Kept (accepted p) t o v = found-Kept _ t v

  pub run-Kept :
      (es : List (Event P)) (t : Frames F M)
      → All (Within ends) es
      → I t
      → I (run fa ma frame_size es t)
  unfolding run
  run-Kept [] t o v = v
  run-Kept (e ∷ es) t o v = run-Kept es _ o.1 (step-Kept e t o.0 v)
