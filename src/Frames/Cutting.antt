-- ===== src/Frames/Cutting.antt =====
-- js/core.js, class Frames: the frames that reach `util_frames_inbox`, over runs of all events.
use telehash_c.Prelude.{
  ℕ, zero, suc, ◌≤◌, ◌<◌, ◌≡◌, refl, sym, ap, subst, ◌∙◌, Bool, true, false, Option, none, some,
  List, [], ◌∷◌, ◌++◌, append-nil, append_assoc, arith, length, take, drop, leb, leb→le,
  leb-false→lt, inl, inr, Bool-cases, Option-cases, All-append, take-append-drop, length-take,
  length-drop, flatten, flatten-snoc,
}
use telehash_c.Native.{FramesApi, MeshApi}
use telehash_c.Frames.{
  Frames, Event, incoming, write_done, timeout, close, deliver, accepted, buffer, write_frame,
  frames_flush, pipe, pipe_all, establish, attach, found, on_packet, receive_loop, read_frame,
  read_loop, read_all, receive_all, on_data, on_written, on_callback, on_timeout, on_close, step,
  run, start,
}
use telehash_c.Frames.Recording.{recorded, bytes_of, Cut, view, no_bytes, Cut-once}

module _ {F M P : Type 0} (fa : FramesApi F P) (frame_size : ℕ) where
  view-frames_flush :
      (t : Frames (F × List (List ℕ)) M) → view (frames_flush (recorded fa) frame_size t) ≡ view t
  unfolding frames_flush write_frame
  view-frames_flush t = ground arith

  view-pipe :
      (p : Option P) (t : Frames (F × List (List ℕ)) M)
      → view (pipe (recorded fa) frame_size p t) ≡ view t
  unfolding pipe
  view-pipe none t = refl
  view-pipe (some p) t = view-frames_flush _

  view-pipe_all :
      (ps : List P) (t : Frames (F × List (List ℕ)) M)
      → view (pipe_all (recorded fa) frame_size ps t) ≡ view t
  unfolding pipe_all
  view-pipe_all [] t = refl
  view-pipe_all (p ∷ ps) t = view-pipe_all ps _ ∙ view-pipe (some p) t

  view-on_callback :
      (n : ℕ) (err : Bool) (t : Frames (F × List (List ℕ)) M) → view (on_callback n err t) ≡ view t
  unfolding on_callback on_written
  view-on_callback zero err t = refl
  view-on_callback (suc n) true t = refl
  view-on_callback (suc n) false t = refl

  view-on_timeout :
      (n : ℕ) (t : Frames (F × List (List ℕ)) M)
      → view (on_timeout (recorded fa) frame_size n t) ≡ view t
  unfolding on_timeout
  view-on_timeout zero t = refl
  view-on_timeout (suc n) t = view-frames_flush _

  view-on_close :
      (link : Option ℕ) (t : Frames (F × List (List ℕ)) M) → view (on_close link t) ≡ view t
  unfolding on_close
  view-on_close none t = refl
  view-on_close (some link) t = refl

  view-read_frame :
      (t : Frames (F × List (List ℕ)) M)
      → view (read_frame (recorded fa) frame_size t)
        ≡ (t.frames.1 ++ take frame_size t.readbuf ∷ [], drop frame_size t.readbuf)
  unfolding read_frame
  view-read_frame t = ground arith

module _ {F M P : Type 0} (fa : FramesApi F P) (frame_size : ℕ) (positive : 0 < frame_size) where
  -- A frame is taken from the front.
  read_frame-Cut :
      (n : ℕ) (bytes : List ℕ) (t : Frames (F × List (List ℕ)) M)
      → frame_size ≤ length t.readbuf
      → Cut frame_size (suc n) bytes (view t)
      → Cut frame_size n bytes (view (read_frame (recorded fa) frame_size t))
  read_frame-Cut n bytes t le (all, is, lt) =
      let frame = take frame_size t.readbuf in
      let rest = drop frame_size t.readbuf in
      subst (Cut frame_size n bytes) (sym (view-read_frame fa frame_size t)) (
        All-append (λ f. length f ≡ frame_size) t.frames.1 (frame ∷ []) all
            (omega (arith, length-take frame_size t.readbuf), tt),
        ap (λ l. l ++ rest) (flatten-snoc t.frames.1 frame)
            ∙ append_assoc (flatten t.frames.1) frame rest
            ∙ ap (λ l. flatten t.frames.1 ++ l) (take-append-drop frame_size t.readbuf)
            ∙ is,
        omega (arith, length-drop frame_size t.readbuf),
      )

  read_loop-Cut :
      (k : ℕ) (bytes : List ℕ) (t : Frames (F × List (List ℕ)) M)
      → Cut frame_size k bytes (view t)
      → Cut frame_size frame_size bytes (view (read_loop (recorded fa) frame_size k t))
  unfolding read_loop
  read_loop-Cut zero bytes t cut = elim cut.2 [ ]
  read_loop-Cut (suc k) bytes t cut = elim (Bool-cases (leb frame_size (length t.readbuf))) [
    | inl more ↦
        let enough = leb→le frame_size (length t.readbuf) more in
        rw (more, read_loop)
          (read_loop-Cut k bytes (read_frame (recorded fa) frame_size t)
            (read_frame-Cut k bytes t enough cut))
    | inr end ↦ rw (end, read_loop) (cut.0, cut.1, leb-false→lt frame_size (length t.readbuf) end)
  ]

  read_all-Cut :
      (bytes more : List ℕ) (t : Frames (F × List (List ℕ)) M)
      → Cut frame_size frame_size bytes (view t)
      → Cut frame_size frame_size
          (bytes ++ more)
          (view (read_all (recorded fa) frame_size (buffer more t)))
  unfolding read_all buffer
  read_all-Cut bytes more t (all, is, lt) =
      let u = buffer more t in
      read_loop-Cut (suc (length u.readbuf)) (bytes ++ more) u (
        all,
        sym (append_assoc (flatten t.frames.1) t.readbuf more) ∙ ap (λ l. l ++ more) is,
        omega arith,
      )

module _ {F M P : Type 0} (fa : FramesApi F P) (ma : MeshApi M P) (frame_size : ℕ) where
  view-attach :
      (link old : Option ℕ) (t : Frames (F × List (List ℕ)) M)
      → view (attach (recorded fa) ma frame_size link old t) ≡ view t
  unfolding attach establish
  view-attach none old t = refl
  view-attach (some link) none t = view-pipe_all fa frame_size _ _
  view-attach (some link) (some old) t = refl

  view-found :
      (r : M × Option ℕ × List P) (t : Frames (F × List (List ℕ)) M)
      → view (found (recorded fa) ma frame_size r t) ≡ view t
  unfolding found
  view-found (m, link, ps) t = view-attach link _ _ ∙ view-pipe_all fa frame_size ps _

  view-receive_loop :
      (k : ℕ) (t : Frames (F × List (List ℕ)) M)
      → view (receive_loop (recorded fa) ma frame_size k t) ≡ view t
  unfolding receive_loop on_packet
  view-receive_loop zero t = refl
  view-receive_loop (suc k) t = elim (Option-cases (fa.receive t.frames.0).0) [
    | inl e ↦ rw (e, receive_loop) refl
    | inr (p, e) ↦ rw (e, receive_loop) (view-receive_loop k _ ∙ view-found _ _)
  ]

  module _ (positive : 0 < frame_size) where
    step-Cut :
        (e : Event P) (bytes : List ℕ) (t : Frames (F × List (List ℕ)) M)
        → Cut frame_size frame_size bytes (view t)
        → Cut frame_size frame_size
            (bytes ++ bytes_of (e ∷ []))
            (view (step (recorded fa) ma frame_size e t))
    unfolding step on_data receive_all
    step-Cut (incoming more) bytes t cut =
        subst
          (λ b.
            Cut frame_size frame_size (bytes ++ b)
              (view (on_data (recorded fa) ma frame_size more t)))
          (sym (append-nil more))
          (subst (Cut frame_size frame_size (bytes ++ more))
            (sym (view-receive_loop _ _ ∙ view-frames_flush fa frame_size _))
            (read_all-Cut fa frame_size positive bytes more t cut))
    step-Cut (write_done err) bytes t cut =
        no_bytes frame_size frame_size bytes _ _ (view-on_callback fa frame_size t.in_flight err t)
          cut
    step-Cut timeout bytes t cut =
        no_bytes frame_size frame_size bytes _ _ (view-on_timeout fa frame_size t.timers t) cut
    step-Cut close bytes t cut =
        no_bytes frame_size frame_size bytes _ _ (view-on_close fa frame_size t.linked t) cut
    step-Cut (deliver packet) bytes t cut =
        no_bytes frame_size frame_size bytes _ _ (view-pipe fa frame_size packet t) cut
    step-Cut (accepted packet) bytes t cut =
        no_bytes frame_size frame_size bytes _ _ (view-found (ma.mesh_add t.mesh packet) t) cut

    bytes_of-cons :
        (e : Event P) (es : List (Event P)) → bytes_of (e ∷ []) ++ bytes_of es ≡ bytes_of (e ∷ es)
    bytes_of-cons (incoming more) es = rw (append-nil more)
    bytes_of-cons (write_done err) es = refl
    bytes_of-cons timeout es = refl
    bytes_of-cons close es = refl
    bytes_of-cons (deliver packet) es = refl
    bytes_of-cons (accepted packet) es = refl

    run-Cut :
        (es : List (Event P)) (bytes : List ℕ) (t : Frames (F × List (List ℕ)) M)
        → Cut frame_size frame_size bytes (view t)
        → Cut frame_size frame_size
            (bytes ++ bytes_of es)
            (view (run (recorded fa) ma frame_size es t))
    unfolding run
    run-Cut [] bytes t cut = no_bytes frame_size frame_size bytes _ _ refl cut
    run-Cut (e ∷ es) bytes t cut =
        let next = step (recorded fa) ma frame_size e t in
        subst (λ b. Cut frame_size frame_size b (view (run (recorded fa) ma frame_size es next)))
          (append_assoc bytes (bytes_of (e ∷ [])) (bytes_of es)
            ∙ ap (λ b. bytes ++ b) (bytes_of-cons e es))
          (run-Cut es (bytes ++ bytes_of (e ∷ [])) next (step-Cut e bytes t cut))

    -- With frames of at least one byte, over any run of all events, the frames given to
    -- util_frames_inbox have the frame's size, and with the bytes left over, fewer than a frame, they
    -- are the bytes of the 'data' events, in their order.
    pub run-start-Cut :
        (f : F) (m : M) (es : List (Event P))
        → Cut frame_size frame_size (bytes_of es) (
            view (run (recorded fa) ma frame_size es (start (recorded fa) ma frame_size (f, []) m)))
    unfolding start flatten
    run-start-Cut f m es = run-Cut es [] (start (recorded fa) ma frame_size (f, []) m) (
        subst (Cut frame_size frame_size []) (sym (view-pipe fa frame_size _ _))
          (tt, refl, positive))

    -- With frames of at least one byte, two runs in which the 'data' events bring the same bytes give the
    -- same frames to util_frames_inbox and keep the same bytes, however the stream splits its bytes into
    -- 'data' events and whatever other events come in between.
    pub same_bytes :
        (f : F) (m : M) (es es' : List (Event P))
        → bytes_of es ≡ bytes_of es'
        → let t =
            run (recorded fa) ma frame_size es (start (recorded fa) ma frame_size (f, []) m) in
          let t' =
            run (recorded fa) ma frame_size es' (start (recorded fa) ma frame_size (f, []) m) in
          (t.frames.1 ≡ t'.frames.1) × (t.readbuf ≡ t'.readbuf)
    same_bytes f m es es' e =
        Cut-once frame_size (bytes_of es) (bytes_of es') _ _ _ _ e (run-start-Cut f m es)
          (run-start-Cut f m es')
