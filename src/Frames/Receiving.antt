-- ===== src/Frames/Receiving.antt =====
-- js/core.js, class Frames: the loop over received packets ends, with each packet given to the mesh.
use telehash_c.Prelude.{
  ℕ, zero, suc, ◌<◌, ◌≡◌, refl, sym, ap, ap₂, ◌∙◌, inl, inr, Option, none, some, List, [], ◌∷◌,
  ◌++◌, arith, length, append-nil, append_assoc, Option-cases,
}
use telehash_c.Native.{FramesApi, FramesLaws, MeshApi, of_option}
use telehash_c.Frames.{
  Frames, buffer, write_frame, frames_flush, pipe, pipe_all, establish, attach, found, on_packet,
  read_all, receive_loop, receive_all, on_data,
}
use telehash_c.Frames.Runs.{read_loop_fields}

-- A mesh beside the packets that `mesh_receive` was called with.
abbrev pub logged : {M P : Type 0} → MeshApi M P → MeshApi (M × List P) P
logged ma = record {
  mesh_receive = λ l p. let (m, link, ps) = ma.mesh_receive l.0 p in ((m, l.1 ++ p ∷ []), link, ps);
  mesh_add = λ l p. let (m, link, ps) = ma.mesh_add l.0 p in ((m, l.1), link, ps);
  mesh_link = λ l link. (ma.mesh_link l.0 link, l.1);
  link_pipe = λ l link. let (m, ps) = ma.link_pipe l.0 link in ((m, l.1), ps);
  mesh_json = λ l. ma.mesh_json l.0;
}

module _ {F M P : Type 0} (fa : FramesApi F P) (laws : FramesLaws fa) (ma : MeshApi M P)
    (frame_size : ℕ) where
  -- The packets that wait, and those that the mesh got, are the same in both states.
  abbrev Same : Frames F (M × List P) → Frames F (M × List P) → Type 0
  Same u t = (fa.waiting u.frames ≡ fa.waiting t.frames) × (u.mesh.1 ≡ t.mesh.1)

  frames_flush-Same : (t : Frames F (M × List P)) → Same (frames_flush fa frame_size t) t
  unfolding frames_flush write_frame
  frames_flush-Same t = ground (arith, laws.waiting-sent t.frames frame_size)

  pipe-Same : (p : P) (t : Frames F (M × List P)) → Same (pipe fa frame_size (some p) t) t
  unfolding pipe
  pipe-Same p t =
      let (a, b) = frames_flush-Same (record t { frames = fa.send t.frames p }) in
      (a ∙ laws.waiting-send t.frames p, b)

  pipe_all-Same : (ps : List P) (t : Frames F (M × List P)) → Same (pipe_all fa frame_size ps t) t
  unfolding pipe_all
  pipe_all-Same [] t = (refl, refl)
  pipe_all-Same (p ∷ ps) t =
      let (a, b) = pipe_all-Same ps (pipe fa frame_size (some p) t) in
      let (c, d) = pipe-Same p t in (a ∙ c, b ∙ d)

  attach-Same :
      (link old : Option ℕ) (t : Frames F (M × List P))
      → Same (attach fa (logged ma) frame_size link old t) t
  unfolding attach establish
  attach-Same none old t = (refl, refl)
  attach-Same (some link) none t = pipe_all-Same _ _
  attach-Same (some link) (some old) t = (refl, refl)

  on_packet_gives :
      (p : P) (t : Frames F (M × List P))
      → (fa.waiting (on_packet fa (logged ma) frame_size p t).frames ≡ fa.waiting t.frames)
        × ((on_packet fa (logged ma) frame_size p t).mesh.1 ≡ t.mesh.1 ++ p ∷ [])
  unfolding on_packet found
  on_packet_gives p t =
      let (m, link, ps) = ma.mesh_receive t.mesh.0 p in
      let u = record t { mesh = (m, t.mesh.1 ++ p ∷ []) } in
      let (a, b) = pipe_all-Same ps u in
      let v = pipe_all fa frame_size ps u in
      let (c, d) = attach-Same link v.linked v in (c ∙ a, d ∙ b)

  receive_loop_gives :
      (k : ℕ) (t : Frames F (M × List P))
      → length (fa.waiting t.frames) < k
      → (fa.waiting (receive_loop fa (logged ma) frame_size k t).frames ≡ [])
        × ((receive_loop fa (logged ma) frame_size k t).mesh.1 ≡ t.mesh.1 ++ fa.waiting t.frames)
  unfolding receive_loop
  receive_loop_gives zero t h = elim h [ ]
  receive_loop_gives (suc k) t h = elim (Option-cases (fa.receive t.frames).0) [
    | inl e ↦
        let empty = laws.receive_none t.frames e in
        rw (e, receive_loop)
          (
            ap (λ o. of_option o ++ fa.waiting (fa.receive t.frames).1) (sym e)
                ∙ laws.receive-waiting t.frames
                ∙ empty,
            sym (ap (λ ps. t.mesh.1 ++ ps) empty ∙ append-nil t.mesh.1),
          )
    | inr (p, e) ↦
        let f = (fa.receive t.frames).1 in
        let u = record t { frames = f } in
        let all = ap (λ o. of_option o ++ fa.waiting f) (sym e) ∙ laws.receive-waiting t.frames in
        let (same, got) = on_packet_gives p u in
        let (none_left, rest) =
          receive_loop_gives k (on_packet fa (logged ma) frame_size p u)
            (omega (arith, ap length same, ap length all)) in
        rw (e, receive_loop)
          (
            none_left,
            rest
                ∙ ap (λ ps. ps ++ fa.waiting (on_packet fa (logged ma) frame_size p u).frames) got
                ∙ ap (λ ps. (t.mesh.1 ++ p ∷ []) ++ ps) same
                ∙ append_assoc t.mesh.1 (p ∷ []) (fa.waiting f)
                ∙ ap (λ ps. t.mesh.1 ++ ps) all,
          )
  ]

  -- A 'data' event calls mesh_receive with each packet that is complete once its bytes are read, in
  -- their order and with no other, and then no packet waits, given that util_frames_receive takes the
  -- first packet that waits until there is none and that sending changes none of them.
  pub on_data_gives_all :
      (bytes : List ℕ) (t : Frames F (M × List P))
      → ((on_data fa (logged ma) frame_size bytes t).mesh.1
          ≡ t.mesh.1 ++ fa.waiting (read_all fa frame_size (buffer bytes t)).frames)
        × (fa.waiting (on_data fa (logged ma) frame_size bytes t).frames ≡ [])
  unfolding on_data receive_all read_all buffer
  on_data_gives_all bytes t =
      let cut = read_all fa frame_size (buffer bytes t) in
      let u = frames_flush fa frame_size cut in
      let (same, log) = frames_flush-Same cut in
      let (none_left, got) =
        receive_loop_gives (suc (length (fa.waiting u.frames))) u (omega arith) in
      let fields =
        ap (λ (s : Frames F (M × List P)). s.mesh.1)
          (read_loop_fields fa frame_size (suc (length (buffer bytes t).readbuf))
            (buffer bytes t)) in
      (got ∙ ap₂ (λ a b. a ++ b) (log ∙ fields) same, none_left)
