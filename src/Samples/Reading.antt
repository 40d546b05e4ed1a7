-- ===== src/Samples/Reading.antt =====
-- js/samples/serial.js: the frames cut out of the port's bytes, and the link that is given the pipe.
use telehash_c.Prelude.{
  ℕ, zero, suc, ◌≤◌, ◌<◌, ◌≡◌, refl, sym, ap, subst, ◌∙◌, Bool, true, false, Option, none, some,
  List, [], ◌∷◌, ◌++◌, append-nil, append_assoc, arith, length, take, drop, leb, leb→le,
  leb-false→lt, inl, inr, Bool-cases, All, All-append, take-append-drop, length-take, length-drop,
  flatten, flatten-snoc,
}
use telehash_c.Samples.Serial.{
  SerialApi, Serial, Event, incoming, deliver, write_frame, flush_loop, frames_flush, pipe,
  pipe_all, flush_rest, flush_frame, found, received, read_frame, read_loop, attach, on_packet,
  receive_loop, on_data, step, run, stream, start,
}

-- What reading and linking are about: `readbuf`, `taken`, `linked` and `pipes`.
abbrev pub View : Type 0
View = List ℕ × List (List ℕ) × Option ℕ × List ℕ

abbrev pub view : {F M : Type 0} → Serial F M → View
view t = (t.readbuf, t.taken, t.linked, t.pipes)

abbrev pub of_option : Option ℕ → List ℕ
of_option none = []
of_option (some l) = l ∷ []

-- The bytes taken as frames of 64 and those left over are the bytes given, and the pipe went to the
-- linked link only; fewer than `n` bytes are left over.
abbrev pub Sound : ℕ → List ℕ → View → Type 0
Sound n bytes (readbuf, taken, linked, pipes) =
    (flatten taken ++ readbuf ≡ bytes)
    × All (λ frame. length frame ≡ 64) taken
    × (pipes ≡ of_option linked)
    × (length readbuf < n)

module _ {F M P : Type 0} (api : SerialApi F M P) where
  view-flush_frame :
      (again : Serial F M → Serial F M) (o : F × Option (List ℕ)) (t : Serial F M)
      → ((s : Serial F M) → view (again s) ≡ view s)
      → view (flush_frame api again o t) ≡ view t
  unfolding flush_frame
  view-flush_frame again (f, none) t keep = refl
  view-flush_frame again (f, some bytes) t keep = rest (api.sent f)
    where
      rest : (r : F × Bool) → view (flush_rest api again r bytes t) ≡ view t
      rest (g, true) = keep (write_frame api g bytes t)
      rest (g, false) = refl

  view-flush_loop : (k : ℕ) (t : Serial F M) → view (flush_loop api k t) ≡ view t
  unfolding flush_loop
  view-flush_loop zero t = refl
  view-flush_loop (suc k) t =
      view-flush_frame (λ s. flush_loop api k s) (api.outbox t.frames 64) t (view-flush_loop k)

  view-frames_flush : (t : Serial F M) → view (frames_flush api t) ≡ view t
  unfolding frames_flush
  view-frames_flush t = view-flush_loop _ t

  view-pipe : (p : Option P) (t : Serial F M) → view (pipe api p t) ≡ view t
  unfolding pipe
  view-pipe none t = refl
  view-pipe (some p) t = view-frames_flush (record t { frames = api.send t.frames p })

  view-pipe_all : (ps : List P) (t : Serial F M) → view (pipe_all api ps t) ≡ view t
  unfolding pipe_all
  view-pipe_all [] t = refl
  view-pipe_all (p ∷ ps) t = view-pipe_all ps (pipe api (some p) t) ∙ view-pipe (some p) t

  attach-Sound :
      (n : ℕ) (bytes : List ℕ) (link linked : Option ℕ) (t : Serial F M)
      → t.linked ≡ linked
      → Sound n bytes (view t)
      → Sound n bytes (view (attach api link linked t))
  unfolding attach
  attach-Sound n bytes none linked t e sound = sound
  attach-Sound n bytes (some link) (some old) t e sound = sound
  attach-Sound n bytes (some link) none t e sound =
      let called : M × List P = api.link_pipe t.mesh link in
      let s : Serial F M = record t {
        mesh = called.0;
        linked = some link;
        pipes = t.pipes ++ link ∷ [];
      } in
      subst (Sound n bytes) (sym (view-pipe_all called.1 s))
        (sound.0, sound.1, ap (λ l. l ++ link ∷ []) (sound.2 ∙ ap of_option e), sound.3)

  found-Sound :
      (n : ℕ) (bytes : List ℕ) (r : M × Option ℕ × List P) (t : Serial F M)
      → Sound n bytes (view t)
      → Sound n bytes (view (found api r t))
  unfolding found
  found-Sound n bytes (m, link, ps) t sound =
      attach-Sound n bytes link _ (pipe_all api ps (record t { mesh = m })) refl
        (subst (Sound n bytes) (sym (view-pipe_all ps (record t { mesh = m }))) sound)

  received-Sound :
      (again : Serial F M → Serial F M)
      → (n : ℕ) (bytes : List ℕ) (r : Option P × F) (t : Serial F M)
      → ((s : Serial F M) → Sound n bytes (view s) → Sound n bytes (view (again s)))
      → Sound n bytes (view t)
      → Sound n bytes (view (received api again r t))
  unfolding received on_packet
  received-Sound again n bytes (none, f) t keep sound = sound
  received-Sound again n bytes (some p, f) t keep sound =
      keep (on_packet api p (record t { frames = f }))
        (found-Sound n bytes (api.mesh_receive t.mesh p) (record t { frames = f }) sound)

  receive_loop-Sound :
      (k : ℕ) (n : ℕ) (bytes : List ℕ) (t : Serial F M)
      → Sound n bytes (view t)
      → Sound n bytes (view (receive_loop api k t))
  unfolding receive_loop
  receive_loop-Sound zero n bytes t sound = sound
  receive_loop-Sound (suc k) n bytes t sound =
      received-Sound (λ s. receive_loop api k s) n bytes (api.receive t.frames) t
        (λ s. receive_loop-Sound k n bytes s) sound

  read_frame-Sound :
      (n : ℕ) (bytes : List ℕ) (t : Serial F M)
      → 64 ≤ length t.readbuf
      → Sound (suc n) bytes (view t)
      → Sound n bytes (view (read_frame api t))
  unfolding read_frame
  read_frame-Sound n bytes t enough sound = (
    ap (λ l. l ++ drop 64 t.readbuf) (flatten-snoc t.taken (take 64 t.readbuf))
        ∙ append_assoc (flatten t.taken) (take 64 t.readbuf) (drop 64 t.readbuf)
        ∙ ap (λ l. flatten t.taken ++ l) (take-append-drop 64 t.readbuf)
        ∙ sound.0,
    All-append (λ frame. length frame ≡ 64) t.taken (take 64 t.readbuf ∷ []) sound.1
        (omega (arith, length-take 64 t.readbuf), tt),
    sound.2,
    omega (arith, length-drop 64 t.readbuf),
  )

  -- The loop ends with less than a frame, if its fuel is more than the bytes.
  read_loop-Sound :
      (k : ℕ) (bytes : List ℕ) (t : Serial F M)
      → Sound k bytes (view t)
      → Sound 64 bytes (view (read_loop api k t))
  unfolding read_loop
  read_loop-Sound zero bytes t sound = elim sound.3 [ ]
  read_loop-Sound (suc k) bytes t sound = elim (Bool-cases (leb 64 (length t.readbuf))) [
    | inl more ↦
        let enough = leb→le 64 (length t.readbuf) more in
        rw (more, read_loop)
          (read_loop-Sound k bytes (read_frame api t) (read_frame-Sound k bytes t enough sound))
    | inr end ↦
        rw (end, read_loop) (sound.0, sound.1, sound.2, leb-false→lt 64 (length t.readbuf) end)
  ]

  step-Sound :
      (e : Event P) (bytes : List ℕ) (t : Serial F M)
      → Sound 64 bytes (view t)
      → Sound 64 (bytes ++ stream (e ∷ [])) (view (step api e t))
  unfolding step on_data stream
  step-Sound (incoming more) bytes t sound =
      let joined : flatten t.taken ++ (t.readbuf ++ more) ≡ bytes ++ (more ++ []) =
        sym (append_assoc (flatten t.taken) t.readbuf more)
        ∙ ap (λ l. l ++ more) sound.0
        ∙ ap (λ l. bytes ++ l) (sym (append-nil more)) in
      let s : Serial F M = record t { readbuf = t.readbuf ++ more } in
      let read =
        read_loop-Sound (suc (length s.readbuf)) (bytes ++ (more ++ [])) s
          (joined, sound.1, sound.2, omega arith) in
      let cut = read_loop api (suc (length s.readbuf)) s in
      let fuel = suc (api.waiting cut.frames) in
      subst (Sound 64 (bytes ++ (more ++ []))) (sym (view-frames_flush (receive_loop api fuel cut)))
        (receive_loop-Sound fuel 64 (bytes ++ (more ++ [])) cut read)
  step-Sound (deliver p) bytes t sound =
      subst (λ b. Sound 64 b (view (pipe api p t))) (sym (append-nil bytes))
        (subst (Sound 64 bytes) (sym (view-pipe p t)) sound)

  stream-cons : (e : Event P) (es : List (Event P)) → stream (e ∷ []) ++ stream es ≡ stream (e ∷ es)
  unfolding stream
  stream-cons (incoming more) es = ap (λ l. l ++ stream es) (append-nil more)
  stream-cons (deliver p) es = refl

  run-Sound :
      (es : List (Event P)) (bytes : List ℕ) (t : Serial F M)
      → Sound 64 bytes (view t)
      → Sound 64 (bytes ++ stream es) (view (run api es t))
  unfolding run stream
  run-Sound [] bytes t sound = subst (λ b. Sound 64 b (view t)) (sym (append-nil bytes)) sound
  run-Sound (e ∷ es) bytes t sound =
      subst (λ b. Sound 64 b (view (run api es (step api e t))))
        (append_assoc bytes (stream (e ∷ [])) (stream es) ∙ ap (λ l. bytes ++ l) (stream-cons e es))
        (run-Sound es (bytes ++ stream (e ∷ [])) (step api e t) (step-Sound e bytes t sound))

  -- Over any run from the start, the frames given to util_frames_inbox have 64 bytes, and with the
  -- fewer than 64 bytes left over they are the bytes that the port gave, in their order; the pipe
  -- was given to the linked link, once, and to no other.
  pub run-start-Sound :
      (f : F) (m : M) (es : List (Event P)) → Sound 64 (stream es) (view (run api es (start f m)))
  unfolding start flatten
  run-start-Sound f m es = run-Sound es [] (start f m) (refl, tt, refl, omega arith)
