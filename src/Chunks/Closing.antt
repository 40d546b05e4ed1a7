-- ===== src/Chunks/Closing.antt =====
-- js/core.js, class Chunks: which link the pipe and the 'close' handler belong to.
use telehash_c.Prelude.{
  ℕ, ◌≡◌, refl, sym, ◌∙◌, ap, ap₂, append-nil, append_assoc, All, Bool, true, false, Option, none,
  some, List, [], ◌∷◌, ◌++◌, arith, is_some,
}
use telehash_c.Native.{MeshApi}
use telehash_c.Chunks.{
  Chunks, Event, received, queued, deliver, close, pipe, pipe_all, on_close, establish, attach,
  found, on_receive, step, run, start,
}

abbrev pub listed : Option ℕ → List ℕ
listed none = []
listed (some link) = link ∷ []

-- Every event but a packet that the chunking stream reports.
abbrev pub NoPacket : {P D : Type 0} → Event P D → Type 0
NoPacket (received true p) = Unit
NoPacket (received false none) = Unit
NoPacket (received false (some p)) = ⊥
NoPacket (queued e) = Unit
NoPacket (deliver packet) = Unit
NoPacket close = Unit

-- Each 'close' tells this link.
abbrev pub told : {P D : Type 0} → Option ℕ → List (Event P D) → List (Option ℕ)
told link [] = []
told link (received err p ∷ es) = told link es
told link (queued e ∷ es) = told link es
told link (deliver packet ∷ es) = told link es
told link (close ∷ es) = link ∷ told link es

told-cons :
    {P D : Type 0} (link : Option ℕ) (e : Event P D) (es : List (Event P D))
    → told link (e ∷ []) ++ told link es ≡ told link (e ∷ es)
told-cons link (received err p) es = refl
told-cons link (queued e) es = refl
told-cons link (deliver packet) es = refl
told-cons link close es = refl

-- The pipe was given once, to the link that `cleanup` compares with, and `linked` says so.
pub record OnePipe {M P D : Type 0} (t : Chunks M P D) : Type 0 where
  pub says_so : t.linked ≡ is_some t.c_link
  pub one_pipe : t.pipes ≡ listed t.c_link

module _ {M P D : Type 0} where
  pipe_all-OnePipe : (ps : List P) (t : Chunks M P D) → OnePipe t → OnePipe (pipe_all ps t)
  unfolding pipe_all pipe
  pipe_all-OnePipe [] t v = v
  pipe_all-OnePipe (p ∷ ps) t v = pipe_all-OnePipe ps _ (ground arith)

  on_close-OnePipe : (b : Bool) (t : Chunks M P D) → OnePipe t → OnePipe (on_close b t)
  unfolding on_close
  on_close-OnePipe false t v = v
  on_close-OnePipe true t v = ground arith

  pipe_all_keeps :
      (ps : List P) (t : Chunks M P D)
      → ((pipe_all ps t).linked ≡ t.linked) × ((pipe_all ps t).downs ≡ t.downs)
  unfolding pipe_all pipe
  pipe_all_keeps [] t = (refl, refl)
  pipe_all_keeps (p ∷ ps) t = pipe_all_keeps ps _

module _ {M P : Type 0} (ma : MeshApi M P) (D : Type 0) where
  attach-OnePipe :
      (linked : Bool) (link : Option ℕ) (t : Chunks M P D)
      → linked ≡ t.linked
      → OnePipe t
      → OnePipe (attach ma D linked link t)
  unfolding attach establish
  attach-OnePipe true link t e v = v
  attach-OnePipe false none t e v = v
  attach-OnePipe false (some link) t e v = pipe_all-OnePipe _ _ (ground arith)

  found-OnePipe :
      (r : M × Option ℕ × List P) (t : Chunks M P D) → OnePipe t → OnePipe (found ma D r t)
  unfolding found
  found-OnePipe (m, link, ps) t v =
      let u = pipe_all ps (record t { mesh = m }) in
      let w = pipe_all-OnePipe ps (record t { mesh = m }) (ground arith) in
      attach-OnePipe u.linked link (record u { link = link }) refl (ground (arith, w))

  step-OnePipe : (e : Event P D) (t : Chunks M P D) → OnePipe t → OnePipe (step ma D e t)
  unfolding step on_receive pipe
  step-OnePipe (received true p) t v = v
  step-OnePipe (received false none) t v = v
  step-OnePipe (received false (some p)) t v = found-OnePipe _ t v
  step-OnePipe (queued e) t v = ground arith
  step-OnePipe (deliver none) t v = v
  step-OnePipe (deliver (some p)) t v = ground arith
  step-OnePipe close t v = on_close-OnePipe t.linked t v

  run-OnePipe : (es : List (Event P D)) (t : Chunks M P D) → OnePipe t → OnePipe (run ma D es t)
  unfolding run
  run-OnePipe [] t v = v
  run-OnePipe (e ∷ es) t v = run-OnePipe es _ (step-OnePipe e t v)

  -- Over any run the pipe is given to one link at most: the first that a packet finds, which is also
  -- the one that `cleanup` compares with.
  pub run-start-OnePipe : (m : M) (es : List (Event P D)) → OnePipe (run ma D es (start ma D m))
  unfolding start pipe
  run-start-OnePipe m es = run-OnePipe es _ (ground arith)

  found_linked :
      (m : M) (link : Option ℕ) (ps : List P) (t : Chunks M P D)
      → t.linked ≡ true
      → found ma D (m, link, ps) t ≡ record (pipe_all ps (record t { mesh = m })) { link = link }
  unfolding found attach
  found_linked m link ps t h =
      let same = (pipe_all_keeps ps (record t { mesh = m })).0 ∙ h in
      ap
        (λ (b : Bool).
          attach ma D b link (record (pipe_all ps (record t { mesh = m })) { link = link }))
        same

  -- `link`, `linked`, `pipes` and `downs` after an event that is not a packet.
  abbrev Tells : Event P D → Chunks M P D → Chunks M P D → Type 0
  Tells e u t =
      (u.link ≡ t.link)
      × (u.linked ≡ t.linked)
      × (u.pipes ≡ t.pipes)
      × (u.downs ≡ t.downs ++ told t.link (e ∷ []))

  step-Tells :
      (e : Event P D) (t : Chunks M P D) → t.linked ≡ true → NoPacket e → Tells e (step ma D e t) t
  unfolding step on_receive pipe on_close
  step-Tells (received true p) t l n = (refl, refl, refl, sym (append-nil t.downs))
  step-Tells (received false none) t l n = (refl, refl, refl, sym (append-nil t.downs))
  step-Tells (received false (some p)) t l n = absurd n
  step-Tells (queued e) t l n = (refl, refl, refl, sym (append-nil t.downs))
  step-Tells (deliver none) t l n = (refl, refl, refl, sym (append-nil t.downs))
  step-Tells (deliver (some p)) t l n = (refl, refl, refl, sym (append-nil t.downs))
  step-Tells close t l n = rw (step, on_close, l) (refl, refl, refl, refl)

  run-Tells :
      (es : List (Event P D)) (t : Chunks M P D)
      → t.linked ≡ true
      → All NoPacket es
      → ((run ma D es t).pipes ≡ t.pipes) × ((run ma D es t).downs ≡ t.downs ++ told t.link es)
  unfolding run
  run-Tells [] t l n = (refl, sym (append-nil t.downs))
  run-Tells (e ∷ es) t l (n, ns) =
      let (link, linked, pipes, downs) = step-Tells e t l n in
      let (a, b) = run-Tells es (step ma D e t) (linked ∙ l) ns in
      (
        a ∙ pipes,
        b
            ∙ ap₂ (λ d k. d ++ told k es) downs link
            ∙ append_assoc t.downs (told t.link (e ∷ [])) (told t.link es)
            ∙ ap (λ l. t.downs ++ l) (told-cons t.link e es),
      )

  pipe_all_pipes :
      (ps : List P) (t : Chunks M P D) → (pipe_all {M = M} {D = D} ps t).pipes ≡ t.pipes
  unfolding pipe_all pipe
  pipe_all_pipes [] t = refl
  pipe_all_pipes (p ∷ ps) t = pipe_all_pipes ps _

  -- Of a Chunks object that is linked: after a packet for which the mesh returns some link, or null, and
  -- until the next packet, each 'close' goes to that link, whatever else happens, while the pipe stays
  -- with the link that got it.
  pub closes_tell_last :
      (p : P) (m : M) (link : Option ℕ) (ps : List P) (es : List (Event P D)) (t : Chunks M P D)
      → t.linked ≡ true
      → ma.mesh_receive t.mesh p ≡ (m, link, ps)
      → All NoPacket es
      → let u = run ma D es (step ma D (received false (some p)) t) in
        (u.downs ≡ t.downs ++ told link es) × (u.pipes ≡ t.pipes)
  unfolding step on_receive
  closes_tell_last p m link ps es t l e quiet =
      let v = record (pipe_all ps (record t { mesh = m })) { link = link } in
      let (linked, downs) = pipe_all_keeps ps (record t { mesh = m }) in
      let is : on_receive ma D false (some p) t ≡ v =
        ap (λ r. found ma D r t) e ∙ found_linked m link ps t l in
      let (a, b) = run-Tells es v (linked ∙ l) quiet in
      (
        ap (λ w. (run ma D es w).downs) is ∙ b ∙ ap (λ d. d ++ told link es) downs,
        ap (λ w. (run ma D es w).pipes) is ∙ a ∙ pipe_all_pipes ps (record t { mesh = m }),
      )
