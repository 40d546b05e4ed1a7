-- ===== src/Frames/Recording.antt =====
-- js/core.js, class Frames: what runs of events give to `util_frames_inbox`, beside a frames library.
use telehash_c.Prelude.{
  ℕ, ◌<◌, ◌≡◌, refl, sym, ap, ap₂, subst, ◌∙◌, List, [], ◌∷◌, ◌++◌, append-nil, append_assoc, arith,
  length, take, drop, length-append, All, flatten,
}
use telehash_c.Native.{FramesApi}
use telehash_c.Frames.{Frames, Event, incoming, write_done, timeout, close, deliver, accepted}

-- A frames library beside the frames that `util_frames_inbox` was given.
abbrev pub recorded : {F P : Type 0} → FramesApi F P → FramesApi (F × List (List ℕ)) P
recorded fa = record {
  pending = λ r. fa.pending r.0;
  outbox = λ r size. let (f, frame) = fa.outbox r.0 size in ((f, r.1), frame);
  sent = λ r. (fa.sent r.0, r.1);
  inbox = λ r frame. (fa.inbox r.0 frame, r.1 ++ frame ∷ []);
  is_ok = λ r. fa.is_ok r.0;
  clear = λ r. (fa.clear r.0, r.1);
  receive = λ r. let (p, f) = fa.receive r.0 in (p, (f, r.1));
  send = λ r p. (fa.send r.0 p, r.1);
  waiting = λ r. fa.waiting r.0;
}

-- The bytes of the 'data' events.
abbrev pub bytes_of : {P : Type 0} → List (Event P) → List ℕ
bytes_of [] = []
bytes_of (incoming bytes ∷ es) = bytes ++ bytes_of es
bytes_of (write_done err ∷ es) = bytes_of es
bytes_of (timeout ∷ es) = bytes_of es
bytes_of (close ∷ es) = bytes_of es
bytes_of (deliver packet ∷ es) = bytes_of es
bytes_of (accepted packet ∷ es) = bytes_of es

-- Whole frames, with fewer than `n` bytes left over, that are these bytes.
abbrev pub Cut : ℕ → ℕ → List ℕ → List (List ℕ) × List ℕ → Type 0
Cut size n bytes (frames, rest) =
    All (λ frame. length frame ≡ size) frames × (flatten frames ++ rest ≡ bytes) × (length rest < n)

abbrev pub view : {F M : Type 0} → Frames (F × List (List ℕ)) M → List (List ℕ) × List ℕ
view t = (t.frames.1, t.readbuf)

-- An event that brings no bytes.
pub no_bytes :
    (size n : ℕ) (bytes : List ℕ) (u v : List (List ℕ) × List ℕ)
    → u ≡ v
    → Cut size n bytes v
    → Cut size n (bytes ++ []) u
no_bytes size n bytes u v e cut =
    subst (Cut size n (bytes ++ [])) (sym e) (cut.0, cut.1 ∙ sym (append-nil bytes), cut.2)

take_whole : (xs ys : List ℕ) → take (length xs) (xs ++ ys) ≡ xs
take_whole [] ys = refl
take_whole (x ∷ xs) ys = ap (λ l. x ∷ l) (take_whole xs ys)

drop_whole : (xs ys : List ℕ) → drop (length xs) (xs ++ ys) ≡ ys
drop_whole [] ys = refl
drop_whole (x ∷ xs) ys = drop_whole xs ys

-- The bytes are cut into frames of one size in one way only.
pub Cut-once :
    (size : ℕ) (bytes bytes' : List ℕ) (fs gs : List (List ℕ)) (r s : List ℕ)
    → bytes ≡ bytes'
    → Cut size size bytes (fs, r)
    → Cut size size bytes' (gs, s)
    → (fs ≡ gs) × (r ≡ s)
unfolding flatten
Cut-once size b b' [] [] r s e (all, is, lt) (all', is', lt') = (refl, is ∙ e ∙ sym is')
Cut-once size b b' [] (g ∷ gs) r s e (all, is, lt) (all', is', lt') = absurd (
    omega (
      arith,
      ap length (is ∙ e ∙ sym is'),
      length-append (g ++ flatten gs) s,
      length-append g (flatten gs),
      all'.0,
    ))
Cut-once size b b' (f ∷ fs) [] r s e (all, is, lt) (all', is', lt') = absurd (
    omega (
      arith,
      ap length (is ∙ e ∙ sym is'),
      length-append (f ++ flatten fs) r,
      length-append f (flatten fs),
      all.0,
    ))
Cut-once size b b' (f ∷ fs) (g ∷ gs) r s e (all, is, lt) (all', is', lt') =
    let whole : f ++ (flatten fs ++ r) ≡ g ++ (flatten gs ++ s) =
      sym (append_assoc f (flatten fs) r) ∙ is ∙ e ∙ sym is' ∙ append_assoc g (flatten gs) s in
    let sizes = all.0 ∙ sym all'.0 in
    let first : f ≡ g =
      sym (take_whole f (flatten fs ++ r))
      ∙ ap₂ take sizes whole
      ∙ take_whole g (flatten gs ++ s) in
    let later : flatten fs ++ r ≡ flatten gs ++ s =
      sym (drop_whole f (flatten fs ++ r))
      ∙ ap₂ drop sizes whole
      ∙ drop_whole g (flatten gs ++ s) in
    let (same, rest) =
      Cut-once size (flatten fs ++ r) (flatten gs ++ s) fs gs r s later (all.1, refl, lt)
        (all'.1, refl, lt') in
    (ap₂ (λ x xs. x ∷ xs) first same, rest)
