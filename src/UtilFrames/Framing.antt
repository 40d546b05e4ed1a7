-- ===== src/UtilFrames/Framing.antt =====
-- src/util/frames.c: the steps of `util_frames_inbox`, and bytes that come in several calls.
use telehash_c.Prelude.{
  ℕ, zero, suc, ◌+◌, ◌-◌, ◌≤◌, ◌<◌, ◌≡◌, refl, sym, ap, ◌∙◌, inl, inr, ◌⊎◌, Bool, false, Option,
  none, some, List, [], ◌∷◌, ◌++◌, arith, ltb, ltb→lt, lt→ltb, ◌==◌, length, take, drop,
  length-drop, take-append, Bool-cases,
}
use telehash_c.UtilFrames.{
  UtilFrames, Outcome, overrun, refused, accepted, read_header, check_header, prepare, awaiting,
  resume, complete, inbox_loop,
}

-- A frame that is being read is not complete.
abbrev pub Wf : UtilFrames → Type 0
Wf f = (f.inlen ≡ 0) ⊎ (length f.filled < f.inlen)

pub begun_Wf : (f : UtilFrames) → f.filled ≡ [] → Wf f
begun_Wf f h = ground (arith, ap length h)

pub awaiting_room : (f : UtilFrames) → Wf f → 0 < (awaiting f).0
unfolding awaiting prepare
awaiting_room f w = ground arith

pub awaiting_total :
    (f : UtilFrames) → Wf f → (awaiting f).0 + length (awaiting f).1.filled ≡ (awaiting f).1.inlen
unfolding awaiting prepare
awaiting_total f w = ground arith

pub awaiting_begun :
    (f : UtilFrames) → length f.filled < f.inlen → awaiting f ≡ (f.inlen - length f.filled, f)
unfolding awaiting prepare
awaiting_begun f h = ground arith

pub ltb_not : (a b : ℕ) → ltb a b ≡ false → b ≤ a
ltb_not a b h = ground arith

le→ltb_not : (a b : ℕ) → b ≤ a → ltb a b ≡ false
le→ltb_not a b h = ground arith

-- Where the data is cut, when it is in two parts.
pub take-append_past :
    (n : ℕ) (xs ys : List ℕ) → length xs ≤ n → take n (xs ++ ys) ≡ xs ++ take (n - length xs) ys
take-append_past n [] ys h = ap (λ k. take k ys) (omega arith)
take-append_past zero (x ∷ xs) ys h = absurd (omega arith)
take-append_past (suc n) (x ∷ xs) ys h =
    ap (λ l. x ∷ l)
      (take-append_past n xs ys (omega arith) ∙ ap (λ k. xs ++ take k ys) (omega arith))

pub drop-append_past :
    (n : ℕ) (xs ys : List ℕ) → length xs ≤ n → drop n (xs ++ ys) ≡ drop (n - length xs) ys
drop-append_past n [] ys h = ap (λ k. drop k ys) (omega arith)
drop-append_past zero (x ∷ xs) ys h = absurd (omega arith)
drop-append_past (suc n) (x ∷ xs) ys h =
    drop-append_past n xs ys (omega arith) ∙ ap (λ k. drop k ys) (omega arith)

pub resume_ext :
    (more : List ℕ) (again other : UtilFrames → Outcome) (o : Outcome)
    → ((h : UtilFrames) → o ≡ accepted h → 0 < length more → again h ≡ other h)
    → resume more again o ≡ resume more other o
unfolding resume
resume_ext [] again other o h = refl
resume_ext (b ∷ more) again other overrun h = refl
resume_ext (b ∷ more) again other (refused f) h = refl
resume_ext (b ∷ more) again other (accepted f) h = h f refl (omega arith)

pub resume-accepted :
    (more : List ℕ) (again : UtilFrames → Outcome) (o : Outcome) (g : UtilFrames)
    → resume more again o ≡ accepted g
    → (h : UtilFrames) × (o ≡ accepted h)
      × (((more ≡ []) × (h ≡ g)) ⊎ ((0 < length more) × (again h ≡ accepted g)))
unfolding resume
resume-accepted [] again o g e = (g, e, inl (refl, refl))
resume-accepted (b ∷ more) again overrun g e = cc
resume-accepted (b ∷ more) again (refused f) g e = cc
resume-accepted (b ∷ more) again (accepted f) g e = (f, refl, inr (omega arith, e))

pub resume_more :
    (more : List ℕ) (again : UtilFrames → Outcome) (h : UtilFrames)
    → 0 < length more
    → resume more again (accepted h) ≡ again h
unfolding resume
resume_more [] again h lt = elim lt [ ]
resume_more (b ∷ more) again h lt = refl

pub read_header-append :
    (xs ys : List ℕ) (v : ℕ × ℕ) → read_header xs ≡ some v → read_header (xs ++ ys) ≡ some v
unfolding read_header
read_header-append (a ∷ b ∷ c ∷ d ∷ e ∷ f ∷ g ∷ h ∷ rest) ys v eq = eq
read_header-append [] ys v eq = cc
read_header-append (a ∷ []) ys v eq = cc
read_header-append (a ∷ b ∷ []) ys v eq = cc
read_header-append (a ∷ b ∷ c ∷ []) ys v eq = cc
read_header-append (a ∷ b ∷ c ∷ d ∷ []) ys v eq = cc
read_header-append (a ∷ b ∷ c ∷ d ∷ e ∷ []) ys v eq = cc
read_header-append (a ∷ b ∷ c ∷ d ∷ e ∷ f ∷ []) ys v eq = cc
read_header-append (a ∷ b ∷ c ∷ d ∷ e ∷ f ∷ g ∷ []) ys v eq = cc

pub check_header-some :
    (o : Option (ℕ × ℕ)) (f h : UtilFrames)
    → check_header o f ≡ accepted h
    → (v : ℕ × ℕ) × (o ≡ some v)
unfolding check_header
check_header-some none f h e = cc
check_header-some (some v) f h e = (v, refl)

pub check_header-append :
    (xs ys : List ℕ) (f h : UtilFrames)
    → check_header (read_header xs) f ≡ accepted h
    → check_header (read_header (xs ++ ys)) f ≡ accepted h
check_header-append xs ys f h e =
    let found = check_header-some (read_header xs) f h e in
    ap (λ o. check_header o f) (read_header-append xs ys found.0 found.1 ∙ sym found.1) ∙ e

pub check_header_begun :
    (o : Option (ℕ × ℕ)) (f h : UtilFrames) → check_header o f ≡ accepted h → h.filled ≡ []
unfolding check_header
check_header_begun none f h e = cc
check_header_begun (some (m, l)) f h e = ground arith

pub accepted_begun : (f h : UtilFrames) → accepted f ≡ accepted h → f.filled ≡ [] → h.filled ≡ []
accepted_begun f h e b = cc

module _ (js0n : List ℕ → Bool) where
  pub loop_short :
      (k : ℕ) (f : UtilFrames) (bytes : List ℕ)
      → length bytes < (awaiting f).0
      → inbox_loop js0n (suc k) f bytes
        ≡ accepted (record (awaiting f).1 { filled = (awaiting f).1.filled ++ bytes })
  unfolding inbox_loop
  loop_short k f bytes h = rw (lt→ltb _ _ h)

  pub loop_long :
      (k : ℕ) (f : UtilFrames) (bytes : List ℕ)
      → (awaiting f).0 ≤ length bytes
      → inbox_loop js0n (suc k) f bytes
        ≡ resume
            (drop (awaiting f).0 bytes)
            (λ h. inbox_loop js0n k h (drop (awaiting f).0 bytes))
            (complete js0n bytes (awaiting f).0 (awaiting f).1)
  unfolding inbox_loop
  loop_long k f bytes h = rw (le→ltb_not _ _ h)

  pub complete_begun :
      (bytes : List ℕ) (await : ℕ) (f h : UtilFrames)
      → complete js0n bytes await f ≡ accepted h
      → h.filled ≡ []
  unfolding complete
  complete_begun bytes await f h e = elim (Bool-cases (f.inlen == 8)) [
    | inl header ↦ check_header_begun (read_header bytes) f h (rw header at e)
    | inr packet ↦ accepted_begun _ h (rw packet at e) refl
  ]

  pub complete-append :
      (xs ys : List ℕ) (await : ℕ) (f h : UtilFrames)
      → await ≤ length xs
      → complete js0n xs await f ≡ accepted h
      → complete js0n (xs ++ ys) await f ≡ accepted h
  unfolding complete
  complete-append xs ys await f h le e = elim (Bool-cases (f.inlen == 8)) [
    | inl header ↦ rw header (check_header-append xs ys f h (rw header at e))
    | inr packet ↦ rw (packet, take-append await xs ys le) (rw packet at e)
  ]

  -- More fuel than bytes makes no difference.
  pub inbox_loop_fuel :
      (m n : ℕ) (f : UtilFrames) (bytes : List ℕ)
      → Wf f
      → 0 < length bytes
      → length bytes ≤ m
      → length bytes ≤ n
      → inbox_loop js0n m f bytes ≡ inbox_loop js0n n f bytes
  inbox_loop_fuel zero n f bytes w pos hm hn = absurd (omega arith)
  inbox_loop_fuel (suc m) zero f bytes w pos hm hn = absurd (omega arith)
  inbox_loop_fuel (suc m) (suc n) f bytes w pos hm hn =
      elim (Bool-cases (ltb (length bytes) (awaiting f).0)) [
        | inl short ↦
            let lt = ltb→lt _ _ short in loop_short m f bytes lt ∙ sym (loop_short n f bytes lt)
        | inr long ↦
            let le = ltb_not _ _ long in
            let less = length-drop (awaiting f).0 bytes in
            let room = awaiting_room f w in
            loop_long m f bytes le
            ∙ resume_ext _ _ _ _ (λ h e lt.
              inbox_loop_fuel m n h (drop (awaiting f).0 bytes)
                (begun_Wf h (complete_begun bytes _ _ h e)) lt (omega arith) (omega arith))
            ∙ sym (loop_long n f bytes le)
      ]
