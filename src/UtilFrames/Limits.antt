-- ===== src/UtilFrames/Limits.antt =====
-- src/util/frames.c: headers that come in parts and headers that are refused.
use telehash_c.Prelude.{
  ℕ, zero, suc, ◌+◌, ◌-◌, ◌≤◌, ◌<◌, ◌≡◌, ◌≢◌, ◌⊎◌, refl, ap, ◌∙◌, Bool, true, false, none, some,
  List, [], ◌∷◌, ◌++◌, arith, length, drop,
}
use telehash_c.UtilFrames.{
  UtilFrames, Outcome, overrun, refused, accepted, to_bytes, read_header, check_header, awaiting,
  prepare, resume, complete, inbox_loop, inbox, is_ok,
}
use telehash_c.UtilFrames.Framing.{loop_short, loop_long}
use telehash_c.UtilFrames.Steps.{awaiting_idle, header_received}

-- Fewer than eight bytes are no header.
read_header_short : (bytes : List ℕ) → length bytes < 8 → read_header bytes ≡ none
unfolding read_header
read_header_short [] h = refl
read_header_short (a ∷ []) h = refl
read_header_short (a ∷ b ∷ []) h = refl
read_header_short (a ∷ b ∷ c ∷ []) h = refl
read_header_short (a ∷ b ∷ c ∷ d ∷ []) h = refl
read_header_short (a ∷ b ∷ c ∷ d ∷ e ∷ []) h = refl
read_header_short (a ∷ b ∷ c ∷ d ∷ e ∷ f ∷ []) h = refl
read_header_short (a ∷ b ∷ c ∷ d ∷ e ∷ f ∷ g ∷ []) h = refl
read_header_short (a ∷ b ∷ c ∷ d ∷ e ∷ f ∷ g ∷ i ∷ rest) h = absurd (omega arith)

resume_overrun :
    (more : List ℕ) (again : UtilFrames → Outcome) → resume more again overrun ≡ overrun
unfolding resume
resume_overrun [] again = refl
resume_overrun (b ∷ more) again = refl

resume-refused :
    (more : List ℕ) (again : UtilFrames → Outcome) (g : UtilFrames)
    → resume more again (refused g) ≡ refused g
unfolding resume
resume-refused [] again g = refl
resume-refused (b ∷ more) again g = refl

-- The frames after a header that was refused.
abbrev pub after_refusal : UtilFrames → UtilFrames
after_refusal f = record f { filled = []; inlen = 0; inbox_err = true }

check_header_wrong :
    (f : UtilFrames) (m l : ℕ)
    → (m ≢ f.magic) ⊎ (f.max < l)
    → check_header (some (m, l)) f ≡ refused (after_refusal f)
unfolding check_header
check_header_wrong f m l wrong = ground arith

module _ (js0n : List ℕ → Bool) where
  part_taken :
      (n : ℕ) (f : UtilFrames) (xs : List ℕ)
      → f.inlen ≡ 0
      → 0 < n
      → length xs < 8
      → inbox_loop js0n n f xs ≡ accepted (record f { filled = xs; inlen = 8 })
  part_taken zero f xs idle pos lt = elim pos [ ]
  part_taken (suc n) f xs idle pos lt =
      let at = awaiting_idle f idle in
      loop_short js0n n f xs (omega (arith, ap (λ (t : ℕ × UtilFrames). t.0) at))
      ∙ ap (λ (t : ℕ × UtilFrames). accepted (record t.1 { filled = t.1.filled ++ xs })) at

  rest_overruns :
      (n : ℕ) (f : UtilFrames) (xs ys : List ℕ)
      → 0 < n
      → length xs < 8
      → length ys < 8
      → 8 ≤ length xs + length ys
      → inbox_loop js0n n (record f { filled = xs; inlen = 8 }) ys ≡ overrun
  unfolding complete awaiting prepare check_header
  rest_overruns zero f xs ys pos hx hy le = elim pos [ ]
  rest_overruns (suc n) f xs ys pos hx hy le =
      let g : UtilFrames = record f { filled = xs; inlen = 8 } in
      loop_long js0n n g ys (omega arith)
      ∙ ap
          (λ o.
            resume (drop (8 - length xs) ys) (λ h. inbox_loop js0n n h (drop (8 - length xs) ys))
              (check_header o g))
          (read_header_short ys hy)
      ∙ resume_overrun _ _

  -- Between frames, when a header comes in two calls, each of 1 to 7 bytes and 8 or more together,
  -- the first call takes its part, and the second reads past the end of the bytes it was given.
  pub header_in_parts :
      (f : UtilFrames) (xs ys : List ℕ)
      → f.inlen ≡ 0
      → 0 < length xs
      → length xs < 8
      → length ys < 8
      → 8 ≤ length xs + length ys
      → (g : UtilFrames) × (inbox js0n f xs ≡ accepted g) × (inbox js0n g ys ≡ overrun)
  unfolding inbox
  header_in_parts f xs ys idle pos hx hy le = (
    record f { filled = xs; inlen = 8 },
    part_taken (length xs) f xs idle pos hx,
    rest_overruns (length ys) f xs ys (omega arith) hx hy le,
  )

  refused_loop :
      (n : ℕ) (f : UtilFrames) (bytes : List ℕ) (m l : ℕ)
      → f.inlen ≡ 0
      → 0 < n
      → 8 ≤ length bytes
      → read_header bytes ≡ some (m, l)
      → (m ≢ f.magic) ⊎ (f.max < l)
      → inbox_loop js0n n f bytes ≡ refused (after_refusal f)
  unfolding complete
  refused_loop zero f bytes m l idle pos le header wrong = elim pos [ ]
  refused_loop (suc n) f bytes m l idle pos le header wrong =
      let at = awaiting_idle f idle in
      loop_long js0n n f bytes (omega (arith, ap (λ (t : ℕ × UtilFrames). t.0) at))
      ∙ ap
          (λ (t : ℕ × UtilFrames).
            resume (drop t.0 bytes) (λ h. inbox_loop js0n n h (drop t.0 bytes))
              (complete js0n bytes t.0 t.1))
          at
      ∙ ap (resume (drop 8 bytes) (λ h. inbox_loop js0n n h (drop 8 bytes))) (
          ap (λ o. check_header o (record f { filled = []; inlen = 8 })) header
          ∙ check_header_wrong (record f { filled = []; inlen = 8 }) m l wrong)
      ∙ resume-refused _ _ (after_refusal f)

  -- Between frames, util_frames_inbox refuses a header with another magic number or a length above
  -- max, with the bytes after it: util_frames_ok then fails and the packets received are kept; the
  -- next header with the right magic number and a length up to max, both of 32 bits, is taken, and
  -- util_frames_ok holds again.
  pub refused_then_ok :
      (f : UtilFrames) (bytes : List ℕ) (m l len : ℕ)
      → f.inlen ≡ 0
      → 8 ≤ length bytes
      → read_header bytes ≡ some (m, l)
      → (m ≢ f.magic) ⊎ (f.max < l)
      → f.magic < 4294967296
      → len < 4294967296
      → len ≤ f.max
      → (g : UtilFrames) × (h : UtilFrames) × (inbox js0n f bytes ≡ refused g)
        × (is_ok g ≡ false)
        × (g.inbox ≡ f.inbox)
        × (inbox js0n g (to_bytes f.magic ++ to_bytes len) ≡ accepted h)
        × (is_ok h ≡ true)
        × (h.inlen ≡ len)
  unfolding inbox is_ok
  refused_then_ok f bytes m l len idle le header wrong hm hl fits = (
    after_refusal f,
    record f { filled = []; inlen = len; inbox_err = false },
    refused_loop (length bytes) f bytes m l idle (omega arith) le header wrong,
    refl,
    refl,
    header_received js0n (after_refusal f) len refl hm hl fits,
    refl,
    refl,
  )
