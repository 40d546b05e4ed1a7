-- ===== src/UtilFrames/Splitting.antt =====
-- src/util/frames.c: `util_frames_inbox` given its bytes in two calls.
use telehash_c.Prelude.{
  ℕ, zero, suc, ◌+◌, ◌-◌, ◌≤◌, ◌<◌, ◌≡◌, refl, sym, ap, subst, ap₂, ◌∙◌, inl, inr, Bool, true,
  false, List, [], ◌++◌, append_assoc, arith, ltb, ltb→lt, ◌==◌, if◌then◌else◌, length, take, drop,
  length-append, length-drop, drop-append, Bool-cases,
}
use telehash_c.UtilFrames.{
  UtilFrames, accepted, prepare, awaiting, resume, complete, inbox_loop, inbox, free_empties,
  lob_direct,
}
use telehash_c.UtilFrames.Queue
use telehash_c.UtilFrames.Framing.{
  Wf, begun_Wf, accepted_begun, awaiting_room, awaiting_total, awaiting_begun, ltb_not, resume_ext,
  resume-accepted, resume_more, loop_short, loop_long, complete_begun, complete-append,
  inbox_loop_fuel, take-append_past, drop-append_past,
}

awaiting_prepared : (f : UtilFrames) → awaiting (awaiting f).1 ≡ awaiting f
unfolding awaiting prepare
awaiting_prepared f = ground arith

accepted_injective : (f g : UtilFrames) → accepted f ≡ accepted g → f ≡ g
accepted_injective f g e = cc

module _ (js0n : List ℕ → Bool) where
  -- A packet's bytes are all there.
  unfoldable pub finish : List ℕ → UtilFrames → UtilFrames
  finish bytes g = record g {
    inbox = Queue.append (free_empties g.is_receiving g.inbox) (lob_direct js0n bytes);
    filled = [];
    inlen = 0;
  }

  pub begun_short :
      (k : ℕ) (g : UtilFrames) (bytes : List ℕ)
      → length g.filled < g.inlen
      → length g.filled + length bytes < g.inlen
      → inbox_loop js0n (suc k) g bytes ≡ accepted (record g { filled = g.filled ++ bytes })
  begun_short k g bytes begun lt =
      let at : awaiting g ≡ (g.inlen - length g.filled, g) = awaiting_begun g begun in
      loop_short js0n k g bytes (rw at (omega arith))
      ∙ ap (λ r. accepted (record r.1 { filled = r.1.filled ++ bytes })) at

  pub packet_long :
      (k : ℕ) (g : UtilFrames) (bytes : List ℕ)
      → length g.filled < g.inlen
      → g.inlen ≤ length g.filled + length bytes
      → (g.inlen == 8) ≡ false
      → inbox_loop js0n (suc k) g bytes
        ≡ resume
            (drop (g.inlen - length g.filled) bytes)
            (λ h. inbox_loop js0n k h (drop (g.inlen - length g.filled) bytes))
            (accepted (finish (g.filled ++ take (g.inlen - length g.filled) bytes) g))
  unfolding complete finish
  packet_long k g bytes begun le plain =
      let at : awaiting g ≡ (g.inlen - length g.filled, g) = awaiting_begun g begun in
      loop_long js0n k g bytes (rw at (omega arith))
      ∙ ap
          (λ (r : ℕ × UtilFrames).
            resume (drop r.0 bytes) (λ h. inbox_loop js0n k h (drop r.0 bytes))
              (complete js0n bytes r.0 r.1))
          at
      ∙ rw plain

  -- The first bytes end within a packet.
  pub split_within :
      (m n : ℕ) (g : UtilFrames) (xs ys : List ℕ)
      → length g.filled + length xs < g.inlen
      → (g.inlen == 8) ≡ false
      → length xs + length ys ≤ suc m
      → length ys ≤ suc n
      → inbox_loop js0n (suc m) g (xs ++ ys)
        ≡ inbox_loop js0n (suc n) (record g { filled = g.filled ++ xs }) ys
  unfolding finish
  split_within m n g xs ys lt plain hm hn =
      let g2 : UtilFrames = record g { filled = g.filled ++ xs } in
      let both = length-append xs ys in
      let had = length-append g.filled xs in
      elim (Bool-cases (ltb (length g.filled + (length xs + length ys)) g.inlen)) [
        | inl short ↦
            let under = ltb→lt _ _ short in
            begun_short m g (xs ++ ys) (omega arith) (omega arith)
            ∙ ap (λ b. accepted (record g { filled = b })) (sym (append_assoc g.filled xs ys))
            ∙ sym (begun_short n g2 ys (omega arith) (omega arith))
        | inr long ↦
            let le = ltb_not _ _ long in
            let past : g.inlen - length g.filled - length xs ≡ g.inlen - length (g.filled ++ xs) =
              omega arith in
            packet_long m g (xs ++ ys) (omega arith) (omega arith) plain
            ∙ ap₂
                (λ (more all : List ℕ).
                  resume more (λ h. inbox_loop js0n m h more) (accepted (finish all g)))
                (drop-append_past (g.inlen - length g.filled) xs ys (omega arith)
                  ∙ ap (λ k. drop k ys) past)
                (ap (λ b. g.filled ++ b)
                    (take-append_past (g.inlen - length g.filled) xs ys (omega arith)
                      ∙ ap (λ k. xs ++ take k ys) past)
                  ∙ sym (append_assoc g.filled xs (take (g.inlen - length (g.filled ++ xs)) ys)))
            ∙ resume_ext _ _ _ _ (λ h e pos.
              let less = length-drop (g.inlen - length (g.filled ++ xs)) ys in
              inbox_loop_fuel js0n m n h _ (begun_Wf h (accepted_begun _ h e refl)) pos
                (omega arith) (omega arith))
            ∙ sym (packet_long n g2 ys (omega arith) (omega arith) plain)
      ]

  pub loop_prepared :
      (k : ℕ) (f : UtilFrames) (bytes : List ℕ)
      → inbox_loop js0n (suc k) f bytes ≡ inbox_loop js0n (suc k) (awaiting f).1 bytes
  unfolding inbox_loop
  loop_prepared k f bytes =
      ap
        (λ (r : ℕ × UtilFrames).
          if ltb (length bytes) r.0
          then accepted (record r.1 { filled = r.1.filled ++ bytes })
          else resume (drop r.0 bytes) (λ h. inbox_loop js0n k h (drop r.0 bytes))
              (complete js0n bytes r.0 r.1))
        (sym (awaiting_prepared f))

  pub split_loop :
      (k m n : ℕ) (f g : UtilFrames) (xs ys : List ℕ)
      → Wf f
      → 0 < length xs
      → 0 < length ys
      → length xs + length ys ≤ m
      → length ys ≤ n
      → inbox_loop js0n k f xs ≡ accepted g
      → ((g.inlen == 8) ≡ true → g.filled ≡ [])
      → inbox_loop js0n m f (xs ++ ys) ≡ inbox_loop js0n n g ys
  split_loop k zero n f g xs ys w px py hm hn e whole = absurd (omega arith)
  split_loop k (suc m) zero f g xs ys w px py hm hn e whole = absurd (omega arith)
  split_loop zero (suc m) (suc n) f g xs ys w px py hm hn e whole = absurd (unfold inbox_loop in cc)
  split_loop (suc k) (suc m) (suc n) f g xs ys w px py hm hn e whole =
      let both = length-append xs ys in
      elim (Bool-cases (ltb (length xs) (awaiting f).0)) [
        | inl short ↦
            let lt = ltb→lt _ _ short in
            let part = accepted_injective _ g (sym (loop_short js0n k f xs lt) ∙ e) in
            let size = length-append (awaiting f).1.filled xs in
            let room = awaiting_total f w in
            elim (Bool-cases ((awaiting f).1.inlen == 8)) [
              | inl header ↦
                  let none_read =
                    ap (λ r. length r.filled) part
                    ∙ ap length (whole (subst (λ r. (r.inlen == 8) ≡ true) part header)) in
                  absurd (omega arith)
              | inr plain ↦
                  loop_prepared m f (xs ++ ys)
                  ∙ split_within m n (awaiting f).1 xs ys (omega arith) plain hm hn
                  ∙ ap (λ r. inbox_loop js0n (suc n) r ys) part
            ]
        | inr long ↦
            let le = ltb_not _ _ long in
            let frame = resume-accepted _ _ _ g (sym (loop_long js0n k f xs le) ∙ e) in
            let h = frame.0 in
            let begun = begun_Wf h (complete_begun js0n xs _ _ h frame.1) in
            let less = length-drop (awaiting f).0 xs in
            let room = awaiting_room f w in
            loop_long js0n m f (xs ++ ys) (omega arith)
            ∙ ap₂ (λ (more : List ℕ) o. resume more (λ h. inbox_loop js0n m h more) o)
                (drop-append (awaiting f).0 xs ys le) (complete-append js0n xs ys _ _ h le frame.1)
            ∙ resume_more _ _ h (omega (arith, length-append (drop (awaiting f).0 xs) ys))
            ∙ elim frame.2 [
              | inl (nil, same) ↦
                  ap₂ (λ (b : List ℕ) r. inbox_loop js0n m r (b ++ ys)) nil same
                  ∙ inbox_loop_fuel js0n m (suc n) g ys (subst Wf same begun) py (omega arith) hn
              | inr (pos, rest) ↦
                  split_loop k m (suc n) h g (drop (awaiting f).0 xs) ys begun pos py (omega arith)
                    hn rest whole
            ]
      ]

  -- For frames with no complete frame waiting and two calls of util_frames_inbox with at least a
  -- byte each: when the first takes its bytes, and does not leave part of a header behind, one
  -- call with all the bytes does what the two calls do.
  pub inbox-append :
      (f g : UtilFrames) (xs ys : List ℕ)
      → Wf f
      → 0 < length xs
      → 0 < length ys
      → inbox js0n f xs ≡ accepted g
      → ((g.inlen == 8) ≡ true → g.filled ≡ [])
      → inbox js0n f (xs ++ ys) ≡ inbox js0n g ys
  unfolding inbox
  inbox-append f g xs ys w px py e whole =
      split_loop _ _ _ f g xs ys w px py (omega (arith, length-append xs ys)) (omega arith) e whole
