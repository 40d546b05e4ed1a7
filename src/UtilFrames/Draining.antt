-- ===== src/UtilFrames/Draining.antt =====
-- src/util/frames.c: the queues of packets, over calls of `util_frames_receive` and `util_frames_sent`.
use telehash_c.Prelude.{
  ℕ, zero, suc, ◌<◌, ◌≡◌, ◌⊎◌, inl, inr, refl, sym, ap, ap₂, ◌∙◌, Bool, true, false, Option, none,
  some, List, [], ◌∷◌, ◌++◌, arith, Option-cases, length,
}
use telehash_c.UtilFrames.{UtilFrames, to_bytes, raw, free_empties, load, outbox, sent, receive}
use telehash_c.UtilFrames.Queue.{packets, first, drop_empties, of_option, first_packet, first-none}
use telehash_c.UtilFrames.Steps.{outbox_packet, sent_header, length-header}

-- `util_frames_outbox` and then `util_frames_sent`, `n` times.
unfoldable pub send_frames : ℕ → UtilFrames → UtilFrames
send_frames zero f = f
send_frames (suc n) f = send_frames n (sent (outbox f).0)

locked_front :
    (locked : Bool) (p : List ℕ) (q : List (Option (List ℕ)))
    → free_empties locked (some p ∷ q) ≡ some p ∷ q
unfolding free_empties drop_empties
locked_front true p q = refl
locked_front false p q = refl

load_front :
    (f : UtilFrames) (p : List ℕ) (q : List (Option (List ℕ)))
    → f.outbox ≡ some p ∷ q
    → length f.out ≡ 0
    → (outbox f).0 ≡ record f { outbox = some p ∷ q; out = to_bytes f.magic ++ to_bytes (length p) }
unfolding outbox load raw
load_front f p q waits none_out = rw (none_out, waits, locked_front f.is_sending p q)

one_frame :
    (f : UtilFrames) (p : List ℕ) (q : List (Option (List ℕ)))
    → f.outbox ≡ some p ∷ q
    → (length f.out ≡ 0) ⊎ (length f.out ≡ 8)
    → ((sent (outbox f).0).outbox ≡ some p ∷ q) × ((sent (outbox f).0).out ≡ p)
one_frame f p q waits (inl none_out) =
    let loaded = load_front f p q waits none_out in
    let header =
      ap sent loaded
      ∙ sent_header
          (record f { outbox = some p ∷ q; out = to_bytes f.magic ++ to_bytes (length p) }) p q refl
          (length-header f.magic (length p)) in
    (ap (λ r. r.outbox) header, ap (λ r. r.out) header)
one_frame f p q waits (inr out) =
    let again =
      ap (λ (t : UtilFrames × Option (List ℕ)). sent t.0) (outbox_packet f (omega arith))
      ∙ sent_header f p q waits out in
    (ap (λ r. r.outbox) again ∙ waits, ap (λ r. r.out) again)

-- A packet of 8 bytes at the front of the outbox, when no frame or one of 8 bytes is loaded, is
-- there still, with all that waits behind it, after any number of frames were given and reported
-- as sent.
pub eight_bytes_stay :
    (n : ℕ) (f : UtilFrames) (p : List ℕ) (q : List (Option (List ℕ)))
    → f.outbox ≡ some p ∷ q
    → length p ≡ 8
    → (length f.out ≡ 0) ⊎ (length f.out ≡ 8)
    → (send_frames n f).outbox ≡ some p ∷ q
unfolding send_frames
eight_bytes_stay zero f p q waits eight out = waits
eight_bytes_stay (suc n) f p q waits eight out =
    let next = one_frame f p q waits out in
    eight_bytes_stay n (sent (outbox f).0) p q next.0 eight (inr (ap length next.1 ∙ eight))

-- `util_frames_receive`, `n` times: the packets it gives, up to the first time it gives none.
unfoldable pub receive_some : Option (List ℕ) → List (List ℕ) → List (List ℕ)
receive_some none rest = []
receive_some (some p) rest = p ∷ rest

unfoldable pub receive_times : ℕ → UtilFrames → List (List ℕ)
unfolding receive_some receive
receive_times zero f = []
receive_times (suc n) f = receive_some (receive f).0 (receive_times n (receive f).1)

take_times :
    (n : ℕ) (f : UtilFrames) (ps : List (List ℕ))
    → packets f.inbox ≡ ps
    → length ps < n
    → receive_times n f ≡ ps
unfolding receive_times receive receive_some of_option
take_times zero f ps waits lt = elim lt [ ]
take_times (suc n) f ps waits lt =
    let f1 : UtilFrames = (receive f).1 in
    let front = first_packet f.inbox ∙ waits in
    elim (Option-cases (first f.inbox)) [
      | inl nothing ↦
          ap (λ o. receive_some o (receive_times n f1)) nothing
          ∙ sym (first-none f.inbox nothing)
          ∙ waits
      | inr (p, found) ↦
          let cut = ap (λ o. of_option o ++ packets f1.inbox) (sym found) ∙ front in
          ap₂ receive_some found
            (take_times n f1 (packets f1.inbox) refl (omega (arith, ap length cut)))
          ∙ cut
    ]

-- Calls of `util_frames_receive`, up to one that gives nothing, give the packets put together, each
-- once and in the order in which they came; one call more than packets is enough.
pub receive_times_lem :
    (f : UtilFrames) → receive_times (suc (length (packets f.inbox))) f ≡ packets f.inbox
receive_times_lem f = take_times _ f _ refl (omega arith)
