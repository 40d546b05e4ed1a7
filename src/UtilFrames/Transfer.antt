-- ===== src/UtilFrames/Transfer.antt =====
-- src/util/frames.c: what one side's `util_frames_outbox` gives is put together by the other side's
-- `util_frames_inbox`.
use telehash_c.Prelude.{
  ℕ, zero, suc, ◌*◌, ◌≤◌, ◌<◌, ◌≡◌, refl, sym, ap, ◌∙◌, Bool, false, Option, none, some, List, [],
  ◌∷◌, ◌++◌, append-nil, append_assoc, arith, ◌==◌, length, All,
}
use telehash_c.UtilFrames.{
  UtilFrames, Outcome, overrun, refused, accepted, to_bytes, inbox, lob_direct, outbox, sent,
}
use telehash_c.UtilFrames.Queue.{packets, drop_empties, drop_empties_cons, drop_empties_nil}
use telehash_c.UtilFrames.Splitting.{finish}
use telehash_c.UtilFrames.Steps.{
  length-header, outbox_header, outbox_packet, sent_header, sent_packet, outbox_empty,
  packets-finish, header_received, packet_received,
}

-- One loop of a sender and a receiver: each frame that `util_frames_outbox` gives is handed to
-- `util_frames_inbox` and reported by `util_frames_sent`.
unfoldable pub forward :
    (UtilFrames → UtilFrames → UtilFrames × Outcome) → UtilFrames → Outcome → UtilFrames × Outcome
forward again s overrun = (s, overrun)
forward again s (refused r) = (s, refused r)
forward again s (accepted r) = again (sent s) r

module _ (js0n : List ℕ → Bool) where
  unfoldable pub hand_over :
      (UtilFrames → UtilFrames → UtilFrames × Outcome)
      → UtilFrames × Option (List ℕ)
      → UtilFrames
      → UtilFrames × Outcome
  unfolding forward
  hand_over again (s, none) r = (s, accepted r)
  hand_over again (s, some bytes) r = forward again s (inbox js0n r bytes)

  unfoldable pub exchange : ℕ → UtilFrames → UtilFrames → UtilFrames × Outcome
  unfolding hand_over
  exchange zero s r = (s, accepted r)
  exchange (suc k) s r = hand_over (λ s r. exchange k s r) (outbox s) r

  -- A packet that `lob_direct` takes, longer than a header and no longer than `max`.
  abbrev pub Fits : ℕ → List ℕ → Type 0
  Fits max p =
      (8 < length p) × (length p ≤ max) × (length p < 4294967296) × (lob_direct js0n p ≡ some p)

  packet_step :
      (k : ℕ) (s r : UtilFrames) (p : List ℕ) (rest : List (Option (List ℕ)))
      → s.out ≡ []
      → s.is_sending ≡ false
      → r.inlen ≡ 0
      → s.magic ≡ r.magic
      → r.magic < 4294967296
      → Fits r.max p
      → drop_empties s.outbox ≡ some p ∷ rest
      → exchange (suc (suc k)) s r
        ≡ exchange k
            (record s { out = []; outbox = none ∷ rest })
            (finish js0n p (record r { filled = []; inlen = length p; inbox_err = false }))
  unfolding exchange hand_over forward
  packet_step k s r p rest fresh free idle same hm fits e =
      let header : List ℕ = to_bytes s.magic ++ to_bytes (length p) in
      let s1 : UtilFrames = record s { outbox = some p ∷ rest; out = header } in
      let r1 : UtilFrames = record r { filled = []; inlen = length p; inbox_err = false } in
      let plain : (length p == 8) ≡ false = ground arith in
      ap (λ o. hand_over (λ s r. exchange (suc k) s r) o r) (outbox_header s p rest fresh free e)
      ∙ ap (forward (λ s r. exchange (suc k) s r) s1) (
          ap (λ m. inbox js0n r (to_bytes m ++ to_bytes (length p))) same
          ∙ header_received js0n r (length p) idle hm fits.2 fits.1)
      ∙ ap (λ t. exchange (suc k) t r1)
          (sent_header s1 p rest refl (length-header s.magic (length p)))
      ∙ ap (λ o. hand_over (λ s r. exchange k s r) o r1)
          (outbox_packet (record s1 { out = p }) (omega arith))
      ∙ ap (forward (λ s r. exchange k s r) (record s1 { out = p }))
          (packet_received js0n r1 p refl refl (omega arith) plain)
      ∙ ap (λ t. exchange k t (finish js0n p r1))
          (sent_packet (record s1 { out = p }) p rest refl fits.0)

  -- When each packet that waits has more than 8 bytes, fits the receiver's max and 32 bits and is
  -- taken by lob_direct, both sides are between frames with one magic number of 32 bits, and no
  -- util_frames_send is under way, then handing each frame of util_frames_outbox to
  -- util_frames_inbox, in more than two rounds a packet, ends with all of them in the receiver's
  -- inbox, in their order, and nothing left to send.
  pub exchange_everything :
      (ps : List (List ℕ)) (k : ℕ) (s r : UtilFrames)
      → packets s.outbox ≡ ps
      → s.out ≡ []
      → s.is_sending ≡ false
      → r.inlen ≡ 0
      → s.magic ≡ r.magic
      → r.magic < 4294967296
      → All (Fits r.max) ps
      → 2 * length ps < k
      → (s2 : UtilFrames) × (r2 : UtilFrames) × (exchange k s r ≡ (s2, accepted r2))
        × (s2.outbox ≡ [])
        × (packets r2.inbox ≡ packets r.inbox ++ ps)
  unfolding exchange hand_over finish packets
  exchange_everything ps zero s r waiting fresh free idle same hm fits enough = elim enough [ ]
  exchange_everything [] (suc k) s r waiting fresh free idle same hm fits enough = (
    record s { outbox = [] },
    r,
    ap (λ o. hand_over (λ s r. exchange k s r) o r)
        (outbox_empty s fresh free (drop_empties_nil s.outbox waiting)),
    refl,
    sym (append-nil (packets r.inbox)),
  )
  exchange_everything (p ∷ ps) (suc zero) s r waiting fresh free idle same hm fits enough =
      absurd (omega arith)
  exchange_everything (p ∷ ps) (suc (suc k)) s r waiting fresh free idle same hm fits enough =
      let front = drop_empties_cons s.outbox p ps waiting in
      let s1 : UtilFrames = record s { out = []; outbox = none ∷ front.0 } in
      let r1 : UtilFrames =
        finish js0n p (record r { filled = []; inlen = length p; inbox_err = false }) in
      let last =
        exchange_everything ps k s1 r1 front.2 refl free refl same hm fits.1 (omega arith) in
      (
        last.0,
        last.1,
        packet_step k s r p front.0 fresh free idle same hm fits.0 front.1 ∙ last.2,
        last.3,
        last.4
            ∙ ap (λ l. l ++ ps) (packets-finish js0n p r fits.0.3)
            ∙ append_assoc (packets r.inbox) (p ∷ []) ps,
      )
