-- ===== src/Exchange/Replay.antt =====
-- src/link.c: an older handshake that comes again to a link that is up.
use telehash_c.Prelude.{
  ℕ, ◌<◌, ◌≡◌, ◌≢◌, refl, sym, ap, ◌∙◌, inl, inr, Bool, true, false, not, ◌&&◌, some, arith, ltb,
  ◌==◌, Bool-cases,
}
use telehash_c.Exchange.{
  Exchange, HandshakeApi, Link, set_in, raise_out, new_ephem, sync_ephem, exchange_sync, is_up,
  notify, resync_if, settle, take_handshake, receive_handshake,
}
use telehash_c.Exchange.Receiving.{set_in_refused}

same_number : (a b : ℕ) → a ≡ b → (a == b) ≡ true
same_number a b e = ground arith

other_number : (a b : ℕ) → a ≢ b → (a == b) ≡ false
other_number a b e = ground arith

not_more : (a b : ℕ) → a ≡ b → ltb a b ≡ false
not_more a b e = ground arith

module _ {H : Type 0} (api : HandshakeApi H) where
  abbrev rekeyed : H → ℕ → Exchange → Exchange
  rekeyed h p x = record x { ephem = some p; eid = api.eid h; last = 0 }

  exchange_sync-rekeys :
      (h : H) (p : ℕ) (x : Exchange)
      → x.in_at ≡ x.out_at
      → api.is_long h ≡ true
      → api.eid h ≢ x.eid
      → api.ephemeral_new h ≡ some p
      → exchange_sync api h x ≡ (true, rekeyed h p x)
  unfolding exchange_sync sync_ephem new_ephem raise_out
  exchange_sync-rekeys h p x level long other made =
      rw (long, not_more x.out_at x.in_at (sym level), other_number (api.eid h) x.eid other, made)
        refl

  notify-keeps :
      (up : Bool) (l : Link H) → ((notify api up l).x ≡ l.x) × ((notify api up l).sent ≡ l.sent)
  unfolding notify
  notify-keeps up l = elim (Bool-cases (not up && is_up api l)) [
    | inl told ↦ rw told (refl, refl)
    | inr quiet ↦ rw quiet (refl, refl)
  ]

  settle-keeps :
      (out : ℕ) (up : Bool) (h : H) (x : Exchange) (l : Link H)
      → out ≡ x.out_at
      → let r = settle api out up h (true, x) l in
        (r.x ≡ x) × (r.sent ≡ l.sent) × (r.handshake ≡ some h)
  unfolding settle resync_if
  settle-keeps out up h x l e =
      let (kept, sent) = notify-keeps up (record l { x = x }) in
      rw (same_number out x.out_at e) (kept, sent, refl)

  take_level :
      (h : H) (l : Link H) (r : Bool × Exchange)
      → l.x.in_at ≡ l.x.out_at
      → exchange_sync api h l.x ≡ r
      → take_handshake api h l.x l ≡ settle api l.x.out_at (is_up api l) h r l
  unfolding take_handshake
  take_level h l r level synced =
      rw (not_more l.x.in_at l.x.out_at level)
        (ap (λ r. settle api l.x.out_at (is_up api l) h r l) synced)

  receive_verified :
      (h : H) (l : Link H) (y : Exchange)
      → api.verifies h ≡ true
      → set_in (api.at h) l.x ≡ y
      → receive_handshake api h l ≡ take_handshake api h y l
  unfolding receive_handshake
  receive_verified h l y verified e = rw verified (ap (λ y. take_handshake api h y l) e)

  -- A link whose numbers in and out are one gets a handshake with a smaller number, which is verified
  -- and gives an ephemeral key of another id: the link takes that key for its own, forgets the last
  -- channel id, and keeps the handshake; its numbers stay, and it sends nothing.
  pub old_handshake_rekeys :
      (h : H) (p : ℕ) (l : Link H)
      → l.x.in_at ≡ l.x.out_at
      → api.at h < l.x.in_at
      → api.verifies h ≡ true
      → api.is_long h ≡ true
      → api.eid h ≢ l.x.eid
      → api.ephemeral_new h ≡ some p
      → let r = receive_handshake api h l in
        (r.x ≡ record l.x { ephem = some p; eid = api.eid h; last = 0 })
        × (r.sent ≡ l.sent)
        × (r.handshake ≡ some h)
  old_handshake_rekeys h p l level old verified long other made =
      let branch =
        receive_verified h l l.x verified (set_in_refused (api.at h) l.x (inl (omega arith)))
        ∙ take_level h l (true, rekeyed h p l.x) level
            (exchange_sync-rekeys h p l.x level long other made) in
      rw branch (settle-keeps l.x.out_at (is_up api l) h (rekeyed h p l.x) l refl)
