-- ===== src/Channel/Receiving.antt =====
-- js/core.js, class Channel: the packets that wait on the C channel.
use telehash_c.Prelude.{
  ℕ, zero, suc, ◌<◌, ◌≡◌, refl, sym, ap, ◌∙◌, inl, inr, Option, none, some, List, [], ◌∷◌, ◌++◌,
  append-nil, snoc_append, arith, Option-cases,
}
use telehash_c.Channel.{
  Packet, ChannelApi, ChannelLaws, Channel, push_or_report, receive_loop, handle,
}

module _ {C J B : Type 0} (api : ChannelApi C J B) where
  -- The pointers that the C channel gives, one after the other, and what is left of it.
  unfoldable pub given : ℕ → C → List ℕ × C
  given zero c = ([], c)
  given (suc fuel) c =
      let (p, c') = api.receiving c in
      elim p [ none ↦ ([], c') | some p ↦ let (ps, c'') = given fuel c' in (p ∷ ps, c'') ]

  abbrev pub kept : Option (Packet J B) → List (Packet J B) → List (Packet J B)
  kept none rest = rest
  kept (some packet) rest = packet ∷ rest

  -- Those that lob-enc can read, and those that it cannot.
  unfoldable pub readable : List ℕ → List (Packet J B)
  readable [] = []
  readable (p ∷ ps) = kept (api.decode p) (readable ps)

  abbrev pub refused : Option (Packet J B) → ℕ → List ℕ → List ℕ
  refused none p rest = p ∷ rest
  refused (some packet) p rest = rest

  unfoldable pub unreadable : List ℕ → List ℕ
  unreadable [] = []
  unreadable (p ∷ ps) = refused (api.decode p) p (unreadable ps)

  push_or_report_lem :
      (p : ℕ) (d : Option (Packet J B)) (t : Channel C J B) (rest : List (Packet J B))
      (bad : List ℕ)
      → ((push_or_report api p d t).pushed ++ rest ≡ t.pushed ++ kept d rest)
        × ((push_or_report api p d t).bad ++ bad ≡ t.bad ++ refused d p bad)
        × ((push_or_report api p d t).chan ≡ t.chan)
  unfolding push_or_report
  push_or_report_lem p none t rest bad = (refl, snoc_append t.bad p bad, refl)
  push_or_report_lem p (some packet) t rest bad = (snoc_append t.pushed packet rest, refl, refl)

  abbrev Result : ℕ → Channel C J B → Type 0
  Result k t =
      ((receive_loop api k t).pushed ≡ t.pushed ++ readable (given k t.chan).0)
      × ((receive_loop api k t).bad ≡ t.bad ++ unreadable (given k t.chan).0)
      × ((receive_loop api k t).chan ≡ (given k t.chan).1)

  receive_step :
      (k p : ℕ) (c : C) (t : Channel C J B)
      → Result k (push_or_report api p (api.decode p) (record t { chan = c }))
      → let u = receive_loop api k (push_or_report api p (api.decode p) (record t { chan = c })) in
        (u.pushed ≡ t.pushed ++ kept (api.decode p) (readable (given k c).0))
        × (u.bad ≡ t.bad ++ refused (api.decode p) p (unreadable (given k c).0))
        × (u.chan ≡ (given k c).1)
  receive_step k p c t (pushed, bad, chan) =
      let u = push_or_report api p (api.decode p) (record t { chan = c }) in
      let (a, b, same) =
        push_or_report_lem p (api.decode p) (record t { chan = c }) (readable (given k c).0)
          (unreadable (given k c).0) in
      (
        pushed ∙ ap (λ (d : C). u.pushed ++ readable (given k d).0) same ∙ a,
        bad ∙ ap (λ (d : C). u.bad ++ unreadable (given k d).0) same ∙ b,
        chan ∙ ap (λ (d : C). (given k d).1) same,
      )

  receive_loop_lem : (k : ℕ) (t : Channel C J B) → Result k t
  unfolding receive_loop given readable unreadable
  receive_loop_lem zero t = (sym (append-nil t.pushed), sym (append-nil t.bad), refl)
  receive_loop_lem (suc k) t = elim (Option-cases (api.receiving t.chan).0) [
    | inl e ↦ rw (e, receive_loop, given) (sym (append-nil t.pushed), sym (append-nil t.bad), refl)
    | inr (p, e) ↦
        rw (e, receive_loop, given)
          (receive_step k p _ t (receive_loop_lem k (push_or_report api p (api.decode p) _)))
  ]

  -- What the loop leaves of the C channel.
  pub handle_chan :
      (t : Channel C J B) → (handle api t).chan ≡ (given (suc (api.waiting t.chan)) t.chan).1
  unfolding handle
  handle_chan t = (receive_loop_lem (suc (api.waiting t.chan)) t).2

module _ {C J B : Type 0} (api : ChannelApi C J B) (laws : ChannelLaws api) where
  given_ends : (k : ℕ) (c : C) → api.waiting c < k → api.waiting (given api k c).1 ≡ 0
  unfolding given
  given_ends zero c h = elim h [ ]
  given_ends (suc k) c h = elim (Option-cases (api.receiving c).0) [
    | inl e ↦ rw (e, given) (laws.receiving_none c e)
    | inr (p, e) ↦
        rw (e, given) (given_ends k (api.receiving c).1 (omega (arith, laws.receiving_some c p e)))
  ]

  -- When the C library reports packets, the channel takes every one that waits: those that lob-enc can
  -- read are pushed to the application in their order, the others are reported, and none is left.
  pub handle_takes_all :
      (t : Channel C J B)
      → let ps = (given api (suc (api.waiting t.chan)) t.chan).0 in
        ((handle api t).pushed ≡ t.pushed ++ readable api ps)
        × ((handle api t).bad ≡ t.bad ++ unreadable api ps)
        × (api.waiting (handle api t).chan ≡ 0)
  unfolding handle
  handle_takes_all t =
      let (pushed, bad, chan) = receive_loop_lem api (suc (api.waiting t.chan)) t in
      (pushed, bad, ap api.waiting chan ∙ given_ends _ t.chan (omega arith))
