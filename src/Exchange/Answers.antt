-- ===== src/Exchange/Answers.antt =====
-- src/link.c: how the side with the highest number answers a handshake, and how the other one does.
use telehash_c.Prelude.{
  ℕ, ◌+◌, ◌%◌, ◌≤◌, ◌<◌, ◌≡◌, refl, sym, ap, subst, ◌∙◌, ◌⊎◌, inl, inr, true, List, [], ◌∷◌, arith,
  ◌==◌, if◌then◌else◌, Bool-cases,
}
use telehash_c.Exchange.{Exchange, HandshakeApi, Link, set_in, exchange_sync, receive_handshake}
use telehash_c.Exchange.Receiving.{
  HandshakeLaws, raise, set_in_refused, set_in_taken, set_in-cases, receive_old, receive_current,
  exchange_sync-Synced,
}
use telehash_c.Exchange.Levels.{
  le-cases, lt-or-le, raise_level, raise_higher, raise_below, raise_pos, level, other,
}

module _ {H : Type 0} (api : HandshakeApi H) (laws : HandshakeLaws api) where
  abbrev pub fresh : Link H → Link H
  fresh l = record l { sent = [] }

  -- No handshake or one, whose number is as `P` says.
  abbrev pub Reply : (ℕ → Type 0) → List H → Type 0
  Reply P hs = (hs ≡ []) ⊎ ((g : H) × (hs ≡ g ∷ []) × P (api.at g))

  abbrev pub Leading : ℕ → Link H → Type 0
  Leading m l = (l.has_pipe ≡ true) × (l.x.in_at ≤ m) × (l.x.out_at ≡ m)

  abbrev pub IsBehind : ℕ → Exchange → Type 0
  IsBehind m x = (x.in_at < m) × (x.out_at < m) × (0 < x.out_at) × (m % 2 + 1 ≡ x.order)

  abbrev pub Behind : ℕ → Link H → Type 0
  Behind m l = (l.has_pipe ≡ true) × IsBehind m l.x

  abbrev pub Agreed : ℕ → Link H → Type 0
  Agreed m l = (l.has_pipe ≡ true) × (l.x.in_at ≡ m) × (l.x.out_at ≡ m)

  -- A link that goes on with the exchange `y`: its numbers, and its answer if its own number changed.
  moved :
      (h : H) (l : Link H) (y : Exchange)
      → l.has_pipe ≡ true
      → set_in (api.at h) l.x ≡ y
      → l.x.out_at ≤ y.in_at
      → 0 < y.in_at
      → (y.out_at ≡ l.x.out_at)
      → (y.order ≡ l.x.order)
      → let r = receive_handshake api h (fresh l) in
        (r.has_pipe ≡ true)
        × (r.x.in_at ≡ y.in_at)
        × (r.x.out_at ≡ raise l.x.out_at y.in_at)
        × (r.x.order ≡ l.x.order)
        × (r.sent ≡ (if l.x.out_at == raise l.x.out_at y.in_at then [] else api.make r.x ∷ []))
  moved h l y pipe e le pos outs orders =
      let (ok, ins, raised, ordered) = exchange_sync-Synced api laws h y in
      let raised' = raised ∙ ap (λ o. raise o y.in_at) outs in
      let (pipe', same, sent) =
        receive_current api laws h (fresh l) y pipe e le
          (subst (λ n. 0 < n) (sym raised') (raise_pos l.x.out_at y.in_at pos)) in
      (
        pipe',
        ap (λ (x : Exchange). x.in_at) same ∙ ins,
        ap (λ (x : Exchange). x.out_at) same ∙ raised',
        ap (λ (x : Exchange). x.order) same ∙ ordered ∙ orders,
        sent
            ∙ ap (λ o. if l.x.out_at == o then [] else api.make (exchange_sync api h y).1 ∷ [])
                raised'
            ∙ ap (λ x. if l.x.out_at == raise l.x.out_at y.in_at then [] else api.make x ∷ [])
                (sym same),
      )

  -- No answer, if the number stays.
  silent :
      (l : Link H) (at : ℕ) (g : H)
      → at ≤ l.x.out_at
      → (if l.x.out_at == raise l.x.out_at at then [] else g ∷ []) ≡ []
  silent l at g le = rw (raise_level l.x.out_at at le, level l.x.out_at) refl

  -- A link whose number is `m` agrees on it, with no answer.
  agrees :
      (m : ℕ) (h : H) (l : Link H) (y : Exchange)
      → 0 < m
      → l.has_pipe ≡ true
      → set_in (api.at h) l.x ≡ y
      → l.x.out_at ≡ m
      → y.in_at ≡ m
      → (y.out_at ≡ l.x.out_at)
      → (y.order ≡ l.x.order)
      → let r = receive_handshake api h (fresh l) in Agreed m r × (r.sent ≡ [])
  agrees m h l y pos pipe e own ins outs orders =
      let (pipe', ins', outs', order', sent) =
        moved h l y pipe e (omega arith) (omega arith) outs orders in
      let le : y.in_at ≤ l.x.out_at = omega arith in
      (
        (pipe', ins' ∙ ins, outs' ∙ raise_level l.x.out_at y.in_at le ∙ own),
        sent ∙ silent l y.in_at (api.make (receive_handshake api h (fresh l)).x) le,
      )

  -- A link that is behind its own number sends it again when it refuses another.
  repeats :
      (h : H) (l : Link H)
      → l.has_pipe ≡ true
      → l.x.in_at < l.x.out_at
      → set_in (api.at h) l.x ≡ l.x
      → let r = receive_handshake api h (fresh l) in
        (r.has_pipe ≡ true) × (r.x ≡ l.x) × ((g : H) × (r.sent ≡ g ∷ []) × (api.at g ≡ l.x.out_at))
  repeats h l pipe less refused =
      let (pipe', same, sent) = receive_old api laws h (fresh l) pipe less refused in
      (pipe', same, (api.make l.x, sent, laws.at-make l.x))

  -- The side with the highest number keeps it, and says it again to an older one until it was told.
  pub leading :
      (m : ℕ) (h : H) (l : Link H)
      → 0 < m
      → Leading m l
      → api.at h ≤ m
      → let r = receive_handshake api h (fresh l) in
        Leading m r
        × (((r.x.in_at ≡ m) × (r.sent ≡ []))
            ⊎ ((l.x.in_at < m) × (api.at h < m) × (g : H) × (r.sent ≡ g ∷ []) × (api.at g ≡ m)))
  leading m h l pos (pipe, ins, outs) at = elim (le-cases l.x.in_at m ins) [
    | inr same ↦
        let refused = set_in_refused (api.at h) l.x (inl (omega arith)) in
        let ((pipe', ins', outs'), quiet) = agrees m h l l.x pos pipe refused outs same refl refl in
        ((pipe', omega arith, outs'), inl (ins', quiet))
    | inl less ↦ elim (le-cases (api.at h) m at) [
      | inl old ↦
          let refused = set_in_refused (api.at h) l.x (inr (omega arith)) in
          let (pipe', kept, (g, sent, own)) = repeats h l pipe (omega arith) refused in
          (
            (
              pipe',
              subst (λ (x : Exchange). x.in_at ≤ m) (sym kept) ins,
              ap (λ (x : Exchange). x.out_at) kept ∙ outs,
            ),
            inr (less, old, g, sent, own ∙ outs),
          )
      | inr now ↦
          let taken =
            set_in_taken (api.at h) l.x (omega arith) (omega arith) (inr (now ∙ sym outs)) in
          let ((pipe', ins', outs'), quiet) =
            agrees m h l (record l.x { in_at = api.at h }) pos pipe taken outs now refl refl in
          ((pipe', omega arith, outs'), inl (ins', quiet))
    ]
  ]

  -- A side that agreed on the highest number is silent.
  pub agreed :
      (m : ℕ) (h : H) (l : Link H)
      → 0 < m
      → Agreed m l
      → api.at h ≤ m
      → let r = receive_handshake api h (fresh l) in Agreed m r × (r.sent ≡ [])
  agreed m h l pos (pipe, ins, outs) at =
      agrees m h l l.x pos pipe (set_in_refused (api.at h) l.x (inl (omega arith))) outs ins refl
        refl

  -- The other side takes the highest number, and sends it back.
  pub told :
      (m : ℕ) (h : H) (l : Link H)
      → Behind m l
      → api.at h ≡ m
      → let r = receive_handshake api h (fresh l) in
        Agreed m r × ((g : H) × (r.sent ≡ g ∷ []) × (api.at g ≡ m))
  told m h l (pipe, (ins, outs, pos, fits)) at =
      let taken =
        set_in_taken (api.at h) l.x (omega arith) (omega arith)
          (inl (ap (λ n. n % 2 + 1) at ∙ fits)) in
      let r = receive_handshake api h (fresh l) in
      let (pipe', ins', outs', order', sent) =
        moved h l (record l.x { in_at = api.at h }) pipe taken (omega arith) (omega arith) refl
          refl in
      let raised = raise_higher l.x.out_at (api.at h) (omega arith) in
      (
        (pipe', ins' ∙ at, outs' ∙ raised ∙ at),
        (
          api.make r.x,
          sent ∙ rw (raised, other l.x.out_at (api.at h) (omega arith)) refl,
          laws.at-make r.x ∙ outs' ∙ raised ∙ at,
        ),
      )

  -- A link that is behind and goes on with an exchange that is behind.
  stays-Behind :
      (m : ℕ) (h : H) (l : Link H) (y : Exchange)
      → Behind m l
      → set_in (api.at h) l.x ≡ y
      → l.x.out_at ≤ y.in_at
      → y.in_at < m
      → (y.out_at ≡ l.x.out_at)
      → (y.order ≡ l.x.order)
      → let r = receive_handshake api h (fresh l) in Behind m r × Reply (λ at. at < m) r.sent
  stays-Behind m h l y (pipe, (ins, outs, pos, fits)) e le less own orders =
      let r = receive_handshake api h (fresh l) in
      let (pipe', ins', outs', order', sent) = moved h l y pipe e le (omega arith) own orders in
      let below = raise_below l.x.out_at y.in_at m outs less in
      let positive = raise_pos l.x.out_at y.in_at (omega arith) in
      let small : r.x.out_at < m = omega arith in
      let made = laws.at-make r.x in
      (
        (pipe', (omega arith, small, omega arith, fits ∙ sym order')),
        elim (Bool-cases (l.x.out_at == raise l.x.out_at y.in_at)) [
          | inl same ↦ inl (sent ∙ rw same refl)
          | inr changed ↦ inr (api.make r.x, sent ∙ rw changed refl, omega arith)
        ],
      )

  -- Before that it stays behind, and what it sends is behind.
  pub behind :
      (m : ℕ) (h : H) (l : Link H)
      → Behind m l
      → api.at h < m
      → let r = receive_handshake api h (fresh l) in Behind m r × Reply (λ at. at < m) r.sent
  behind m h l b at = elim (set_in-cases (api.at h) l.x) [
    | inr (taken, le) ↦ stays-Behind m h l (record l.x { in_at = api.at h }) b taken le at refl refl
    | inl refused ↦ elim (lt-or-le l.x.in_at l.x.out_at) [
      | inr le ↦ stays-Behind m h l l.x b refused le b.1.0 refl refl
      | inl less ↦
          let (pipe', kept, (g, sent, own)) = repeats h l b.0 less refused in
          ((pipe', subst (IsBehind m) (sym kept) b.1), inr (g, sent, omega arith))
    ]
  ]
