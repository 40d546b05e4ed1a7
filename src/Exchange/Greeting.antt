-- ===== src/Exchange/Greeting.antt =====
-- src/link.c: two links that are loaded and given pipes, and the handshakes that follow.
use telehash_c.Prelude.{
  ℕ, ◌+◌, ◌%◌, ◌^◌, ◌≤◌, ◌<◌, ◌≡◌, ◌≢◌, refl, sym, ap, subst, ◌∙◌, ◌⊎◌, inl, inr, true, false, some,
  List, [], ◌∷◌, arith, ltb, ◌==◌, length, map,
}
use telehash_c.Exchange.{
  Exchange, order_of, new, with_order, set_out, HandshakeApi, Link, load, link_pipe,
}
use telehash_c.Exchange.Receiving.{HandshakeLaws, link_sync-Shows}
use telehash_c.Exchange.Ids.{orders_differ}
use telehash_c.Exchange.Delivery.{Sides, Arrival, arrive_all}
use telehash_c.Exchange.Counting.{new_in, UpTo, one_new}
use telehash_c.Exchange.Swapping.{swap, swap_arrival, swap_all, arrive_all-swap, length-map}
use telehash_c.Exchange.Agreement.{arrive_all-agrees}

module _ {H : Type 0} (api : HandshakeApi H) where
  -- Both sides, with the first handshake of each on its way to the other.
  unfoldable pub greeting : Link H → Link H → Sides H
  greeting a b = record { a = a; b = b; to_a = b.sent; to_b = a.sent }

set_out-new :
    (order now : ℕ)
    → 0 < now
    → set_out now (new order) ≡ record (new order) { out_at = with_order order now }
unfolding set_out new
set_out-new order now pos =
    let zero_less : ltb 0 now ≡ true = ground arith in
    let some_time : (now == 0) ≡ false = ground arith in rw (zero_less, some_time) refl

-- The numbers of the side with the order 2 are even, those of the side with the order 1 are odd.
with_order-two :
    (now : ℕ) → 0 < now → now + 1 < 2 ^ 32 → (0 < with_order 2 now) × (with_order 2 now % 2 ≡ 0)
unfolding with_order
with_order-two now pos small = (ground arith, ground arith)

with_order-one :
    (now : ℕ) → 0 < now → now + 1 < 2 ^ 32 → (0 < with_order 1 now) × (with_order 1 now % 2 ≡ 1)
unfolding with_order
with_order-one now pos small = (ground arith, ground arith)

abbrev Orders : ℕ → ℕ → Type 0
Orders order order' = ((order ≡ 1) × (order' ≡ 2)) ⊎ ((order ≡ 2) × (order' ≡ 1))

other_way : (order order' : ℕ) → Orders order order' → Orders order' order
other_way order order' (inl (one, two)) = inr (two, one)
other_way order order' (inr (two, one)) = inl (one, two)

with_order-fits :
    (order order' now : ℕ)
    → Orders order order'
    → 0 < now
    → now + 1 < 2 ^ 32
    → (0 < with_order order now) × (with_order order now % 2 + 1 ≡ order')
with_order-fits order order' now (inl (one, two)) pos small =
    let (own, odd) = with_order-one now pos small in
    let same = ap (λ o. with_order o now) one in (omega arith, omega arith)
with_order-fits order order' now (inr (two, one)) pos small =
    let (own, even) = with_order-two now pos small in
    let same = ap (λ o. with_order o now) two in (omega arith, omega arith)

less_or_more :
    (order order' m m' : ℕ)
    → Orders order order'
    → m % 2 + 1 ≡ order'
    → m' % 2 + 1 ≡ order
    → (m < m') ⊎ (m' < m)
less_or_more order order' m m' (inl orders) fits fits' = ground arith
less_or_more order order' m m' (inr orders) fits fits' = ground arith

module _ {H : Type 0} (api : HandshakeApi H) (laws : HandshakeLaws api) where
  -- A link that sent one handshake, with its number.
  abbrev Greets : ℕ → ℕ → Link H → Type 0
  Greets order m l =
      (l.has_pipe ≡ true)
      × (l.x.in_at ≡ 0)
      × (l.x.out_at ≡ m)
      × (l.x.order ≡ order)
      × ((h : H) × (l.sent ≡ h ∷ []) × (api.at h ≡ m))

  load-Greets :
      (order now : ℕ)
      → 0 < now
      → 0 < with_order order now
      → Greets order (with_order order now) (link_pipe api (load api order now))
  unfolding link_pipe load
  load-Greets order now pos own =
      let l = record (load api order now) { has_pipe = true } in
      let e = set_out-new order now pos in
      let (pipe, same, sent) =
        link_sync-Shows api laws l refl (subst (λ (x : Exchange). 0 < x.out_at) (sym e) own) in
      (
        pipe,
        ap (λ (x : Exchange). x.in_at) (same ∙ e),
        ap (λ (x : Exchange). x.out_at) (same ∙ e),
        ap (λ (x : Exchange). x.order) (same ∙ e),
        (api.make l.x, sent, laws.at-make l.x ∙ ap (λ (x : Exchange). x.out_at) e),
      )

  -- The numbers of both sides are `m`, unless a handshake is on its way.
  abbrev pub Settled : ℕ → Sides H → Type 0
  Settled m t =
      (0 < length t.to_a + length t.to_b)
      ⊎ (((t.a.x.in_at ≡ m) × (t.a.x.out_at ≡ m)) × ((t.b.x.in_at ≡ m) × (t.b.x.out_at ≡ m)))

  greeting_settles :
      (oa ob ma mb : ℕ) (a b : Link H) (es : List Arrival) (t : Sides H)
      → Greets oa ma a
      → Greets ob mb b
      → 0 < mb
      → mb < ma
      → ma % 2 + 1 ≡ ob
      → arrive_all api es (greeting api a b) ≡ some t
      → (length es ≤ 6) × Settled ma t
  unfolding greeting
  greeting_settles oa ob ma mb a b es t (pipe_a, in_a, out_a, order_a, (h, sent_a, at_h))
        (pipe_b, in_b, out_b, order_b, (g, sent_b, at_g)) pos less fits e =
      let one_a = ap length sent_a in
      let one_b = ap length sent_b in
      let up_a = subst (UpTo api.at ma) (sym sent_b) (omega arith, tt) in
      let up_b = subst (UpTo api.at ma) (sym sent_a) (omega arith, tt) in
      let coming = ap (new_in api.at ma) sent_a ∙ (one_new api.at ma h at_h).0 in
      let (le, settled) =
        arrive_all-agrees api laws ma (omega arith) es (greeting api a b) t (pipe_a, pipe_b)
          (omega arith, out_a) (omega arith, omega arith, omega arith, fits ∙ sym order_b) up_a up_b
          (omega arith) e in
      (omega arith, settled)

  Settled-swap : (m : ℕ) (t : Sides H) → Settled m (swap api t) → Settled m t
  unfolding swap
  Settled-swap m t (inl busy) = inl (omega arith)
  Settled-swap m t (inr (b, a)) = inr (a, b)

  greeting_settles_swapped :
      (oa ob ma mb : ℕ) (a b : Link H) (es : List Arrival) (t : Sides H)
      → Greets oa ma a
      → Greets ob mb b
      → 0 < ma
      → ma < mb
      → mb % 2 + 1 ≡ oa
      → arrive_all api es (greeting api a b) ≡ some t
      → (length es ≤ 6) × Settled mb t
  unfolding greeting swap
  greeting_settles_swapped oa ob ma mb a b es t greets_a greets_b pos less fits e =
      let (le, settled) =
        greeting_settles ob oa mb ma b a (map (swap_arrival api) es) (swap api t) greets_b greets_a
          pos less fits (arrive_all-swap api es (greeting api a b) ∙ ap (swap_all api) e) in
      let same = length-map (swap_arrival api) es in (omega arith, Settled-swap mb t settled)

  -- Two links whose keys are different and of one length are loaded at any times but 0 and the largest,
  -- and given pipes, and each sends its first handshake. Then, in whatever order handshakes arrive, at
  -- most six arrive, and when none is on its way any more, there is one number, not 0, that both sides
  -- have in and out: both links are up.
  pub greeting_agrees :
      (order order' now now' : ℕ) (key self : List ℕ) (es : List Arrival) (t : Sides H)
      → length key ≡ length self
      → key ≢ self
      → order_of key self ≡ some order
      → order_of self key ≡ some order'
      → (0 < now) × (now + 1 < 2 ^ 32)
      → (0 < now') × (now' + 1 < 2 ^ 32)
      → arrive_all api es
          (greeting api (link_pipe api (load api order now)) (link_pipe api (load api order' now')))
        ≡ some t
      → (length es ≤ 6) × ((m : ℕ) × (0 < m) × Settled m t)
  greeting_agrees order order' now now' key self es t same apart e e' times times' arrived =
      let orders = orders_differ key self order order' same apart e e' in
      let (pos, fits) = with_order-fits order order' now orders times.0 times.1 in
      let (pos', fits') =
        with_order-fits order' order now' (other_way order order' orders) times'.0 times'.1 in
      let m = with_order order now in
      let m' = with_order order' now' in
      let a = link_pipe api (load api order now) in
      let b = link_pipe api (load api order' now') in
      let greets_a = load-Greets order now times.0 pos in
      let greets_b = load-Greets order' now' times'.0 pos' in
      elim (less_or_more order order' m m' orders fits fits') [
        | inl less ↦
            let (le, settled) =
              greeting_settles_swapped order order' m m' a b es t greets_a greets_b pos less fits'
                arrived in
            (le, (m', pos', settled))
        | inr more ↦
            let (le, settled) =
              greeting_settles order order' m m' a b es t greets_a greets_b pos' more fits
                arrived in
            (le, (m, pos, settled))
      ]
