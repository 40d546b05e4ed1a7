-- ===== src/Exchange/Rounds.antt =====
-- src/link.c: what is on the way between two sides, before and after a handshake arrives.
use telehash_c.Prelude.{
  ℕ, ◌+◌, ◌*◌, ◌≤◌, ◌<◌, ◌≡◌, refl, ◌⊎◌, inl, inr, Option, none, some, [], ◌∷◌, ◌++◌, arith, ◌==◌,
  if◌then◌else◌,
}
use telehash_c.Exchange.{HandshakeApi, Link}
use telehash_c.Exchange.Receiving.{HandshakeLaws}
use telehash_c.Exchange.Answers.{Leading, Behind, Agreed, told}
use telehash_c.Exchange.Delivery.{Sides, Picked}
use telehash_c.Exchange.Counting.{
  new_in, old_in, UpTo, Tally, Tally-none, Tally-new, Tally-old, one-Tally, Tally-append, Parts,
}

absurd_lt : (a m : ℕ) → a < m → a ≡ m → ⊥
absurd_lt a m lt e = omega arith

module _ {H : Type 0} (api : HandshakeApi H) (laws : HandshakeLaws api) (m : ℕ) (pos : 0 < m) where
  unfoldable pub late : Link H → ℕ
  late l = if l.x.out_at == m then 0 else 1

  -- How many more handshakes can arrive.
  unfoldable pub cost : Sides H → ℕ
  cost s =
      new_in api.at m s.to_a
      + 2 * old_in api.at m s.to_a
      + new_in api.at m s.to_b
      + 3 * old_in api.at m s.to_b
      + late s.b

  -- Until `b` was told the number, it is on the way to it; and then on the way back, until it is back.
  abbrev pub Told : Sides H → Type 0
  Told s =
      (Behind api laws m s.b × (0 < new_in api.at m s.to_b))
      ⊎ (Agreed api laws m s.b × ((s.a.x.in_at ≡ m) ⊎ (0 < new_in api.at m s.to_a)))

  abbrev pub Holds : Sides H → Type 0
  Holds s = Leading api laws m s.a × UpTo api.at m s.to_a × UpTo api.at m s.to_b × Told s

  pub late-Behind : (l : Link H) → Behind api laws m l → late l ≡ 1
  unfolding late
  late-Behind l b = let less = b.1.1 in ground arith

  pub late-Agreed : (l : Link H) → Agreed api laws m l → late l ≡ 0
  unfolding late
  late-Agreed l (pipe, ins, outs) = ground arith

  abbrev pub Cheaper : ℕ → Option (Sides H) → Type 0
  Cheaper n none = Unit
  Cheaper n (some s) = Holds s × (cost s < n)

  pub after_a :
      (s : Sides H) (p : Picked H) (r : Link H)
      → Holds s
      → Parts api.at m s.to_a (some p)
      → Leading api laws m r
      → ((r.x.in_at ≡ m) × (r.sent ≡ []))
        ⊎ ((s.a.x.in_at < m) × (api.at p.one < m) × (g : H) × (r.sent ≡ g ∷ []) × (api.at g ≡ m))
      → let t = record s { a = r; to_a = p.others; to_b = s.to_b ++ r.sent } in
        Holds t × (cost t < cost s)
  unfolding cost
  after_a s p r (leads, up_a, up_b, told) (news, olds, one, others) leads' (inl (ins, quiet)) =
      let (new, old, up) =
        Tally-append api.at m s.to_b r.sent 0 0 up_b (Tally-none api.at m r.sent quiet) in
      (
        (
          leads',
          others,
          up,
          elim told [ inl (b, coming) ↦ inl (b, omega arith) | inr (b, back) ↦ inr (b, inl ins) ],
        ),
        elim (one-Tally api.at m p.one one) [
          | inl (now, (n, o, u)) ↦ omega arith
          | inr (before, (n, o, u)) ↦ omega arith
        ],
      )
  after_a s p r (leads, up_a, up_b, told) (news, olds, one, others) leads'
        (inr (less, before, g, sent, own)) =
      let (new, old, up) =
        Tally-append api.at m s.to_b r.sent 1 0 up_b (Tally-new api.at m r.sent g sent own) in
      let (n, o, u) = Tally-old api.at m (p.one ∷ []) p.one refl before in
      (
        (
          leads',
          others,
          up,
          elim told [
            | inl (b, coming) ↦ inl (b, omega arith)
            | inr (b, inl back) ↦ elim (absurd_lt s.a.x.in_at m less back) [ ]
            | inr (b, inr back) ↦ inr (b, inr (omega arith))
          ],
        ),
        omega arith,
      )

  pub after_b :
      (s : Sides H) (p : Picked H) (r : Link H) (news' olds' : ℕ)
      → Holds s
      → Parts api.at m s.to_b (some p)
      → Tally api.at m news' olds' r.sent
      → ((Behind api laws m r
            × (late s.b ≡ 1)
            × (api.at p.one < m)
            × (0 < new_in api.at m s.to_b)
            × (news' + olds' ≤ 1))
          ⊎ (Agreed api laws m r
              × ((s.a.x.in_at ≡ m) ⊎ (0 < new_in api.at m s.to_a + news'))
              × (olds' ≡ 0)
              × (news' ≤ late s.b)))
      → let t = record s { b = r; to_b = p.others; to_a = s.to_a ++ r.sent } in
        Holds t × (cost t < cost s)
  unfolding cost
  after_b s p r news' olds' (leads, up_a, up_b, told) (news, olds, one, others) tally
        (inl (b, was, before, coming, few)) =
      let (new, old, up) = Tally-append api.at m s.to_a r.sent news' olds' up_a tally in
      let (n, o, u) = Tally-old api.at m (p.one ∷ []) p.one refl before in
      let is = late-Behind r b in ((leads, up, others, inl (b, omega arith)), omega arith)
  after_b s p r news' olds' (leads, up_a, up_b, told) (news, olds, one, others) tally
        (inr (b, back, none_old, few)) =
      let (new, old, up) = Tally-append api.at m s.to_a r.sent news' olds' up_a tally in
      let is = late-Agreed r b in
      (
        (
          leads,
          up,
          others,
          inr (b, elim back [ inl here ↦ inl here | inr coming ↦ inr (omega arith) ]),
        ),
        elim (one-Tally api.at m p.one one) [
          | inl (now, (n, o, u)) ↦ omega arith
          | inr (before, (n, o, u)) ↦ omega arith
        ],
      )
