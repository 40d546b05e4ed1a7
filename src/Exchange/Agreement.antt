-- ===== src/Exchange/Agreement.antt =====
-- src/link.c: two sides that send each other handshakes agree on the highest number.
use telehash_c.Prelude.{
  ℕ, suc, ◌+◌, ◌*◌, ◌%◌, ◌≤◌, ◌<◌, ◌≡◌, refl, subst, ◌⊎◌, inl, inr, true, Option, none, some, List,
  [], ◌∷◌, arith, length,
}
use telehash_c.Exchange.{HandshakeApi, receive_handshake}
use telehash_c.Exchange.Receiving.{HandshakeLaws}
use telehash_c.Exchange.Levels.{le-cases}
use telehash_c.Exchange.Answers.{fresh, Behind, leading, agreed, told, behind}
use telehash_c.Exchange.Delivery.{
  Sides, Arrival, at_a, at_b, Picked, pick, answer, arrive_a, arrive_b, arrive, then_arrive,
  arrive_all,
}
use telehash_c.Exchange.Counting.{
  new_in, UpTo, counts-length, Tally-none, Tally-new, Tally-old, Parts, pick-Parts,
}
use telehash_c.Exchange.Rounds.{cost, Holds, Cheaper, late-Behind, after_a, after_b}

module _ {H : Type 0} (api : HandshakeApi H) (laws : HandshakeLaws api) (m : ℕ) (pos : 0 < m) where
  arrive_a-Cheaper :
      (s : Sides H) (o : Option (Picked H))
      → Holds api laws m pos s
      → Parts api.at m s.to_a o
      → Cheaper api laws m pos (cost api laws m pos s) (arrive_a api s o)
  unfolding arrive_a answer
  arrive_a-Cheaper s none holds parts = tt
  arrive_a-Cheaper s (some p) holds parts =
      let (leads, reply) = leading api laws m p.one s.a pos holds.0 parts.2 in
      after_a api laws m pos s p (receive_handshake api p.one (fresh api laws s.a)) holds parts
        leads reply

  arrive_b-Cheaper :
      (s : Sides H) (o : Option (Picked H))
      → Holds api laws m pos s
      → Parts api.at m s.to_b o
      → Cheaper api laws m pos (cost api laws m pos s) (arrive_b api s o)
  unfolding arrive_b answer
  arrive_b-Cheaper s none holds parts = tt
  arrive_b-Cheaper s (some p) holds parts =
      let r = receive_handshake api p.one (fresh api laws s.b) in
      elim holds.3 [
        | inr (b, back) ↦
            let (b', quiet) = agreed api laws m p.one s.b pos b parts.2 in
            after_b api laws m pos s p r 0 0 holds parts (Tally-none api.at m r.sent quiet) (
              inr (
                b',
                elim back [ inl here ↦ inl here | inr coming ↦ inr (omega arith) ],
                refl,
                omega arith,
              ))
        | inl (b, coming) ↦
            let was = late-Behind api laws m pos s.b b in
            elim (le-cases (api.at p.one) m parts.2) [
              | inr now ↦
                  let (b', (g, sent, own)) = told api laws m p.one s.b b now in
                  after_b api laws m pos s p r 1 0 holds parts
                    (Tally-new api.at m r.sent g sent own)
                    (inr (b', inr (omega arith), refl, omega arith))
              | inl before ↦
                  let (b', reply) = behind api laws m p.one s.b b before in
                  elim reply [
                    | inl quiet ↦
                        after_b api laws m pos s p r 0 0 holds parts
                          (Tally-none api.at m r.sent quiet)
                          (inl (b', was, before, coming, omega arith))
                    | inr (g, sent, old) ↦
                        after_b api laws m pos s p r 0 1 holds parts
                          (Tally-old api.at m r.sent g sent old)
                          (inl (b', was, before, coming, omega arith))
                  ]
            ]
      ]

  arrive-Cheaper :
      (e : Arrival) (s : Sides H)
      → Holds api laws m pos s
      → Cheaper api laws m pos (cost api laws m pos s) (arrive api e s)
  unfolding arrive
  arrive-Cheaper (at_a i) s holds =
      arrive_a-Cheaper s (pick i s.to_a) holds (pick-Parts api.at m i s.to_a holds.1)
  arrive-Cheaper (at_b i) s holds =
      arrive_b-Cheaper s (pick i s.to_b) holds (pick-Parts api.at m i s.to_b holds.2)

  -- What a row of `n` arrivals leaves, of what could arrive before.
  abbrev Leaves : ℕ → ℕ → Option (Sides H) → Type 0
  Leaves n before none = Unit
  Leaves n before (some t) = Holds api laws m pos t × (n + cost api laws m pos t ≤ before)

  Leaves-one_more :
      (n before after : ℕ) (o : Option (Sides H))
      → after < before
      → Leaves n after o
      → Leaves (suc n) before o
  Leaves-one_more n before after none lt leaves = tt
  Leaves-one_more n before after (some t) lt (holds, le) = (holds, omega arith)

  then_Leaves :
      (es : List Arrival) (before : ℕ) (o : Option (Sides H))
      → Cheaper api laws m pos before o
      → ((s : Sides H)
          → Holds api laws m pos s
          → Leaves (length es) (cost api laws m pos s) (arrive_all api es s))
      → Leaves (suc (length es)) before (then_arrive api (λ s. arrive_all api es s) o)
  unfolding then_arrive
  then_Leaves es before none cheaper rest = tt
  then_Leaves es before (some s) (holds, lt) rest =
      Leaves-one_more (length es) before (cost api laws m pos s) (arrive_all api es s) lt
        (rest s holds)

  arrive_all-Leaves :
      (es : List Arrival) (s : Sides H)
      → Holds api laws m pos s
      → Leaves (length es) (cost api laws m pos s) (arrive_all api es s)
  unfolding arrive_all
  arrive_all-Leaves [] s holds = (holds, omega arith)
  arrive_all-Leaves (e ∷ es) s holds =
      then_Leaves es (cost api laws m pos s) (arrive api e s) (arrive-Cheaper e s holds)
        (λ t h. arrive_all-Leaves es t h)

  cost_le :
      (s : Sides H)
      → Behind api laws m s.b
      → cost api laws m pos s ≤ 2 * length s.to_a + 3 * length s.to_b + 1
  unfolding cost
  cost_le s b =
      let was = late-Behind api laws m pos s.b b in
      let all_a = counts-length api.at m s.to_a in
      let all_b = counts-length api.at m s.to_b in omega arith

  quiet_or_not :
      (t : Sides H)
      → Holds api laws m pos t
      → (0 < length t.to_a + length t.to_b)
        ⊎ (((t.a.x.in_at ≡ m) × (t.a.x.out_at ≡ m)) × ((t.b.x.in_at ≡ m) × (t.b.x.out_at ≡ m)))
  quiet_or_not t ((pipe, ins, outs), up_a, up_b, told) =
      let all_a = counts-length api.at m t.to_a in
      let all_b = counts-length api.at m t.to_b in
      elim told [
        | inl (b, coming) ↦ inl (omega arith)
        | inr (b, inr back) ↦ inl (omega arith)
        | inr (b, inl here) ↦ inr ((here, outs), (b.1, b.2))
      ]

  -- Two links with pipes, one with the number `m` as its own, the other with smaller ones, one of its
  -- own, and the order that takes `m`; the handshakes on the way have numbers up to `m`, and one with `m`
  -- is on the way to the other side. Then whatever arrives in whatever order, no more than two
  -- handshakes for each that was on the way to the first, three for each to the other and one more can
  -- arrive, and when none is on the way any more, the numbers in and out of both sides are `m`.
  pub arrive_all-agrees :
      (es : List Arrival) (s t : Sides H)
      → (s.a.has_pipe ≡ true) × (s.b.has_pipe ≡ true)
      → (s.a.x.in_at ≤ m) × (s.a.x.out_at ≡ m)
      → (s.b.x.in_at < m) × (s.b.x.out_at < m) × (0 < s.b.x.out_at) × (m % 2 + 1 ≡ s.b.x.order)
      → UpTo api.at m s.to_a
      → UpTo api.at m s.to_b
      → 0 < new_in api.at m s.to_b
      → arrive_all api es s ≡ some t
      → (length es ≤ 2 * length s.to_a + 3 * length s.to_b + 1)
        × ((0 < length t.to_a + length t.to_b)
            ⊎ (((t.a.x.in_at ≡ m) × (t.a.x.out_at ≡ m)) × ((t.b.x.in_at ≡ m) × (t.b.x.out_at ≡ m))))
  arrive_all-agrees es s t pipes ins smaller up_a up_b coming e =
      let b : Behind api laws m s.b = (pipes.1, smaller) in
      let all = arrive_all-Leaves es s ((pipes.0, ins.0, ins.1), up_a, up_b, inl (b, coming)) in
      let (holds, le) = subst (Leaves (length es) (cost api laws m pos s)) e all in
      let bound = cost_le s b in (omega arith, quiet_or_not t holds)
