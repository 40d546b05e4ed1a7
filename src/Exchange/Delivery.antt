-- ===== src/Exchange/Delivery.antt =====
-- src/link.c: two sides of a link that send each other handshakes, which arrive in any order.
use telehash_c.Prelude.{ℕ, zero, suc, Option, none, some, List, [], ◌∷◌, ◌++◌}
use telehash_c.Exchange.{HandshakeApi, Link, receive_handshake}

-- The handshakes on the way, and the two links.
pub record Sides (H : Type 0) : Type 0 where
  pub a : Link H
  pub b : Link H
  pub to_a : List H
  pub to_b : List H

-- A handshake to `a`, or to `b`, with so many others passed over.
pub data Arrival : Type 0 where
  at_a at_b : ℕ → Arrival

pub record Picked (H : Type 0) : Type 0 where
  pub one : H
  pub others : List H

unfoldable pub put_back : {H : Type 0} → H → Option (Picked H) → Option (Picked H)
put_back h none = none
put_back h (some p) = some (record p { others = h ∷ p.others })

unfoldable pub pick : {H : Type 0} → ℕ → List H → Option (Picked H)
unfolding put_back
pick i [] = none
pick zero (h ∷ hs) = some (record { one = h; others = hs })
pick (suc i) (h ∷ hs) = put_back h (pick i hs)

module _ {H : Type 0} (api : HandshakeApi H) where
  unfoldable pub answer : H → Link H → Link H
  unfolding receive_handshake
  answer h l = receive_handshake api h (record l { sent = [] })

  unfoldable pub arrive_a : Sides H → Option (Picked H) → Option (Sides H)
  unfolding answer
  arrive_a s none = none
  arrive_a s (some p) =
      let r = answer p.one s.a in
      some (record s { a = r; to_a = p.others; to_b = s.to_b ++ r.sent })

  unfoldable pub arrive_b : Sides H → Option (Picked H) → Option (Sides H)
  unfolding answer
  arrive_b s none = none
  arrive_b s (some p) =
      let r = answer p.one s.b in
      some (record s { b = r; to_b = p.others; to_a = s.to_a ++ r.sent })

  unfoldable pub arrive : Arrival → Sides H → Option (Sides H)
  unfolding arrive_a arrive_b pick
  arrive (at_a i) s = arrive_a s (pick i s.to_a)
  arrive (at_b i) s = arrive_b s (pick i s.to_b)

  unfoldable pub then_arrive : (Sides H → Option (Sides H)) → Option (Sides H) → Option (Sides H)
  then_arrive rest none = none
  then_arrive rest (some s) = rest s

  unfoldable pub arrive_all : List Arrival → Sides H → Option (Sides H)
  unfolding arrive then_arrive
  arrive_all [] s = some s
  arrive_all (e ∷ es) s = then_arrive (λ t. arrive_all es t) (arrive e s)
