-- ===== src/Exchange/Swapping.antt =====
-- The two sides of Delivery, exchanged.
use telehash_c.Prelude.{suc, ◌≡◌, refl, ap, ◌∙◌, Option, none, some, List, [], ◌∷◌, length, map}
use telehash_c.Exchange.{HandshakeApi}
use telehash_c.Exchange.Delivery.{
  Sides, Arrival, at_a, at_b, Picked, pick, arrive_a, arrive_b, arrive, then_arrive, arrive_all,
}

module _ {H : Type 0} (api : HandshakeApi H) where
  unfoldable pub swap : Sides H → Sides H
  swap s = record { a = s.b; b = s.a; to_a = s.to_b; to_b = s.to_a }

  unfoldable pub swap_arrival : Arrival → Arrival
  swap_arrival (at_a i) = at_b i
  swap_arrival (at_b i) = at_a i

  abbrev pub swap_all : Option (Sides H) → Option (Sides H)
  swap_all none = none
  swap_all (some s) = some (swap s)

  arrive_a-swap :
      (s : Sides H) (o : Option (Picked H)) → arrive_b api (swap s) o ≡ swap_all (arrive_a api s o)
  unfolding swap arrive_a arrive_b
  arrive_a-swap s none = refl
  arrive_a-swap s (some p) = refl

  arrive_b-swap :
      (s : Sides H) (o : Option (Picked H)) → arrive_a api (swap s) o ≡ swap_all (arrive_b api s o)
  unfolding swap arrive_a arrive_b
  arrive_b-swap s none = refl
  arrive_b-swap s (some p) = refl

  arrive-swap :
      (e : Arrival) (s : Sides H) → arrive api (swap_arrival e) (swap s) ≡ swap_all (arrive api e s)
  unfolding arrive swap_arrival swap
  arrive-swap (at_a i) s = arrive_a-swap s (pick i s.to_a)
  arrive-swap (at_b i) s = arrive_b-swap s (pick i s.to_b)

  then_swap :
      (f g : Sides H → Option (Sides H)) (o : Option (Sides H))
      → ((s : Sides H) → g (swap s) ≡ swap_all (f s))
      → then_arrive api g (swap_all o) ≡ swap_all (then_arrive api f o)
  unfolding then_arrive
  then_swap f g none h = refl
  then_swap f g (some s) h = h s

  pub arrive_all-swap :
      (es : List Arrival) (s : Sides H)
      → arrive_all api (map swap_arrival es) (swap s) ≡ swap_all (arrive_all api es s)
  unfolding arrive_all
  arrive_all-swap [] s = refl
  arrive_all-swap (e ∷ es) s =
      ap (then_arrive api (λ t. arrive_all api (map swap_arrival es) t)) (arrive-swap e s)
      ∙ then_swap (λ t. arrive_all api es t) (λ t. arrive_all api (map swap_arrival es) t)
          (arrive api e s) (λ t. arrive_all-swap es t)

pub length-map : {A B : Type 0} (f : A → B) (xs : List A) → length (map f xs) ≡ length xs
length-map f [] = refl
length-map f (x ∷ xs) = ap suc (length-map f xs)
