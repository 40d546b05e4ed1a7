-- ===== src/UtilFrames/Queue.antt =====
-- src/util/frames.c: `qlob_t`, a list of packets in which a packet taken leaves an empty place.
use telehash_c.Prelude.{◌≡◌, refl, ap, Option, none, some, List, [], ◌∷◌, ◌++◌}

module _ {A : Type 0} where
  -- `qlob_append`
  unfoldable pub append : List (Option A) → Option A → List (Option A)
  append [] p = p ∷ []
  append (x ∷ []) p = x ∷ p ∷ []
  append (x ∷ y ∷ q) p = x ∷ append (y ∷ q) p

  -- The packet that the loop of `util_frames_receive` stops at, and the list after it.
  unfoldable pub first : List (Option A) → Option A
  first [] = none
  first (none ∷ q) = first q
  first (some p ∷ q) = some p

  unfoldable pub take_first : List (Option A) → List (Option A)
  take_first [] = []
  take_first (none ∷ q) = none ∷ take_first q
  take_first (some p ∷ q) = none ∷ q

  -- The loops that free leading empties.
  unfoldable pub drop_empties : List (Option A) → List (Option A)
  drop_empties [] = []
  drop_empties (none ∷ q) = drop_empties q
  drop_empties (some p ∷ q) = some p ∷ q

  -- The packets of a list, in order.
  unfoldable pub packets : List (Option A) → List A
  packets [] = []
  packets (none ∷ q) = packets q
  packets (some p ∷ q) = p ∷ packets q

  unfoldable pub of_option : Option A → List A
  of_option none = []
  of_option (some p) = p ∷ []

  pub packets-append :
      (q : List (Option A)) (p : Option A) → packets (append q p) ≡ packets q ++ of_option p
  unfolding packets append of_option
  packets-append [] none = refl
  packets-append [] (some p) = refl
  packets-append (none ∷ []) none = refl
  packets-append (none ∷ []) (some p) = refl
  packets-append (some x ∷ []) none = refl
  packets-append (some x ∷ []) (some p) = refl
  packets-append (none ∷ y ∷ q) p = packets-append (y ∷ q) p
  packets-append (some x ∷ y ∷ q) p = ap (λ r. x ∷ r) (packets-append (y ∷ q) p)

  pub packets-drop_empties : (q : List (Option A)) → packets (drop_empties q) ≡ packets q
  unfolding packets drop_empties
  packets-drop_empties [] = refl
  packets-drop_empties (none ∷ q) = packets-drop_empties q
  packets-drop_empties (some p ∷ q) = refl

  pub drop_empties_nil : (q : List (Option A)) → packets q ≡ [] → drop_empties q ≡ []
  unfolding packets drop_empties
  drop_empties_nil [] h = refl
  drop_empties_nil (none ∷ q) h = drop_empties_nil q h
  drop_empties_nil (some p ∷ q) h = cc

  pub drop_empties_cons :
      (q : List (Option A)) (p : A) (ps : List A)
      → packets q ≡ p ∷ ps
      → (rest : List (Option A)) × (drop_empties q ≡ some p ∷ rest) × (packets rest ≡ ps)
  unfolding packets drop_empties
  drop_empties_cons [] p ps h = cc
  drop_empties_cons (none ∷ q) p ps h = drop_empties_cons q p ps h
  drop_empties_cons (some x ∷ q) p ps h = (q, cc, cc)

  pub first_packet :
      (q : List (Option A)) → of_option (first q) ++ packets (take_first q) ≡ packets q
  unfolding packets first take_first of_option
  first_packet [] = refl
  first_packet (none ∷ q) = first_packet q
  first_packet (some p ∷ q) = refl

  pub first-none : (q : List (Option A)) → first q ≡ none → packets q ≡ []
  unfolding packets first
  first-none [] h = refl
  first-none (none ∷ q) h = first-none q h
  first-none (some p ∷ q) h = cc
