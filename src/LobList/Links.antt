-- ===== src/LobList/Links.antt =====
-- The fields `next` and `prev` along a row of packets, and what a change of one field leaves of them.
use telehash_c.Prelude.{ℕ, ◌≡◌, List, [], ◌∷◌, ◌++◌, arith}
use telehash_c.LobList.{Heap, update}
use telehash_c.LobList.Members.{other_of, ◌∈◌, ◌∉◌, Distinct, head_or, last_or}

-- From each packet `next` leads to the one behind it, and from the last one to `stop`.
abbrev pub Nexts : (ℕ → ℕ) → List ℕ → ℕ → Type 0
Nexts next [] stop = Unit
Nexts next (x ∷ xs) stop = (next x ≡ head_or stop xs) × Nexts next xs stop

abbrev pub Prevs : (ℕ → ℕ) → ℕ → List ℕ → Type 0
Prevs prev start [] = Unit
Prevs prev start (x ∷ xs) = (prev x ≡ start) × Prevs prev x xs

-- A list: its first packet, both fields, no NULL, and no packet twice.
abbrev pub IsList : List ℕ → ℕ → Heap → Type 0
IsList xs list h =
    (list ≡ head_or 0 xs) × Nexts h.next xs 0 × Prevs h.prev 0 xs × (0 ∉ xs) × Distinct xs

abbrev pub Alone : ℕ → Heap → Type 0
Alone p h = (h.next p ≡ 0) × (h.prev p ≡ 0)

pub last-∈ : (x : ℕ) (xs : List ℕ) → last_or x xs ∈ x ∷ xs
last-∈ x [] = ground arith
last-∈ x (y ∷ xs) = ground (arith, last-∈ y xs)

module _ (next : ℕ → ℕ) where
  pub Nexts-split :
      (xs ys : List ℕ) (stop : ℕ)
      → Nexts next (xs ++ ys) stop
      → Nexts next xs (head_or stop ys) × Nexts next ys stop
  Nexts-split [] ys stop n = (tt, n)
  Nexts-split (x ∷ []) ys stop n = ((n.0, tt), n.1)
  Nexts-split (x ∷ y ∷ xs) ys stop n =
      let (a, b) = Nexts-split (y ∷ xs) ys stop n.1 in ((n.0, a), b)

  pub Nexts-join :
      (xs ys : List ℕ) (stop : ℕ)
      → Nexts next xs (head_or stop ys)
      → Nexts next ys stop
      → Nexts next (xs ++ ys) stop
  Nexts-join [] ys stop a b = b
  Nexts-join (x ∷ []) ys stop a b = (a.0, b)
  Nexts-join (x ∷ y ∷ xs) ys stop a b = (a.0, Nexts-join (y ∷ xs) ys stop a.1 b)

  pub Nexts-outside :
      (p v : ℕ) (xs : List ℕ) (stop : ℕ)
      → p ∉ xs
      → Nexts next xs stop
      → Nexts (update next p v) xs stop
  Nexts-outside p v [] stop out n = tt
  Nexts-outside p v (x ∷ xs) stop out (e, n) =
      (ground arith, Nexts-outside p v xs stop (ground arith) n)

  -- The last packet is led elsewhere.
  pub Nexts-last :
      (v x : ℕ) (xs : List ℕ) (stop : ℕ)
      → Distinct (x ∷ xs)
      → Nexts next (x ∷ xs) stop
      → Nexts (update next (last_or x xs) v) (x ∷ xs) v
  Nexts-last v x [] stop d n = (ground arith, tt)
  Nexts-last v x (y ∷ xs) stop (out, d) (e, n) =
      (rw (other_of x (last_or y xs) (y ∷ xs) out (last-∈ y xs)) e, Nexts-last v y xs stop d n)

module _ (prev : ℕ → ℕ) where
  pub Prevs-split :
      (start : ℕ) (xs ys : List ℕ)
      → Prevs prev start (xs ++ ys)
      → Prevs prev start xs × Prevs prev (last_or start xs) ys
  Prevs-split start [] ys p = (tt, p)
  Prevs-split start (x ∷ xs) ys (e, p) = let (a, b) = Prevs-split x xs ys p in ((e, a), b)

  pub Prevs-join :
      (start : ℕ) (xs ys : List ℕ)
      → Prevs prev start xs
      → Prevs prev (last_or start xs) ys
      → Prevs prev start (xs ++ ys)
  Prevs-join start [] ys a b = b
  Prevs-join start (x ∷ xs) ys (e, a) b = (e, Prevs-join x xs ys a b)

  pub Prevs-outside :
      (p v start : ℕ) (xs : List ℕ)
      → p ∉ xs
      → Prevs prev start xs
      → Prevs (update prev p v) start xs
  Prevs-outside p v start [] out n = tt
  Prevs-outside p v start (x ∷ xs) out (e, n) =
      (ground arith, Prevs-outside p v x xs (ground arith) n)

  pub Prevs-head :
      (v start x : ℕ) (xs : List ℕ)
      → x ∉ xs
      → Prevs prev start (x ∷ xs)
      → Prevs (update prev x v) v (x ∷ xs)
  Prevs-head v start x xs out (e, p) = (ground arith, Prevs-outside x v x xs out p)
