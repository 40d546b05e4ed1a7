-- ===== src/LobList/Popping.antt =====
-- src/lib/lob.c: `lob_pop`.
use telehash_c.Prelude.{
  ℕ, suc, ◌≤◌, ◌≡◌, refl, sym, ap, subst, ◌∙◌, false, Option, none, some, List, [], ◌∷◌, ◌++◌,
  append-nil, arith, ◌==◌, length,
}
use telehash_c.LobList.{Heap, set_next, splice, last_of, push, pop_at, pop}
use telehash_c.LobList.Members.{
  other_of, ◌∈◌, head_or, last_or, remove, Distinct-append, remove-between, last_or-snoc,
  length-snoc,
}
use telehash_c.LobList.Links.{IsList, Nexts-outside}
use telehash_c.LobList.Splicing.{update_self, has-head, tail-∉}
use telehash_c.LobList.Lists.{
  Holds, HoldsIn, Gives, length-remove, splice-Holds, push-Gives, last_of-Nexts,
}

pop_lem :
    (fuel list p : ℕ) (h : Heap)
    → (list == 0) ≡ false
    → last_of fuel list h ≡ some p
    → pop fuel list h ≡ some (p, set_next p (splice list p h).0 (splice list p h).1)
unfolding pop pop_at
pop_lem fuel list p h nonzero last = rw (nonzero, last) refl

-- What is behind the first packet of a list that ends in `p`.
abbrev behind : List ℕ → ℕ → List ℕ
behind [] p = []
behind (x ∷ xs) p = xs ++ p ∷ []

first_behind : (xs : List ℕ) (p : ℕ) → xs ++ p ∷ [] ≡ head_or p xs ∷ behind xs p
first_behind [] p = refl
first_behind (x ∷ xs) p = refl

last_behind : (xs : List ℕ) (p : ℕ) → last_or (head_or p xs) (behind xs p) ≡ p
last_behind [] p = refl
last_behind (x ∷ xs) p = last_or-snoc x xs p

last-in : (xs : List ℕ) (p : ℕ) → p ∈ xs ++ p ∷ []
last-in [] p = has-head p []
last-in (x ∷ xs) p = ground (arith, last-in xs p)

-- `lob_pop` gives the last packet, and its `next` is the list without it.
pub pop-IsList :
    (fuel : ℕ) (xs : List ℕ) (p list : ℕ) (h : Heap)
    → suc (length xs) ≤ fuel
    → Holds (xs ++ p ∷ []) list h
    → (g : Heap) × (pop fuel list h ≡ some (p, g)) × IsList xs (g.next p) g
pop-IsList fuel xs p list h le holds =
    let x = head_or p xs in
    let ys = behind xs p in
    let split = subst (λ l. Holds l list h) (first_behind xs p) holds in
    let first = split.0.0 in
    let null = split.0.3 in
    let nonzero = ap (λ l. l == 0) first ∙ other_of 0 x (x ∷ ys) null (has-head x ys) in
    let counted = sym (length-snoc xs p) ∙ ap length (first_behind xs p) in
    let last =
      ap (λ l. last_of fuel l h) first
      ∙ last_of-Nexts fuel x ys h split.0.1 (tail-∉ 0 x ys null) (omega arith)
      ∙ ap some (last_behind xs p) in
    let (out, out', _, _, _) = Distinct-append xs [] p holds.0.4 in
    let p_nonzero = other_of 0 p (xs ++ p ∷ []) holds.0.3 (last-in xs p) in
    let gone = splice-Holds (xs ++ p ∷ []) p list h p_nonzero holds in
    let cut = remove-between p xs [] out refl ∙ append-nil xs in
    let (rest, g) = splice list p h in
    let left = subst (λ l. HoldsIn l (splice list p h)) cut gone in
    (
      set_next p rest g,
      pop_lem fuel list p h nonzero last,
      (
        update_self g.next p rest ∙ left.0.0,
        Nexts-outside g.next p rest xs 0 out left.0.1,
        left.0.2,
        left.0.3,
        left.0.4,
      ),
    )

popped :
    (fuel : ℕ) (xs : List ℕ) (p : ℕ) (o : Option (ℕ × Heap))
    → suc (length xs) ≤ fuel
    → Gives (xs ++ p ∷ []) o
    → (list : ℕ) × (h g : Heap) × (o ≡ some (list, h))
      × (pop fuel list h ≡ some (p, g))
      × IsList xs (g.next p) g
popped fuel xs p none le gives = elim gives [ ]
popped fuel xs p (some (list, h)) le holds =
    let (g, given, is) = pop-IsList fuel xs p list h le holds in (list, h, g, refl, given, is)

-- What `lob_push` put at the end of a list, `lob_pop` gives back; what it links to is the list with no
-- such packet, in its order.
pub pop-push :
    (fuel : ℕ) (xs : List ℕ) (p list : ℕ) (h : Heap)
    → (p == 0) ≡ false
    → suc (length xs) ≤ fuel
    → Holds xs list h
    → (list' : ℕ) × (h' g : Heap) × (push fuel list p h ≡ some (list', h'))
      × (pop fuel list' h' ≡ some (p, g))
      × IsList (remove p xs) (g.next p) g
pop-push fuel xs p list h null le holds =
    let small = length-remove p xs in
    popped fuel (remove p xs) p (push fuel list p h) (omega arith)
      (push-Gives fuel xs p list h null (omega arith) holds)
