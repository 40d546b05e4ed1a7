-- ===== src/LobList/Lists.antt =====
-- src/lib/lob.c: what `lob_push`, `lob_pop`, `lob_shift` and `lob_unshift` do with a list.
use telehash_c.Prelude.{
  ℕ, zero, suc, ◌≤◌, ◌≡◌, refl, sym, ap, subst, ◌∙◌, inl, inr, false, Option, none, some, List, [],
  ◌∷◌, ◌++◌, arith, ◌==◌, length, Bool-cases,
}
use telehash_c.LobList.{
  Heap, update, skip_back, skip_forth, clear, splice_out, splice, last_of, link_after, push_at,
  push_spliced, push,
}
use telehash_c.LobList.Members.{
  other_of, has, ◌∉◌, Distinct, head_or, last_or, remove, Distinct-append, Distinct-snoc, front-∉,
  back-∉, append-∉, remove-out, remove-between, split_at,
}
use telehash_c.LobList.Links.{
  Nexts, IsList, Alone, last-∈, Nexts-join, Nexts-outside, Nexts-last, Prevs-join, Prevs-outside,
}
use telehash_c.LobList.Splicing.{
  Same, has-head, apart-head, tail-∉, update_self, update-other, splice-IsList,
}

-- A list, and no other packet is linked to anything.
abbrev pub Holds : List ℕ → ℕ → Heap → Type 0
Holds xs list h = IsList xs list h × ((q : ℕ) → q ∉ xs → Alone q h)

abbrev pub HoldsIn : List ℕ → ℕ × Heap → Type 0
HoldsIn xs (list, h) = Holds xs list h

not_first :
    (xs : List ℕ) (list p : ℕ)
    → list ≡ head_or 0 xs
    → (p == 0) ≡ false
    → p ∉ xs
    → (list == p) ≡ false
not_first [] list p first null out = ground arith
not_first (x ∷ xs) list p first null out = ground arith

pub remove-∉ : (p : ℕ) (xs : List ℕ) → p ∉ remove p xs
remove-∉ p [] = refl
remove-∉ p (x ∷ xs) = ground (arith, remove-∉ p xs)

pub length-remove : (p : ℕ) (xs : List ℕ) → length (remove p xs) ≤ length xs
length-remove p [] = omega arith
length-remove p (x ∷ xs) = ground (arith, length-remove p xs)

splice-Alone :
    (p list : ℕ) (h : Heap)
    → (p == 0) ≡ false
    → (list == p) ≡ false
    → Alone p h
    → splice list p h ≡ (list, clear p h)
unfolding splice splice_out skip_forth skip_back
splice-Alone p list h null apart (n, b) = rw (null, n, b, apart) refl

pub flip : (p q : ℕ) → (p == q) ≡ false → (q == p) ≡ false
flip p q e = ground arith

pub put-∉ : (q p : ℕ) (zs : List ℕ) → (q == p) ≡ false → q ∉ zs → q ∉ p ∷ zs
put-∉ q p zs other out = ground arith

cleared : (p q : ℕ) (h : Heap) → Alone q h → Alone q (clear p h)
unfolding clear
cleared p q h (n, b) = (ground arith, ground arith)

pub other-Alone :
    (ys : List ℕ) (p : ℕ) (zs : List ℕ) (h g : Heap)
    → Alone p g
    → Same (ys ++ p ∷ zs) h g
    → ((q : ℕ) → q ∉ ys ++ p ∷ zs → Alone q h)
    → (q : ℕ) → q ∉ ys ++ zs
    → Alone q g
other-Alone ys p zs h g alone same others q out = elim (Bool-cases (q == p)) [
  | inl it ↦ let e : p ≡ q = ground arith in subst (λ r. Alone r g) e alone
  | inr other ↦
      let beyond : q ∉ ys ++ p ∷ zs =
        append-∉ q ys (p ∷ zs) (front-∉ q ys zs out) (put-∉ q p zs other (back-∉ q ys zs out)) in
      let (n, b) = same q beyond in let (n', b') = others q beyond in (n ∙ n', b ∙ b')
]

-- `lob_splice` of any packet but NULL leaves the list without it.
pub splice-Holds :
    (xs : List ℕ) (p list : ℕ) (h : Heap)
    → (p == 0) ≡ false
    → Holds xs list h
    → HoldsIn (remove p xs) (splice list p h)
unfolding clear
splice-Holds xs p list h null (is, others) = elim (Bool-cases (has p xs)) [
  | inr out ↦
      let eq = splice-Alone p list h null (not_first xs list p is.0 null out) (others p out) in
      subst (HoldsIn (remove p xs)) (sym eq) (
        rw (remove-out p xs out) (
          (
            is.0,
            Nexts-outside h.next p 0 xs 0 out is.1,
            Prevs-outside h.prev p 0 0 xs out is.2,
            is.3,
            is.4,
          ),
          λ q o. cleared p q h (others q o),
        ))
  | inl inside ↦
      let (ys, zs, e) = split_at p xs inside in
      let (is', alone, same) = splice-IsList ys p zs list h (subst (λ l. IsList l list h) e is) in
      let (out, out', _, _, _) = Distinct-append ys zs p (subst Distinct e is.4) in
      let cut = ap (remove p) e ∙ remove-between p ys zs out out' in
      subst (λ l. HoldsIn l (splice list p h)) (sym cut)
        (
          is',
          λ q o.
              other-Alone ys p zs h (splice list p h).1 alone same
                (subst (λ l. (q : ℕ) → q ∉ l → Alone q h) e others) q o,
        )
]

-- The loop of `lob_push` and `lob_pop` ends, at the last packet.
pub last_of-Nexts :
    (fuel x : ℕ) (xs : List ℕ) (h : Heap)
    → Nexts h.next (x ∷ xs) 0
    → 0 ∉ xs
    → length (x ∷ xs) ≤ fuel
    → last_of fuel x h ≡ some (last_or x xs)
unfolding last_of
last_of-Nexts zero x xs h n null le = elim le [ ]
last_of-Nexts (suc fuel) x [] h n null le = rw (n.0, last_of) refl
last_of-Nexts (suc fuel) x (y ∷ xs) h n null le =
    rw (n.0, other_of 0 y (y ∷ xs) null (has-head y xs), last_of)
      (ap (λ z. last_of fuel z h) n.0
        ∙ last_of-Nexts fuel y xs h n.1 (tail-∉ 0 y xs null) (omega arith))

-- Results of the functions that walk to the end of a list, when the fuel is enough.
abbrev pub Gives : List ℕ → Option (ℕ × Heap) → Type 0
Gives xs none = ⊥
Gives xs (some (list, h)) = Holds xs list h

link_after-Holds :
    (x : ℕ) (xs : List ℕ) (p list : ℕ) (h : Heap)
    → (p == 0) ≡ false
    → p ∉ x ∷ xs
    → Holds (x ∷ xs) list h
    → Holds ((x ∷ xs) ++ p ∷ []) list (link_after (last_or x xs) p h)
unfolding link_after
link_after-Holds x xs p list h null out ((first, n, b, z, d), others) = (
  (
    first,
    Nexts-join (update (update h.next (last_or x xs) p) p 0) (x ∷ xs) (p ∷ []) 0
        (Nexts-outside (update h.next (last_or x xs) p) p 0 (x ∷ xs) p out
          (Nexts-last h.next p x xs 0 d n))
        (update_self (update h.next (last_or x xs) p) p 0, tt),
    Prevs-join (update h.prev p (last_or x xs)) 0 (x ∷ xs) (p ∷ [])
        (Prevs-outside h.prev p (last_or x xs) 0 (x ∷ xs) out b)
        (update_self h.prev p (last_or x xs), tt),
    append-∉ 0 (x ∷ xs) (p ∷ []) z (put-∉ 0 p [] (flip p 0 null) refl),
    Distinct-snoc (x ∷ xs) p d out,
  ),
  λ q o.
      let apart = apart-head q p [] (back-∉ q (x ∷ xs) (p ∷ []) o) in
      let before = front-∉ q (x ∷ xs) (p ∷ []) o in
      let last = other_of q (last_or x xs) (x ∷ xs) before (last-∈ x xs) in
      let (e, f) = others q before in
      (
        update-other (update h.next (last_or x xs) p) p q 0 apart
            ∙ update-other h.next (last_or x xs) q p last
            ∙ e,
        update-other h.prev p q (last_or x xs) apart ∙ f,
      ),
)

push_spliced_lem :
    (fuel p end list : ℕ) (h : Heap)
    → (list == 0) ≡ false
    → last_of fuel list h ≡ some end
    → push_spliced fuel p (list, h) ≡ some (list, link_after end p h)
unfolding push_spliced push_at
push_spliced_lem fuel p end list h nonzero last = rw (nonzero, last) refl

push_lem :
    (fuel list p : ℕ) (h : Heap)
    → (p == 0) ≡ false
    → push fuel list p h ≡ push_spliced fuel p (splice list p h)
unfolding push
push_lem fuel list p h null = rw null refl

push_spliced-Gives :
    (fuel p : ℕ) (xs : List ℕ) (r : ℕ × Heap)
    → (p == 0) ≡ false
    → p ∉ xs
    → length xs ≤ fuel
    → HoldsIn xs r
    → Gives (xs ++ p ∷ []) (push_spliced fuel p r)
unfolding push_spliced push_at
push_spliced-Gives fuel p [] (list, h) null out le ((first, n, b, z, d), others) = rw first (
  (
    refl,
    ((others p refl).0, tt),
    ((others p refl).1, tt),
    put-∉ 0 p [] (flip p 0 null) refl,
    (refl, tt),
  ),
  λ q o. others q refl,
)
push_spliced-Gives fuel p (x ∷ xs) (list, h) null out le holds =
    let first = holds.0.0 in
    let nonzero = ap (λ l. l == 0) first ∙ other_of 0 x (x ∷ xs) holds.0.3 (has-head x xs) in
    let last =
      ap (λ l. last_of fuel l h) first
      ∙ last_of-Nexts fuel x xs h holds.0.1 (tail-∉ 0 x xs holds.0.3) le in
    subst (Gives ((x ∷ xs) ++ p ∷ []))
      (sym (push_spliced_lem fuel p (last_or x xs) list h nonzero last))
      (link_after-Holds x xs p list h null out holds)

-- `lob_push` of any packet but NULL: it comes to the end of the list, and from any other place in it.
pub push-Gives :
    (fuel : ℕ) (xs : List ℕ) (p list : ℕ) (h : Heap)
    → (p == 0) ≡ false
    → length xs ≤ fuel
    → Holds xs list h
    → Gives (remove p xs ++ p ∷ []) (push fuel list p h)
push-Gives fuel xs p list h null le holds =
    let small = length-remove p xs in
    subst (Gives (remove p xs ++ p ∷ [])) (sym (push_lem fuel list p h null)) (
      push_spliced-Gives fuel p (remove p xs) (splice list p h) null (remove-∉ p xs) (omega arith)
        (splice-Holds xs p list h null holds))
