-- ===== src/LobList/Ends.antt =====
-- src/lib/lob.c and src/chan.c: the front of a list.
use telehash_c.Prelude.{ℕ, ◌≡◌, refl, sym, ap, subst, ◌∙◌, false, List, [], ◌∷◌, arith, ◌==◌}
use telehash_c.LobList.{
  Heap, update, set_next, set_prev, splice, shifted, shift, detach, unshift_spliced, unshift,
  receiving,
}
use telehash_c.LobList.Members.{other_of, ◌∉◌, remove, remove-between}
use telehash_c.LobList.Links.{Nexts-outside, Prevs-head}
use telehash_c.LobList.Splicing.{update_self, update-other, has-head, apart-head, tail-∉}
use telehash_c.LobList.Lists.{flip, put-∉, Holds, HoldsIn, remove-∉, splice-Holds}

one_Holds : (p list : ℕ) (h : Heap) → (p == 0) ≡ false → Holds [] list h → Holds (p ∷ []) p h
one_Holds p list h null (is, others) = (
  (
    refl,
    ((others p refl).0, tt),
    ((others p refl).1, tt),
    put-∉ 0 p [] (flip p 0 null) refl,
    (refl, tt),
  ),
  λ q o. others q refl,
)

linked_first :
    (p x : ℕ) (xs : List ℕ) (h : Heap)
    → (p == 0) ≡ false
    → p ∉ x ∷ xs
    → Holds (x ∷ xs) x h
    → Holds (p ∷ x ∷ xs) p (set_prev x p (set_next p x h))
linked_first p x xs h null out ((first, n, b, z, d), others) =
    let apart = apart-head p x xs out in
    (
      (
        refl,
        (update_self h.next p x, Nexts-outside h.next p x (x ∷ xs) 0 out n),
        (update-other h.prev x p p apart ∙ (others p out).1, Prevs-head h.prev p 0 x xs d.0 b),
        put-∉ 0 p (x ∷ xs) (flip p 0 null) z,
        (out, d),
      ),
      λ q o.
          let beyond = tail-∉ q p (x ∷ xs) o in
          (
            update-other h.next p q x (apart-head q p (x ∷ xs) o) ∙ (others q beyond).0,
            update-other h.prev x q p (apart-head q x xs beyond) ∙ (others q beyond).1,
          ),
    )

unshift_first :
    (p list : ℕ) (h : Heap)
    → (list == 0) ≡ false
    → unshift_spliced p (list, h) ≡ (p, set_prev list p (set_next p list h))
unfolding unshift_spliced
unshift_first p list h nonzero = rw nonzero refl

unshift_spliced-Holds :
    (xs : List ℕ) (p : ℕ) (r : ℕ × Heap)
    → (p == 0) ≡ false
    → p ∉ xs
    → HoldsIn xs r
    → HoldsIn (p ∷ xs) (unshift_spliced p r)
unfolding unshift_spliced
unshift_spliced-Holds [] p (list, h) null out holds = rw (holds.0.0) (one_Holds p list h null holds)
unshift_spliced-Holds (x ∷ xs) p (list, h) null out holds =
    let first = holds.0.0 in
    let nonzero = ap (λ l. l == 0) first ∙ other_of 0 x (x ∷ xs) holds.0.3 (has-head x xs) in
    let at_x = subst (λ l. Holds (x ∷ xs) l h) first holds in
    subst (HoldsIn (p ∷ x ∷ xs)) (sym (unshift_first p list h nonzero)) (
      subst (λ l. Holds (p ∷ x ∷ xs) p (set_prev l p (set_next p l h))) (sym first)
        (linked_first p x xs h null out at_x))

unshift_lem :
    (p list : ℕ) (h : Heap)
    → (p == 0) ≡ false
    → unshift list p h ≡ unshift_spliced p (splice list p h)
unfolding unshift
unshift_lem p list h null = rw null refl

-- `lob_unshift` of any packet but NULL puts it first, from any other place in the list.
pub unshift-Holds :
    (xs : List ℕ) (p list : ℕ) (h : Heap)
    → (p == 0) ≡ false
    → Holds xs list h
    → HoldsIn (p ∷ remove p xs) (unshift list p h)
unshift-Holds xs p list h null holds =
    subst (HoldsIn (p ∷ remove p xs)) (sym (unshift_lem p list h null)) (
      unshift_spliced-Holds (remove p xs) p (splice list p h) null (remove-∉ p xs)
        (splice-Holds xs p list h null holds))

abbrev received_by : ℕ → ℕ × Heap → ℕ × ℕ × Heap
received_by list (rest, g) = (list, rest, set_next list 0 (set_next list rest g))

receiving_some :
    (list : ℕ) (h : Heap)
    → (list == 0) ≡ false
    → receiving list h ≡ detach (shifted list (splice list list h))
unfolding receiving shift
receiving_some list h null = rw null refl

detached :
    (list : ℕ) (r : ℕ × Heap) → (list == 0) ≡ false → detach (shifted list r) ≡ received_by list r
unfolding detach shifted
detached list (rest, g) null =
    rw null
      (ap (λ r. (list, r, set_next list 0 (set_next list rest g))) (update_self g.next list rest))

receiving_lem :
    (list : ℕ) (h : Heap)
    → (list == 0) ≡ false
    → receiving list h ≡ received_by list (splice list list h)
receiving_lem list h null = receiving_some list h null ∙ detached list (splice list list h) null

cleared_twice :
    (x rest : ℕ) (xs : List ℕ) (g : Heap)
    → x ∉ xs
    → Holds xs rest g
    → Holds xs rest (set_next x 0 (set_next x rest g))
cleared_twice x rest xs g out ((first, n, b, z, d), others) = (
  (
    first,
    Nexts-outside (update g.next x rest) x 0 xs 0 out (Nexts-outside g.next x rest xs 0 out n),
    b,
    z,
    d,
  ),
  λ q o. let (e, f) = others q o in (ground arith, f),
)

-- `chan_receiving` takes the first packet.
pub receiving-Holds :
    (x : ℕ) (xs : List ℕ) (list : ℕ) (h : Heap)
    → Holds (x ∷ xs) list h
    → ((receiving list h).0 ≡ x) × HoldsIn xs ((receiving list h).1, (receiving list h).2)
receiving-Holds x xs list h holds =
    let first = holds.0.0 in
    let out = holds.0.4.0 in
    let nonzero = other_of 0 x (x ∷ xs) holds.0.3 (has-head x xs) in
    let gone = splice-Holds (x ∷ xs) x x h nonzero (subst (λ l. Holds (x ∷ xs) l h) first holds) in
    let left = subst (λ l. HoldsIn l (splice x x h)) (remove-between x [] xs refl out) gone in
    let eq = ap (λ l. receiving l h) first ∙ receiving_lem x h nonzero in
    subst (λ (r : ℕ × ℕ × Heap). (r.0 ≡ x) × HoldsIn xs (r.1, r.2)) (sym eq)
      (refl, cleared_twice x (splice x x h).0 xs (splice x x h).1 out left)
