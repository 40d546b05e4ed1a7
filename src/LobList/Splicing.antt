-- ===== src/LobList/Splicing.antt =====
-- src/lib/lob.c: `lob_splice` of a packet in a list.
use telehash_c.Prelude.{
  ℕ, ◌≡◌, refl, sym, subst, ◌∙◌, false, List, [], ◌∷◌, ◌++◌, arith, ◌==◌, if◌then◌else◌,
}
use telehash_c.LobList.{Heap, update, skip_back, skip_forth, clear, splice_out, splice}
use telehash_c.LobList.Members.{
  other_of, ◌∈◌, ◌∉◌, Distinct, head_or, last_or, has-append, Distinct-append, front-∉, back-∉,
  append-∉, Distinct-apart,
}
use telehash_c.LobList.Links.{
  Nexts, Prevs, IsList, Alone, last-∈, Nexts-split, Nexts-join, Nexts-outside, Nexts-last,
  Prevs-split, Prevs-join, Prevs-outside, Prevs-head,
}

-- The fields of the packets that are not in the row.
abbrev pub Same : List ℕ → Heap → Heap → Type 0
Same xs h g = (q : ℕ) → q ∉ xs → (g.next q ≡ h.next q) × (g.prev q ≡ h.prev q)

-- A packet between two rows.
abbrev Between : List ℕ → ℕ → List ℕ → Heap → Type 0
Between ys p zs h =
    (Nexts h.next ys p × (h.next p ≡ head_or 0 zs) × Nexts h.next zs 0)
    × (Prevs h.prev 0 ys × (h.prev p ≡ last_or 0 ys) × Prevs h.prev p zs)

-- The rows, with the packet led past in one direction, and then in both.
abbrev Back : List ℕ → ℕ → List ℕ → Heap → Type 0
Back ys p zs h =
    (Nexts h.next ys p × (h.next p ≡ head_or 0 zs) × Nexts h.next zs 0)
    × (Prevs h.prev 0 ys × (h.prev p ≡ last_or 0 ys) × Prevs h.prev (last_or 0 ys) zs)

abbrev Forth : List ℕ → ℕ → List ℕ → Heap → Type 0
Forth ys p zs h =
    (Nexts h.next ys (head_or 0 zs) × (h.next p ≡ head_or 0 zs) × Nexts h.next zs 0)
    × (Prevs h.prev 0 ys × Prevs h.prev (last_or 0 ys) zs)

Between-IsList :
    (ys : List ℕ) (p : ℕ) (zs : List ℕ) (list : ℕ) (h : Heap)
    → IsList (ys ++ p ∷ zs) list h
    → Between ys p zs h
Between-IsList ys p zs list h (first, nexts, prevs, null, distinct) =
    let (n, (e, n')) = Nexts-split h.next ys (p ∷ zs) 0 nexts in
    let (b, (f, b')) = Prevs-split h.prev 0 ys (p ∷ zs) prevs in ((n, e, n'), (b, f, b'))

pub has-head : (z : ℕ) (zs : List ℕ) → z ∈ z ∷ zs
has-head z zs = ground arith

pub apart-head : (p z : ℕ) (zs : List ℕ) → p ∉ z ∷ zs → (z == p) ≡ false
apart-head p z zs out = ground arith

pub update_self : (f : ℕ → ℕ) (p v : ℕ) → update f p v p ≡ v
update_self f p v = ground arith

pub update-other : (f : ℕ → ℕ) (p q v : ℕ) → (p == q) ≡ false → update f p v q ≡ f q
update-other f p q v e = rw e refl

second_apart : (q z p : ℕ) (ys zs : List ℕ) → q ∉ ys ++ p ∷ z ∷ zs → (z == q) ≡ false
second_apart q z p ys zs out = ground (arith, has-append q ys (p ∷ z ∷ zs))

skip_back_lem :
    (p z v : ℕ) (h : Heap)
    → h.next p ≡ z
    → (z == 0) ≡ false
    → h.prev p ≡ v
    → skip_back p h ≡ record h { prev = update h.prev z v }
unfolding skip_back
skip_back_lem p z v h e nonzero f = rw (e, nonzero, f) refl

skip_forth_lem :
    (p y v : ℕ) (h : Heap)
    → h.prev p ≡ y
    → (y == 0) ≡ false
    → h.next p ≡ v
    → skip_forth p h ≡ record h { next = update h.next y v }
unfolding skip_forth
skip_forth_lem p y v h e nonzero f = rw (e, nonzero, f) refl

skip_back-Back :
    (ys : List ℕ) (p : ℕ) (zs : List ℕ) (h : Heap)
    → 0 ∉ zs
    → Distinct (ys ++ p ∷ zs)
    → Between ys p zs h
    → Back ys p zs (skip_back p h) × Same (ys ++ p ∷ zs) h (skip_back p h)
unfolding skip_back
skip_back-Back ys p [] h null d ((n, e, n'), (b, f, b')) =
    rw e (((n, e, n'), (b, f, tt)), λ q out. (refl, refl))
skip_back-Back ys p (z ∷ zs) h null d ((n, e, n'), (b, f, b')) =
    let (out, out', dys, dzs, dall) = Distinct-append ys (z ∷ zs) p d in
    let (zout, zout', _, _, _) = Distinct-append ys zs z dall in
    let v = last_or 0 ys in
    let eq = skip_back_lem p z v h e (other_of 0 z (z ∷ zs) null (has-head z zs)) f in
    subst (λ (g : Heap). Back ys p (z ∷ zs) g × Same (ys ++ p ∷ z ∷ zs) h g) (sym eq)
      (
        (
          (n, e, n'),
          (
            Prevs-outside h.prev z v 0 ys zout b,
            update-other h.prev z p v (apart-head p z zs out') ∙ f,
            Prevs-head h.prev v p z zs zout' b',
          ),
        ),
        λ q outside. (refl, update-other h.prev z q v (second_apart q z p ys zs outside)),
      )

skip_forth-Forth :
    (ys : List ℕ) (p : ℕ) (zs : List ℕ) (h : Heap)
    → 0 ∉ ys
    → Distinct (ys ++ p ∷ zs)
    → Back ys p zs h
    → Forth ys p zs (skip_forth p h) × Same (ys ++ p ∷ zs) h (skip_forth p h)
unfolding skip_forth
skip_forth-Forth [] p zs h null d ((n, e, n'), (b, f, b')) =
    rw f (((tt, e, n'), (tt, b')), λ q out. (refl, refl))
skip_forth-Forth (y ∷ ys) p zs h null d ((n, e, n'), (b, f, b')) =
    let (out, out', dys, dzs, dall) = Distinct-append (y ∷ ys) zs p d in
    let v = head_or 0 zs in
    let l = last_or y ys in
    let inside = last-∈ y ys in
    let eq = skip_forth_lem p l v h f (other_of 0 l (y ∷ ys) null inside) e in
    subst (λ (g : Heap). Forth (y ∷ ys) p zs g × Same ((y ∷ ys) ++ p ∷ zs) h g) (sym eq)
      (
        (
          (
            Nexts-last h.next v y ys p dys n,
            update-other h.next l p v (other_of p l (y ∷ ys) out inside) ∙ e,
            Nexts-outside h.next l v zs 0 (Distinct-apart l (y ∷ ys) zs dall inside) n',
          ),
          (b, b'),
        ),
        λ q outside. (
          update-other h.next l q v
              (other_of q l (y ∷ ys) (front-∉ q (y ∷ ys) (p ∷ zs) outside) inside),
          refl,
        ),
      )

pub splice_lem :
    (list p : ℕ) (h : Heap)
    → (p == 0) ≡ false
    → splice list p h ≡ splice_out list p (skip_forth p (skip_back p h))
unfolding splice
splice_lem list p h e = rw e refl

pub tail-∉ : (q x : ℕ) (xs : List ℕ) → q ∉ x ∷ xs → q ∉ xs
tail-∉ q x xs out = ground arith

first_out :
    (ys : List ℕ) (p : ℕ) (zs : List ℕ) (list v : ℕ)
    → list ≡ head_or 0 (ys ++ p ∷ zs)
    → p ∉ ys
    → v ≡ head_or 0 zs
    → (if list == p then v else list) ≡ head_or 0 (ys ++ zs)
first_out [] p zs list v first out e = ground arith
first_out (y ∷ ys) p zs list v first out e = ground arith

-- `lob_splice` takes a packet out of its list: the others are a list in their order, the packet is
-- linked to nothing, and no other packet is changed.
pub splice-IsList :
    (ys : List ℕ) (p : ℕ) (zs : List ℕ) (list : ℕ) (h : Heap)
    → IsList (ys ++ p ∷ zs) list h
    → IsList (ys ++ zs) (splice list p h).0 (splice list p h).1
      × Alone p (splice list p h).1
      × Same (ys ++ p ∷ zs) h (splice list p h).1
unfolding splice_out clear
splice-IsList ys p zs list h is =
    let (first, nexts, prevs, null, distinct) = is in
    let (out, out', dys, dzs, dall) = Distinct-append ys zs p distinct in
    let null' = front-∉ 0 ys (p ∷ zs) null in
    let null'' = back-∉ 0 ys (p ∷ zs) null in
    let (back, same) =
      skip_back-Back ys p zs h (tail-∉ 0 p zs null'') distinct (Between-IsList ys p zs list h is) in
    let g = skip_forth p (skip_back p h) in
    let (forth, same') = skip_forth-Forth ys p zs (skip_back p h) null' distinct back in
    let ((n, e, n'), (b, b')) = forth in
    let within = append-∉ p ys zs out out' in
    let eq = splice_lem list p h (other_of 0 p (p ∷ zs) null'' (has-head p zs)) in
    subst (λ (r : ℕ × Heap). IsList (ys ++ zs) r.0 r.1 × Alone p r.1 × Same (ys ++ p ∷ zs) h r.1)
      (sym eq)
      (
        (
          first_out ys p zs list (g.next p) first out e,
          Nexts-outside g.next p 0 (ys ++ zs) 0 within (Nexts-join g.next ys zs 0 n n'),
          Prevs-outside g.prev p 0 0 (ys ++ zs) within (Prevs-join g.prev 0 ys zs b b'),
          append-∉ 0 ys zs null' (tail-∉ 0 p zs null''),
          dall,
        ),
        (update_self g.next p 0, update_self g.prev p 0),
        λ q outside.
            let apart = apart-head q p zs (back-∉ q ys (p ∷ zs) outside) in
            (
              update-other g.next p q 0 apart ∙ (same' q outside).0 ∙ (same q outside).0,
              update-other g.prev p q 0 apart ∙ (same' q outside).1 ∙ (same q outside).1,
            ),
      )
