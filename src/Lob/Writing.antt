-- ===== src/Lob/Writing.antt =====
-- src/lib/lob.c: `lob_head`.
use telehash_c.Prelude.{
  ℕ, suc, ◌+◌, ◌-◌, ◌/◌, ◌%◌, ◌≤◌, ◌<◌, ◌≡◌, refl, sym, ap, subst, ◌∙◌, ◌⊎◌, inl, inr, Option, none,
  some, List, [], ◌∷◌, ◌++◌, arith, length, take, length-append, length-take, append-nil,
  append_assoc,
}
use telehash_c.Lob.{Lob, Outside, move, then_bytes, short, realloc, write_head, head}
use telehash_c.Lob.Bytes.{take_all, put_between, move_back, move_past}

-- A packet with a head and a body.
abbrev pub Is : List ℕ → List ℕ → Lob → Type 0
Is h b p =
    (p.raw ≡ short (length h) ++ (h ++ b)) × (p.head_len ≡ length h) × (p.body_len ≡ length b)

abbrev pub IsIn : List ℕ → List ℕ → Option Lob → Type 0
IsIn h b none = ⊥
IsIn h b (some p) = Is h b p

pub no_bytes : {A : Type 0} (f : List ℕ → Option A) → then_bytes f none ≡ none
unfolding then_bytes
no_bytes f = refl

move_none : (to from : ℕ) (block : List ℕ) → move to from 0 block ≡ some block
unfolding move
move_none to from block = refl

two_and_more :
    (block : List ℕ) (l : ℕ)
    → length block ≡ 2 + l
    → (x y : ℕ) × (old : List ℕ) × (block ≡ x ∷ y ∷ old) × (length old ≡ l)
two_and_more [] l e = absurd (omega arith)
two_and_more (x ∷ []) l e = absurd (omega arith)
two_and_more (x ∷ y ∷ old) l e = (x, y, old, refl, omega arith)

module _ (out : Outside) (fills : (n : ℕ) → length (out.fresh n) ≡ n) where
  write_head-Is :
      (h old b : List ℕ) (x y : ℕ) (p : Lob)
      → length old ≡ length h
      → p.body_len ≡ length b
      → IsIn h b (write_head out h p (x ∷ y ∷ (old ++ b)))
  unfolding write_head then_bytes short
  write_head-Is h old b x y p same len =
      let copied = put_between (x ∷ y ∷ []) old h b (sym same) in
      let counted = put_between [] (x ∷ y ∷ []) (short (length h)) (h ++ b) refl in
      rw copied (rw counted (refl, refl, len))

  pub length-realloc : (n : ℕ) (block : List ℕ) → length (realloc out n block) ≡ n
  unfolding realloc
  length-realloc n block =
      let joined = length-append (take n block) (out.fresh (n - length block)) in
      let cut = length-take n block in let filled = fills (n - length block) in omega arith

  realloc_more :
      (n : ℕ) (block : List ℕ)
      → length block ≤ n
      → realloc out n block ≡ block ++ out.fresh (n - length block)
  unfolding realloc
  realloc_more n block le = ap (λ l. l ++ out.fresh (n - length block)) (take_all n block le)

  head_lem :
      (bytes : List ℕ) (p : Lob)
      → head out bytes p
        ≡ then_bytes (write_head out bytes p) (
            move
              (2 + length bytes)
              (2 + p.head_len)
              p.body_len
              (realloc out (2 + length bytes + p.body_len) p.raw))
  unfolding head
  head_lem bytes p = refl

  -- The move that `lob_head` makes, on a block with the sizes of the packet.
  moved_grown :
      (x y : ℕ) (h b : List ℕ) (l : ℕ)
      → length h ≤ l
      → (old : List ℕ) × (length old ≡ l)
        × (move
              (2 + l)
              (2 + length h)
              (length b)
              (realloc out (2 + l + length b) (x ∷ y ∷ (h ++ b)))
            ≡ some (x ∷ y ∷ (old ++ b)))
  moved_grown x y h b l le =
      let block = x ∷ y ∷ (h ++ b) in
      let n = 2 + l + length b in
      let more = out.fresh (n - length block) in
      let filled = fills (n - length block) in
      let counted = length-append h b in
      let counted' = length-append h (b ++ more) in
      let counted'' = length-append b more in
      let grown =
        realloc_more n block (omega arith) ∙ ap (λ t. x ∷ y ∷ t) (append_assoc h b more) in
      let two : 2 + l ≡ suc (suc l) = omega arith in
      (
        take l (h ++ (b ++ more)),
        (let cut = length-take l (h ++ (b ++ more)) in omega arith),
        ap (move (2 + l) (2 + length h) (length b)) grown
            ∙ move_back (2 + l) (2 + length h) (x ∷ y ∷ h) b more (omega arith) (omega arith)
                (omega arith)
            ∙ ap (λ k. some (take k (x ∷ y ∷ (h ++ (b ++ more))) ++ b)) two,
      )

  -- `lob_head` with a head no shorter than the one before, or on a packet with no body.
  pub head-Is :
      (h b bytes : List ℕ) (p : Lob)
      → Is h b p
      → (length h ≤ length bytes) ⊎ (b ≡ [])
      → IsIn bytes b (head out bytes p)
  unfolding short then_bytes
  head-Is h b bytes p (raw, hlen, blen) (inl longer) =
      let x = length h / 256 % 256 in
      let y = length h % 256 in
      let (old, same, moved) = moved_grown x y h b (length bytes) longer in
      let step =
        ap
          (λ m.
            move (2 + length bytes) (2 + m) p.body_len
              (realloc out (2 + length bytes + p.body_len) p.raw))
          hlen
        ∙ ap
            (λ k.
              move (2 + length bytes) (2 + length h) k (realloc out (2 + length bytes + k) p.raw))
            blen
        ∙ ap
            (λ r.
              move (2 + length bytes) (2 + length h) (length b)
                (realloc out (2 + length bytes + length b) r))
            raw
        ∙ moved in
      subst (IsIn bytes b) (sym (head_lem bytes p ∙ ap (then_bytes (write_head out bytes p)) step))
        (write_head-Is bytes old b x y p same blen)
  head-Is h b bytes p (raw, hlen, blen) (inr nobody) =
      let none_left = blen ∙ ap length nobody in
      let n = 2 + length bytes + p.body_len in
      let (x, y, old, e, same) =
        two_and_more (realloc out n p.raw) (length bytes)
          (length-realloc n p.raw ∙ (let sum : n ≡ 2 + length bytes = omega arith in sum)) in
      let step =
        ap (λ k. move (2 + length bytes) (2 + p.head_len) k (realloc out n p.raw)) none_left
        ∙ move_none (2 + length bytes) (2 + p.head_len) (realloc out n p.raw)
        ∙ ap some (e ∙ ap (λ t. x ∷ y ∷ t) (sym (append-nil old))) in
      subst (λ b. IsIn bytes b (head out bytes p)) (sym nobody)
        (subst (IsIn bytes [])
          (sym (head_lem bytes p ∙ ap (then_bytes (write_head out bytes p)) step))
          (write_head-Is bytes old [] x y p same none_left))

  -- `lob_head` with a shorter head on a packet with a body reads past the end of the block.
  pub head_shorter :
      (h b bytes : List ℕ) (p : Lob)
      → Is h b p
      → length bytes < length h
      → 0 < length b
      → head out bytes p ≡ none
  head_shorter h b bytes p (raw, hlen, blen) shorter pos =
      let n = 2 + length bytes + p.body_len in
      let size = length-realloc n p.raw in
      head_lem bytes p
      ∙ ap (then_bytes (write_head out bytes p)) (
          move_past (2 + length bytes) (2 + p.head_len) p.body_len (realloc out n p.raw)
            (omega arith) (omega arith))
      ∙ no_bytes (write_head out bytes p)
