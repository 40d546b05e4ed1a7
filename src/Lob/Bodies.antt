-- ===== src/Lob/Bodies.antt =====
-- src/lib/lob.c: `lob_body` and `lob_append`.
use telehash_c.Prelude.{
  ℕ, suc, ◌+◌, ◌-◌, ◌≡◌, refl, sym, ap, ap₂, subst, ◌∙◌, some, List, [], ◌∷◌, ◌++◌, arith, length,
  take, length-append, take-append_self, append-nil, append_assoc,
}
use telehash_c.Lob.{Lob, Outside, put, then_bytes, short, realloc, body, append}
use telehash_c.Lob.Bytes.{put_end}
use telehash_c.Lob.Writing.{Is, IsIn, length-realloc}

module _ (out : Outside) (fills : (n : ℕ) → length (out.fresh n) ≡ n) where
  take_over : (pre t : List ℕ) (k : ℕ) → take (length pre + k) (pre ++ t) ≡ pre ++ take k t
  take_over [] t k = ap (λ n. take n t) (let e : 0 + k ≡ k = omega arith in e)
  take_over (x ∷ pre) t k =
      let e : suc (length pre) + k ≡ suc (length pre + k) = omega arith in
      ap (λ n. take n (x ∷ (pre ++ t))) e ∙ ap (λ l. x ∷ l) (take_over pre t k)

  -- Bytes written behind a part of the old block, to the end of the new one.
  put_over :
      (n at : ℕ) (pre t bytes block : List ℕ)
      → block ≡ pre ++ t
      → at ≡ length pre
      → n ≡ at + length bytes
      → put at bytes (realloc out n block) ≡ some (pre ++ bytes)
  unfolding realloc
  put_over n at pre t bytes block e same size =
      let more = out.fresh (n - length block) in
      let k = length bytes in
      let sum : n ≡ length pre + k = omega arith in
      let kept =
        ap₂ (λ m l. take m l ++ more) sum e
        ∙ ap (λ l. l ++ more) (take_over pre t k)
        ∙ append_assoc pre (take k t) more in
      put_end at bytes (realloc out n block) (length-realloc out fills n block ∙ size)
      ∙ ap (λ l. some (take at l ++ bytes)) kept
      ∙ ap (λ m. some (take m (pre ++ (take k t ++ more)) ++ bytes)) same
      ∙ ap (λ l. some (l ++ bytes)) (take-append_self pre (take k t ++ more))

  before_body :
      (h : List ℕ) (p : Lob)
      → p.head_len ≡ length h
      → 2 + p.head_len ≡ length (short (length h) ++ h)
  unfolding short
  before_body h p e = omega arith

  behind_body :
      (h b : List ℕ) (p : Lob)
      → p.head_len ≡ length h
      → p.body_len ≡ length b
      → 2 + p.head_len + p.body_len ≡ length (short (length h) ++ (h ++ b))
  unfolding short
  behind_body h b p e f = let long = length-append h b in omega arith

  body_lem :
      (bytes : List ℕ) (p : Lob) (raw : List ℕ)
      → put (2 + p.head_len) bytes (realloc out (2 + length bytes + p.head_len) p.raw) ≡ some raw
      → body out bytes p ≡ some (record p { raw = raw; body_len = length bytes })
  unfolding body then_bytes
  body_lem bytes p raw e =
      ap (then_bytes (λ raw. some (record p { raw = raw; body_len = length bytes }))) e

  append_lem :
      (c : ℕ) (bytes : List ℕ) (p : Lob) (raw : List ℕ)
      → put
          (2 + p.head_len + p.body_len)
          (c ∷ bytes)
          (realloc out (2 + length (c ∷ bytes) + p.body_len + p.head_len) p.raw)
        ≡ some raw
      → append out (c ∷ bytes) p
        ≡ some (record p { raw = raw; body_len = p.body_len + length (c ∷ bytes) })
  unfolding append then_bytes
  append_lem c bytes p raw e =
      ap
        (then_bytes
          (λ raw. some (record p { raw = raw; body_len = p.body_len + length (c ∷ bytes) })))
        e

  append_none : (h b : List ℕ) (p : Lob) → Is h b p → IsIn h b (append out [] p)
  unfolding append
  append_none h b p is = is

  -- `lob_body`.
  pub body-Is : (h b bytes : List ℕ) (p : Lob) → Is h b p → IsIn h bytes (body out bytes p)
  body-Is h b bytes p (raw, hlen, blen) =
      let wrote =
        put_over (2 + length bytes + p.head_len) (2 + p.head_len) (short (length h) ++ h) b bytes
          p.raw (raw ∙ sym (append_assoc (short (length h)) h b)) (before_body h p hlen)
          (omega arith) in
      subst (IsIn h bytes) (sym (body_lem bytes p (short (length h) ++ h ++ bytes) wrote))
        (append_assoc (short (length h)) h bytes, hlen, refl)

  -- `lob_append`.
  pub append-Is :
      (h b bytes : List ℕ) (p : Lob) → Is h b p → IsIn h (b ++ bytes) (append out bytes p)
  append-Is h b [] p is =
      subst (λ l. IsIn h l (append out [] p)) (sym (append-nil b)) (append_none h b p is)
  append-Is h b (c ∷ bytes) p (raw, hlen, blen) =
      let whole = short (length h) ++ (h ++ b) in
      let wrote =
        put_over (2 + length (c ∷ bytes) + p.body_len + p.head_len) (2 + p.head_len + p.body_len)
          whole [] (c ∷ bytes) p.raw (raw ∙ sym (append-nil whole)) (behind_body h b p hlen blen)
          (omega arith) in
      subst (IsIn h (b ++ c ∷ bytes)) (sym (append_lem c bytes p (whole ++ c ∷ bytes) wrote)) (
        append_assoc (short (length h)) (h ++ b) (c ∷ bytes)
            ∙ ap (λ l. short (length h) ++ l) (append_assoc h b (c ∷ bytes)),
        hlen,
        ap (λ n. n + length (c ∷ bytes)) blen ∙ sym (length-append b (c ∷ bytes)),
      )
