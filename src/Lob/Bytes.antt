-- ===== src/Lob/Bytes.antt =====
-- src/lib/lob.c: bytes that are replaced and moved in a block.
use telehash_c.Prelude.{
  ℕ, zero, suc, ◌+◌, ◌≤◌, ◌<◌, ◌≡◌, refl, sym, ap, ◌∙◌, none, some, List, [], ◌∷◌, ◌++◌, arith,
  le→leb, lt→leb-false, length, take, drop, length-append, take-append_self, drop-append_self,
  append-nil,
}
use telehash_c.Lob.{put, move}

pub take_all : (n : ℕ) (xs : List ℕ) → length xs ≤ n → take n xs ≡ xs
take_all zero [] le = refl
take_all zero (x ∷ xs) le = elim le [ ]
take_all (suc n) [] le = refl
take_all (suc n) (x ∷ xs) le = ap (λ l. x ∷ l) (take_all n xs (omega arith))

pub drop_more : (xs ys : List ℕ) (n : ℕ) → drop (length xs + n) (xs ++ ys) ≡ drop n ys
drop_more [] ys n = ap (λ m. drop m ys) (let e : 0 + n ≡ n = omega arith in e)
drop_more (x ∷ xs) ys n =
    let e : suc (length xs) + n ≡ suc (length xs + n) = omega arith in
    ap (λ m. drop m (x ∷ (xs ++ ys))) e ∙ drop_more xs ys n

-- Bytes in the place of as many others.
pub put_between :
    (xs old bytes zs : List ℕ)
    → length bytes ≡ length old
    → put (length xs) bytes (xs ++ (old ++ zs)) ≡ some (xs ++ (bytes ++ zs))
unfolding put
put_between xs old bytes zs same =
    let long = length-append xs (old ++ zs) in
    let long' = length-append old zs in
    rw
      (
        le→leb (length xs + length bytes) (length (xs ++ (old ++ zs))) (omega arith),
        take-append_self xs (old ++ zs),
        same,
        drop_more xs (old ++ zs) (length old),
        drop-append_self old zs,
      )
      refl

pub drop_all : (n : ℕ) (xs : List ℕ) → length xs ≤ n → drop n xs ≡ []
drop_all zero [] le = refl
drop_all zero (x ∷ xs) le = elim le [ ]
drop_all (suc n) [] le = refl
drop_all (suc n) (x ∷ xs) le = drop_all n xs (omega arith)

-- Bytes that end where the block ends.
pub put_end :
    (at : ℕ) (bytes block : List ℕ)
    → length block ≡ at + length bytes
    → put at bytes block ≡ some (take at block ++ bytes)
unfolding put
put_end at bytes block same = rw (le→leb (at + length bytes) (length block) (omega arith)) (
    ap (λ l. some (take at block ++ (bytes ++ l)))
      (drop_all (at + length bytes) block (omega arith))
    ∙ ap (λ l. some (take at block ++ l)) (append-nil bytes))

-- A move that reads past the end.
pub move_past :
    (to from n : ℕ) (block : List ℕ) → length block < from + n → 0 < n → move to from n block ≡ none
unfolding move
move_past to from zero block lt pos = elim pos [ ]
move_past to from (suc m) block lt pos = rw (lt→leb-false (from + suc m) (length block) lt) refl

-- Bytes moved to the end of a block from before its end: what stands before them there is as long as it
-- was, and begins with the same bytes.
pub move_back :
    (to from : ℕ) (xs bytes more : List ℕ)
    → from ≡ length xs
    → from ≤ to
    → length (xs ++ (bytes ++ more)) ≡ to + length bytes
    → move to from (length bytes) (xs ++ (bytes ++ more))
      ≡ some (take to (xs ++ (bytes ++ more)) ++ bytes)
unfolding move put
move_back to from xs [] more e le same =
    ap some (sym (append-nil (take to (xs ++ more)) ∙ take_all to (xs ++ more) (omega arith)))
move_back to from xs (c ∷ bytes) more e le same =
    let cut =
      ap (λ n. take (suc (length bytes)) (drop n (xs ++ ((c ∷ bytes) ++ more)))) e
      ∙ ap (take (suc (length bytes))) (drop-append_self xs ((c ∷ bytes) ++ more))
      ∙ take-append_self (c ∷ bytes) more in
    rw (le→leb (from + suc (length bytes)) (length (xs ++ ((c ∷ bytes) ++ more))) (omega arith)) (
      ap (λ l. put to l (xs ++ ((c ∷ bytes) ++ more))) cut
      ∙ put_end to (c ∷ bytes) (xs ++ ((c ∷ bytes) ++ more)) same)
