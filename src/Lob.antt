-- ===== src/Lob.antt =====
-- src/lib/lob.c: a packet's bytes, with the length of its head, the head and the body.
use telehash_c.Prelude.{
  ℕ, zero, suc, ◌+◌, ◌-◌, ◌*◌, ◌/◌, ◌%◌, ◌^◌, ◌≡◌, Bool, true, false, ◌&&◌, Option, none, some,
  List, [], ◌∷◌, ◌++◌, ltb, leb, ◌==◌, if◌then◌else◌, length, take, drop,
}
mod Bytes
mod Writing
mod Bodies
mod Parsing
mod Tests

-- `head` and `body` point into `raw`, behind the two bytes of the length and behind the head.
pub record Lob : Type 0 where
  pub raw : List ℕ
  pub head_len : ℕ
  pub body_len : ℕ

-- `fresh n` is what `realloc` finds in `n` new bytes, and `is_json` what js0n says of a head.
pub record Outside : Type 0 where
  pub fresh : ℕ → List ℕ
  pub is_json : List ℕ → Bool

unfoldable pub new : Lob
new = record { raw = 0 ∷ 0 ∷ []; head_len = 0; body_len = 0 }

-- Bytes of a block are replaced, where `none` is a write past its end.
unfoldable pub put : ℕ → List ℕ → List ℕ → Option (List ℕ)
put at bytes block =
    if leb (at + length bytes) (length block)
    then some (take at block ++ (bytes ++ drop (at + length bytes) block))
    else none

-- `memmove`, where `none` is also a read past the end.
unfoldable pub move : ℕ → ℕ → ℕ → List ℕ → Option (List ℕ)
unfolding put
move to from zero block = some block
move to from (suc m) block =
    let n = suc m in
    if leb (from + n) (length block) then put to (take n (drop from block)) block else none

unfoldable pub then_bytes : {A : Type 0} → (List ℕ → Option A) → Option (List ℕ) → Option A
then_bytes rest none = none
then_bytes rest (some block) = rest block

-- The length of a head, as two bytes in network order.
unfoldable pub short : ℕ → List ℕ
short len = (len / 256 % 256) ∷ (len % 256) ∷ []

module _ (out : Outside) where
  unfoldable pub realloc : ℕ → List ℕ → List ℕ
  realloc n block = take n block ++ out.fresh (n - length block)

  -- `lob_head`, after the body was moved; a head that is NULL is zeros, and is given as such.
  unfoldable pub write_head : List ℕ → Lob → List ℕ → Option Lob
  unfolding then_bytes put short
  write_head head p moved =
      then_bytes
        (λ copied.
          then_bytes
            (λ raw. some (record { raw = raw; head_len = length head; body_len = p.body_len }))
            (put 0 (short (length head)) copied))
        (put 2 head moved)

  unfoldable pub head : List ℕ → Lob → Option Lob
  unfolding write_head realloc move then_bytes
  head bytes p = then_bytes (write_head bytes p) (
      move (2 + length bytes) (2 + p.head_len) p.body_len
        (realloc (2 + length bytes + p.body_len) p.raw))

  -- `lob_body` and `lob_append`.
  unfoldable pub body : List ℕ → Lob → Option Lob
  unfolding realloc put then_bytes
  body bytes p =
      then_bytes (λ raw. some (record p { raw = raw; body_len = length bytes }))
        (put (2 + p.head_len) bytes (realloc (2 + length bytes + p.head_len) p.raw))

  unfoldable pub append : List ℕ → Lob → Option Lob
  unfolding realloc put then_bytes
  append [] p = some p
  append (c ∷ chunk) p =
      then_bytes (λ raw. some (record p { raw = raw; body_len = p.body_len + length (c ∷ chunk) }))
        (put (2 + p.head_len + p.body_len) (c ∷ chunk)
          (realloc (2 + length (c ∷ chunk) + p.body_len + p.head_len) p.raw))

  -- `lob_direct`, and `lob_parse` with its copy of the bytes.
  unfoldable pub direct : List ℕ → Option Lob
  direct (a ∷ b ∷ rest) =
      let hlen = a * 256 + b in
      if ltb (length rest) hlen
      then none
      else (if leb 7 hlen && (if out.is_json (take hlen rest) then false else true)
          then none
          else some (record { raw = a ∷ b ∷ rest; head_len = hlen; body_len = length rest - hlen }))
  direct few = none

  unfoldable pub parse : List ℕ → Option Lob
  unfolding direct
  parse (a ∷ b ∷ rest) = if ltb (length rest) (a * 256 + b) then none else direct (a ∷ b ∷ rest)
  parse few = none
