-- ===== src/UtilFrames/Steps.antt =====
-- src/util/frames.c: one frame from `util_frames_outbox`, and the same frame in `util_frames_inbox`.
use telehash_c.Prelude.{
  ℕ, zero, suc, ◌+◌, ◌*◌, ◌/◌, ◌%◌, ◌≤◌, ◌<◌, ◌≡◌, refl, sym, ap, ap₂, ◌∙◌, Bool, true, false,
  Option, none, some, List, [], ◌∷◌, ◌++◌, append-nil, arith, ◌==◌, length, take, drop,
  nil_of_length, length-drop, take-append-drop,
}
use telehash_c.UtilFrames.{
  UtilFrames, accepted, to_bytes, from_bytes, read_header, check_header, raw, awaiting, prepare,
  resume, complete, inbox_loop, inbox, free_empties, lob_direct, load, outbox, advance, sent,
}
use telehash_c.UtilFrames.Queue.{
  packets, packets-append, drop_empties, of_option, packets-drop_empties,
}
use telehash_c.UtilFrames.Framing.{loop_long}
use telehash_c.UtilFrames.Splitting.{finish, packet_long}

pub word :
    (n : ℕ)
    → n < 4294967296
    → n % 256 + 256 * (n / 256 % 256) + 65536 * (n / 65536 % 256) + 16777216 * (n / 16777216 % 256)
      ≡ n
word n h = omega arith

-- A number of 32 bits is read back from the bytes of a header.
pub read_header-to_bytes :
    (m n : ℕ)
    → m < 4294967296
    → n < 4294967296
    → read_header (to_bytes m ++ to_bytes n) ≡ some (m, n)
unfolding read_header to_bytes from_bytes
read_header-to_bytes m n hm hn = ap₂ (λ a b. some (a, b)) (word m hm) (word n hn)

pub drop_all : (xs : List ℕ) (n : ℕ) → length xs ≡ n → drop n xs ≡ []
drop_all xs n h = nil_of_length _ (omega (arith, length-drop n xs))

pub take_all : (xs : List ℕ) (n : ℕ) → length xs ≡ n → take n xs ≡ xs
take_all xs n h =
    sym (append-nil (take n xs))
    ∙ ap (λ b. take n xs ++ b) (sym (drop_all xs n h))
    ∙ take-append-drop n xs

pub length-header : (m n : ℕ) → length (to_bytes m ++ to_bytes n) ≡ 8
unfolding to_bytes
length-header m n = refl

pub awaiting_idle :
    (r : UtilFrames) → r.inlen ≡ 0 → awaiting r ≡ (8, record r { filled = []; inlen = 8 })
unfolding awaiting prepare
awaiting_idle r idle = ground arith

pub header_checked :
    (r : UtilFrames) (len : ℕ)
    → len ≤ r.max
    → check_header (some (r.magic, len)) (record r { filled = []; inlen = 8 })
      ≡ accepted (record r { filled = []; inlen = len; inbox_err = false })
unfolding check_header
header_checked r len le = ground arith

pub outbox_header :
    (s : UtilFrames) (p : List ℕ) (rest : List (Option (List ℕ)))
    → s.out ≡ []
    → s.is_sending ≡ false
    → drop_empties s.outbox ≡ some p ∷ rest
    → outbox s ≡ (
      record s { outbox = some p ∷ rest; out = to_bytes s.magic ++ to_bytes (length p) },
      some (to_bytes s.magic ++ to_bytes (length p)),
    )
unfolding outbox free_empties load raw
outbox_header s p rest fresh free e = rw (fresh, free, e)

pub outbox_packet : (s : UtilFrames) → 0 < length s.out → outbox s ≡ (s, some s.out)
unfolding outbox
outbox_packet s pos = ground arith

pub sent_header :
    (s : UtilFrames) (p : List ℕ) (q : List (Option (List ℕ)))
    → s.outbox ≡ some p ∷ q
    → length s.out ≡ 8
    → sent s ≡ record s { out = p }
unfolding sent advance raw
sent_header s p q e header = rw (e, header)

pub sent_packet :
    (s : UtilFrames) (p : List ℕ) (q : List (Option (List ℕ)))
    → s.outbox ≡ some p ∷ q
    → 8 < length s.out
    → sent s ≡ record s { out = []; outbox = none ∷ q }
unfolding sent advance
sent_packet s p q e long = rw e (ground arith)

pub outbox_empty :
    (s : UtilFrames)
    → s.out ≡ []
    → s.is_sending ≡ false
    → drop_empties s.outbox ≡ []
    → outbox s ≡ (record s { outbox = [] }, none)
unfolding outbox free_empties load
outbox_empty s fresh free e = rw (fresh, free, e)

pub packets-free_empties :
    (locked : Bool) (q : List (Option (List ℕ))) → packets (free_empties locked q) ≡ packets q
unfolding free_empties
packets-free_empties true q = refl
packets-free_empties false q = packets-drop_empties q

pub packets-finish :
    (js0n : List ℕ → Bool) (p : List ℕ) (r : UtilFrames)
    → lob_direct js0n p ≡ some p
    → packets (finish js0n p r).inbox ≡ packets r.inbox ++ p ∷ []
unfolding finish of_option
packets-finish js0n p r taken =
    packets-append (free_empties r.is_receiving r.inbox) (lob_direct js0n p)
    ∙ ap₂ (λ l o. l ++ of_option o) (packets-free_empties r.is_receiving r.inbox) taken

module _ (js0n : List ℕ → Bool) where
  pub header_received :
      (r : UtilFrames) (len : ℕ)
      → r.inlen ≡ 0
      → r.magic < 4294967296
      → len < 4294967296
      → len ≤ r.max
      → inbox js0n r (to_bytes r.magic ++ to_bytes len)
        ≡ accepted (record r { filled = []; inlen = len; inbox_err = false })
  unfolding inbox resume complete
  header_received r len idle hm hn le =
      let bytes : List ℕ = to_bytes r.magic ++ to_bytes len in
      let at = awaiting_idle r idle in
      ap (λ n. inbox_loop js0n n r bytes) (length-header r.magic len)
      ∙ loop_long js0n 7 r bytes
          (omega (arith, ap (λ (t : ℕ × UtilFrames). t.0) at, length-header r.magic len))
      ∙ ap
          (λ (t : ℕ × UtilFrames).
            resume (drop t.0 bytes) (λ h. inbox_loop js0n 7 h (drop t.0 bytes))
              (complete js0n bytes t.0 t.1))
          at
      ∙ ap
          (λ (more : List ℕ).
            resume more (λ h. inbox_loop js0n 7 h more)
              (complete js0n bytes 8 (record r { filled = []; inlen = 8 })))
          (drop_all bytes 8 (length-header r.magic len))
      ∙ ap (λ o. check_header o (record r { filled = []; inlen = 8 }))
          (read_header-to_bytes r.magic len hm hn)
      ∙ header_checked r len le

  packet_loop :
      (n : ℕ) (p : List ℕ) (g : UtilFrames)
      → g.filled ≡ []
      → g.inlen ≡ length p
      → 0 < n
      → (length p == 8) ≡ false
      → n ≡ length p
      → inbox_loop js0n n g p ≡ accepted (finish js0n p g)
  unfolding resume
  packet_loop zero p g none_filled size pos plain same = elim pos [ ]
  packet_loop (suc n) p g none_filled size pos plain same =
      let none_yet = ap length none_filled in
      packet_long js0n n g p (omega arith) (omega arith) (ap (λ m. m == 8) size ∙ plain)
      ∙ ap₂
          (λ (more all : List ℕ).
            resume more (λ h. inbox_loop js0n n h more) (accepted (finish js0n all g)))
          (drop_all p _ (omega arith))
          (ap₂ (λ a b. a ++ b) none_filled (take_all p _ (omega arith)))

  pub packet_received :
      (g : UtilFrames) (p : List ℕ)
      → g.filled ≡ []
      → g.inlen ≡ length p
      → 0 < length p
      → (length p == 8) ≡ false
      → inbox js0n g p ≡ accepted (finish js0n p g)
  unfolding inbox
  packet_received g p none_filled size pos plain =
      packet_loop (length p) p g none_filled size pos plain refl
