-- ===== src/Lob/Parsing.antt =====
-- src/lib/lob.c: `lob_parse` of the bytes of a packet.
use telehash_c.Prelude.{
  ℕ, ◌+◌, ◌-◌, ◌*◌, ◌/◌, ◌%◌, ◌≤◌, ◌<◌, ◌≡◌, refl, sym, ap, ◌∙◌, ◌⊎◌, inl, inr, Bool, true, false,
  ◌&&◌, Option, none, some, List, [], ◌∷◌, ◌++◌, arith, ltb, leb, if◌then◌else◌, length, take,
  length-append, take-append_self,
}
use telehash_c.Lob.{Lob, Outside, new, short, head, body, append, direct, parse}
use telehash_c.Lob.Writing.{Is, IsIn, head-Is}
use telehash_c.Lob.Bodies.{body-Is, append-Is}

counted : (n : ℕ) → n < 65536 → n / 256 % 256 * 256 + n % 256 ≡ n
counted n small = omega arith

not_longer : (a b : ℕ) → b ≤ a → ltb a b ≡ false
not_longer a b le = ground arith

if_some : (t : Bool) (o : Option Lob) (q : Lob) → (if t then none else o) ≡ some q → o ≡ some q
if_some true o q e = cc
if_some false o q e = e

abbrev head_of : Option Lob → ℕ
head_of none = 0
head_of (some p) = p.head_len

module _ (out : Outside) where
  -- A head that js0n is not asked about, or that it takes.
  abbrev pub Good : List ℕ → Type 0
  Good h = (length h < 7) ⊎ (out.is_json h ≡ true)

  good_lem :
      (h : List ℕ) → Good h → (leb 7 (length h) && (if out.is_json h then false else true)) ≡ false
  good_lem h (inl few) = ground arith
  good_lem h (inr json) = ground arith

  direct_lem :
      (a b n : ℕ) (h rest : List ℕ)
      → a * 256 + b ≡ n
      → n ≡ length h
      → Good h
      → direct out (a ∷ b ∷ (h ++ rest))
        ≡ some (record {
          raw = a ∷ b ∷ (h ++ rest);
          head_len = a * 256 + b;
          body_len = length (h ++ rest) - (a * 256 + b);
        })
  unfolding direct
  direct_lem a b n h rest e f good =
      let k : a * 256 + b ≡ length h = e ∙ f in
      let long = length-append h rest in
      let over = not_longer (length (h ++ rest)) (a * 256 + b) (omega arith) in
      let json =
        ap (λ m. leb 7 m && (if out.is_json (take m (h ++ rest)) then false else true)) k
        ∙ ap (λ l. leb 7 (length h) && (if out.is_json l then false else true))
            (take-append_self h rest)
        ∙ good_lem h good in
      rw (over, json) refl

  parse_lem :
      (a b : ℕ) (rest : List ℕ)
      → a * 256 + b ≤ length rest
      → parse out (a ∷ b ∷ rest) ≡ direct out (a ∷ b ∷ rest)
  unfolding parse
  parse_lem a b rest le = rw (not_longer (length rest) (a * 256 + b) le) refl

  -- The bytes of a packet are parsed to that packet.
  pub parse-Is :
      (h b : List ℕ) (p : Lob) → Is h b p → length h < 65536 → Good h → parse out p.raw ≡ some p
  unfolding short
  parse-Is h b p (raw, hlen, blen) small good =
      let n = counted (length h) small in
      let long = length-append h b in
      let body_size : length (h ++ b) - (length h / 256 % 256 * 256 + length h % 256) ≡ p.body_len =
        omega arith in
      ap (parse out) raw
      ∙ parse_lem (length h / 256 % 256) (length h % 256) (h ++ b) (omega arith)
      ∙ direct_lem (length h / 256 % 256) (length h % 256) (length h) h b n refl good
      ∙ (λ i.
          some (record { raw = sym raw i; head_len = (n ∙ sym hlen) i; body_len = body_size i }))

  direct-head_len :
      (a b : ℕ) (rest : List ℕ) (q : Lob)
      → direct out (a ∷ b ∷ rest) ≡ some q
      → q.head_len ≡ a * 256 + b
  unfolding direct
  direct-head_len a b rest q e =
      let hlen = a * 256 + b in
      let json = leb 7 hlen && (if out.is_json (take hlen rest) then false else true) in
      let made : Option Lob =
        some (record { raw = a ∷ b ∷ rest; head_len = hlen; body_len = length rest - hlen }) in
      let inner = if_some (ltb (length rest) hlen) (if json then none else made) q e in
      ap head_of (sym (if_some json made q inner))

  -- A head of 65536 bytes or more is written with the remainder of its length, which is what parsing
  -- gives, if anything.
  pub parse-wide :
      (h b : List ℕ) (p q : Lob)
      → Is h b p
      → parse out p.raw ≡ some q
      → q.head_len ≡ length h % 65536
  unfolding parse short
  parse-wide h b p q (raw, hlen, blen) e =
      let x = length h / 256 % 256 in
      let y = length h % 256 in
      let parsed = sym (ap (parse out) raw) ∙ e in
      let inner =
        if_some (ltb (length (h ++ b)) (x * 256 + y)) (direct out (x ∷ y ∷ (h ++ b))) q parsed in
      let k = direct-head_len x y (h ++ b) q inner in omega arith

-- What is done with a packet, and the same with a head and a body.
pub data Call : Type 0 where
  heads bodies appends : List ℕ → Call

unfoldable pub plain_step : Call → List ℕ × List ℕ → List ℕ × List ℕ
plain_step (heads bytes) (h, b) = (bytes, b)
plain_step (bodies bytes) (h, b) = (h, bytes)
plain_step (appends bytes) (h, b) = (h, b ++ bytes)

unfoldable pub plain_run : List Call → List ℕ × List ℕ → List ℕ × List ℕ
unfolding plain_step
plain_run [] r = r
plain_run (c ∷ cs) r = plain_run cs (plain_step c r)

-- A head is not replaced by a shorter one while there is a body.
abbrev pub Fits : Call → List ℕ × List ℕ → Type 0
Fits (heads bytes) (h, b) = (length h ≤ length bytes) ⊎ (b ≡ [])
Fits (bodies bytes) r = Unit
Fits (appends bytes) r = Unit

abbrev pub AllFit : List Call → List ℕ × List ℕ → Type 0
AllFit [] r = Unit
AllFit (c ∷ cs) r = Fits c r × AllFit cs (plain_step c r)

module _ (out : Outside) where
  unfoldable pub step : Call → Lob → Option Lob
  unfolding head body append
  step (heads bytes) p = head out bytes p
  step (bodies bytes) p = body out bytes p
  step (appends bytes) p = append out bytes p

  unfoldable pub then_step : (Lob → Option Lob) → Option Lob → Option Lob
  then_step rest none = none
  then_step rest (some p) = rest p

  unfoldable pub run : List Call → Lob → Option Lob
  unfolding step then_step
  run [] p = some p
  run (c ∷ cs) p = then_step (λ q. run cs q) (step c p)

module _ (out : Outside) (fills : (n : ℕ) → length (out.fresh n) ≡ n) where
  step-Is :
      (c : Call) (r : List ℕ × List ℕ) (p : Lob)
      → Fits c r
      → Is r.0 r.1 p
      → IsIn (plain_step c r).0 (plain_step c r).1 (step out c p)
  unfolding step plain_step
  step-Is (heads bytes) (h, b) p fits is = head-Is out fills h b bytes p is fits
  step-Is (bodies bytes) (h, b) p fits is = body-Is out fills h b bytes p is
  step-Is (appends bytes) (h, b) p fits is = append-Is out fills h b bytes p is

  then-Is :
      (cs : List Call) (r : List ℕ × List ℕ) (o : Option Lob)
      → IsIn r.0 r.1 o
      → ((p : Lob) → Is r.0 r.1 p → IsIn (plain_run cs r).0 (plain_run cs r).1 (run out cs p))
      → IsIn (plain_run cs r).0 (plain_run cs r).1 (then_step out (λ q. run out cs q) o)
  unfolding then_step
  then-Is cs r none is rest = elim is [ ]
  then-Is cs r (some p) is rest = rest p is

  run-Is :
      (cs : List Call) (r : List ℕ × List ℕ) (p : Lob)
      → AllFit cs r
      → Is r.0 r.1 p
      → IsIn (plain_run cs r).0 (plain_run cs r).1 (run out cs p)
  unfolding run plain_run
  run-Is [] r p fit is = is
  run-Is (c ∷ cs) r p (fits, fit) is =
      then-Is cs (plain_step c r) (step out c p) (step-Is c r p fits is)
        (λ q isq. run-Is cs (plain_step c r) q fit isq)

  new-Is : Is [] [] new
  unfolding new short
  new-Is = (refl, refl, refl)

  parsed :
      (h b : List ℕ) (o : Option Lob)
      → IsIn h b o
      → length h < 65536
      → Good out h
      → (p : Lob) × (o ≡ some p) × Is h b p × (parse out p.raw ≡ some p)
  parsed h b none is small good = elim is [ ]
  parsed h b (some p) is small good = (p, refl, is, parse-Is out h b p is small good)

  -- After any row of `lob_head`, `lob_body` and `lob_append` on a new packet, in which no head is
  -- replaced by a shorter one while there is a body, with a last head under 65536 bytes that js0n takes
  -- if it has 7 or more: the calls succeed, the bytes are the last head and body behind the head's
  -- length, and `lob_parse` of the bytes gives the packet, given that `realloc` gives as many bytes as it
  -- is asked for.
  pub parse-run :
      (cs : List Call)
      → AllFit cs ([], [])
      → length (plain_run cs ([], [])).0 < 65536
      → Good out (plain_run cs ([], [])).0
      → (p : Lob) × (run out cs new ≡ some p)
        × Is (plain_run cs ([], [])).0 (plain_run cs ([], [])).1 p
        × (parse out p.raw ≡ some p)
  parse-run cs fit small good =
      parsed (plain_run cs ([], [])).0 (plain_run cs ([], [])).1 (run out cs new)
        (run-Is cs ([], []) new fit new-Is) small good
