-- ===== src/Exchange/Ids.antt =====
-- src/e3x/exchange.c: the orders of two sides, and the ids of the channels that they open.
use telehash_c.Prelude.{
  ℕ, zero, suc, ◌+◌, ◌*◌, ◌%◌, ◌^◌, ◌<◌, ◌≡◌, ◌≢◌, refl, sym, ap, ap₂, subst, ◌∙◌, ◌⊎◌, inl, inr,
  true, false, some, List, [], ◌∷◌, arith, ltb, ◌==◌, if◌then◌else◌, length, All,
}
use mathlib.Core.Option.{some-injective}
use telehash_c.Exchange.{Exchange, new, order_of, next_cid, check_cid}

-- What `e3x_exchange_cid` is called for: a channel that is opened here, or an open packet with an id.
pub data IdEvent : Type 0 where
  opens : IdEvent
  comes : ℕ → IdEvent

unfoldable pub given_of : List IdEvent → Exchange → List ℕ
unfolding next_cid check_cid
given_of [] x = []
given_of (opens ∷ es) x = (next_cid x).0 ∷ given_of es (next_cid x).1
given_of (comes c ∷ es) x = given_of es (check_cid c x).1

unfoldable pub accepted_of : List IdEvent → Exchange → List ℕ
unfolding next_cid check_cid
accepted_of [] x = []
accepted_of (opens ∷ es) x = accepted_of es (next_cid x).1
accepted_of (comes c ∷ es) x =
    let rest = accepted_of es (check_cid c x).1 in
    if (check_cid c x).0 == 0 then rest else (check_cid c x).0 ∷ rest

-- Each number is larger than the one before.
abbrev pub Rising : ℕ → List ℕ → Type 0
Rising low [] = Unit
Rising low (c ∷ cs) = (low < c) × Rising c cs

-- The next ids of a side that opens channels, and the answers to ids that come in.
unfoldable pub next_cids : ℕ → Exchange → List ℕ
unfolding next_cid
next_cids zero x = []
next_cids (suc k) x = (next_cid x).0 ∷ next_cids k (next_cid x).1

unfoldable pub check_cids : List ℕ → Exchange → List ℕ
unfolding check_cid
check_cids [] x = []
check_cids (c ∷ cs) x = (check_cid c x).0 ∷ check_cids cs (check_cid c x).1

check_cid-cases :
    (c : ℕ) (x : Exchange)
    → (check_cid c x ≡ (0, x))
      ⊎ ((check_cid c x ≡ (c, record x { last = c }))
          × (0 < c)
          × (x.last < c)
          × (c % 2 ≡ (x.cid + 1) % 2))
unfolding check_cid
check_cid-cases c x = ground arith

check_cid-taken :
    (c : ℕ) (x : Exchange)
    → x.last < c
    → c % 2 ≢ x.cid % 2
    → check_cid c x ≡ (c, record x { last = c })
unfolding check_cid
check_cid-taken c x lt odd = ground arith

nonzero : (n : ℕ) → 0 < n → (n == 0) ≡ false
nonzero n pos = ground arith

suc-apart : (n : ℕ) → suc n ≡ 0 → ⊥
suc-apart n e = omega arith

three_ways : (a b : ℕ) → (a < b) ⊎ (a ≡ b) ⊎ (b < a)
three_ways a b = ground arith

order_of-less :
    (k s : ℕ) (a b : List ℕ)
    → k < s
    → (order_of (k ∷ a) (s ∷ b) ≡ some 1) × (order_of (s ∷ b) (k ∷ a) ≡ some 2)
unfolding order_of
order_of-less k s a b lt =
    let e : (k == s) ≡ false = ground arith in
    let e' : (s == k) ≡ false = ground arith in
    let l : ltb s k ≡ false = ground arith in
    let l' : ltb k s ≡ true = ground arith in rw (e, e', l, l') (refl, refl)

order_of-same : (k s : ℕ) (a b : List ℕ) → k ≡ s → order_of (k ∷ a) (s ∷ b) ≡ order_of a b
unfolding order_of
order_of-same k s a b e = let same : (k == s) ≡ true = ground arith in rw same refl

pub order_of-apart :
    (a b : List ℕ)
    → length a ≡ length b
    → a ≢ b
    → ((order_of a b ≡ some 1) × (order_of b a ≡ some 2))
      ⊎ ((order_of a b ≡ some 2) × (order_of b a ≡ some 1))
unfolding order_of
order_of-apart [] [] e apart = elim (apart refl) [ ]
order_of-apart [] (k ∷ b) e apart = elim (suc-apart (length b) (sym e)) [ ]
order_of-apart (k ∷ a) [] e apart = elim (suc-apart (length a) e) [ ]
order_of-apart (k ∷ a) (s ∷ b) e apart = elim (three_ways k s) [
  | inl less ↦ inl (order_of-less k s a b less)
  | inr (inr more) ↦ let (one, two) = order_of-less s k b a more in inr (two, one)
  | inr (inl same) ↦
      let rest =
        order_of-apart a b (omega arith) (λ tails. apart (ap₂ (λ x xs. x ∷ xs) same tails)) in
      rw (order_of-same k s a b same, order_of-same s k b a (sym same)) rest
]

pub orders_differ :
    (key self : List ℕ) (order order' : ℕ)
    → length key ≡ length self
    → key ≢ self
    → order_of key self ≡ some order
    → order_of self key ≡ some order'
    → ((order ≡ 1) × (order' ≡ 2)) ⊎ ((order ≡ 2) × (order' ≡ 1))
orders_differ key self order order' same apart e e' = elim (order_of-apart key self same apart) [
  | inl (one, two) ↦
      inl (some-injective order 1 (sym e ∙ one), some-injective order' 2 (sym e' ∙ two))
  | inr (two, one) ↦
      inr (some-injective order 2 (sym e ∙ two), some-injective order' 1 (sym e' ∙ one))
]

parts : (a b : ℕ) → a % 2 + b % 2 ≡ 1 → a % 2 ≢ b % 2
parts a b e = λ same. suc-apart 0 (omega arith)

odd_cid : (n : ℕ) → (n + 2) % 2 ^ 32 % 2 ≡ n % 2
odd_cid n = omega arith

even_cid : (n : ℕ) → ((n + 2) % 2 ^ 32 + 1) % 2 ≡ (n + 1) % 2
even_cid n = omega arith

-- Whatever channels are opened and whatever ids come in, each id that is accepted is larger than the
-- one accepted before, the ids given out are even or odd as the side's first one, and those accepted are
-- not.
pub accepted_of-given_of :
    (es : List IdEvent) (x : Exchange)
    → Rising x.last (accepted_of es x)
      × All (λ c. c % 2 ≡ (x.cid + 1) % 2) (accepted_of es x)
      × All (λ c. c % 2 ≡ x.cid % 2) (given_of es x)
unfolding accepted_of given_of
accepted_of-given_of [] x = (tt, tt, tt)
accepted_of-given_of (opens ∷ es) x =
    let y = record x { cid = (x.cid + 2) % 2 ^ 32 } in
    let (rising, apart, same) = accepted_of-given_of es y in
    (
      rising,
      subst (λ r. All (λ c. c % 2 ≡ r) (accepted_of es y)) (even_cid x.cid) apart,
      (refl, subst (λ r. All (λ c. c % 2 ≡ r) (given_of es y)) (odd_cid x.cid) same),
    )
accepted_of-given_of (comes c ∷ es) x = elim (check_cid-cases c x) [
  | inl refused ↦ rw refused (accepted_of-given_of es x)
  | inr (taken, pos, lt, odd) ↦
      let (rising, apart, same) = accepted_of-given_of es (record x { last = c }) in
      rw (taken, nonzero c pos) ((lt, rising), (odd, apart), same)
]

check_cids-next_cids :
    (k : ℕ) (x y : Exchange)
    → x.cid % 2 ≢ y.cid % 2
    → y.last < x.cid
    → x.cid + 2 * k < 2 ^ 32
    → check_cids (next_cids k x) y ≡ next_cids k x
unfolding next_cids check_cids
check_cids-next_cids zero x y apart lt small = refl
check_cids-next_cids (suc k) x y apart lt small =
    let taken = check_cid-taken x.cid y lt apart in
    let rest =
      check_cids-next_cids k (record x { cid = (x.cid + 2) % 2 ^ 32 }) (record y { last = x.cid })
        (λ e. apart (sym (odd_cid x.cid) ∙ e)) (omega arith) (omega arith) in
    rw taken (ap (λ cs. x.cid ∷ cs) rest)

-- Two sides with different keys of one length: when one opens channels in a row, up to the largest
-- number, and the open packets come to the other side in their order, each id is accepted.
pub opened_accepted :
    (k order order' : ℕ) (key self : List ℕ)
    → length key ≡ length self
    → key ≢ self
    → order_of key self ≡ some order
    → order_of self key ≡ some order'
    → 2 + 2 * k < 2 ^ 32
    → check_cids (next_cids k (new order)) (new order') ≡ next_cids k (new order)
unfolding new
opened_accepted k order order' key self same apart e e' small =
    elim (orders_differ key self order order' same apart e e') [
      | inl (one, two) ↦
          check_cids-next_cids k (new order) (new order') (parts order order' (omega arith))
            (omega arith) (omega arith)
      | inr (two, one) ↦
          check_cids-next_cids k (new order) (new order') (parts order order' (omega arith))
            (omega arith) (omega arith)
    ]
