-- ===== src/Xht/Keys.antt =====
-- src/lib/xht.c: keys, and what a search in a bucket gives.
use telehash_c.Prelude.{
  ℕ, ◌≡◌, refl, sym, ap₂, subst, ◌⊎◌, inl, inr, ◌↔◌, Bool, true, false, ◌||◌, Option, none, some,
  [], ◌∷◌, arith, if◌then◌else◌, Bool-cases,
}
use telehash_c.Xht.{Key, same, Node, Bucket, has_key, find, val_of}

pub same_refl : (a : Key) → same a a ≡ true
unfolding same
same_refl [] = refl
same_refl (x ∷ xs) = ground (arith, same_refl xs)

pub eq_of_same : (a b : Key) → same a b ≡ true → a ≡ b
unfolding same
eq_of_same [] [] h = refl
eq_of_same [] (y ∷ ys) h = cc
eq_of_same (x ∷ xs) [] h = cc
eq_of_same (x ∷ xs) (y ∷ ys) h =
    ap₂ (λ z zs. z ∷ zs) (ground arith) (eq_of_same xs ys (ground arith))

pub same-sym : (a b : Key) → same a b ≡ same b a
unfolding same
same-sym [] [] = refl
same-sym [] (y ∷ ys) = refl
same-sym (x ∷ xs) [] = refl
same-sym (x ∷ xs) (y ∷ ys) = ground (arith, same-sym xs ys)

pub same_iff : (a b : Key) → (same a b ≡ true) ↔ (a ≡ b)
same_iff a b = (eq_of_same a b, λ e. subst (λ c. same a c ≡ true) e (same_refl a))

-- Two searches that meet one key.
pub has_one : (j k : Key) (o : Option Key) → has_key k o ≡ true → has_key j o ≡ same j k
unfolding has_key
has_one j k none h = cc
has_one j k (some i) h = ground (arith, same_iff k i, same_iff j i, same_iff j k)

pub has_same : (j k : Key) (o : Option Key) → same j k ≡ true → has_key j o ≡ has_key k o
unfolding has_key
has_same j k none h = refl
has_same j k (some i) h = ground (arith, same_iff k i, same_iff j i, same_iff j k)

-- What `find` finds: whether there is a node, and its value.
unfoldable pub present : Key → Bucket → Bool
present k [] = false
present k (n ∷ ns) = has_key k n.key || present k ns

unfoldable pub value : Key → Bucket → ℕ
value k [] = 0
value k (n ∷ ns) = let rest = value k ns in if has_key k n.key then n.val else rest

pub val_of-find : (k : Key) (ns : Bucket) → val_of (find k ns) ≡ value k ns
unfolding find value val_of
val_of-find k [] = refl
val_of-find k (n ∷ ns) = elim (Bool-cases (has_key k n.key)) [
  | inl here ↦ rw here refl
  | inr there ↦ rw there (val_of-find k ns)
]

pub find-cases :
    (k : Key) (ns : Bucket)
    → ((find k ns ≡ none) × (present k ns ≡ false))
      ⊎ ((n : Node) × (find k ns ≡ some n) × (present k ns ≡ true))
unfolding find present
find-cases k [] = inl (refl, refl)
find-cases k (n ∷ ns) = elim (Bool-cases (has_key k n.key)) [
  | inl here ↦ rw here (inr (n, refl, refl))
  | inr there ↦ rw there (find-cases k ns)
]

-- No key is there twice.
abbrev pub LacksKey : Option Key → Bucket → Type 0
LacksKey none ns = Unit
LacksKey (some k) ns = present k ns ≡ false

abbrev pub Unique : Bucket → Type 0
Unique [] = Unit
Unique (n ∷ ns) = LacksKey n.key ns × Unique ns

-- A value 0 is as good as no node.
pub absent : (k : Key) (ns : Bucket) → present k ns ≡ false → value k ns ≡ 0
unfolding present value
absent k [] h = refl
absent k (n ∷ ns) h = ground (arith, absent k ns)

pub at_key :
    (j : Key) (o : Option Key) (ns : Bucket)
    → LacksKey o ns
    → has_key j o ≡ true
    → present j ns ≡ false
unfolding has_key
at_key j none ns lacks here = cc
at_key j (some i) ns lacks here =
    subst (λ l. present l ns ≡ false) (sym (eq_of_same j i here)) lacks

-- The key of a node in front is not behind it.
pub empty_key :
    (j : Key) (m : Node) (ns : Bucket)
    → LacksKey m.key ns
    → has_key j m.key ≡ true
    → present j ns ≡ false
empty_key j m ns lacks here = at_key j m.key ns lacks here
