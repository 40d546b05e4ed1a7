-- ===== src/LobList/Members.antt =====
-- Packets in a row: membership, the ends of a row, and a row without one of its packets.
use telehash_c.Prelude.{
  ℕ, suc, ◌≡◌, refl, sym, ap, ◌∙◌, inl, inr, Bool, true, false, ◌||◌, List, [], ◌∷◌, ◌++◌, arith,
  ◌==◌, if◌then◌else◌, length, Bool-cases,
}

abbrev pub has : ℕ → List ℕ → Bool
has p [] = false
has p (x ∷ xs) = (p == x) || has p xs

infix 40 ◌∈◌ ◌∉◌
abbrev pub ◌∈◌ : ℕ → List ℕ → Type 0
p ∈ xs = has p xs ≡ true

abbrev pub ◌∉◌ : ℕ → List ℕ → Type 0
p ∉ xs = has p xs ≡ false

abbrev pub Distinct : List ℕ → Type 0
Distinct [] = Unit
Distinct (x ∷ xs) = (x ∉ xs) × Distinct xs

abbrev pub head_or : ℕ → List ℕ → ℕ
head_or d [] = d
head_or d (x ∷ xs) = x

abbrev pub last_or : ℕ → List ℕ → ℕ
last_or d [] = d
last_or d (x ∷ xs) = last_or x xs

abbrev pub remove : ℕ → List ℕ → List ℕ
remove p [] = []
remove p (x ∷ xs) = let rest = remove p xs in if p == x then rest else x ∷ rest

pub has-append : (p : ℕ) (xs ys : List ℕ) → has p (xs ++ ys) ≡ (has p xs || has p ys)
has-append p [] ys = refl
has-append p (x ∷ xs) ys = ground (arith, has-append p xs ys)

pub Distinct-append :
    (xs ys : List ℕ) (p : ℕ)
    → Distinct (xs ++ p ∷ ys)
    → (p ∉ xs) × (p ∉ ys) × Distinct xs × Distinct ys × Distinct (xs ++ ys)
Distinct-append [] ys p d = (refl, d.0, tt, d.1, d.1)
Distinct-append (x ∷ xs) ys p (out, d) =
    let (a, b, c, e, f) = Distinct-append xs ys p d in
    (
      ground (arith, has-append x xs (p ∷ ys)),
      b,
      (ground (arith, has-append x xs (p ∷ ys)), c),
      e,
      (ground (arith, has-append x xs (p ∷ ys), has-append x xs ys), f),
    )

pub front-∉ : (p : ℕ) (xs ys : List ℕ) → p ∉ xs ++ ys → p ∉ xs
front-∉ p xs ys out = ground (arith, has-append p xs ys)

pub back-∉ : (p : ℕ) (xs ys : List ℕ) → p ∉ xs ++ ys → p ∉ ys
back-∉ p xs ys out = ground (arith, has-append p xs ys)

pub append-∉ : (p : ℕ) (xs ys : List ℕ) → p ∉ xs → p ∉ ys → p ∉ xs ++ ys
append-∉ p xs ys a b = ground (arith, has-append p xs ys)

pub other_of : (p q : ℕ) (xs : List ℕ) → p ∉ xs → q ∈ xs → (q == p) ≡ false
other_of p q xs out inside = elim (Bool-cases (q == p)) [
  | inl same ↦ let e : q ≡ p = ground arith in same ∙ sym inside ∙ ap (λ r. has r xs) e ∙ out
  | inr other ↦ other
]

-- A row of distinct packets has no packet on both sides of a cut.
pub Distinct-apart : (q : ℕ) (xs ys : List ℕ) → Distinct (xs ++ ys) → q ∈ xs → q ∉ ys
Distinct-apart q [] ys d i = cc
Distinct-apart q (x ∷ xs) ys (out, d) i = elim (Bool-cases (q == x)) [
  | inl same ↦ let e : q ≡ x = ground arith in ap (λ r. has r ys) e ∙ back-∉ x xs ys out
  | inr other ↦ Distinct-apart q xs ys d (ground arith)
]

pub Distinct-snoc : (xs : List ℕ) (p : ℕ) → Distinct xs → p ∉ xs → Distinct (xs ++ p ∷ [])
Distinct-snoc [] p d out = (refl, tt)
Distinct-snoc (x ∷ xs) p (o, d) out =
    (ground (arith, has-append x xs (p ∷ [])), Distinct-snoc xs p d (ground arith))

pub remove-out : (p : ℕ) (xs : List ℕ) → p ∉ xs → remove p xs ≡ xs
remove-out p [] out = refl
remove-out p (x ∷ xs) out = ground (arith, remove-out p xs)

pub remove-between : (p : ℕ) (xs ys : List ℕ) → p ∉ xs → p ∉ ys → remove p (xs ++ p ∷ ys) ≡ xs ++ ys
remove-between p [] ys a b = ground (arith, remove-out p ys)
remove-between p (x ∷ xs) ys a b = ground (arith, remove-between p xs ys)

-- A member splits its row in two.
pub split_at : (p : ℕ) (xs : List ℕ) → p ∈ xs → (ys : List ℕ) × (zs : List ℕ) × (xs ≡ ys ++ p ∷ zs)
split_at p [] i = cc
split_at p (x ∷ xs) i = elim (Bool-cases (p == x)) [
  | inl same ↦ ([], xs, ground arith)
  | inr other ↦ let (ys, zs, e) = split_at p xs (ground arith) in (x ∷ ys, zs, ap (λ l. x ∷ l) e)
]

pub last_or-snoc : (d : ℕ) (xs : List ℕ) (p : ℕ) → last_or d (xs ++ p ∷ []) ≡ p
last_or-snoc d [] p = refl
last_or-snoc d (x ∷ xs) p = last_or-snoc x xs p

pub last_or-append : (d : ℕ) (xs ys : List ℕ) → last_or d (xs ++ ys) ≡ last_or (last_or d xs) ys
last_or-append d [] ys = refl
last_or-append d (x ∷ xs) ys = last_or-append x xs ys

pub head_or-append : (d : ℕ) (xs ys : List ℕ) → head_or d (xs ++ ys) ≡ head_or (head_or d ys) xs
head_or-append d [] ys = refl
head_or-append d (x ∷ xs) ys = refl

pub length-snoc : (xs : List ℕ) (p : ℕ) → length (xs ++ p ∷ []) ≡ suc (length xs)
length-snoc [] p = refl
length-snoc (x ∷ xs) p = ap suc (length-snoc xs p)
