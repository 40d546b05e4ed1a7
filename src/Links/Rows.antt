-- ===== src/Links/Rows.antt =====
-- src/link.c: the list of a link's channels in memory, and what a write leaves of it.
use telehash_c.Prelude.{
  ℕ, ◌≡◌, ◌≢◌, sym, subst, ◌∙◌, false, Option, some, List, [], ◌∷◌, arith, ◌==◌,
}
use telehash_c.LobList.Members.{◌∉◌, Distinct}
use telehash_c.Chan.{Chan}
use telehash_c.Links.{done, Store, set_at, read}

pub set_at-other {ℓ} :
    {A : Type ℓ} (c : ℕ) (v : A) (f : ℕ → A) (d : ℕ) → (c == d) ≡ false → set_at c v f d ≡ f d
set_at-other c v f d e = rw e

pub set_at_self {ℓ} : {A : Type ℓ} (c : ℕ) (v : A) (f : ℕ → A) → set_at c v f c ≡ v
set_at_self c v f = ground arith

pub read-eq :
    {P : Type 0} (c : ℕ) (d : Chan P) (s : Store P) → s.cell c ≡ some d → read c s ≡ done d
unfolding read
read-eq c d s e = rw (read, e)

module _ {P : Type 0} where
  -- From the block `c` on, `next` leads through the blocks `xs`, which hold what `cs` says, to NULL.
  abbrev pub Row : (ℕ → Option (Chan P)) → (ℕ → ℕ) → ℕ → List ℕ → List (Option (Chan P)) → Type 0
  Row cell next c [] [] = c ≡ 0
  Row cell next c [] (d ∷ cs) = c ≢ c
  Row cell next c (x ∷ xs) [] = c ≢ c
  Row cell next c (x ∷ xs) (d ∷ cs) =
      (c ≡ x) × ((x == 0) ≡ false) × (cell x ≡ d) × Row cell next (next x) xs cs

  -- What is written in a block outside a row leaves the row.
  pub Row-cell :
      (p : ℕ) (v : Option (Chan P)) (cell : ℕ → Option (Chan P)) (next : ℕ → ℕ) (c : ℕ)
      (xs : List ℕ) (cs : List (Option (Chan P)))
      → p ∉ xs
      → Row cell next c xs cs
      → Row (set_at p v cell) next c xs cs
  Row-cell p v cell next c [] [] out r = r
  Row-cell p v cell next c [] (d ∷ cs) out r = r
  Row-cell p v cell next c (x ∷ xs) [] out r = r
  Row-cell p v cell next c (x ∷ xs) (d ∷ cs) out (e, n, h, r) = (
    e,
    n,
    set_at-other p v cell x (ground arith) ∙ h,
    Row-cell p v cell next (next x) xs cs (ground arith) r,
  )

  pub Row-next :
      (p v : ℕ) (cell : ℕ → Option (Chan P)) (next : ℕ → ℕ) (c : ℕ) (xs : List ℕ)
      (cs : List (Option (Chan P)))
      → p ∉ xs
      → Row cell next c xs cs
      → Row cell (set_at p v next) c xs cs
  Row-next p v cell next c [] [] out r = r
  Row-next p v cell next c [] (d ∷ cs) out r = r
  Row-next p v cell next c (x ∷ xs) [] out r = r
  Row-next p v cell next c (x ∷ xs) (d ∷ cs) out (e, n, h, r) = (
    e,
    n,
    h,
    subst (λ (m : ℕ). Row cell (set_at p v next) m xs cs)
        (sym (set_at-other p v next x (ground arith)))
        (Row-next p v cell next (next x) xs cs (ground arith) r),
  )

  abbrev pub allocated : List (Chan P) → List (Option (Chan P))
  allocated [] = []
  allocated (d ∷ cs) = some d ∷ allocated cs

  -- A link's list: a row of allocated blocks that are all different.
  abbrev pub Listed : List ℕ → List (Chan P) → ℕ → Store P → Type 0
  Listed xs cs c s = Row s.cell s.next c xs (allocated cs) × Distinct xs
