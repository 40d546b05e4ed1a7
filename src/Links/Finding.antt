-- ===== src/Links/Finding.antt =====
-- src/link.c: what a link's channels are as a list, and the search for one by its id.
use telehash_c.Prelude.{
  ℕ, zero, suc, ◌<◌, ◌≡◌, refl, ap, ◌∙◌, Bool, true, false, some, List, [], ◌∷◌, arith, ◌==◌,
  if◌then◌else◌, length, Bool-cases, inl, inr, ◌⊎◌,
}
use telehash_c.LobList.Members.{◌∈◌, other_of}
use telehash_c.Chan.{Chan}
use telehash_c.Links.{Outcome, done, ◌>>=◌, Store, set_at, chan_get}
use telehash_c.Links.Rows.{set_at-other, set_at_self, read-eq, Row, Row-cell, allocated, Listed}

module _ {P : Type 0} where
  abbrev pub has_chan : ℕ → List (Chan P) → Bool
  has_chan id [] = false
  has_chan id (d ∷ cs) = let rest = has_chan id cs in if d.id == id then true else rest

  -- The first channel with the id is changed.
  abbrev pub change : ℕ → (Chan P → Chan P) → List (Chan P) → List (Chan P)
  change id f [] = []
  change id f (d ∷ cs) = let rest = change id f cs in if d.id == id then f d ∷ cs else d ∷ rest

  pub change-missing :
      (id : ℕ) (f : Chan P → Chan P) (cs : List (Chan P))
      → has_chan id cs ≡ false
      → change id f cs ≡ cs
  change-missing id f [] missing = refl
  change-missing id f (d ∷ cs) missing = ground (arith, change-missing id f cs)

  -- The block that was found, with what the row is once its channel is changed.
  abbrev pub Found : ℕ → (Chan P → Chan P) → List ℕ → List (Chan P) → ℕ → Store P → ℕ → Type 0
  Found id f xs cs c s at =
      ((at == 0) ≡ false)
      × (at ∈ xs)
      × (has_chan id cs ≡ true)
      × ((d : Chan P) × (s.cell at ≡ some d)
          × Row (set_at at (some (f d)) s.cell) s.next c xs (allocated (change id f cs)))

  abbrev pub Search :
      ℕ → (Chan P → Chan P) → List ℕ → List (Chan P) → ℕ → Store P → Outcome ℕ → Type 0
  Search id f xs cs c s o =
      ((o ≡ done 0) × (has_chan id cs ≡ false))
      ⊎ ((at : ℕ) × (o ≡ done at) × Found id f xs cs c s at)

  chan_get-here :
      (fuel id x : ℕ) (s : Store P) (d : Chan P)
      → (x == 0) ≡ false
      → s.cell x ≡ some d
      → (d.id == id) ≡ true
      → chan_get (suc fuel) id x s ≡ done x
  unfolding chan_get
  chan_get-here fuel id x s d n h same = rw (chan_get, n, read-eq x d s h, ◌>>=◌, same)

  chan_get-later :
      (fuel id x : ℕ) (s : Store P) (d : Chan P)
      → (x == 0) ≡ false
      → s.cell x ≡ some d
      → (d.id == id) ≡ false
      → chan_get (suc fuel) id x s ≡ chan_get fuel id (s.next x) s
  unfolding chan_get
  chan_get-later fuel id x s d n h other = rw (chan_get, n, read-eq x d s h, ◌>>=◌, other)

  pub chan_get-Search :
      (fuel id : ℕ) (f : Chan P → Chan P) (xs : List ℕ) (cs : List (Chan P)) (c : ℕ) (s : Store P)
      → length xs < fuel
      → Listed xs cs c s
      → Search id f xs cs c s (chan_get fuel id c s)
  unfolding chan_get
  chan_get-Search zero id f xs cs c s lt l = elim lt [ ]
  chan_get-Search (suc fuel) id f [] [] c s lt (row, distinct) =
      inl (ap (λ m. chan_get (suc fuel) id m s) row, refl)
  chan_get-Search (suc fuel) id f [] (d ∷ cs) c s lt l = elim (l.0 refl) [ ]
  chan_get-Search (suc fuel) id f (x ∷ xs) [] c s lt l = elim (l.0 refl) [ ]
  chan_get-Search (suc fuel) id f (x ∷ xs) (d ∷ cs) c s lt ((e, n, h, row), (out, distinct)) =
      let moved = ap (λ m. chan_get (suc fuel) id m s) e in
      elim (Bool-cases (d.id == id)) [
        | inl same ↦ inr (
          x,
          moved ∙ chan_get-here fuel id x s d n h same,
          (
            n,
            ground arith,
            rw same,
            (
              d,
              h,
              rw same (
                e,
                n,
                set_at_self x (some (f d)) s.cell,
                Row-cell x (some (f d)) s.cell s.next (s.next x) xs (allocated cs) out row,
              ),
            ),
          ),
        )
        | inr other ↦
            elim (chan_get-Search fuel id f xs cs (s.next x) s (omega arith) (row, distinct)) [
              | inl (ran, missing) ↦
                  inl (moved ∙ chan_get-later fuel id x s d n h other ∙ ran, rw other missing)
              | inr (at, ran, (m, i, there, (g, k, row_there))) ↦ inr (
                at,
                moved ∙ chan_get-later fuel id x s d n h other ∙ ran,
                (
                  m,
                  ground arith,
                  rw other there,
                  (
                    g,
                    k,
                    rw other (
                      e,
                      n,
                      set_at-other at (some (f g)) s.cell x (other_of x at xs out i) ∙ h,
                      row_there,
                    ),
                  ),
                ),
              )
            ]
      ]
