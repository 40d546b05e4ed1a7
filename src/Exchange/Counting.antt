-- ===== src/Exchange/Counting.antt =====
-- The handshakes on the way between two sides, counted by their numbers.
use telehash_c.Prelude.{
  ℕ, zero, suc, ◌+◌, ◌≤◌, ◌<◌, ◌≡◌, refl, sym, ap, subst, ◌∙◌, ◌⊎◌, inl, inr, Option, none, some,
  List, [], ◌∷◌, ◌++◌, arith, ◌==◌, if◌then◌else◌, length, All, All-append, Bool-cases,
}
use telehash_c.Exchange.Levels.{le-cases}
use telehash_c.Exchange.Delivery.{Picked, put_back, pick}

module _ {H : Type 0} (at : H → ℕ) (m : ℕ) where
  unfoldable pub new_in : List H → ℕ
  new_in [] = 0
  new_in (h ∷ hs) = (if at h == m then 1 else 0) + new_in hs

  unfoldable pub old_in : List H → ℕ
  old_in [] = 0
  old_in (h ∷ hs) = (if at h == m then 0 else 1) + old_in hs

  abbrev pub UpTo : List H → Type 0
  UpTo hs = All (λ h. at h ≤ m) hs

  pub new_in-append : (hs gs : List H) → new_in (hs ++ gs) ≡ new_in hs + new_in gs
  unfolding new_in
  new_in-append [] gs = omega arith
  new_in-append (h ∷ hs) gs = let rest = new_in-append hs gs in omega arith

  pub old_in-append : (hs gs : List H) → old_in (hs ++ gs) ≡ old_in hs + old_in gs
  unfolding old_in
  old_in-append [] gs = omega arith
  old_in-append (h ∷ hs) gs = let rest = old_in-append hs gs in omega arith

  pub counts-length : (hs : List H) → new_in hs + old_in hs ≡ length hs
  unfolding new_in old_in
  counts-length [] = refl
  counts-length (h ∷ hs) =
      let rest = counts-length hs in
      elim (Bool-cases (at h == m)) [
        | inl new ↦ rw new (omega arith)
        | inr old ↦ rw old (omega arith)
      ]

  pub one_new : (h : H) → at h ≡ m → (new_in (h ∷ []) ≡ 1) × (old_in (h ∷ []) ≡ 0)
  unfolding new_in old_in
  one_new h e = (ground arith, ground arith)

  pub one_old : (h : H) → at h < m → (new_in (h ∷ []) ≡ 0) × (old_in (h ∷ []) ≡ 1)
  unfolding new_in old_in
  one_old h lt = (ground arith, ground arith)

  -- What was picked and what is left.
  abbrev pub Parts : List H → Option (Picked H) → Type 0
  Parts hs none = Unit
  Parts hs (some p) =
      (new_in hs ≡ new_in (p.one ∷ []) + new_in p.others)
      × (old_in hs ≡ old_in (p.one ∷ []) + old_in p.others)
      × (at p.one ≤ m)
      × UpTo p.others

  put_back-Parts :
      (h : H) (hs : List H) (o : Option (Picked H))
      → at h ≤ m
      → Parts hs o
      → Parts (h ∷ hs) (put_back h o)
  unfolding new_in old_in put_back
  put_back-Parts h hs none le parts = tt
  put_back-Parts h hs (some p) le (news, olds, one, others) =
      (omega arith, omega arith, one, (le, others))

  pub pick-Parts : (i : ℕ) (hs : List H) → UpTo hs → Parts hs (pick i hs)
  unfolding pick new_in old_in
  pick-Parts i [] up = tt
  pick-Parts zero (h ∷ hs) up = (omega arith, omega arith, up.0, up.1)
  pick-Parts (suc i) (h ∷ hs) up = put_back-Parts h hs (pick i hs) up.0 (pick-Parts i hs up.1)

  -- What a list adds to the handshakes on the way.
  abbrev pub Tally : ℕ → ℕ → List H → Type 0
  Tally news olds hs = (new_in hs ≡ news) × (old_in hs ≡ olds) × UpTo hs

  pub Tally-none : (hs : List H) → hs ≡ [] → Tally 0 0 hs
  unfolding new_in old_in
  Tally-none hs e = subst (Tally 0 0) (sym e) (refl, refl, tt)

  pub Tally-new : (hs : List H) (g : H) → hs ≡ g ∷ [] → at g ≡ m → Tally 1 0 hs
  Tally-new hs g e new =
      let (news, olds) = one_new g new in subst (Tally 1 0) (sym e) (news, olds, (omega arith, tt))

  pub Tally-old : (hs : List H) (g : H) → hs ≡ g ∷ [] → at g < m → Tally 0 1 hs
  Tally-old hs g e old =
      let (news, olds) = one_old g old in subst (Tally 0 1) (sym e) (news, olds, (omega arith, tt))

  pub one-Tally :
      (h : H) → at h ≤ m → ((at h ≡ m) × Tally 1 0 (h ∷ [])) ⊎ ((at h < m) × Tally 0 1 (h ∷ []))
  one-Tally h le = elim (le-cases (at h) m le) [
    | inl old ↦ inr (old, Tally-old (h ∷ []) h refl old)
    | inr new ↦ inl (new, Tally-new (h ∷ []) h refl new)
  ]

  pub Tally-append :
      (hs gs : List H) (news olds : ℕ)
      → UpTo hs
      → Tally news olds gs
      → Tally (new_in hs + news) (old_in hs + olds) (hs ++ gs)
  Tally-append hs gs news olds up (new, old, up') = (
    new_in-append hs gs ∙ ap (λ n. new_in hs + n) new,
    old_in-append hs gs ∙ ap (λ n. old_in hs + n) old,
    All-append (λ h. at h ≤ m) hs gs up up',
  )
