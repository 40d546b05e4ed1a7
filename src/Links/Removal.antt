-- ===== src/Links/Removal.antt =====
-- src/link.c: what is left of a link's channels when it is taken down, and then freed.
use telehash_c.Prelude.{
  ℕ, zero, suc, ◌<◌, ◌≡◌, refl, ap, ap₂, ◌∙◌, Bool, true, false, Option, none, some, List, [], ◌∷◌,
  arith, ◌==◌, if◌then◌else◌, length, Bool-cases, inl, inr,
}
use telehash_c.LobList.Members.{◌∉◌, Distinct}
use telehash_c.Chan.{Chan, PacketApi, process, err}
use telehash_c.Links.{
  Outcome, done, fault, ◌>>=◌, Store, Link, read, write, no_pipe, free_chans, link_free, link_up,
  report_down, end_chans, link_down,
}
use telehash_c.Links.Rows.{set_at-other, set_at_self, read-eq, Row, Row-cell, allocated, Listed}

abbrev pub forget : {A : Type 0} → Outcome A → Outcome (Unit {0})
forget o = o >>= λ a. done tt

module _ {P : Type 0} where
  abbrev any_freed : List (Option (Chan P)) → Bool
  any_freed [] = false
  any_freed (none ∷ os) = true
  any_freed (some d ∷ os) = any_freed os

  any_freed-allocated : (cs : List (Chan P)) → any_freed (allocated cs) ≡ false
  any_freed-allocated [] = refl
  any_freed-allocated (d ∷ cs) = any_freed-allocated cs

  free_chans-fault :
      (fuel x : ℕ) (s : Store P)
      → (x == 0) ≡ false
      → s.cell x ≡ none
      → free_chans (suc fuel) x s ≡ fault
  unfolding free_chans read
  free_chans-fault fuel x s n h = rw (free_chans, n, read, h)

  free_chans-step :
      (fuel x : ℕ) (s : Store P) (d : Chan P)
      → (x == 0) ≡ false
      → s.cell x ≡ some d
      → free_chans (suc fuel) x s ≡ free_chans fuel (s.next x) (write x none s)
  unfolding free_chans
  free_chans-step fuel x s d n h = rw (free_chans, n, read-eq x d s h)

  -- The loop of `link_free` reads a block that is not allocated exactly when its row has one.
  free_chans-Row :
      (fuel : ℕ) (xs : List ℕ) (os : List (Option (Chan P))) (c : ℕ) (s : Store P)
      → length xs < fuel
      → Row s.cell s.next c xs os
      → Distinct xs
      → forget (free_chans fuel c s) ≡ (if any_freed os then fault else done tt)
  unfolding free_chans
  free_chans-Row zero xs os c s lt row distinct = elim lt [ ]
  free_chans-Row (suc fuel) [] [] c s lt row distinct =
      ap (λ m. forget (free_chans (suc fuel) m s)) row
  free_chans-Row (suc fuel) [] (o ∷ os) c s lt row distinct = elim (row refl) [ ]
  free_chans-Row (suc fuel) (x ∷ xs) [] c s lt row distinct = elim (row refl) [ ]
  free_chans-Row (suc fuel) (x ∷ xs) (none ∷ os) c s lt (e, n, h, row) distinct =
      ap (λ m. forget (free_chans (suc fuel) m s)) e ∙ ap forget (free_chans-fault fuel x s n h)
  free_chans-Row (suc fuel) (x ∷ xs) (some d ∷ os) c s lt (e, n, h, row) (out, distinct) =
      ap (λ m. forget (free_chans (suc fuel) m s)) e
      ∙ ap forget (free_chans-step fuel x s d n h)
      ∙ free_chans-Row fuel xs os (s.next x) (write x none s) (omega arith)
          (Row-cell x none s.cell s.next (s.next x) xs os out row) distinct

module _ {P : Type 0} (api : PacketApi P) (handler : Chan P → Chan P) where
  -- A channel after `chan_err` and `chan_process`, `none` if that freed it.
  abbrev disconnect : Chan P → Option (Chan P)
  disconnect d = process api handler 0 (err api "disconnected" d)

  abbrev pub disconnected : List (Chan P) → List (Option (Chan P))
  disconnected [] = []
  disconnected (d ∷ cs) = disconnect d ∷ disconnected cs

  abbrev pub some_ended : List (Chan P) → Bool
  some_ended cs = any_freed (disconnected cs)

  end_chans-step :
      (fuel x : ℕ) (s : Store P) (d : Chan P)
      → (x == 0) ≡ false
      → s.cell x ≡ some d
      → end_chans api handler (suc fuel) x s
        ≡ end_chans api handler fuel (s.next x) (write x (disconnect d) s)
  unfolding end_chans
  end_chans-step fuel x s d n h = rw (end_chans, n, read-eq x d s h)

  -- The loop of `link_down` ends, and leaves `next` and the blocks outside its row as they were.
  end_chans-Row :
      (fuel : ℕ) (xs : List ℕ) (cs : List (Chan P)) (c : ℕ) (s : Store P)
      → length xs < fuel
      → Listed xs cs c s
      → (cell : ℕ → Option (Chan P)) × (end_chans api handler fuel c s
          ≡ done (record s { cell = cell }))
        × Row cell s.next c xs (disconnected cs)
        × ((p : ℕ) → p ∉ xs → cell p ≡ s.cell p)
  unfolding end_chans
  end_chans-Row zero xs cs c s lt l = elim lt [ ]
  end_chans-Row (suc fuel) [] [] c s lt (row, distinct) =
      (s.cell, ap (λ m. end_chans api handler (suc fuel) m s) row, row, λ p o. refl)
  end_chans-Row (suc fuel) [] (d ∷ cs) c s lt l = elim (l.0 refl) [ ]
  end_chans-Row (suc fuel) (x ∷ xs) [] c s lt l = elim (l.0 refl) [ ]
  end_chans-Row (suc fuel) (x ∷ xs) (d ∷ cs) c s lt ((e, n, h, row), (out, distinct)) =
      let o = disconnect d in
      let (cell, ran, rest, outside) =
        end_chans-Row fuel xs cs (s.next x) (write x o s) (omega arith)
          (Row-cell x o s.cell s.next (s.next x) xs (allocated cs) out row, distinct) in
      (
        cell,
        ap (λ m. end_chans api handler (suc fuel) m s) e ∙ end_chans-step fuel x s d n h ∙ ran,
        (e, n, outside x out ∙ set_at_self x o s.cell, rest),
        λ p q. outside p (ground arith) ∙ set_at-other x o s.cell p (ground arith),
      )

  report_down-list :
      (l : Link P) → ((report_down l).chans ≡ l.chans) × ((report_down l).store ≡ l.store)
  unfolding report_down
  report_down-list l = elim (Bool-cases (link_up l)) [
    | inl up ↦ (rw (report_down, up), rw (report_down, up))
    | inr down ↦ (rw (report_down, down), rw (report_down, down))
  ]

  link_free-no_pipe : (fuel : ℕ) (l : Link P) → link_free fuel (no_pipe l) ≡ link_free fuel l
  unfolding link_free
  link_free-no_pipe fuel l = elim (Bool-cases l.has_pipe) [
    | inl pipe ↦ rw pipe
    | inr none_there ↦ rw none_there
  ]

  -- For a link whose channels are in blocks that are all different, link_free reads no block that was
  -- freed; but link_down and then link_free, as `link_process` and js/core.js call them, read a block
  -- that link_down freed as soon as one channel ends when its handler gets the "disconnected" packet,
  -- and only then.
  pub down_then_free :
      (fuel : ℕ) (xs : List ℕ) (cs : List (Chan P)) (l : Link P)
      → length xs < fuel
      → Listed xs cs l.chans l.store
      → (forget (link_free fuel l) ≡ done tt)
        × (forget (link_down api handler fuel l >>= link_free fuel)
            ≡ (if some_ended cs then fault else done tt))
  unfolding link_free link_down
  down_then_free fuel xs cs l lt (row, distinct) =
      let (chans, store) = report_down-list l in
      let (cell, ran, rest, outside) =
        end_chans-Row fuel xs cs l.chans l.store lt (row, distinct) in
      let m = report_down l in
      let t = record l.store { cell = cell } in
      (
        free_chans-Row fuel xs (allocated cs) l.chans l.store lt row distinct
            ∙ rw (any_freed-allocated cs),
        ap₂
              (λ c s. forget (
                (end_chans api handler fuel c s >>= λ u. done (no_pipe (record m { store = u })))
                >>= link_free fuel))
              chans store
            ∙ ap
                (λ o.
                  forget ((o >>= λ u. done (no_pipe (record m { store = u }))) >>= link_free fuel))
                ran
            ∙ ap forget (link_free-no_pipe fuel (record m { store = t }))
            ∙ ap (λ c. forget (free_chans fuel c t)) chans
            ∙ free_chans-Row fuel xs (disconnected cs) l.chans t lt rest distinct,
      )
