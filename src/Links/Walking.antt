-- ===== src/Links/Walking.antt =====
-- src/link.c: `link_process_chan` over the memory blocks does what a pass over a list of channels does.
use telehash_c.Prelude.{
  ℕ, zero, suc, ◌<◌, ◌≤◌, ◌≡◌, refl, sym, ap, subst, ◌∙◌, false, Option, none, some, List, [], ◌∷◌,
  arith, ◌==◌, length,
}
use telehash_c.LobList.Members.{◌∉◌}
use telehash_c.Chan.{Chan, PacketApi, process, or_drop, process_all}
use telehash_c.Links.{
  Outcome, done, ◌>>=◌, Store, set_at, write, relink, process_rest, process_chan,
}
use telehash_c.Links.Rows.{
  set_at-other, set_at_self, read-eq, Row, Row-cell, Row-next, allocated, Listed,
}

module _ {P : Type 0} (api : PacketApi P) (handler : Chan P → Chan P) where
  -- A walk over the blocks `xs` ends, with the channels `cs` in some of these blocks, and leaves all
  -- other blocks as they were.
  abbrev pub Walk : List ℕ → List (Chan P) → Store P → Outcome (ℕ × Store P) → Type 0
  Walk xs cs s o =
      (c : ℕ) × (t : Store P) × (ys : List ℕ) × (o ≡ done (c, t))
      × Listed ys cs c t
      × ((p : ℕ) → p ∉ xs → p ∉ ys)
      × ((p : ℕ) → p ∉ xs → t.cell p ≡ s.cell p)
      × (length ys ≤ length xs)

  relink-Walk :
      (x : ℕ) (xs ys : List ℕ) (cs : List (Chan P)) (o : Option (Chan P)) (next : ℕ) (s t : Store P)
      → x ∉ xs
      → (x == 0) ≡ false
      → Listed ys cs next t
      → ((p : ℕ) → p ∉ xs → p ∉ ys)
      → ((p : ℕ) → p ∉ xs → t.cell p ≡ s.cell p)
      → length ys ≤ length xs
      → Walk (x ∷ xs) (or_drop api o cs) s (done (relink api handler x next o t))
  unfolding relink or_drop
  relink-Walk x xs ys cs none next s t out n (row, distinct) inside outside le = (
    next,
    write x none t,
    ys,
    refl,
    (Row-cell x none t.cell t.next next ys (allocated cs) (inside x out) row, distinct),
    λ p o. inside p (ground arith),
    λ p o. set_at-other x none t.cell p (ground arith) ∙ outside p (ground arith),
    omega arith,
  )
  relink-Walk x xs ys cs (some d) next s t out n (row, distinct) inside outside le =
      let kept =
        Row-cell x (some d) t.cell (set_at x next t.next) next ys (allocated cs) (inside x out)
          (Row-next x next t.cell t.next next ys (allocated cs) (inside x out) row) in
      (
        x,
        record { cell = set_at x (some d) t.cell; next = set_at x next t.next },
        x ∷ ys,
        refl,
        (
          (
            refl,
            n,
            set_at_self x (some d) t.cell,
            subst (λ m. Row (set_at x (some d) t.cell) (set_at x next t.next) m ys (allocated cs))
                (sym (set_at_self x next t.next)) kept,
          ),
          (inside x out, distinct),
        ),
        λ p o. let a = inside p (ground arith) in ground arith,
        λ p o. set_at-other x (some d) t.cell p (ground arith) ∙ outside p (ground arith),
        omega arith,
      )

  process_chan-step :
      (fuel now c : ℕ) (s : Store P) (d : Chan P)
      → (c == 0) ≡ false
      → s.cell c ≡ some d
      → process_chan api handler (suc fuel) now c s
        ≡ (process_chan api handler fuel now (s.next c) s >>= process_rest api handler now c)
  unfolding process_chan
  process_chan-step fuel now c s d n h = rw (process_chan, n, read-eq c d s h)

  process_rest-eq :
      (now c next : ℕ) (s : Store P) (d : Chan P)
      → s.cell c ≡ some d
      → process_rest api handler now c (next, s)
        ≡ done (relink api handler c next (process api handler now d) s)
  unfolding process_rest
  process_rest-eq now c next s d h = rw (process_rest, read-eq c d s h)

  pub process_chan-Walk :
      (fuel now : ℕ) (xs : List ℕ) (cs : List (Chan P)) (c : ℕ) (s : Store P)
      → length xs < fuel
      → Listed xs cs c s
      → Walk xs (process_all api handler now cs) s (process_chan api handler fuel now c s)
  unfolding process_chan process_all
  process_chan-Walk zero now xs cs c s lt l = elim lt [ ]
  process_chan-Walk (suc fuel) now [] [] c s lt (row, distinct) =
      (0, s, [], rw row, (refl, tt), λ p o. o, λ p o. refl, omega arith)
  process_chan-Walk (suc fuel) now [] (d ∷ cs) c s lt l = elim (l.0 refl) [ ]
  process_chan-Walk (suc fuel) now (x ∷ xs) [] c s lt l = elim (l.0 refl) [ ]
  process_chan-Walk (suc fuel) now (x ∷ xs) (d ∷ cs) c s lt ((e, n, h, row), (out, distinct)) =
      let (next, t, ys, ran, listed, inside, outside, le) =
        process_chan-Walk fuel now xs cs (s.next x) s (omega arith) (row, distinct) in
      let (c', t', zs, is, kept, within, others, fewer) =
        relink-Walk x xs ys (process_all api handler now cs) (process api handler now d) next s t
          out n listed inside outside le in
      let ends =
        ap (λ m. process_chan api handler (suc fuel) now m s) e
        ∙ process_chan-step fuel now x s d n h
        ∙ ap (λ o. o >>= process_rest api handler now x) ran
        ∙ process_rest-eq now x next t d (outside x out ∙ h)
        ∙ is in
      (c', t', zs, ends, kept, within, others, fewer)
