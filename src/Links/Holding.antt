-- ===== src/Links/Holding.antt =====
-- src/link.c: what a link's list of channels holds, and a channel that is added to it.
use telehash_c.Prelude.{
  ℕ, suc, ◌≤◌, ◌≡◌, refl, sym, ap, subst, ◌∙◌, true, false, String, Option, none, some, List, [],
  ◌∷◌, arith, ◌==◌, length, Bool-cases, inl, inr,
}
use telehash_c.LobList.Members.{◌∉◌}
use telehash_c.Exchange.{Exchange}
use telehash_c.Chan.{Chan, PacketApi, process_all}
use telehash_c.Chan
use telehash_c.Links.{Outcome, done, Store, Link, set_at, give_cid, add_chan, link_chan}
use telehash_c.Links.Rows.{set_at_self, Row, Row-cell, Row-next, allocated, Listed}
use telehash_c.Links.Running.{Free, grown, plain_add}

module _ {P : Type 0} where
  -- A link that is kept, with its channels in blocks that are all different.
  abbrev pub Holds : List ℕ → List (Chan P) × Exchange → Link P → Type 0
  Holds xs (cs, x) l = Listed xs cs l.chans l.store × (l.x ≡ x) × ((l.csid == 0) ≡ false)

  abbrev pub Gives : ℕ → List (Chan P) × Exchange → Outcome (Link P) → Type 0
  Gives n s o = (m : Link P) × (ys : List ℕ) × (o ≡ done m) × Holds ys s m × (length ys ≤ n)

  Free-∉ :
      (at : ℕ) (xs : List ℕ) (cs : List (Chan P)) (c : ℕ) (s : Store P)
      → s.cell at ≡ none
      → Row s.cell s.next c xs (allocated cs)
      → at ∉ xs
  Free-∉ at [] cs c s free row = refl
  Free-∉ at (x ∷ xs) [] c s free row = elim (row refl) [ ]
  Free-∉ at (x ∷ xs) (d ∷ cs) c s free (e, n, h, row) = elim (Bool-cases (at == x)) [
    | inl same ↦
        let i : at ≡ x = ground arith in
        let wrong : none ≡ some d = sym free ∙ ap s.cell i ∙ h in cc
    | inr other ↦ let rest = Free-∉ at xs cs (s.next x) s free row in ground arith
  ]

  add_chan-Gives :
      (at : ℕ) (o : Option (Chan P)) (xs : List ℕ) (cs : List (Chan P)) (x : Exchange) (l : Link P)
      → Free at l
      → Holds xs (cs, x) l
      → Gives (suc (length xs)) (grown o cs, x) (done (add_chan at o l))
  unfolding add_chan
  add_chan-Gives at none xs cs x l free holds = (l, xs, refl, holds, omega arith)
  add_chan-Gives at (some d) xs cs x l (n, free) ((row, distinct), same, kept) =
      let out = Free-∉ at xs cs l.chans l.store free row in
      let e : Chan P = record d { has_link = true } in
      let moved =
        Row-cell at (some e) l.store.cell (set_at at l.chans l.store.next) l.chans xs (allocated cs)
          out (Row-next at l.chans l.store.cell l.store.next l.chans xs (allocated cs) out row) in
      (
        add_chan at (some d) l,
        at ∷ xs,
        refl,
        (
          (
            (
              refl,
              n,
              set_at_self at (some e) l.store.cell,
              subst
                  (λ m.
                    Row (set_at at (some e) l.store.cell) (set_at at l.chans l.store.next) m xs
                      (allocated cs))
                  (sym (set_at_self at l.chans l.store.next)) moved,
            ),
            (out, distinct),
          ),
          same,
          kept,
        ),
        omega arith,
      )

  pub link_chan-Gives :
      (at id : ℕ) (kind : Option String) (xs : List ℕ) (s : List (Chan P) × Exchange) (l : Link P)
      → Free at l
      → Holds xs s l
      → Gives (suc (length xs)) (plain_add id kind s) (done (link_chan at id kind l))
  unfolding link_chan
  link_chan-Gives at id kind xs (cs, x) l free (listed, same, kept) =
      subst
        (λ y. Gives (suc (length xs)) (plain_add id kind (cs, y)) (done (link_chan at id kind l)))
        same
        (add_chan-Gives at (Chan.new (give_cid id l.x).0 kind) xs cs (give_cid id l.x).1
          (record l { x = (give_cid id l.x).1 }) free (listed, refl, kept))
