-- ===== src/Links/Keeping.antt =====
-- src/link.c: over any row of calls, a link's channels in memory are what the calls make of plain lists.
use telehash_c.Prelude.{
  ℕ, suc, ◌<◌, ◌+◌, ◌≡◌, refl, ap, subst, ◌∙◌, Bool, String, Option, none, some, List, [], ◌∷◌,
  arith, ◌==◌, if◌then◌else◌, length, Bool-cases, inl, inr,
}
use telehash_c.Exchange.{Exchange, check_cid}
use telehash_c.Chan.{Chan, PacketApi, process_all}
use telehash_c.Chan
use telehash_c.Links.{
  done, ◌>>=◌, Link, write, process_chans, with_chans, receive_at, keep_or_free, link_process,
  open_chan, link_receive,
}
use telehash_c.Links.Rows.{read-eq}
use telehash_c.Links.Walking.{process_chan-Walk}
use telehash_c.Links.Finding.{Found, change, change-missing, chan_get-Search}
use telehash_c.Links.Running.{
  Call, add, take, listen, tick, Free, Fresh, After, still_there, accept, listen_at, step, run,
  Fits, plain_accept, plain_open, plain_step, plain_run,
}
use telehash_c.Links.Holding.{Holds, Gives, link_chan-Gives}

module _ {P : Type 0} (api : PacketApi P) (handler : Chan P → Chan P) (accepts : P → Bool) where
  process_chans-Gives :
      (fuel now : ℕ) (xs : List ℕ) (cs : List (Chan P)) (x : Exchange) (l : Link P)
      → length xs < fuel
      → Holds xs (cs, x) l
      → Gives (length xs) (process_all api handler now cs, x) (process_chans api handler fuel now l)
  unfolding process_chans
  process_chans-Gives fuel now xs cs x l lt (listed, same, kept) =
      let (c, t, ys, ran, row, inside, outside, le) =
        process_chan-Walk api handler fuel now xs cs l.chans l.store lt listed in
      (
        with_chans api handler l (c, t),
        ys,
        ap (λ o. o >>= λ r. done (with_chans api handler l r)) ran,
        (row, same, kept),
        le,
      )

  link_process-Gives :
      (fuel now : ℕ) (xs : List ℕ) (cs : List (Chan P)) (x : Exchange) (l : Link P)
      → length xs < fuel
      → Holds xs (cs, x) l
      → Gives
          (length xs)
          (if now == 0 then cs else process_all api handler now cs, x)
          (link_process api handler fuel now l >>= still_there)
  unfolding link_process keep_or_free
  link_process-Gives fuel now xs cs x l lt holds = elim (Bool-cases (now == 0)) [
    | inl zero ↦ rw (link_process, zero) (l, xs, refl, holds, omega arith)
    | inr later ↦
        let (m, ys, ran, kept, le) = process_chans-Gives fuel now xs cs x l lt holds in
        rw (link_process, later)
          (
            m,
            ys,
            ap (λ o. (o >>= keep_or_free api handler fuel) >>= still_there) ran
                ∙ rw (keep_or_free, kept.2),
            kept,
            le,
          )
  ]

  accept-Gives :
      (at id : ℕ) (kind : String) (p : P) (xs : List ℕ) (s : List (Chan P) × Exchange) (l : Link P)
      → Free at l
      → Holds xs s l
      → Gives
          (suc (length xs))
          (plain_accept api handler accepts id kind p s)
          (done (accept api handler accepts at id (some kind) p l).1)
  unfolding accept
  accept-Gives at id kind p xs s l free holds = elim (Bool-cases (accepts p)) [
    | inl taken ↦ rw (accept, taken) (link_chan-Gives at id (some kind) xs s l free holds)
    | inr refused ↦ rw (accept, refused) (l, xs, refl, holds, omega arith)
  ]

  open_chan-Gives :
      (at id : ℕ) (kind : Option String) (p : P) (xs : List ℕ) (cs : List (Chan P)) (l : Link P)
      → Free at l
      → Holds xs (cs, l.x) l
      → Gives
          (suc (length xs))
          (plain_open api handler accepts id kind p (cs, l.x))
          (done (open_chan api handler (accept api handler accepts at id kind) id kind p l).1)
  unfolding open_chan
  open_chan-Gives at id none p xs cs l free holds = (l, xs, refl, holds, omega arith)
  open_chan-Gives at id (some kind) p xs cs l free (listed, same, kept) =
      elim (Bool-cases ((check_cid id l.x).0 == 0)) [
        | inl bad ↦ rw (open_chan, bad) (l, xs, refl, (listed, same, kept), omega arith)
        | inr good ↦
            rw (open_chan, good)
              (accept-Gives at id kind p xs (cs, (check_cid id l.x).1)
                (record l { x = (check_cid id l.x).1 }) free (listed, refl, kept))
      ]

  receive_at-Gives :
      (fuel id : ℕ) (p : P) (at : ℕ) (xs : List ℕ) (cs : List (Chan P)) (x : Exchange) (l : Link P)
      → length xs < fuel
      → Holds xs (cs, x) l
      → Found id (Chan.receive p) xs cs l.chans l.store at
      → Gives
          (length xs)
          (process_all api handler 0 (change id (Chan.receive p) cs), x)
          (receive_at api handler fuel p at l)
  unfolding receive_at
  receive_at-Gives fuel id p at xs cs x l lt (listed, same, kept) (n, i, there, (d, h, row)) =
      rw (receive_at, read-eq at d l.store h)
        (process_chans-Gives fuel 0 xs (change id (Chan.receive p) cs) x
          (record l { store = write at (some (Chan.receive p d)) l.store }) lt
          ((row, listed.1), same, kept))

  link_receive-Gives :
      (fuel at id : ℕ) (kind : Option String) (p : P) (xs : List ℕ) (cs : List (Chan P))
      (l : Link P)
      → length xs < fuel
      → Free at l
      → Holds xs (cs, l.x) l
      → Gives
          (suc (length xs))
          (plain_step api handler accepts (take at id kind p) (cs, l.x))
          (step api handler accepts fuel (take at id kind p) l)
  unfolding step link_receive
  link_receive-Gives fuel at id kind p xs cs l lt free holds =
      let opened = open_chan-Gives at id kind p xs cs l free holds in
      elim (Bool-cases (id == 0)) [
        | inl zero ↦ rw (link_receive, zero) opened
        | inr id_there ↦
            elim (chan_get-Search fuel id (Chan.receive p) xs cs l.chans l.store lt holds.0) [
              | inl (ran, missing) ↦ rw (link_receive, id_there, ran, missing) opened
              | inr (c, ran, found) ↦
                  let (m, ys, received, kept, le) =
                    receive_at-Gives fuel id p c xs cs l.x l lt holds found in
                  rw (link_receive, id_there, ran, ◌>>=◌, found.0, found.2, received)
                    (m, ys, refl, kept, omega arith)
            ]
      ]

  listen-Gives :
      (fuel id : ℕ) (xs : List ℕ) (cs : List (Chan P)) (x : Exchange) (l : Link P)
      → length xs < fuel
      → Holds xs (cs, x) l
      → Gives
          (length xs)
          (change id Chan.handle cs, x)
          (step api handler accepts fuel (listen id) l)
  unfolding step listen_at
  listen-Gives fuel id xs cs x l lt (listed, same, kept) =
      elim (chan_get-Search fuel id Chan.handle xs cs l.chans l.store lt listed) [
        | inl (ran, missing) ↦
            rw (step, ran, ◌>>=◌, listen_at, change-missing id Chan.handle cs missing)
              (l, xs, refl, (listed, same, kept), omega arith)
        | inr (c, ran, (n, i, there, (d, h, row))) ↦
            rw (step, ran, ◌>>=◌, listen_at, n, read-eq c d l.store h)
              (
                record l { store = write c (some (Chan.handle d)) l.store },
                xs,
                refl,
                ((row, listed.1), same, kept),
                omega arith,
              )
      ]

  step-Gives :
      (fuel : ℕ) (c : Call P) (xs : List ℕ) (s : List (Chan P) × Exchange) (l : Link P)
      → length xs < fuel
      → Fresh c l
      → Holds xs s l
      → Gives
          (suc (length xs))
          (plain_step api handler accepts c s)
          (step api handler accepts fuel c l)
  unfolding step
  step-Gives fuel (add at id kind) xs s l lt free holds =
      link_chan-Gives at id kind xs s l free holds
  step-Gives fuel (take at id kind p) xs (cs, x) l lt free (listed, same, kept) =
      subst
        (λ y.
          Gives (suc (length xs)) (plain_step api handler accepts (take at id kind p) (cs, y))
            (step api handler accepts fuel (take at id kind p) l))
        same (link_receive-Gives fuel at id kind p xs cs l lt free (listed, refl, kept))
  step-Gives fuel (listen id) xs (cs, x) l lt free holds =
      let (m, ys, ran, kept, le) = listen-Gives fuel id xs cs x l lt holds in
      (m, ys, ran, kept, omega arith)
  step-Gives fuel (tick now) xs (cs, x) l lt free holds =
      let (m, ys, ran, kept, le) = link_process-Gives fuel now xs cs x l lt holds in
      (m, ys, ran, kept, omega arith)

  -- For a link that is not flagged to be removed, with its channels in blocks that are all different, and
  -- any row of `link_chan`, `chan_handle`, packets that come in and `link_process`, in which each new block is not NULL
  -- and not allocated: with as many steps as channels and calls for each walk, no block that was freed
  -- is read and the link is not freed, its channels in memory are what the calls make of a plain list of
  -- channels, again in blocks that are all different, and so is its exchange.
  pub run-Holds :
      (fuel : ℕ) (calls : List (Call P)) (xs : List ℕ) (s : List (Chan P) × Exchange) (l : Link P)
      → length xs + length calls < fuel
      → Holds xs s l
      → Fits api handler accepts fuel calls l
      → (m : Link P) × (ys : List ℕ) × (run api handler accepts fuel calls l ≡ done m)
        × Holds ys (plain_run api handler accepts calls s) m
  unfolding run
  run-Holds fuel [] xs s l lt holds fits = (l, xs, refl, holds)
  run-Holds fuel (c ∷ calls) xs s l lt holds (fresh, fits) =
      let (m, ys, ran, kept, le) = step-Gives fuel c xs s l (omega arith) fresh holds in
      let (n, zs, rest, last) =
        run-Holds fuel calls ys (plain_step api handler accepts c s) m (omega arith) kept
          (subst (λ o. After o (Fits api handler accepts fuel calls)) ran fits) in
      (n, zs, ap (λ o. o >>= run api handler accepts fuel calls) ran ∙ rest, last)
