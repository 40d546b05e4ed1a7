-- ===== src/Links/Running.antt =====
-- src/link.c: calls of a link in a row, and the same calls on plain lists of channels.
use telehash_c.Prelude.{
  ℕ, ◌≡◌, Bool, true, false, not, ◌&&◌, String, Option, none, some, List, [], ◌∷◌, ◌==◌,
  if◌then◌else◌,
}
use telehash_c.Exchange.{Exchange, check_cid}
use telehash_c.Chan.{Chan, PacketApi, process_all}
use telehash_c.Chan
use telehash_c.Links.{
  Outcome, done, fault, more_steps, ◌>>=◌, Link, read, write, give_cid, link_chan, chan_get,
  link_process, link_receive,
}
use telehash_c.Links.Finding.{has_chan, change}

-- `link_chan` with the block that malloc gives, an open packet's "c" and its "type"; a packet that comes
-- in, with the block for its channel if it opens one; `chan_handle` for the channel of an id; and `link_process` at a time.
pub data Call (P : Type 0) : Type 0 where
  add : ℕ → ℕ → Option String → Call P
  take : ℕ → ℕ → Option String → P → Call P
  listen : ℕ → Call P
  tick : ℕ → Call P

-- A block that is not NULL and not allocated.
abbrev pub Free : {P : Type 0} → ℕ → Link P → Type 0
Free at l = ((at == 0) ≡ false) × (l.store.cell at ≡ none)

abbrev pub Fresh : {P : Type 0} → Call P → Link P → Type 0
Fresh (add at id kind) l = Free at l
Fresh (take at id kind p) l = Free at l
Fresh (listen id) l = Unit
Fresh (tick now) l = Unit

abbrev pub After : {A : Type 0} → Outcome A → (A → Type 0) → Type 0
After (done a) Q = Q a
After fault Q = Unit
After more_steps Q = Unit

-- A call of a link that was freed is a fault.
abbrev pub still_there : {P : Type 0} → Option (Link P) → Outcome (Link P)
still_there none = fault
still_there (some l) = done l

module _ {P : Type 0} where
  abbrev pub grown : Option (Chan P) → List (Chan P) → List (Chan P)
  grown none cs = cs
  grown (some c) cs = record c { has_link = true } ∷ cs

  abbrev pub plain_add : ℕ → Option String → List (Chan P) × Exchange → List (Chan P) × Exchange
  plain_add id kind (cs, x) = (grown (Chan.new (give_cid id x).0 kind) cs, (give_cid id x).1)

module _ {P : Type 0} (api : PacketApi P) (handler : Chan P → Chan P) (accepts : P → Bool) where
  -- The handlers of 'open' take the packets that `accepts` says, by a call of `link_chan`.
  unfoldable pub accept : ℕ → ℕ → Option String → P → Link P → Bool × Link P
  unfolding link_chan
  accept at id kind p l = if accepts p then (true, link_chan at id kind l) else (false, l)

  unfoldable pub listen_at : ℕ → Link P → Outcome (Link P)
  unfolding read
  listen_at c l = elim (c == 0) [
    | true ↦ done l
    | false ↦
        read c l.store >>= λ d. done (record l { store = write c (some (Chan.handle d)) l.store })
  ]

  unfoldable pub step : ℕ → Call P → Link P → Outcome (Link P)
  unfolding link_chan link_receive link_process accept chan_get listen_at
  step fuel (add at id kind) l = done (link_chan at id kind l)
  step fuel (take at id kind p) l =
      link_receive api handler (accept at id kind) fuel id kind p l >>= λ r. done r.1
  step fuel (listen id) l = chan_get fuel id l.chans l.store >>= λ c. listen_at c l
  step fuel (tick now) l = link_process api handler fuel now l >>= still_there

  unfoldable pub run : ℕ → List (Call P) → Link P → Outcome (Link P)
  unfolding step
  run fuel [] l = done l
  run fuel (c ∷ calls) l = step fuel c l >>= run fuel calls

  -- Each call gets a free block, if it needs one.
  abbrev pub Fits : ℕ → List (Call P) → Link P → Type 0
  Fits fuel [] l = Unit
  Fits fuel (c ∷ calls) l = Fresh c l × After (step fuel c l) (Fits fuel calls)

  abbrev pub plain_accept : ℕ → String → P → List (Chan P) × Exchange → List (Chan P) × Exchange
  plain_accept id kind p s = if accepts p then plain_add id (some kind) s else s

  abbrev pub plain_open :
      ℕ → Option String → P → List (Chan P) × Exchange → List (Chan P) × Exchange
  plain_open id none p s = s
  plain_open id (some kind) p (cs, x) =
      if (check_cid id x).0 == 0 then (cs, x) else plain_accept id kind p (cs, (check_cid id x).1)

  -- What a call does to the list of channels and the exchange.
  abbrev pub plain_step : Call P → List (Chan P) × Exchange → List (Chan P) × Exchange
  plain_step (add at id kind) s = plain_add id kind s
  plain_step (take at id kind p) (cs, x) =
      if not (id == 0) && has_chan id cs
      then (process_all api handler 0 (change id (Chan.receive p) cs), x)
      else plain_open id kind p (cs, x)
  plain_step (listen id) (cs, x) = (change id Chan.handle cs, x)
  plain_step (tick now) (cs, x) = (if now == 0 then cs else process_all api handler now cs, x)

  abbrev pub plain_run : List (Call P) → List (Chan P) × Exchange → List (Chan P) × Exchange
  plain_run [] s = s
  plain_run (c ∷ calls) s = plain_run calls (plain_step c s)
