-- ===== src/Chan/Timing.antt =====
-- src/chan.c: `chan_process` and the timeout.
use telehash_c.Prelude.{
  ℕ, ◌+◌, ◌-◌, ◌%◌, ◌^◌, ◌≤◌, ◌<◌, ◌≡◌, refl, ap, ◌∙◌, Bool, true, false, Option, none, some, List,
  [], ◌∷◌, ◌++◌, arith, ltb, ◌==◌, if◌then◌else◌,
}
use telehash_c.Chan.{
  ChanState, ended, Chan, PacketApi, err, check_timeout, check_time, is_ended, fire, unless_ended,
  process,
}
use telehash_c.Chan.Receiving.{end_state}

-- Times in a row, each no more than `margin` after the one before, and none near the largest number.
abbrev pub Paced : ℕ → ℕ → List ℕ → Type 0
Paced margin prev [] = Unit
Paced margin prev (now ∷ times) =
    (prev ≤ now) × (now ≤ prev + margin) × (now + margin < 2 ^ 32) × Paced margin now times

moved :
    (trecv margin now : ℕ)
    → trecv ≤ now
    → now + margin < 2 ^ 32
    → (trecv + margin + (now + 2 ^ 32 - trecv)) % 2 ^ 32 ≡ now + margin
moved trecv margin now le lt = omega arith

nonzero : (n : ℕ) → 0 < n → (n == 0) ≡ false
nonzero n pos = ground arith

not_late : (a b : ℕ) → b ≤ a → ltb a b ≡ false
not_late a b le = ground arith

is_late : (a b : ℕ) → a < b → ltb a b ≡ true
is_late a b lt = ground arith

end_state-snoc :
    {P : Type 0} (is_end : P → Bool) (ps : List P) (p : P) (s : ChanState)
    → is_end p ≡ true
    → end_state is_end (ps ++ p ∷ []) s ≡ ended
unfolding end_state
end_state-snoc is_end [] p s e = rw e
end_state-snoc is_end (q ∷ ps) p s e = end_state-snoc is_end ps p (if is_end q then ended else s) e

module _ {P : Type 0} (api : PacketApi P) (handler : Chan P → Chan P) where
  unfoldable pub then_process : (Chan P → Option (Chan P)) → Option (Chan P) → Option (Chan P)
  then_process rest none = none
  then_process rest (some c) = rest c

  -- `chan_process` at each time, until the channel is freed.
  unfoldable pub process_at : List ℕ → Chan P → Option (Chan P)
  unfolding then_process
  process_at [] c = some c
  process_at (now ∷ times) c = then_process (λ d. process_at times d) (process api handler now c)

  -- What a channel is, on which nothing comes in and nothing ends.
  abbrev pub Idle : ℕ → Chan P → Type 0
  Idle margin c =
      (0 < c.trecv)
      × (c.timeout ≡ c.trecv + margin)
      × (c.incoming ≡ [])
      × (is_ended api c.state ≡ false)

  abbrev later : ℕ → ℕ → Chan P → Chan P
  later margin now c = record c { timeout = now + margin; trecv = now }

  check_time-later :
      (margin now : ℕ) (c : Chan P)
      → Idle margin c
      → c.trecv ≤ now
      → now ≤ c.trecv + margin
      → now + margin < 2 ^ 32
      → check_time api now c ≡ later margin now c
  unfolding check_time check_timeout
  check_time-later margin now c idle le within small =
      let kicked =
        ap (λ (t : ℕ). (t + (now + 2 ^ 32 - c.trecv)) % 2 ^ 32) idle.1
        ∙ moved c.trecv margin now le small in
      rw
        (
          nonzero now (omega arith),
          nonzero c.timeout (omega arith),
          not_late c.timeout now (omega arith),
          nonzero c.trecv idle.0,
        )
        (ap (λ (t : ℕ). record c { timeout = t; trecv = now }) kicked)

  process-later :
      (margin now : ℕ) (c : Chan P)
      → Idle margin c
      → c.trecv ≤ now
      → now ≤ c.trecv + margin
      → now + margin < 2 ^ 32
      → process api handler now c ≡ some (later margin now c)
  unfolding process fire unless_ended
  process-later margin now c idle le within small =
      ap (λ (d : Chan P). unless_ended api (fire api handler d.incoming d))
        (check_time-later margin now c idle le within small)
      ∙ ap (λ ps. unless_ended api (fire api handler ps (later margin now c))) idle.2
      ∙ rw (idle.3)

  -- A channel on which nothing ever comes in, with a timeout `margin` after the last time it was
  -- processed, never times out while it is processed again within the margin: it is kept, no error
  -- packet is queued, and its timeout is again `margin` after the last time.
  pub process_at-Paced :
      (margin : ℕ) (times : List ℕ) (c : Chan P)
      → Idle margin c
      → Paced margin c.trecv times
      → (d : Chan P) × (process_at times c ≡ some d) × Idle margin d
  unfolding process_at
  process_at-Paced margin [] c idle paced = (c, refl, idle)
  process_at-Paced margin (now ∷ times) c idle (le, within, small, paced) =
      let step = process-later margin now c idle le within small in
      let rest =
        process_at-Paced margin times (later margin now c) (omega arith, refl, idle.2, idle.3)
          paced in
      (rest.0, ap (then_process (λ d. process_at times d)) step ∙ rest.1, rest.2)

  abbrev expired : ℕ → Chan P → Chan P
  expired now c = record c {
    timeout = 0;
    trecv = now;
    incoming = c.incoming ++ api.make_err c.id "timeout" ∷ [];
  }

  check_time-expired :
      (now : ℕ) (c : Chan P)
      → 0 < c.timeout
      → c.timeout < now
      → check_time api now c ≡ expired now c
  unfolding check_time check_timeout err
  check_time-expired now c pos late =
      rw (nonzero now (omega arith), nonzero c.timeout pos, is_late c.timeout now late)

  fire-snoc :
      (ps : List P) (p : P) (d : Chan P)
      → d.has_handle ≡ true
      → fire api handler (ps ++ p ∷ []) d ≡ handler d
  unfolding fire
  fire-snoc [] p d h = rw h
  fire-snoc (q ∷ ps) p d h = rw h

  unless_ended-ended : (d : Chan P) → d.state ≡ ended → unless_ended api d ≡ none
  unfolding unless_ended is_ended
  unless_ended-ended d h = rw h

  -- When the time is past a channel's timeout, and its handler takes every packet that waits, as class
  -- Channel of js/core.js does, the channel is freed, given that the error packet has an "end".
  pub process_late :
      (now : ℕ) (c : Chan P)
      → 0 < c.timeout
      → c.timeout < now
      → c.has_handle ≡ true
      → api.is_end (api.make_err c.id "timeout") ≡ true
      → ((d : Chan P) → (handler d).state ≡ end_state api.is_end d.incoming d.state)
      → process api handler now c ≡ none
  unfolding process unless_ended
  process_late now c pos late has_handle ends takes =
      let p = api.make_err c.id "timeout" in
      let d : Chan P = expired now c in
      ap (λ (e : Chan P). unless_ended api (fire api handler e.incoming e))
        (check_time-expired now c pos late)
      ∙ ap (unless_ended api) (fire-snoc c.incoming p d has_handle)
      ∙ unless_ended-ended (handler d)
          (takes d ∙ end_state-snoc api.is_end c.incoming p c.state ends)
