-- ===== src/Exchange/Receiving.antt =====
-- src/link.c: what `link_receive_handshake` does with the numbers of a link that has a pipe.
use telehash_c.Prelude.{
  ℕ, ◌+◌, ◌%◌, ◌≤◌, ◌<◌, ◌≡◌, refl, sym, ap, subst, ◌∙◌, ◌⊎◌, inl, inr, Bool, true, false, not,
  ◌&&◌, some, List, [], ◌∷◌, ◌++◌, arith, ltb, ◌==◌, if◌then◌else◌, lt→ltb, Bool-cases,
}
use telehash_c.Exchange.{
  Exchange, HandshakeApi, Link, set_in, is_newer, raise_out, new_ephem, sync_ephem, exchange_sync,
  link_sync, notify, resync_if, is_up, settle, take_handshake, receive_handshake,
}

-- Handshakes carry the number they were made with, are verified, and give an ephemeral key.
pub record HandshakeLaws {H : Type 0} (api : HandshakeApi H) : Type 0 where
  pub at-make : (x : Exchange) → api.at (api.make x) ≡ x.out_at
  pub verified : (h : H) → api.verifies h ≡ true
  pub long : (h : H) → api.is_long h ≡ true
  pub ephemeral : (h : H) → (p : ℕ) × (api.ephemeral_new h ≡ some p)

nonzero : (n : ℕ) → 0 < n → (n == 0) ≡ false
nonzero n pos = ground arith

not_less : (a b : ℕ) → b ≤ a → ltb a b ≡ false
not_less a b le = ground arith

is_newer-refused :
    (at : ℕ) (x : Exchange) → (at ≤ x.in_at) ⊎ (at < x.out_at) → is_newer at x ≡ false
unfolding is_newer
is_newer-refused at x old = ground arith

is_newer-taken :
    (at : ℕ) (x : Exchange)
    → x.in_at < at
    → x.out_at ≤ at
    → (at % 2 + 1 ≡ x.order) ⊎ (at ≡ x.out_at)
    → is_newer at x ≡ true
unfolding is_newer
is_newer-taken at x lt le fits = ground arith

is_newer-level : (at : ℕ) (x : Exchange) → is_newer at x ≡ true → x.out_at ≤ at
unfolding is_newer
is_newer-level at x newer = ground arith

pub set_in_refused : (at : ℕ) (x : Exchange) → (at ≤ x.in_at) ⊎ (at < x.out_at) → set_in at x ≡ x
unfolding set_in
set_in_refused at x old = rw (is_newer-refused at x old)

pub set_in_taken :
    (at : ℕ) (x : Exchange)
    → x.in_at < at
    → x.out_at ≤ at
    → (at % 2 + 1 ≡ x.order) ⊎ (at ≡ x.out_at)
    → set_in at x ≡ record x { in_at = at }
unfolding set_in
set_in_taken at x lt le fits = rw (is_newer-taken at x lt le fits)

unfoldable pub raise : ℕ → ℕ → ℕ
raise out at = if ltb out at then at else out

-- Either a number is refused, or it is taken and no less than the own one.
pub set_in-cases :
    (at : ℕ) (x : Exchange)
    → (set_in at x ≡ x) ⊎ ((set_in at x ≡ record x { in_at = at }) × (x.out_at ≤ at))
unfolding set_in
set_in-cases at x = elim (Bool-cases (is_newer at x)) [
  | inl newer ↦ inr (rw newer refl, is_newer-level at x newer)
  | inr old ↦ inl (rw old refl)
]

module _ {H : Type 0} (api : HandshakeApi H) (laws : HandshakeLaws api) where
  sync_ephem_keeps :
      (h : H) (x : Exchange)
      → ((sync_ephem api h x).0 ≡ true)
        × ((sync_ephem api h x).1.in_at ≡ x.in_at)
        × ((sync_ephem api h x).1.out_at ≡ x.out_at)
        × ((sync_ephem api h x).1.order ≡ x.order)
  unfolding sync_ephem new_ephem
  sync_ephem_keeps h x =
      let (p, e) = laws.ephemeral h in
      elim (Bool-cases (api.eid h == x.eid)) [
        | inl same ↦ rw same (refl, refl, refl, refl)
        | inr other ↦ rw (other, e) (refl, refl, refl, refl)
      ]

  -- What `exchange_sync` leaves of the numbers.
  abbrev Synced : Exchange → Bool × Exchange → Type 0
  Synced x (ok, y) =
      (ok ≡ true) × (y.in_at ≡ x.in_at) × (y.out_at ≡ raise x.out_at x.in_at) × (y.order ≡ x.order)

  raise_out_numbers :
      (x : Exchange)
      → ((raise_out x).in_at ≡ x.in_at)
        × ((raise_out x).out_at ≡ raise x.out_at x.in_at)
        × ((raise_out x).order ≡ x.order)
  unfolding raise_out raise
  raise_out_numbers x = elim (Bool-cases (ltb x.out_at x.in_at)) [
    | inl lt ↦ rw lt (refl, refl, refl)
    | inr ge ↦ rw ge (refl, refl, refl)
  ]

  pub exchange_sync-Synced : (h : H) (x : Exchange) → Synced x (exchange_sync api h x)
  unfolding exchange_sync
  exchange_sync-Synced h x =
      let (ok, ins, outs, orders) = sync_ephem_keeps h (raise_out x) in
      let (raised_in, raised_out, raised_order) = raise_out_numbers x in
      rw (laws.long h) (ok, ins ∙ raised_in, outs ∙ raised_out, orders ∙ raised_order)

  -- A link's exchange and what its pipe was given.
  abbrev pub Shows : Link H → Exchange → List H → Type 0
  Shows l x hs = (l.has_pipe ≡ true) × (l.x ≡ x) × (l.sent ≡ hs)

  pub link_sync-Shows :
      (l : Link H)
      → l.has_pipe ≡ true
      → 0 < l.x.out_at
      → Shows (link_sync api l) l.x (l.sent ++ api.make l.x ∷ [])
  unfolding link_sync
  link_sync-Shows l pipe pos = rw (pipe, nonzero l.x.out_at pos) (refl, refl, refl)

  resync_if-Shows :
      (same : Bool) (l : Link H)
      → l.has_pipe ≡ true
      → 0 < l.x.out_at
      → Shows (resync_if api same l) l.x (if same then l.sent else l.sent ++ api.make l.x ∷ [])
  unfolding resync_if
  resync_if-Shows true l pipe pos = (pipe, refl, refl)
  resync_if-Shows false l pipe pos = link_sync-Shows l pipe pos

  notify-Shows :
      (up : Bool) (l : Link H) (x : Exchange) (hs : List H)
      → Shows l x hs
      → Shows (notify api up l) x hs
  unfolding notify
  notify-Shows up l x hs shows = elim (Bool-cases (not up && is_up api l)) [
    | inl told ↦ rw told shows
    | inr quiet ↦ rw quiet shows
  ]

  settle-Shows :
      (out : ℕ) (up : Bool) (h : H) (ok : Bool) (x : Exchange) (l : Link H)
      → ok ≡ true
      → l.has_pipe ≡ true
      → 0 < x.out_at
      → Shows
          (settle api out up h (ok, x) l)
          x
          (if out == x.out_at then l.sent else l.sent ++ api.make x ∷ [])
  unfolding settle
  settle-Shows out up h false x l ok pipe pos = cc
  settle-Shows out up h true x l ok pipe pos =
      notify-Shows up (resync_if api (out == x.out_at) (record l { x = x })) x
        (if out == x.out_at then l.sent else l.sent ++ api.make x ∷ [])
        (resync_if-Shows (out == x.out_at) (record l { x = x }) pipe pos)

  receive_lem :
      (h : H) (l : Link H)
      → receive_handshake api h l ≡ take_handshake api h (set_in (api.at h) l.x) l
  unfolding receive_handshake
  receive_lem h l = rw (laws.verified h)

  take_behind :
      (h : H) (y : Exchange) (l : Link H)
      → ltb y.in_at l.x.out_at ≡ true
      → take_handshake api h y l ≡ link_sync api (record l { x = y })
  unfolding take_handshake
  take_behind h y l behind = rw behind

  take_level :
      (h : H) (y : Exchange) (l : Link H)
      → ltb y.in_at l.x.out_at ≡ false
      → take_handshake api h y l ≡ settle api l.x.out_at (is_up api l) h (exchange_sync api h y) l
  unfolding take_handshake
  take_level h y l level = rw level

  pub receive_old :
      (h : H) (l : Link H)
      → l.has_pipe ≡ true
      → l.x.in_at < l.x.out_at
      → set_in (api.at h) l.x ≡ l.x
      → Shows (receive_handshake api h l) l.x (l.sent ++ api.make l.x ∷ [])
  receive_old h l pipe lt refused =
      let branch =
        receive_lem h l
        ∙ ap (λ (y : Exchange). take_handshake api h y l) refused
        ∙ take_behind h l.x l (lt→ltb l.x.in_at l.x.out_at lt) in
      subst (λ (m : Link H). Shows m l.x (l.sent ++ api.make l.x ∷ [])) (sym branch)
        (link_sync-Shows l pipe (omega arith))

  pub receive_current :
      (h : H) (l : Link H) (y : Exchange)
      → l.has_pipe ≡ true
      → set_in (api.at h) l.x ≡ y
      → l.x.out_at ≤ y.in_at
      → 0 < (exchange_sync api h y).1.out_at
      → Shows (receive_handshake api h l) (exchange_sync api h y).1 (
          if l.x.out_at == (exchange_sync api h y).1.out_at
          then l.sent
          else l.sent ++ api.make (exchange_sync api h y).1 ∷ [])
  receive_current h l y pipe e le pos =
      let r = exchange_sync api h y in
      let branch =
        receive_lem h l
        ∙ ap (λ (y : Exchange). take_handshake api h y l) e
        ∙ take_level h y l (not_less y.in_at l.x.out_at le) in
      subst
        (λ (m : Link H).
          Shows m r.1 (if l.x.out_at == r.1.out_at then l.sent else l.sent ++ api.make r.1 ∷ []))
        (sym branch)
        (settle-Shows l.x.out_at (is_up api l) h r.0 r.1 l (exchange_sync-Synced h y).0 pipe pos)
