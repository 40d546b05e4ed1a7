-- ===== src/Exchange/Tests.antt =====
-- src/e3x/exchange.c and src/link.c: runs of the definitions, and the theorems at concrete inputs.
use telehash_c.Prelude.{
  ℕ, ◌%◌, ◌≤◌, ◌<◌, ◌≡◌, refl, ap, ◌⊎◌, true, false, none, some, List, [], ◌∷◌, arith, All,
}
use telehash_c.Exchange.{
  order_of, new, set_out, set_in, check_cid, down, HandshakeApi, Link, link_sync, link_pipe, load,
  resync, exchange_sync, receive_handshake,
}
use telehash_c.Exchange.Receiving.{HandshakeLaws}
use telehash_c.Exchange.Ids.{
  IdEvent, opens, comes, given_of, accepted_of, Rising, next_cids, check_cids, accepted_of-given_of,
  opened_accepted,
}
use telehash_c.Exchange.Delivery.{Sides, at_a, at_b, arrive_all}
use telehash_c.Exchange.Counting.{new_in}
use telehash_c.Exchange.Agreement.{arrive_all-agrees}
use telehash_c.Exchange.Replay.{old_handshake_rekeys}
use telehash_c.Exchange.Greeting.{greeting, Settled, greeting_agrees}

-- A handshake is its number, and the ephemeral key of each is 9.
abbrev plain : HandshakeApi ℕ
plain = record {
  make = λ x. x.out_at;
  at = λ h. h;
  verifies = λ h. true;
  is_long = λ h. true;
  eid = λ h. 5;
  ephemeral_new = λ h. some 9;
}

plain_laws : HandshakeLaws plain
plain_laws = record {
  at-make = λ x. refl;
  verified = λ h. refl;
  long = λ h. refl;
  ephemeral = λ h. (9, refl);
}

abbrev fails : HandshakeApi ℕ
fails = record plain { ephemeral_new = λ h. none }

abbrev side : ℕ → ℕ → ℕ → Link ℕ
side order ins outs = record {
  x = record (new order) { in_at = ins; out_at = outs };
  has_pipe = true;
  sent = [];
  handshake = none;
  ready = 0;
}

sorts_first : order_of (9 ∷ 2 ∷ []) (9 ∷ 1 ∷ []) ≡ some 2
unfolding order_of
sorts_first = refl

short_self : order_of (9 ∷ 2 ∷ []) (9 ∷ []) ≡ none
unfolding order_of
short_self = refl

made_even : (set_out 1001 (new 2)).out_at ≡ 1002
unfolding set_out new
made_even = refl

wrong_parity : (set_in 1000 (new 2)).in_at ≡ 0
unfolding set_in new
wrong_parity = refl

own_parity_refused : (check_cid 4 (new 2)).0 ≡ 0
unfolding check_cid new
own_parity_refused = refl

not_synced : (exchange_sync fails 8 (new 2)).0 ≡ false
unfolding exchange_sync new
not_synced = refl

-- The number that came in is kept although the synchronization failed.
failed_sync : (receive_handshake fails 11 (side 2 0 8)).x.out_at ≡ 11
unfolding receive_handshake new
failed_sync = refl

up_told : (receive_handshake plain 11 (side 2 0 8)).ready ≡ 1
unfolding receive_handshake new
up_told = refl

resynced : (resync plain (side 2 8 8)).sent ≡ 10 ∷ []
unfolding resync new
resynced = refl

no_number : (link_sync plain (side 2 0 0)).sent ≡ []
unfolding link_sync new
no_number = refl

downed : (down (record (new 2) { out_at = 8; last = 3; ephem = some 9 })).last ≡ 0
unfolding down new
downed = refl

abbrev ids : List IdEvent
ids = opens ∷ comes 3 ∷ comes 3 ∷ comes 4 ∷ opens ∷ comes 7 ∷ []

accepted_of-given_of_example :
    Rising 0 (3 ∷ 7 ∷ []) × All (λ c. c % 2 ≡ 1) (3 ∷ 7 ∷ []) × All (λ c. c % 2 ≡ 0) (2 ∷ 4 ∷ [])
unfolding accepted_of given_of new
accepted_of-given_of_example = accepted_of-given_of ids (new 2)

abbrev first : List ℕ → ℕ
first [] = 0
first (n ∷ ns) = n

two_not_one : ◌≡◌ {A = ℕ} 2 1 → ⊥
two_not_one e = omega arith

opened_accepted_example : check_cids (next_cids 5 (new 2)) (new 1) ≡ next_cids 5 (new 2)
unfolding order_of
opened_accepted_example =
    opened_accepted 5 2 1 (2 ∷ []) (1 ∷ []) refl (λ e. two_not_one (ap first e)) refl refl
      (omega arith)

-- An older handshake with 3 is on the way to the side that is behind.
abbrev apart_sides : Sides ℕ
apart_sides = record { a = side 2 0 10; b = side 1 0 7; to_a = 7 ∷ []; to_b = 3 ∷ 10 ∷ [] }

abbrev synced : ℕ → ℕ → ℕ → Link ℕ
synced order n last = record {
  x = record (new order) { in_at = n; out_at = n; ephem = some 9; eid = 5 };
  has_pipe = true;
  sent = [];
  handshake = some last;
  ready = 1;
}

abbrev met : Sides ℕ
met = record { a = synced 2 10 7; b = synced 1 10 3; to_a = []; to_b = [] }

arrive_all-agrees_example :
    (4 ≤ 9)
    × ((0 < 0)
        ⊎ (((met.a.x.in_at ≡ 10) × (met.a.x.out_at ≡ 10))
            × ((met.b.x.in_at ≡ 10) × (met.b.x.out_at ≡ 10))))
unfolding arrive_all new new_in
arrive_all-agrees_example =
    arrive_all-agrees plain plain_laws 10 (omega arith) (at_b 1 ∷ at_a 1 ∷ at_b 0 ∷ at_a 0 ∷ [])
      apart_sides met (refl, refl) (omega arith, refl) (omega arith, omega arith, omega arith, refl)
      (omega arith, tt) (omega arith, (omega arith, tt)) (omega arith) refl

abbrev greeted : Sides ℕ
greeted = record { a = synced 2 1001 1001; b = synced 1 1001 1001; to_a = []; to_b = [] }

greeting_agrees_example : (4 ≤ 6) × ((m : ℕ) × (0 < m) × Settled plain plain_laws m greeted)
unfolding arrive_all greeting load link_pipe set_out new order_of
greeting_agrees_example =
    greeting_agrees plain plain_laws 2 1 1000 1001 (2 ∷ []) (1 ∷ [])
      (at_a 0 ∷ at_b 0 ∷ at_a 0 ∷ at_b 0 ∷ []) greeted refl (λ e. two_not_one (ap first e)) refl
      refl (omega arith, omega arith) (omega arith, omega arith) refl

abbrev rekeying : HandshakeApi ℕ
rekeying = record plain { eid = λ h. h; ephemeral_new = λ h. some 77 }

four_not_five : ◌≡◌ {A = ℕ} 4 5 → ⊥
four_not_five e = omega arith

old_handshake_rekeys_example :
    let r = receive_handshake rekeying 4 (synced 2 10 8) in
    (r.x ≡ record (new 2) { in_at = 10; out_at = 10; ephem = some 77; eid = 4 })
    × (r.sent ≡ [])
    × (r.handshake ≡ some 4)
unfolding new
old_handshake_rekeys_example =
    old_handshake_rekeys rekeying 4 77 (synced 2 10 8) refl (omega arith) refl refl
      (λ e. four_not_five e) refl
