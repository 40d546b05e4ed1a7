-- ===== src/Channel/Tests.antt =====
-- A channel whose C side is a row of waiting pointers and a row of sent ones.
use telehash_c.Prelude.{
  ℕ, suc, ◌+◌, ◌*◌, ◌≡◌, refl, Option, none, some, List, [], ◌∷◌, ◌++◌, map, arith, length, ◌==◌,
  if◌then◌else◌,
}
use telehash_c.Channel.{
  Packet, ChannelApi, ChannelLaws, push_or_report, receive_loop, handle, new_channel, open_and_send,
  write_all, text, null, answer,
}
use telehash_c.Channel.Receiving.{given, unreadable, handle_takes_all}
use telehash_c.Channel.Sending.{send_all, numbered, open_then_write}

record Rows : Type 0 where
  inside : List ℕ
  out : List ℕ

abbrev next : List ℕ → Rows → Option ℕ × Rows
next [] r = (none, r)
next (p ∷ ps) r = (some p, record r { inside = ps })

-- A pointer's packet is its number with an empty body; 13 is one that cannot be read.
abbrev rows_api : ChannelApi Rows ℕ ℕ
rows_api = record {
  encode = λ p. p.json * 100 + p.body;
  decode = λ p. if p == 13 then none else some (record { json = p; body = 0 });
  receiving = λ r. next r.inside r;
  chan_send = λ r p. record r { out = r.out ++ p ∷ [] };
  chan_id = λ r. 6;
  set_c = λ id json. json + 10 * id;
  waiting = λ r. length r.inside;
}

next-some :
    (ps : List ℕ) (r : Rows) (p : ℕ)
    → (next ps r).0 ≡ some p
    → suc (length (next ps r).1.inside) ≡ length ps
next-some [] r p h = cc
next-some (q ∷ ps) r p h = refl

next-none :
    (ps : List ℕ) (r : Rows)
    → r.inside ≡ ps
    → (next ps r).0 ≡ none
    → length (next ps r).1.inside ≡ 0
next-none [] r e h = ground arith
next-none (q ∷ ps) r e h = cc

rows_laws : ChannelLaws rows_api
rows_laws = record {
  receiving_some = λ r p h. next-some r.inside r p h;
  receiving_none = λ r h. next-none r.inside r refl h;
}

abbrev waiting_rows : Rows
waiting_rows = record { inside = 12 ∷ 13 ∷ 14 ∷ []; out = [] }

abbrev open_packet : Packet ℕ ℕ
open_packet = record { json = 1; body = 2 }

handled :
    (handle rows_api (new_channel rows_api waiting_rows open_packet)).pushed
    ≡ record { json = 12; body = 0 } ∷ record { json = 14; body = 0 } ∷ []
unfolding handle receive_loop push_or_report new_channel
handled = refl

handle_takes_all_case :
    (handle rows_api (new_channel rows_api waiting_rows open_packet)).bad
    ≡ (new_channel rows_api waiting_rows open_packet).bad
      ++ unreadable rows_api
          (given rows_api
            (suc (rows_api.waiting (new_channel rows_api waiting_rows open_packet).chan))
            (new_channel rows_api waiting_rows open_packet).chan).0
handle_takes_all_case =
    (handle_takes_all rows_api rows_laws (new_channel rows_api waiting_rows open_packet)).1

open_then_write_case :
    (write_all rows_api (open_packet ∷ []) (open_and_send rows_api waiting_rows open_packet)).chan
    ≡ send_all rows_api
        (rows_api.encode open_packet
          ∷ map (numbered rows_api (rows_api.chan_id waiting_rows)) (open_packet ∷ []))
        waiting_rows
open_then_write_case =
    open_then_write rows_api (λ r p. refl) waiting_rows open_packet (open_packet ∷ [])

-- An answer with an empty body that is no JSON is null.
answers :
    (answer {V = ℕ} {B = ℕ} (λ b. none) (λ b. b) 0 ≡ null)
    × (answer {V = ℕ} {B = ℕ} (λ b. none) (λ b. b) 3 ≡ text 3)
unfolding answer
answers = (refl, refl)
