-- ===== src/Channel.antt =====
-- js/core.js, class Channel, and the methods of class Link that use one. The C library and the package
-- lob-enc are operations of a record.
pub mod Receiving
pub mod Sending
mod Tests
use telehash_c.Prelude.{
  ℕ, zero, suc, ◌≡◌, Bool, true, false, String, Option, none, some, List, [], ◌∷◌, ◌++◌, length,
}

-- A packet of lob-enc: its JSON object, of type `J`, and its body, of type `B`.
pub record Packet (J B : Type 0) : Type 0 where
  pub json : J
  pub body : B

-- `C` is the state of the C channel, and `J` and `B` those of packets. `encode` and `lob_to_c` give a
-- pointer; `decode` is `lob_from_c`, which gives nothing for a packet that lob-enc cannot read.
pub record ChannelApi (C J B : Type 0) : Type 0 where
  pub encode : Packet J B → ℕ
  pub decode : ℕ → Option (Packet J B)
  pub receiving : C → Option ℕ × C
  pub chan_send : C → ℕ → C
  pub chan_id : C → ℕ
  -- The assignment `packet.json.c = id`.
  pub set_c : ℕ → J → J
  -- The packets that `chan_receiving` has still to give, a measure that the code does not export.
  pub waiting : C → ℕ

-- What core.js relies on: the packets that wait run out.
pub record ChannelLaws {C J B : Type 0} (api : ChannelApi C J B) : Type 0 where
  pub receiving_some :
      (c : C) (p : ℕ)
      → (api.receiving c).0 ≡ some p
      → suc (api.waiting (api.receiving c).1) ≡ api.waiting c
  pub receiving_none : (c : C) → (api.receiving c).0 ≡ none → api.waiting (api.receiving c).1 ≡ 0

pub record Channel (C J B : Type 0) : Type 0 where
  pub chan : C
  -- `_open`, the pointer of the encoded open packet.
  pub open_packet : ℕ
  -- What `push` was given, in order, and the pointers reported as bad.
  pub pushed : List (Packet J B)
  pub bad : List ℕ

module _ {C J B : Type 0} (api : ChannelApi C J B) where
  -- The body of the loop, on what `lob_from_c` gives.
  unfoldable pub push_or_report : ℕ → Option (Packet J B) → Channel C J B → Channel C J B
  push_or_report p none t = record t { bad = t.bad ++ p ∷ [] }
  push_or_report p (some packet) t = record t { pushed = t.pushed ++ packet ∷ [] }

  -- `while(c_lob = chan_receiving(this._c_chan))`
  unfoldable pub receive_loop : ℕ → Channel C J B → Channel C J B
  receive_loop zero t = t
  receive_loop (suc fuel) t =
      let (p, c) = api.receiving t.chan in
      elim p [
        | none ↦ record t { chan = c }
        | some p ↦ receive_loop fuel (push_or_report p (api.decode p) (record t { chan = c }))
      ]

  -- The function that `chan_handle` is given.
  unfoldable pub handle : Channel C J B → Channel C J B
  handle t = receive_loop (suc (api.waiting t.chan)) t

  unfoldable pub c_send : ℕ → Channel C J B → Channel C J B
  c_send c_lob t = record t { chan = api.chan_send t.chan c_lob }

  -- `_write`, which `send` reaches through the stream.
  unfoldable pub write : Packet J B → Channel C J B → Channel C J B
  write packet t =
      c_send (api.encode (record packet { json = api.set_c (api.chan_id t.chan) packet.json })) t

  -- The constructor, on the C channel that `link_chan` made of the encoded packet.
  unfoldable pub new_channel : C → Packet J B → Channel C J B
  new_channel c open_packet = record {
    chan = c;
    open_packet = api.encode open_packet;
    pushed = [];
    bad = [];
  }

  -- `Link.init` and `Link.console`: a new channel whose open packet is sent at once.
  unfoldable pub open_and_send : C → Packet J B → Channel C J B
  open_and_send c open_packet = let t = new_channel c open_packet in c_send t.open_packet t

  unfoldable pub write_all : List (Packet J B) → Channel C J B → Channel C J B
  write_all [] t = t
  write_all (p ∷ ps) t = write_all ps (write p t)

-- `Link.console`: what the callback makes of an answer's body. `parse` is `JSON.parse` of its text, and
-- `size` its length.
pub data Answer (V B : Type 0) : Type 0 where
  value : V → Answer V B
  text : B → Answer V B
  null : Answer V B

unfoldable pub answer : {V B : Type 0} → (B → Option V) → (B → ℕ) → B → Answer V B
answer parse size body = elim (parse body) [
  | some v ↦ value v
  | none ↦ elim (size body) [ zero ↦ null | suc n ↦ text body ]
]
