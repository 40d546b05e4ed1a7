-- ===== src/Channel/Sending.antt =====
-- js/core.js, class Channel: what reaches the C channel.
use telehash_c.Prelude.{ℕ, ◌≡◌, refl, ap, ◌∙◌, List, [], ◌∷◌, map}
use telehash_c.Channel.{
  Packet, ChannelApi, Channel, c_send, write, new_channel, open_and_send, write_all,
}

module _ {C J B : Type 0} (api : ChannelApi C J B) where
  -- The C channel after a row of packets, by their pointers.
  pub send_all : List ℕ → C → C
  send_all [] c = c
  send_all (p ∷ ps) c = send_all ps (api.chan_send c p)

  -- The pointer of a packet of channel `id`.
  abbrev pub numbered : ℕ → Packet J B → ℕ
  numbered id packet = api.encode (record packet { json = api.set_c id packet.json })

  module _ (keeps_id : (c : C) (p : ℕ) → api.chan_id (api.chan_send c p) ≡ api.chan_id c) where
    write_all_lem :
        (ps : List (Packet J B)) (t : Channel C J B)
        → (write_all api ps t).chan ≡ send_all (map (numbered (api.chan_id t.chan)) ps) t.chan
    unfolding write_all write c_send send_all
    write_all_lem [] t = refl
    write_all_lem (p ∷ ps) t =
        write_all_lem ps _
        ∙ ap
            (λ (id : ℕ).
              send_all (map (numbered id) ps)
                (api.chan_send t.chan (numbered (api.chan_id t.chan) p)))
            (keeps_id t.chan _)

    -- `Link.init` and `Link.console`: the C channel is sent the open packet first, as it was given and
    -- with no channel id, and then the packets that the application writes, in their order, each under
    -- the channel's id.
    pub open_then_write :
        (c : C) (open_packet : Packet J B) (ps : List (Packet J B))
        → (write_all api ps (open_and_send api c open_packet)).chan
          ≡ send_all (api.encode open_packet ∷ map (numbered (api.chan_id c)) ps) c
    unfolding open_and_send new_channel c_send send_all
    open_then_write c open_packet ps =
        write_all_lem ps _
        ∙ ap
            (λ (id : ℕ). send_all (map (numbered id) ps) (api.chan_send c (api.encode open_packet)))
            (keeps_id c _)
