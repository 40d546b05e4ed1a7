-- ===== src/Chan/Receiving.antt =====
-- src/chan.c as the C side of class Channel of js/core.js: it keeps what that class relies on.
use telehash_c.Prelude.{
  ℕ, zero, suc, ◌<◌, ◌≡◌, refl, ap, ◌∙◌, Bool, Option, none, some, List, [], ◌∷◌, ◌++◌, arith,
  length, if◌then◌else◌,
}
use telehash_c.Channel.{Packet, ChannelApi, ChannelLaws, Channel}
use telehash_c.Channel
use telehash_c.Channel.Receiving.{given, readable, unreadable, handle_takes_all, handle_chan}
use telehash_c.Chan.{ChanState, ended, Chan, PacketApi, shift, receiving, send}

-- The state after a row of packets was taken: one with "end" ends the channel.
unfoldable pub end_state : {P : Type 0} → (P → Bool) → List P → ChanState → ChanState
end_state is_end [] s = s
end_state is_end (p ∷ ps) s = end_state is_end ps (if is_end p then ended else s)

-- Packets are pointers; what lob-enc makes of them is a parameter.
module _ {J B : Type 0} (api : PacketApi ℕ) (encode : Packet J B → ℕ)
    (decode : ℕ → Option (Packet J B)) (set_c : ℕ → J → J) where
  abbrev pub chan_api : ChannelApi (Chan ℕ) J B
  chan_api = record {
    encode = encode;
    decode = decode;
    receiving = λ c. receiving api c;
    chan_send = λ c p. send p c;
    chan_id = λ c. c.id;
    set_c = set_c;
    waiting = λ c. length c.incoming;
  }

  shift-some :
      (ps : List ℕ) (c : Chan ℕ) (p : ℕ)
      → (shift api ps c).0 ≡ some p
      → suc (length (shift api ps c).1.incoming) ≡ length ps
  unfolding shift
  shift-some [] c p h = cc
  shift-some (q ∷ ps) c p h = refl

  shift-none :
      (ps : List ℕ) (c : Chan ℕ)
      → c.incoming ≡ ps
      → (shift api ps c).0 ≡ none
      → length (shift api ps c).1.incoming ≡ 0
  unfolding shift
  shift-none [] c e h = ap length e
  shift-none (q ∷ ps) c e h = cc

  pub chan_laws : ChannelLaws chan_api
  unfolding receiving
  chan_laws = record {
    receiving_some = λ c p h. shift-some c.incoming c p h;
    receiving_none = λ c h. shift-none c.incoming c refl h;
  }

  abbrev given_by : ℕ → Option ℕ × Chan ℕ → List ℕ × Chan ℕ
  given_by k (none, c) = ([], c)
  given_by k (some p, c) = (p ∷ (given chan_api k c).0, (given chan_api k c).1)

  given_step :
      (k : ℕ) (r : Option ℕ × Chan ℕ) (c : Chan ℕ)
      → receiving api c ≡ r
      → given chan_api (suc k) c ≡ given_by k r
  unfolding given
  given_step k (none, d) c e =
      let front = ap (λ (r : Option ℕ × Chan ℕ). r.0) e in
      rw (front, given) (ap (λ (r : Option ℕ × Chan ℕ). ([], r.1)) e)
  given_step k (some p, d) c e =
      let front = ap (λ (r : Option ℕ × Chan ℕ). r.0) e in
      rw (front, given) (ap (λ (r : Option ℕ × Chan ℕ). given_by k (some p, r.1)) e)

  given_lem :
      (k : ℕ) (ps : List ℕ) (c : Chan ℕ)
      → c.incoming ≡ ps
      → length ps < k
      → ((given chan_api k c).0 ≡ ps)
        × ((given chan_api k c).1.incoming ≡ [])
        × ((given chan_api k c).1.state ≡ end_state api.is_end ps c.state)
  unfolding end_state receiving shift
  given_lem zero ps c e lt = elim lt [ ]
  given_lem (suc k) [] c e lt =
      let step = given_step k (none, c) c (ap (λ ps. shift api ps c) e) in
      (
        ap (λ (r : List ℕ × Chan ℕ). r.0) step,
        ap (λ (r : List ℕ × Chan ℕ). r.1.incoming) step ∙ e,
        ap (λ (r : List ℕ × Chan ℕ). r.1.state) step,
      )
  given_lem (suc k) (p ∷ ps) c e lt =
      let d : Chan ℕ = record c {
        incoming = ps;
        state = if api.is_end p then ended else c.state;
      } in
      let step = given_step k (some p, d) c (ap (λ ps. shift api ps c) e) in
      let rest = given_lem k ps d refl (omega arith) in
      (
        ap (λ (r : List ℕ × Chan ℕ). r.0) step ∙ ap (λ l. p ∷ l) rest.0,
        ap (λ (r : List ℕ × Chan ℕ). r.1.incoming) step ∙ rest.1,
        ap (λ (r : List ℕ × Chan ℕ). r.1.state) step ∙ rest.2,
      )

  -- Class Channel of js/core.js over the channel of src/chan.c: when its handler runs, every packet
  -- that waits in the C channel is taken, those that lob-enc can read are pushed and the others
  -- reported, each in their order; none is left, and the C channel is ended if a packet with "end"
  -- was among them.
  pub handle-Chan :
      (t : Channel (Chan ℕ) J B)
      → ((Channel.handle chan_api t).pushed ≡ t.pushed ++ readable chan_api t.chan.incoming)
        × ((Channel.handle chan_api t).bad ≡ t.bad ++ unreadable chan_api t.chan.incoming)
        × ((Channel.handle chan_api t).chan.incoming ≡ [])
        × ((Channel.handle chan_api t).chan.state
            ≡ end_state api.is_end t.chan.incoming t.chan.state)
  handle-Chan t =
      let taken = handle_takes_all chan_api chan_laws t in
      let all =
        given_lem (suc (length t.chan.incoming)) t.chan.incoming t.chan refl (omega arith) in
      (
        taken.0 ∙ ap (λ ps. t.pushed ++ readable chan_api ps) all.0,
        taken.1 ∙ ap (λ ps. t.bad ++ unreadable chan_api ps) all.0,
        ap (λ (c : Chan ℕ). c.incoming) (handle_chan chan_api t) ∙ all.1,
        ap (λ (c : Chan ℕ). c.state) (handle_chan chan_api t) ∙ all.2,
      )
