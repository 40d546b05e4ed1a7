-- ===== src/Samples/Serial.antt =====
-- js/samples/serial.js: a mesh over a serial port, in frames of 64 bytes. The functions of the
-- compiled library are operations of a record; what it delivers to the pipe during a call is a list
-- beside the call's result.
use telehash_c.Prelude.{
  ℕ, zero, suc, Bool, true, false, Option, none, some, List, [], ◌∷◌, ◌++◌, length, take, drop, leb,
  if◌then◌else◌,
}

-- `util_frames_outbox` returns null when there is no frame, and `util_frames_sent` when no more is
-- to go. `waiting` and `unsent` bound the turns of the two loops: the packets that `receive` and the
-- frames that `outbox` has still to give. No bound fits a packet of eight bytes, with which the loop over
-- `outbox` does not end (UtilFrames.Draining).
pub record SerialApi (F M P : Type 0) : Type 0 where
  pub outbox : F → ℕ → F × Option (List ℕ)
  pub sent : F → F × Bool
  pub inbox : F → List ℕ → F
  pub receive : F → Option P × F
  pub send : F → P → F
  pub waiting : F → ℕ
  pub unsent : F → ℕ
  pub mesh_receive : M → P → M × Option ℕ × List P
  pub link_pipe : M → ℕ → M × List P

pub record Serial (F M : Type 0) : Type 0 where
  pub frames : F
  pub mesh : M
  pub linked : Option ℕ
  pub readbuf : List ℕ
  -- What was given to `port.write` and to `util_frames_inbox`, and the links given the pipe.
  pub written : List (List ℕ)
  pub taken : List (List ℕ)
  pub pipes : List ℕ

-- The port's data, and a packet, or null, that the mesh delivers to the pipe.
pub data Event (P : Type 0) : Type 0 where
  incoming : List ℕ → Event P
  deliver : Option P → Event P

module _ {F M P : Type 0} (api : SerialApi F M P) where
  unfoldable pub write_frame : F → List ℕ → Serial F M → Serial F M
  write_frame f frame t = record t { frames = f; written = t.written ++ frame ∷ [] }

  -- `if(!util_frames_sent(frames)) break;`
  unfoldable pub flush_rest :
      (Serial F M → Serial F M) → F × Bool → List ℕ → Serial F M → Serial F M
  unfolding write_frame
  flush_rest again (f, true) bytes t = again (write_frame f bytes t)
  flush_rest again (f, false) bytes t = write_frame f bytes t

  unfoldable pub flush_frame :
      (Serial F M → Serial F M) → F × Option (List ℕ) → Serial F M → Serial F M
  unfolding flush_rest
  flush_frame again (f, none) t = record t { frames = f }
  flush_frame again (f, some bytes) t = flush_rest again (api.sent f) bytes t

  -- `while(util_frames_outbox(frames,frame,null))`
  unfoldable pub flush_loop : ℕ → Serial F M → Serial F M
  unfolding flush_frame
  flush_loop zero t = t
  flush_loop (suc fuel) t = flush_frame (λ s. flush_loop fuel s) (api.outbox t.frames 64) t

  unfoldable pub frames_flush : Serial F M → Serial F M
  frames_flush t = flush_loop (suc (api.unsent t.frames)) t

  -- The greeting when the port is open, which `hashname_im` makes.
  unfoldable pub on_open : P → Serial F M → Serial F M
  on_open hello t = frames_flush (record t { frames = api.send t.frames hello })

  -- The function that `link_pipe` is given.
  unfoldable pub pipe : Option P → Serial F M → Serial F M
  pipe none t = t
  pipe (some packet) t = frames_flush (record t { frames = api.send t.frames packet })

  unfoldable pub pipe_all : List P → Serial F M → Serial F M
  pipe_all [] t = t
  pipe_all (p ∷ ps) t = pipe_all ps (pipe (some p) t)

  unfoldable pub read_frame : Serial F M → Serial F M
  read_frame t = record t {
    readbuf = drop 64 t.readbuf;
    frames = api.inbox t.frames (take 64 t.readbuf);
    taken = t.taken ++ take 64 t.readbuf ∷ [];
  }

  -- `while(readbuf.length >= 64)`
  unfoldable pub read_loop : ℕ → Serial F M → Serial F M
  unfolding read_frame
  read_loop zero t = t
  read_loop (suc fuel) t =
      let rest = read_loop fuel (read_frame t) in if leb 64 (length t.readbuf) then rest else t

  unfoldable pub attach : Option ℕ → Option ℕ → Serial F M → Serial F M
  unfolding pipe_all
  attach none linked t = t
  attach (some link) (some old) t = t
  attach (some link) none t =
      let called : M × List P = api.link_pipe t.mesh link in
      pipe_all called.1
        (record t { mesh = called.0; linked = some link; pipes = t.pipes ++ link ∷ [] })

  -- One call of the mesh: what it delivers meanwhile, and then the link that it returned.
  unfoldable pub found : M × Option ℕ × List P → Serial F M → Serial F M
  unfolding attach pipe_all
  found (m, link, ps) t = let s = pipe_all ps (record t { mesh = m }) in attach link s.linked s

  unfoldable pub on_packet : P → Serial F M → Serial F M
  unfolding found
  on_packet packet t = found (api.mesh_receive t.mesh packet) t

  unfoldable pub received : (Serial F M → Serial F M) → Option P × F → Serial F M → Serial F M
  unfolding on_packet
  received again (none, f) t = record t { frames = f }
  received again (some packet, f) t = again (on_packet packet (record t { frames = f }))

  -- `while((packet = util_frames_receive(frames)))`
  unfoldable pub receive_loop : ℕ → Serial F M → Serial F M
  unfolding received
  receive_loop zero t = t
  receive_loop (suc fuel) t = received (λ s. receive_loop fuel s) (api.receive t.frames) t

  unfoldable pub on_data : List ℕ → Serial F M → Serial F M
  unfolding read_loop receive_loop frames_flush
  on_data bytes t =
      let s =
        read_loop (suc (length (t.readbuf ++ bytes))) (record t { readbuf = t.readbuf ++ bytes }) in
      frames_flush (receive_loop (suc (api.waiting s.frames)) s)

  unfoldable pub step : Event P → Serial F M → Serial F M
  unfolding on_data pipe
  step (incoming bytes) t = on_data bytes t
  step (deliver packet) t = pipe packet t

  unfoldable pub run : List (Event P) → Serial F M → Serial F M
  unfolding step
  run [] t = t
  run (e ∷ es) t = run es (step e t)

-- The bytes that the port gave.
unfoldable pub stream : {P : Type 0} → List (Event P) → List ℕ
stream [] = []
stream (incoming bytes ∷ es) = bytes ++ stream es
stream (deliver packet ∷ es) = stream es

unfoldable pub start : {F M : Type 0} → F → M → Serial F M
start f m = record {
  frames = f;
  mesh = m;
  linked = none;
  readbuf = [];
  written = [];
  taken = [];
  pipes = [];
}
