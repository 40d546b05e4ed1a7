-- ===== src/Frames/LibraryTests.antt =====
-- Class Frames of js/core.js over the library of src/util/frames.c, at concrete inputs.
use telehash_c.Prelude.{ℕ, suc, ◌≡◌, refl, Bool, true, false, none, List, [], ◌∷◌, ◌++◌}
use telehash_c.Native.{MeshApi}
use telehash_c.UtilFrames.{UtilFrames}
use telehash_c.Frames.Library.{library, library_laws}
use telehash_c.Frames.{
  Frames, buffer, read_all, on_data, run, start, pipe, frames_flush, write_frame, read_loop,
  read_frame,
}
use telehash_c.Frames.Wakeup.{round, round_writes}
use telehash_c.Frames.Receiving.{logged, on_data_gives_all}

-- The library of src/util/frames.c, with 1 for its magic number.
abbrev fresh : UtilFrames
fresh = record {
  magic = 1;
  max = 100;
  filled = [];
  inlen = 0;
  out = [];
  inbox = [];
  outbox = [];
  is_receiving = false;
  is_sending = false;
  inbox_err = false;
}

-- A mesh that answers with no link, and greets with ten bytes.
abbrev silent : MeshApi ℕ (List ℕ)
silent = record {
  mesh_receive = λ m p. (suc m, none, []);
  mesh_add = λ m p. (suc m, none, []);
  mesh_link = λ m link. m;
  link_pipe = λ m link. (m, []);
  mesh_json = λ m. 0 ∷ 8 ∷ 1 ∷ 2 ∷ 3 ∷ 4 ∷ 5 ∷ 6 ∷ 7 ∷ 8 ∷ [];
}

abbrev any : List ℕ → Bool
any bytes = true

abbrev idle : Frames UtilFrames (ℕ × List (List ℕ))
idle = record {
  frames = fresh;
  mesh = (0, []);
  flushing = false;
  linked = none;
  c_link = none;
  readbuf = [];
  written = [];
  in_flight = 0;
  timers = 0;
  pipes = [];
  downs = [];
}

abbrev sixteen : List ℕ
sixteen = 0 ∷ 0 ∷ 3 ∷ 4 ∷ 5 ∷ 6 ∷ 7 ∷ 8 ∷ 9 ∷ 10 ∷ 11 ∷ 12 ∷ 13 ∷ 14 ∷ 15 ∷ 16 ∷ []

-- A header and a packet of sixteen bytes, in frames of eight.
abbrev one_packet : List ℕ
one_packet = 1 ∷ 0 ∷ 0 ∷ 0 ∷ 16 ∷ 0 ∷ 0 ∷ 0 ∷ sixteen

on_data_gives_all_example :
    ((on_data (library any) (logged silent) 8 one_packet idle).mesh.1 ≡ sixteen ∷ [])
    × ((library any).waiting (on_data (library any) (logged silent) 8 one_packet idle).frames ≡ [])
unfolding read_all read_loop read_frame buffer telehash_c.UtilFrames.inbox
    telehash_c.UtilFrames.check_header telehash_c.UtilFrames.read_header telehash_c.UtilFrames.is_ok
    telehash_c.UtilFrames.clear telehash_c.UtilFrames.Queue.packets
    telehash_c.UtilFrames.free_empties telehash_c.UtilFrames.lob_direct
    telehash_c.UtilFrames.Queue.append telehash_c.UtilFrames.Queue.drop_empties
on_data_gives_all_example =
    on_data_gives_all (library any) (library_laws any) silent 8 one_packet idle

round_writes_example :
    (round
      (library any)
      (library_laws any)
      silent
      8
      (run (library any) silent 8 [] (start (library any) silent 8 fresh 0))).written
    ≡ (run (library any) silent 8 [] (start (library any) silent 8 fresh 0)).written
      ++ ((library any).outbox
          (run (library any) silent 8 [] (start (library any) silent 8 fresh 0)).frames
          8).1
        ∷ []
unfolding run start pipe frames_flush write_frame telehash_c.UtilFrames.is_pending
    telehash_c.UtilFrames.send telehash_c.UtilFrames.outbox telehash_c.UtilFrames.sent
    telehash_c.UtilFrames.total telehash_c.UtilFrames.Queue.append
    telehash_c.UtilFrames.Queue.drop_empties
round_writes_example = round_writes (library any) (library_laws any) silent 8 fresh 0 [] tt refl
