-- ===== src/Frames.antt =====
-- js/core.js, class Frames: a byte stream cut into frames of one size. The state is what the
-- constructor's closures share, with the stream and the timers as they see them.
pub mod Reader
pub mod Runs
pub mod Flow
pub mod Wakeup
pub mod Receiving
mod Recording
pub mod Cutting
pub mod Library
mod Tests
mod LibraryTests
use telehash_c.Prelude.{
  ℕ, zero, suc, ◌-◌, Bool, true, false, not, Option, none, some, List, [], ◌∷◌, ◌++◌, length, take,
  drop, leb, if◌then◌else◌,
}
use telehash_c.Native.{FramesApi, MeshApi}

pub record Frames (F M : Type 0) : Type 0 where
  pub frames : F
  pub mesh : M
  pub flushing : Bool
  pub linked : Option ℕ
  pub c_link : Option ℕ
  pub readbuf : List ℕ
  -- What was given to `stream.write`, the writes whose callback has not run, and the timers that
  -- `setTimeout(frames_flush,1)` has set.
  pub written : List (List ℕ)
  pub in_flight : ℕ
  pub timers : ℕ
  -- The links that were given this object's pipe, and those whose `Link` is told 'down', if the mesh
  -- still lists it.
  pub pipes : List ℕ
  pub downs : List ℕ

-- What the stream, the timers, the C library and the application may do.
pub data Event (P : Type 0) : Type 0 where
  incoming : List ℕ → Event P
  write_done : Bool → Event P
  timeout : Event P
  close : Event P
  deliver : Option P → Event P
  accepted : P → Event P

module _ {F M : Type 0} where
  unfoldable pub buffer : List ℕ → Frames F M → Frames F M
  buffer bytes t = record t { readbuf = t.readbuf ++ bytes }

  -- The callback of `stream.write`; an error returns before `flushing` is reset.
  unfoldable pub on_written : Bool → Frames F M → Frames F M
  on_written true t = t
  on_written false t = record t { flushing = false; timers = suc t.timers }

  -- A callback or a timer that is not waiting cannot fire.
  unfoldable pub on_callback : ℕ → Bool → Frames F M → Frames F M
  on_callback zero err t = t
  on_callback (suc n) err t = on_written err (record t { in_flight = n })

  unfoldable pub on_close : Option ℕ → Frames F M → Frames F M
  on_close none t = record t { flushing = false }
  on_close (some link) t = record t { flushing = false; downs = t.downs ++ link ∷ [] }

module _ {F M P : Type 0} (fa : FramesApi F P) (frame_size : ℕ) where
  -- The write itself: `malloc`, `outbox`, `sent`, `stream.write`, `free`.
  unfoldable pub write_frame : Frames F M → Frames F M
  write_frame t =
      let (f, frame) = fa.outbox t.frames frame_size in
      record t {
        flushing = true;
        frames = fa.sent f;
        written = t.written ++ frame ∷ [];
        in_flight = suc t.in_flight;
      }

  unfoldable pub frames_flush : Frames F M → Frames F M
  frames_flush t =
      if not (fa.pending t.frames) then t else (if t.flushing then t else write_frame t)

  unfoldable pub on_timeout : ℕ → Frames F M → Frames F M
  on_timeout zero t = t
  on_timeout (suc n) t = frames_flush (record t { timers = n })

  -- The function that `link_pipe` is given, on a packet and on null.
  unfoldable pub pipe : Option P → Frames F M → Frames F M
  pipe none t = t
  pipe (some packet) t = frames_flush (record t { frames = fa.send t.frames packet })

  unfoldable pub pipe_all : List P → Frames F M → Frames F M
  pipe_all [] t = t
  pipe_all (p ∷ ps) t = pipe_all ps (pipe (some p) t)

  -- The body of `while(readbuf.length >= frame_size)`.
  unfoldable pub read_frame : Frames F M → Frames F M
  read_frame t =
      let f = fa.inbox t.frames (take frame_size t.readbuf) in
      record t {
        readbuf = drop frame_size t.readbuf;
        frames = if not (fa.is_ok f) then fa.clear f else f;
      }

  unfoldable pub read_loop : ℕ → Frames F M → Frames F M
  read_loop zero t = t
  read_loop (suc fuel) t =
      let rest = read_loop fuel (read_frame t) in
      if leb frame_size (length t.readbuf) then rest else t

  unfoldable pub read_all : Frames F M → Frames F M
  read_all t = read_loop (suc (length t.readbuf)) t

module _ {F M P : Type 0} (fa : FramesApi F P) (ma : MeshApi M P) (frame_size : ℕ) where
  -- `mesh_link`, and the pipe fa frame_size of a link that this stream has just found.
  unfoldable pub establish : ℕ → Frames F M → Frames F M
  establish link t =
      let (m, ps) = ma.link_pipe (ma.mesh_link t.mesh link) link in
      pipe_all fa frame_size ps (record t {
        mesh = m;
        linked = some link;
        c_link = some link;
        pipes = t.pipes ++ link ∷ [];
      })

  unfoldable pub attach : Option ℕ → Option ℕ → Frames F M → Frames F M
  attach none linked t = t
  attach (some link) (some old) t = t
  attach (some link) none t = establish link t

  -- `let (m, link, ps)` is what one call of the C library gives.
  unfoldable pub found : M × Option ℕ × List P → Frames F M → Frames F M
  found (m, link, ps) t =
      let t' = pipe_all fa frame_size ps (record t { mesh = m }) in attach link t'.linked t'

  unfoldable pub on_packet : P → Frames F M → Frames F M
  on_packet packet t = found (ma.mesh_receive t.mesh packet) t

  -- `while((packet = util_frames_receive(frames)))`
  unfoldable pub receive_loop : ℕ → Frames F M → Frames F M
  receive_loop zero t = t
  receive_loop (suc fuel) t =
      let (p, f) = fa.receive t.frames in
      elim p [
        | none ↦ record t { frames = f }
        | some packet ↦ receive_loop fuel (on_packet packet (record t { frames = f }))
      ]

  unfoldable pub receive_all : Frames F M → Frames F M
  receive_all t = receive_loop (suc (length (fa.waiting t.frames))) t

  unfoldable pub on_data : List ℕ → Frames F M → Frames F M
  on_data bytes t =
      receive_all (frames_flush fa frame_size (read_all fa frame_size (buffer bytes t)))

  unfoldable pub step : Event P → Frames F M → Frames F M
  step (incoming bytes) t = on_data bytes t
  step (write_done err) t = on_callback t.in_flight err t
  step timeout t = on_timeout fa frame_size t.timers t
  step close t = on_close t.linked t
  step (deliver packet) t = pipe fa frame_size packet t
  step (accepted packet) t = found (ma.mesh_add t.mesh packet) t

  unfoldable pub run : List (Event P) → Frames F M → Frames F M
  run [] t = t
  run (e ∷ es) t = run es (step e t)

  -- The end of the constructor: the greeting is sent.
  unfoldable pub start : F → M → Frames F M
  start f m = pipe fa frame_size (some (ma.mesh_json m)) (record {
    frames = f;
    mesh = m;
    flushing = false;
    linked = none;
    c_link = none;
    readbuf = [];
    written = [];
    in_flight = 0;
    timers = 0;
    pipes = [];
    downs = [];
  })
