-- ===== src/Lib.antt =====
-- telehash-c, its JavaScript side: a model of js/core.js and js/include/index.js, the program that runs
-- a mesh in node.js over the C library compiled by emscripten; and of that library's framing and
-- chunking of packets, its packets, lists and hash table, and the channels and handshakes of its links.
--
-- The parts, and the files that model them:
--   Frames (js/core.js, class Frames): a byte stream cut into frames of one size. `on_data` is the
--     'data' handler, `frames_flush` the writer, `receive_loop` the packet loop, `pipe` the function
--     given to `link_pipe`. `step` is one event of the stream, the timers, the C library or the
--     application, and `run` a row of events. Frames.Recording puts beside a frames library what
--     `inbox` was given, and Frames.Receiving beside a mesh what `mesh_receive` was given.
--   Chunks and Chunks.Queue (js/core.js, class Chunks): the same over the chunking stream of lob-enc,
--     with a queue of chunks to write; `flush` and its callbacks are in Chunks.Queue.
--   Registry (js/core.js, class Link and `_links`, `_deadLinks` of class Mesh): `on_link` and `on_open`
--     are the callbacks of `mesh_on_link` and `mesh_on_open`, `tick` runs one function given to
--     `process.nextTick`, `down` is the handler of a link's 'down'. Link objects are shared, so they
--     stand in a store.
--   Policy (js/core.js, `accept`, `reject`, `_open` and both callbacks of `mesh_on_discover`).
--   Setup (js/core.js, `Telehash`, `use`, `start`, `listen`, `stopListen`).
--   Channel (js/core.js, class Channel, `Link.init` and `Link.console`).
--   Bridge, Bridge.Heap and Bridge.Exports (js/include/index.js): `wrap` is `Wrappers`, `wrap_all` the
--     loop of `wrapFun`, `read_buffer` is `th.BUFFER`, over a memory with the functions of the emscripten
--     runtime; `export_all` is the loop over the compiled functions.
--   UtilChunks (src/util/chunks.c): packets in chunks with a size byte; `read`, `receive`, `write` and
--     `written` are the calls of a stream, and `transmit` is the loop of src/net/tcp4.c. Chunking says
--     what a stream of chunks is.
--   Chan (src/chan.c): a channel's queue of packets and its timeout, over a record of what it uses of a
--     packet; `process_all` is link_process_chan of src/link.c. Chan.Receiving makes it the C side of
--     Channel.
--   Exchange (src/e3x/exchange.c, and of src/link.c link_load, link_pipe, link_sync, link_resync and
--     link_receive_handshake): the orders of two sides, the numbers of their handshakes and the ids of
--     their channels. Delivery lets two sides answer each other's handshakes in any order.
--   Links (src/link.c): a link's channels in memory, over the channels of Chan and the exchange of
--     Exchange: `link_chan`, `link_receive`, `link_process`, `link_down` and `link_free`. A read of a block
--     that is not allocated is an outcome; a walk has fuel, and one more step than channels is enough. The
--     handlers of a mesh's 'open' are a test of the packet, and a handler acts on its own channel only.
--   Lob (src/lib/lob.c): the bytes of a packet, with `head`, `body`, `append` and `parse`; LobList: the
--     list functions over the fields next and prev of a heap, `receiving` being chan_receiving of
--     src/chan.c. A walk to the end of a list has fuel, and one step for each packet is enough.
--   Xht (src/lib/xht.c): the hash table; a key is the bytes of its text.
--   Samples.Serial, Samples.Udp (js/samples/serial.js, udp.js and send.js): the sample programs, over
--     records of the library's operations; `link_pipe` and `link_send` are those of src/link.c.
--   Native: the functions of the compiled library that Frames and Chunks call, as records of
--     operations and laws. js/include/thc.js is generated, so they are parameters; Frames.Library makes
--     the functions of UtilFrames such a record.
--   UtilFrames (src/util/frames.c): `inbox` and `outbox` cut packets into a header frame and a body
--     frame and put them together, `send`, `receive` and `sent` are the calls of a user. Its queues are
--     in UtilFrames.Queue. A read past the bytes given is an outcome of `inbox`.
--   Prelude: shared names, lists and texts for keys of JavaScript's Map and Set.
--
-- How the parts meet: Frames and Chunks hand packets to the C mesh, which calls back into Registry and
-- Policy and delivers packets through the pipe; Setup makes the mesh; Channel runs over a link; every
-- call of the C library goes through Bridge.
--
-- Bounds and fuel: the packet loops take as fuel one more than the packets that the library has
-- still to give, which are part of its record. The writing loop of Samples.Serial takes a bound on
-- the frames that the library has still to give; a packet of eight bytes has none
-- (UtilFrames.Draining). The reading loop takes one more than the buffered bytes as fuel; frames
-- have at least one byte where that matters. Numbers do not wrap in the JavaScript code; sums of 32
-- bits in src/util/frames.c do. `inbox` of UtilFrames takes one call for each byte at most.
--
-- Not modelled: the C sources but src/util/frames.c, src/util/chunks.c, src/chan.c, src/lib/xht.c
-- and parts of src/lib/lob.c, src/e3x/exchange.c and src/link.c, which the JavaScript side sees as
-- operations (js/core.js was written for an older interface of util_frames, so Frames stands on the
-- records of Native); the cryptography, whose results are parameters; js/samples/test.js; input and
-- output. A callback of `stream.write`, a timer and a function given to `process.nextTick` run after
-- the code that set them, as events of their own. What the C library delivers to the pipe during a
-- call is a list beside the call's result.
pub mod Prelude
pub mod Native
pub mod Frames
pub mod Chunks
pub mod Registry
pub mod Policy
pub mod Setup
pub mod Bridge
pub mod UtilFrames
pub mod UtilChunks
pub mod Chan
pub mod Exchange
pub mod LobList
pub mod Xht
pub mod Links
pub mod Lob
pub mod Samples
pub mod Channel
