-- ===== src/Lib.antt =====
-- audiowire sends audio between two machines. A process captures from a device or plays to one through a C
-- library, libaudiowire, and talks to the other process over a socket; packets are raw samples or Opus.
--
-- How the parts interact. The server (audiowire/src/bin/server.rs) and the client (audiowire/src/bin/client.rs)
-- exchange one byte each, which says who captures and who plays and, from the client, whether packets are Opus. Each
-- side then starts the streams that both can use, and spawns one task per stream (audiowire/src/handlers.rs), which
-- moves buffers between the stream (audiowire/src/audiowire/stream.rs) and the socket (audiowire/src/peer.rs) until a
-- signal sets the flag `term` or an error ends it.
--
-- Which file models which part:
--   Base             numbers, lists and outcomes: `Outcome` is `Ok`, an error or a panic
--   Config           audiowire/src/audiowire/config.rs, DEFAULT_CONFIG of audiowire/src/lib.rs, and what
--                    libaudiowire/src/common.c and internals.h measure: `frame_size`, `buffer_size`, `buffer_duration`,
--                    `into` (`Into<aw_config>`)
--   Flags            StreamType and StreamFlags of audiowire/src/audiowire/stream.rs: `type_of` and `flags_of` are the
--                    two `new`, `type_from` and `flags_from` the two `From<&[u8]>`
--   Device           audiowire/src/audiowire/result.rs, errors.rs and mod.rs, and the surface of libaudiowire
--                    (libaudiowire/include/audiowire.h) as the record `Driver`
--   Stream           BaseStream, StreamBuilder and the two streams of audiowire/src/audiowire/stream.rs:
--                    `start_handle` is the free function `start_stream`, `start_stream` the builder's method; module
--                    Callback holds `on_error`, with `error_cb` of audiowire/src/handlers.rs; a stream is its base with a
--                    `Direction`, and module Kinds has the two types of the source around it
--   Frame            the byte formats of audiowire/src/handlers.rs: the length before an Opus packet, `convert_slice`
--   Opus             audiowire/src/opus.rs, with the Opus library as the records `Decoder` and `Encoder`
--   Peer             UdpPeerReadHalf of audiowire/src/peer.rs: `read_exact`, its loop `rounds` and one `round`; module
--                    Udp holds the write half, the producer, `UdpPeer` and the forwarding of TCP
--   Handlers         audiowire/src/handlers.rs: Play and Record hold the four loops, Task the tasks around them,
--                    Check holds `check_audio`, Udp is a UDP peer as the peer of a task; the two modules Link join
--                    the record loop of one side to the playback loop of the other, over bytes and over datagrams, and
--                    Session puts two UDP peers between them; Signals holds `handle_signal`
--   Ring             libaudiowire/src/ringbuf.c: `push` is `ringbuf_push`, and so on; module Queue is the queue that a
--                    ring stands for, and Runs a sequence of calls on both; Threads has the calls of two threads in
--                    steps: module Safe is about every schedule, and Torn about a count of which the index goes round
--   Native           the stream of libaudiowire/src/internals.h and common.c with the two callbacks of
--                    portaudio.c, and module Fifo, what it promises; Devices holds how portaudio.c chooses a
--                    device, Backend how it starts and stops a stream, with PortAudio as the record `PortAudio`,
--                    and Table all of these as the driver that the Rust side calls, over the streams in memory,
--                    with the device's callbacks as what happens at a moment, for which Starves joins the raw
--                    playback loop to a started stream; Pulse holds the callbacks of pulseaudio.c that move
--                    sound, with PulseAudio as the record `PulseAudio`, and below it Start how a stream starts
--                    and stops, with PulseAudio as the record `PulseClient`: the calls that it makes are a list,
--                    and Client says which lists are in order
--   Logging          audiowire/src/logging.rs: which header a logger has, and `print_msg_header`, with slog's decorator
--                    as a record
--   Loopback         audiowire/src/bin/loopback.rs: `main`, and its two loops as `loop`
--   Retry            `with_retry` of audiowire/src/bin/client.rs
--   Session          audiowire/src/bin/server.rs (Server) and client.rs (Client, and `main` in Start), and what they
--                    start
--   Tests            concrete drivers, peers and codecs, and the examples on them
--
-- State. A driver's world is everything that libaudiowire acts on; a function that calls it takes the world and
-- returns it. A stream is a record that its task owns. A peer is a `Reader` or a `Writer` with a state; `IsStream`
-- says what a byte stream such as TCP promises. A loop runs over a list of moments, one for each time that it looks at
-- its surroundings: what `term` is then, and what other threads do to the world before it goes on and while it waits.
-- A loop whose moments are used up still runs, and its outcome is `none`; the theorems hold for every such list. The
-- datagrams of a UDP peer are a list that ends when the channel is closed.
--
-- Bounds and fuel. `with_retry` runs on fuel of six, one for each attempt that `MAX_RETRY` allows. A copying loop of
-- the ring runs on fuel of one round for each byte and one more, as each round copies a byte at least, and the
-- doubling of its capacity on 65 rounds, one for each power of two below 2 ^ 64 and one more. The loop over
-- PulseAudio's fragments and the waits for its states take their fuel as an argument, for the library decides how many
-- rounds there are. Counts of bytes wrap at 2 ^ 64, the counts that libaudiowire is given at 2 ^ 32, the counter of
-- `with_retry` at 256, a packet's length at 2 ^ 16. Samples are taken as little-endian.
--
-- A ring's bytes are a list, and an access outside it is `none`. Outside Ring/Threads an operation of the ring or of
-- a stream stands for one call that no other interrupts. The source shares a ring between a callback and the program
-- without a lock; there a step is one load or store of a shared index or one memcpy, and the steps of the two threads
-- come in any order. The atomic indices are sequentially consistent, as C has them where no order is named. A sum that
-- goes past 2 ^ 64 before the mask is taken has the same masked bits.
--
-- Not modelled: what slog makes of a logger, and the text of messages, which no result depends on; binding,
-- connecting and the sockets themselves, whose answers are inputs, as is what the programs' registration of
-- signals returns; PortAudio, PulseAudio, signal_hook, tokio and the Opus codec, which are parameters; the freeing
-- of a ring's memory, and allocation, which succeeds; what portaudio.c does on Windows.
pub mod Base
pub mod Config
pub mod Flags
pub mod Device
pub mod Stream
pub mod Frame
pub mod Opus
pub mod Peer
pub mod Handlers
pub mod Logging
pub mod Loopback
pub mod Native
pub mod Retry
pub mod Ring
pub mod Session
pub mod Tests
