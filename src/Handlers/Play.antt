-- ===== src/Handlers/Play.antt =====
-- audiowire/src/handlers.rs: `handle_playback` and its two loops, from a peer to a playback stream.
pub mod Packets
pub mod Raw
pub mod Opus
pub mod Starves
use audiowire.Base.{
  ℕ, ◌*◌, Bool, true, false, List, [], ◌∷◌, ◌++◌, Option, none, some, Outcome, ok, err, panic,
  length, ltb, leb, if◌then◌else◌,
}
use audiowire.Config.{Config, buffer_size}
use audiowire.Device.{Driver, DeviceError}
use audiowire.Stream.{BaseStream, playback, builder, with_error_cb, start_stream, stop, peek, write}
use audiowire.Frame.{from_be_bytes, convert_to_bytes, max_payload}
use audiowire.Opus.{Decoder, from_u8}
use audiowire.Handlers.{Error, device, io, opus, Moment, scratch_size}
use audiowire.Handlers.Peers.{Reader}

-- What a playback loop leaves: its outcome (`none` while it runs), the world, the peer, the packets that
-- the decoder was given, and the buffers that were written to the stream.
pub record Played (W P : Type 0) : Type 0 where
  pub outcome : Option (Outcome Error Unit)
  pub world : W
  pub peer : P
  pub packets : List (List ℕ)
  pub written : List (List ℕ)

module _ {W P : Type 0} where
  abbrev pub ended : Option (Outcome Error Unit) → W → P → Played W P
  ended o w p = record { outcome = o; world = w; peer = p; packets = []; written = [] }

  abbrev pub log_packet : List ℕ → Played W P → Played W P
  log_packet x r = record r { packets = x ∷ r.packets }

  abbrev pub log_writes : List (List ℕ) → Played W P → Played W P
  log_writes xs r = record r { written = xs ++ r.written }

  abbrev pub log_write : List ℕ → Played W P → Played W P
  log_write x r = record r { written = x ∷ r.written }

module _ (d : Driver) (r : Reader) (b : BaseStream d.Handle) where
  -- The loop of `handle_raw_playback_stream`, over a buffer of `n` bytes
  unfoldable pub raw_loop : ℕ → List (Moment d.World) → d.World → r.State → Played d.World r.State
  unfolding peek write
  raw_loop n [] w p = ended none w p
  raw_loop n (m ∷ ms) w p = elim m.term [
    | true ↦ ended (some (ok tt)) w p
    | false ↦
        let w1 = m.before w in
        elim (leb n (peek d playback b w1)) [
          | false ↦ raw_loop n ms w1 p
          | true ↦
              let (o, p1) = r.read_exact n p in
              elim o [
                | ok bytes ↦ log_write bytes (raw_loop n ms (write d b bytes (m.during w1)).1 p1)
                | err e ↦ ended (some (err (io e))) (m.during w1) p1
                | panic ↦ ended (some panic) (m.during w1) p1
              ]
        ]
  ]

  -- `&mut base[..bufsize]` panics on a buffer longer than `base`.
  unfoldable pub handle_raw_playback_stream :
      Config → List (Moment d.World) → d.World → r.State → Played d.World r.State
  unfolding raw_loop
  handle_raw_playback_stream c ms w p =
      let n = buffer_size c in
      if ltb scratch_size n then ended (some panic) w p else raw_loop n ms w p

-- One packet, as the loop of `handle_opus_playback_stream` reads it: two bytes of length, then the payload.
-- `&mut tail[..length]` panics on a length beyond the buffer.
module _ (r : Reader) where
  unfoldable pub receive : r.State → Outcome Error (List ℕ) × r.State
  receive p =
      let (o, p1) = r.read_exact 2 p in
      elim o [
        | ok head ↦
            let length = from_be_bytes head in
            if ltb max_payload length
            then (panic, p1)
            else (let (o2, p2) = r.read_exact length p1 in
                elim o2 [
                  | ok bytes ↦ (ok bytes, p2)
                  | err e ↦ (err (io e), p2)
                  | panic ↦ (panic, p2)
                ])
        | err e ↦ (err (io e), p1)
        | panic ↦ (panic, p1)
      ]

-- `if stream.peek() >= data.len() { stream.write(data); }`, with what was written
unfoldable pub offer :
    (d : Driver) → BaseStream d.Handle → List ℕ → d.World → d.World × List (List ℕ)
unfolding peek write
offer d b bytes w =
    if leb (length bytes) (peek d playback b w)
    then ((write d b bytes w).1, bytes ∷ [])
    else (w, [])

module _ (d : Driver) (r : Reader) (dec : Decoder) (b : BaseStream d.Handle) where
  -- The loop of `handle_opus_playback_stream`
  unfoldable pub opus_loop :
      ℕ → List (Moment d.World) → dec.State → d.World → r.State → Played d.World r.State
  unfolding offer receive
  opus_loop channels [] s w p = ended none w p
  opus_loop channels (m ∷ ms) s w p = elim m.term [
    | true ↦ ended (some (ok tt)) w p
    | false ↦
        let (o, p1) = receive r p in
        elim o [
          | ok packet ↦
              let (o2, buf, s1) = dec.decode packet s in
              log_packet packet (elim o2 [
                | ok fcount ↦
                    let (w1, out) =
                      offer d b (convert_to_bytes buf (channels * fcount)) (m.before w) in
                    log_writes out (opus_loop channels ms s1 w1 p1)
                | err e ↦ ended (some (err (opus e))) w p1
                | panic ↦ ended (some panic) w p1
              ])
          | err e ↦ ended (some (err e)) w p1
          | panic ↦ ended (some panic) w p1
        ]
  ]

  unfoldable pub handle_opus_playback_stream :
      Config → List (Moment d.World) → d.World → r.State → Played d.World r.State
  unfolding opus_loop from_u8
  handle_opus_playback_stream c ms w p = elim (from_u8 {E = ℕ} c.channels) [
    | ok channels ↦ elim (dec.new c.sample_rate channels) [
      | ok s ↦ opus_loop c.channels ms s w p
      | err e ↦ ended (some (err (opus e))) w p
      | panic ↦ ended (some panic) w p
    ]
    | err e ↦ ended (some panic) w p
    | panic ↦ ended (some panic) w p
  ]
