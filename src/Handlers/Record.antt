-- ===== src/Handlers/Record.antt =====
-- audiowire/src/handlers.rs: the two loops of `handle_record`, from a recording stream to a peer.
pub mod Raw
pub mod Packets
pub mod Sent
pub mod Stops
use audiowire.Base.{
  ℕ, Bool, true, false, List, [], ◌∷◌, ◌++◌, Option, none, some, Outcome, ok, err, panic, length,
  ltb, leb, if◌then◌else◌,
}
use audiowire.Config.{Config, buffer_size, buffer_duration}
use audiowire.Device.{Driver}
use audiowire.Stream.{BaseStream, capture, peek, read}
use audiowire.Frame.{frame, convert_to_samples, max_payload}
use audiowire.Opus.{Encoder, from_u8}
use audiowire.Handlers.{Error, io, opus, Moment, scratch_size}
use audiowire.Handlers.Peers.{Writer}

-- Where a record loop stands: before the test of `term`, or before a test of `peek`.
pub data Control : Type 0 where
  outer inner : Control

-- What a record loop leaves: its outcome (`none` while it runs), the world, the peer, the packets that the
-- encoder made, and the buffers that were written to the peer.
pub record Recorded (W P : Type 0) : Type 0 where
  pub outcome : Option (Outcome Error Unit)
  pub world : W
  pub peer : P
  pub packets : List (List ℕ)
  pub sent : List (List ℕ)

module _ {W P : Type 0} where
  abbrev pub ended : Option (Outcome Error Unit) → W → P → Recorded W P
  ended o w p = record { outcome = o; world = w; peer = p; packets = []; sent = [] }

  abbrev pub log_sent : List ℕ → Recorded W P → Recorded W P
  log_sent x r = record r { sent = x ∷ r.sent }

  abbrev pub log_packet : List ℕ → Recorded W P → Recorded W P
  log_packet x r = record r { packets = x ∷ r.packets }

module _ (d : Driver) (r : Writer) (b : BaseStream d.Handle) where
  -- The loops of `handle_raw_record_stream`, over a buffer of `n` bytes
  unfoldable pub raw_loop :
      ℕ → List (Moment d.World) → Control → d.World → r.State → Recorded d.World r.State
  unfolding peek read
  raw_loop n [] c w p = ended none w p
  raw_loop n (m ∷ ms) outer w p = elim m.term [
    | true ↦ ended (some (ok tt)) w p
    | false ↦ raw_loop n ms inner w p
  ]
  raw_loop n (m ∷ ms) inner w p =
      let w1 = m.before w in
      elim (leb n (peek d capture b w1)) [
        | true ↦
            let (bytes, w2) = read d b n w1 in
            let (o, p1) = r.write_all bytes p in
            elim o [
              | ok u ↦ log_sent bytes (raw_loop n ms inner (m.during w2) p1)
              | err e ↦ ended (some (err (io e))) (m.during w2) p1
              | panic ↦ ended (some panic) (m.during w2) p1
            ]
        | false ↦ raw_loop n ms outer w1 p
      ]

  unfoldable pub handle_raw_record_stream :
      Config → List (Moment d.World) → d.World → r.State → Recorded d.World r.State
  unfolding raw_loop
  handle_raw_record_stream c ms w p = elim (buffer_duration c) [
    | none ↦ ended (some panic) w p
    | some interval ↦
        let n = buffer_size c in
        if ltb scratch_size n then ended (some panic) w p else raw_loop n ms outer w p
  ]

module _ (d : Driver) (r : Writer) (enc : Encoder) (b : BaseStream d.Handle) where
  -- The loops of `handle_opus_record_stream`: a slice of `tmp` that panics on a longer buffer, and `size as u16` in front of the packet, then one write of both.
  unfoldable pub opus_loop :
      ℕ → List (Moment d.World) → Control → enc.State → d.World → r.State → Recorded d.World r.State
  unfolding peek read
  opus_loop n [] c s w p = ended none w p
  opus_loop n (m ∷ ms) outer s w p = elim m.term [
    | true ↦ ended (some (ok tt)) w p
    | false ↦ opus_loop n ms inner s w p
  ]
  opus_loop n (m ∷ ms) inner s w p =
      let w1 = m.before w in
      elim (leb n (peek d capture b w1)) [
        | true ↦ elim (ltb scratch_size n) [
          | true ↦ ended (some panic) w1 p
          | false ↦
              let (bytes, w2) = read d b n w1 in
              let (o, s1) = enc.encode (convert_to_samples bytes (length bytes)) max_payload s in
              elim o [
                | ok packet ↦ log_packet packet (
                    let (o2, p1) = r.write_all (frame packet) p in
                    elim o2 [
                      | ok u ↦ log_sent (frame packet) (opus_loop n ms inner s1 (m.during w2) p1)
                      | err e ↦ ended (some (err (io e))) (m.during w2) p1
                      | panic ↦ ended (some panic) (m.during w2) p1
                    ])
                | err e ↦ ended (some (err (opus e))) w2 p
                | panic ↦ ended (some panic) w2 p
              ]
        ]
        | false ↦ opus_loop n ms outer s w1 p
      ]

  unfoldable pub handle_opus_record_stream :
      Config → List (Moment d.World) → d.World → r.State → Recorded d.World r.State
  unfolding opus_loop from_u8
  handle_opus_record_stream c ms w p = elim (buffer_duration c) [
    | none ↦ ended (some panic) w p
    | some interval ↦ elim (from_u8 {E = ℕ} c.channels) [
      | ok channels ↦ elim (enc.new c.sample_rate channels) [
        | ok s ↦ opus_loop (buffer_size c) ms outer s w p
        | err e ↦ ended (some (err (opus e))) w p
        | panic ↦ ended (some panic) w p
      ]
      | err e ↦ ended (some panic) w p
      | panic ↦ ended (some panic) w p
    ]
  ]
