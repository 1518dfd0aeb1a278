-- ===== src/Tests/Links.antt =====
-- The tasks at concrete moments: a machine with seven captured bytes and buffers of two bytes.
use audiowire.Base.{
  ℕ, ◌≤◌, ◌≡◌, refl, arith, true, false, List, [], ◌∷◌, ◌++◌, flatten, length, inl, inr,
  length-drop,
}
use audiowire.Config.{default_config, buffer_size}
use audiowire.Frame.{frame, convert_to_samples, from_be_bytes}
use audiowire.Opus.{stereo, from_u8}
use audiowire.Stream.{peek, read}
use audiowire.Handlers.{Moment}
use audiowire.Handlers.Play
use audiowire.Handlers.Play.{receive}
use audiowire.Handlers.Record
use audiowire.Handlers.Record.{inner, outer}
use audiowire.Handlers.Record.Packets.{OnWire, opus_loop-OnWire}
use audiowire.Handlers.Record.Stops.{Ending, Ends, opus_loop-Ends}
use audiowire.Handlers.Link
use audiowire.Handlers.Link.{opus_link, opus_link_complete}
use audiowire.Handlers.Task.{playback_task}
use audiowire.Handlers.Task.Ends.{raw_task-stops, stopped_by, opus_task-leaks}
use audiowire.Tests.Toys.{
  Machine, working, machine, stream, quiet, signal, socket, all_bytes, socket-IsStream, socket_calm,
  sink, decoder, encoder, encoder-EncodesWithin,
}

abbrev all_captured : List ℕ
all_captured = 1 ∷ 2 ∷ 3 ∷ []

abbrev moments : List (Moment Machine)
moments = quiet ∷ quiet ∷ quiet ∷ quiet ∷ []

-- What the raw record loop sends of the seven bytes in buffers of two, and the Opus loop as packets
abbrev raw_sent : List (List ℕ)
raw_sent = (1 ∷ 2 ∷ []) ∷ (3 ∷ 4 ∷ []) ∷ (5 ∷ 6 ∷ []) ∷ []

raw_sends : (Record.raw_loop working sink stream 2 moments outer machine []).sent ≡ raw_sent
unfolding Record.raw_loop
raw_sends = refl

abbrev opus_sent : List (List ℕ)
opus_sent = (0 ∷ 1 ∷ 513 ∷ []) ∷ (0 ∷ 1 ∷ 1027 ∷ []) ∷ (0 ∷ 1 ∷ 1541 ∷ []) ∷ []

opus_sends :
    (Record.opus_loop working sink encoder stream 2 moments outer tt machine []).sent ≡ opus_sent
unfolding Record.opus_loop convert_to_samples frame
opus_sends = refl

abbrev played_packets : List (List ℕ)
played_packets =
    (Play.opus_loop working socket decoder stream 1 moments tt machine (flatten opus_sent)).packets

abbrev recorded_packets : List (List ℕ)
recorded_packets =
    (Record.opus_loop working sink encoder stream 2 moments outer tt machine []).packets

opus_link_example : (rest : List (List ℕ)) × (played_packets ++ rest ≡ recorded_packets)
unfolding Record.opus_loop convert_to_samples frame
opus_link_example =
    opus_link working working sink socket all_bytes socket-IsStream stream stream moments moments
      machine machine [] (flatten opus_sent) 2 outer encoder decoder 1 tt tt encoder-EncodesWithin
      refl

opus_link_complete_example :
    (lost : List (List ℕ)) × (played_packets ++ lost ≡ recorded_packets) × (length lost ≤ 1)
unfolding Record.opus_loop convert_to_samples frame
opus_link_complete_example =
    opus_link_complete working working sink socket all_bytes socket-IsStream stream stream moments
      moments machine machine [] (flatten opus_sent) 2 outer encoder decoder 1 tt tt
      encoder-EncodesWithin refl (refl, (refl, (refl, (refl, tt)))) (λ x s. (1, refl)) (omega arith)

opus_loop-OnWire_example :
    OnWire (Record.opus_loop working sink encoder stream 2 moments outer tt machine [])
opus_loop-OnWire_example =
    opus_loop-OnWire working sink encoder stream 2 encoder-EncodesWithin moments outer tt machine []

raw_task-stops_example :
    playback_task working stream default_config false
      (quiet ∷ signal ∷ [])
      machine
      socket
      decoder
      []
    ≡ stopped_by working socket stream (
        working.aw_stop stream.handle
          (Play.raw_loop working socket stream
            (buffer_size default_config)
            (quiet ∷ signal ∷ [])
            machine
            []).world)
unfolding buffer_size
raw_task-stops_example =
    raw_task-stops working socket stream decoder default_config (quiet ∷ signal ∷ []) machine []
      refl (omega arith) socket_calm (inr (inl refl))

opus_task-leaks_example :
    playback_task working stream default_config true moments machine socket decoder
      (31 ∷ 255 ∷ 1 ∷ [])
    ≡ (stream, machine)
unfolding from_be_bytes from_u8
opus_task-leaks_example =
    opus_task-leaks working socket stream decoder tt stereo default_config quiet
      (quiet ∷ quiet ∷ quiet ∷ []) machine (31 ∷ 255 ∷ 1 ∷ []) all_bytes (31 ∷ 255 ∷ []) (1 ∷ [])
      socket-IsStream refl refl refl refl (omega arith) refl

-- The signal has come, and the seven bytes are read in buffers of two.
abbrev signals : List (Moment Machine)
signals = signal ∷ signal ∷ signal ∷ signal ∷ signal ∷ signal ∷ signal ∷ signal ∷ signal ∷ []

abbrev waiting : Machine → ℕ
waiting w = length w.captured

signal-Ending : Ending working sink stream 2 waiting signal
unfolding peek read
signal-Ending = (refl, λ w h. ground (arith, length-drop 2 w.captured))

opus_loop-Ends_example :
    Ends working sink stream 2 waiting
      (Record.opus_loop working sink encoder stream 2 signals inner tt machine [])
opus_loop-Ends_example =
    opus_loop-Ends working sink stream 2 waiting encoder signals inner tt machine []
      (let e = signal-Ending in (e, (e, (e, (e, (e, (e, (e, (e, (e, tt)))))))))) (omega arith)
