-- ===== src/Tests/Toys.antt =====
-- Small stand-ins for what the program does not implement: libaudiowire, sockets and the Opus library.
use audiowire.Base.{
  ℕ, ◌+◌, ◌-◌, ◌≡◌, arith, Bool, true, false, List, [], ◌∷◌, ◌++◌, none, some, ok, err, panic,
  length, take, drop, leb, if◌then◌else◌, pos, negsuc, length-take, take-append-drop,
}
use audiowire.Device.{AwResult, Driver}
use audiowire.Opus.{Decoder, Encoder}
use audiowire.Peer.{unexpected_eof}
use audiowire.Stream.{BaseStream}
use audiowire.Handlers.{Moment}
use audiowire.Handlers.Peers.{Reader, Writer, IsStream}
use audiowire.Handlers.Record.Packets.{EncodesWithin}

-- How many streams are open, and the bytes that can be read
pub record Machine : Type 0 where
  pub opened : ℕ
  pub captured : List ℕ

abbrev pub no_error : AwResult
no_error = record { code = pos 0; message = none }

abbrev pub not_found : AwResult
not_found = record { code = negsuc 0; message = some "Device not found" }

-- libaudiowire with one device, which always works if `works`
abbrev pub device : Bool → Driver
device works = record {
  World = Machine;
  Handle = ℕ;
  aw_initialize = λ w. (no_error, w);
  aw_terminate = λ w. (no_error, w);
  aw_start_record =
      λ a w. if works then (no_error, 1, record w { opened = w.opened + 1 }) else (not_found, 0, w);
  aw_start_playback =
      λ a w. if works then (no_error, 2, record w { opened = w.opened + 1 }) else (not_found, 0, w);
  aw_device_name = λ h w. some "toy";
  aw_sample_rate = λ h w. 48000;
  aw_buffer_capacity = λ h w. 65535;
  aw_record_peek = λ h w. length w.captured;
  aw_record_read = λ h n w. (take n w.captured, record w { captured = drop n w.captured });
  aw_playback_peek = λ h w. 65535;
  aw_playback_write = λ h bytes w. (length bytes, w);
  aw_stop = λ h w. if works then (no_error, record w { opened = w.opened - 1 }) else (not_found, w);
}

abbrev pub working : Driver
working = device true

abbrev pub broken : Driver
broken = device false

abbrev pub machine : Machine
machine = record { opened = 0; captured = 1 ∷ 2 ∷ 3 ∷ 4 ∷ 5 ∷ 6 ∷ 7 ∷ [] }

abbrev pub stream : BaseStream ℕ
stream = record { handle = 1; devname = none; running = true }

abbrev pub quiet : Moment Machine
quiet = record { term = false; before = λ w. w; during = λ w. w }

abbrev pub signal : Moment Machine
signal = record { term = true; before = λ w. w; during = λ w. w }

-- A socket whose bytes have all arrived
abbrev pub socket : Reader
socket = record {
  State = List ℕ;
  read_exact =
      λ n s. if leb n (length s) then (ok (take n s), drop n s) else (err unexpected_eof, []);
}

abbrev pub all_bytes : List ℕ → List ℕ
all_bytes s = s

pub socket-IsStream : IsStream socket all_bytes
socket-IsStream = record {
  exact = λ n s bytes h. ground (arith, length-take n s, take-append-drop n s);
  enough = λ n s h. (take n s, ground arith);
  short = λ n s h. (unexpected_eof, ground arith);
}

pub socket_calm : (n : ℕ) (s : List ℕ) → (socket.read_exact n s).0 ≡ panic → ⊥
socket_calm n s h = ground arith

abbrev pub sink : Writer
sink = record { State = List ℕ; write_all = λ bytes s. (ok tt, s ++ bytes) }

-- Codecs that take a sample for a byte, and one frame for each packet
abbrev pub decoder : Decoder
decoder = record {
  State = Unit;
  new = λ rate channels. ok tt;
  decode = λ packet s. (ok 1, packet, s);
}

abbrev pub encoder : Encoder
encoder = record {
  State = Unit;
  new = λ rate channels. ok tt;
  encode = λ samples room s. (ok (take room samples), s);
}

pub encoder-EncodesWithin : EncodesWithin encoder
encoder-EncodesWithin samples room s packet h = ground (arith, length-take room samples)
