-- ===== src/Native/Lifetime.antt =====
-- A stream of libaudiowire from its start on, as a FIFO.
use audiowire.Base.{ℕ, ◌-◌, ◌^◌, ◌≤◌, ◌<◌, refl, List, [], ◌∷◌, Option, Bool, String}
use audiowire.Config.{AwConfig, native_buffer_size}
use audiowire.Ring.Create.{CapacityFor, create-Holds}
use audiowire.Native.{AwStream, aw_stream_base_init}
use audiowire.Native.Fifo.{Event, Effect, Fits, AllFit}
use audiowire.Native.Fifo
use audiowire.Native.Events.{run_events, lifetime}
use audiowire.Native.Pipe.{Carries, Gives, run_event_lem}

module _ (k : ℕ) (cfg : AwConfig) (room : ℕ) where
  run_events_lem :
      (es : List Event) (s : AwStream) (items : List ℕ)
      → Carries k cfg room items s
      → AllFit cfg (2 ^ k - 1) room es items
      → let (rs, rest) = Fifo.events cfg (2 ^ k - 1) es items in
        Gives k cfg room (run_events es s) rs rest
  unfolding run_events
  run_events_lem [] s items c h = (s, refl, c)
  run_events_lem (e ∷ es) s items c (fits, h) =
      let (s', e1, c') = run_event_lem k cfg room e s items c fits in
      let (s'', e2, c'') = run_events_lem es s' (Fifo.event cfg (2 ^ k - 1) e items).1 c' h in
      (s'', rw (e1, run_events) (rw e2 refl), c'')

-- A stream whose max_buffer_frames take 2 to 2 ^ 63 bytes is a FIFO of bytes between the program and the device, as
-- long as no read or callback is for more than those bytes and none comes while more are waiting, and a write fits the
-- ring, whose 2 ^ k bytes are the least power of two that holds them: reads and asking callbacks take the oldest bytes,
-- a callback that gives more than fits leaves the queue as it was, one that asks for more than there is gets silence,
-- and no access is outside a buffer.
pub lifetime_fifo :
    (cfg : AwConfig) (devname : Option String) (error_cb : Bool) (es : List Event)
    → let room = native_buffer_size cfg cfg.max_buffer_frames in
      1 < room
      → room ≤ 2 ^ 63
      → ((k : ℕ) → CapacityFor room k → AllFit cfg (2 ^ k - 1) room es [])
      → (k : ℕ) × CapacityFor room k
        × let (rs, rest) = Fifo.events cfg (2 ^ k - 1) es [] in
          Gives k cfg room (lifetime cfg devname error_cb es) rs rest
unfolding lifetime aw_stream_base_init
lifetime_fifo cfg devname error_cb es h le fit =
    let (k, rb, e, bounds, holds) =
      create-Holds (native_buffer_size cfg cfg.max_buffer_frames) h le in
    let s : AwStream = record {
      ringbuf = rb;
      devname = devname;
      sample_rate = 0;
      max_bufsize = native_buffer_size cfg cfg.max_buffer_frames;
      config = cfg;
      error_cb = error_cb;
    } in
    let new : Carries k cfg (native_buffer_size cfg cfg.max_buffer_frames) [] s = record {
      ring = holds;
      same_config = refl;
      same_room = refl;
    } in
    (k, bounds, rw (e, lifetime) (run_events_lem k cfg _ es s [] new (fit k bounds)))
