-- ===== src/Native/Table/Starves.antt =====
-- The raw playback loop over a stream of libaudiowire and PortAudio whose ring is no larger than the loop's buffer.
use mathlib.Core.List.{map}
use audiowire.Base.{
  ℕ, ◌^◌, ◌≤◌, ◌<◌, ◌≡◌, arith, Bool, true, false, List, [], ◌∷◌, Option, none, some, String, ok,
  All,
}
use audiowire.Base.Arrays.{get_or}
use audiowire.Config.{into, native_buffer_size}
use audiowire.Device.{AwResult, is_zero, is_ok}
use audiowire.Ring.Within.{available-Within}
use audiowire.Stream.{BaseStream, StreamBuilder, playback, peek, start_stream}
use audiowire.Stream.Start.{start_stream-eq-ok}
use audiowire.Handlers.Peers.{Reader}
use audiowire.Handlers.Play.{raw_loop}
use audiowire.Handlers.Play.Starves.{Starves, Waits, raw_loop-Waits}
use audiowire.Native.{aw_playback_peek}
use audiowire.Native.PortAudio.{PortAudio}
use audiowire.Native.Backend.{AwPaStream, aw_start_playback}
use audiowire.Native.Table.{Handle, World, started, get_at, native_driver}
use audiowire.Native.Table.Laws.{StartAgrees, start_stream-Agrees}
use audiowire.Native.Table.Uses.{get_or-last}
use audiowire.Native.Table.Runs.{Callback, moment}
use audiowire.Native.Table.Streams.{two}
use audiowire.Native.Table.Sizes.{Small, Full, Makes, run_callbacks-Full, start_stream-Makes}

module _ (pa : PortAudio) (to_text : List ℕ → String) (j : ℕ) (pos : 0 < j) where
  room-Small :
      (n : ℕ) (o : Option (AwPaStream pa))
      → 2 ^ j ≤ n
      → Small pa to_text j pos o
      → let room : ℕ = elim o [ none ↦ 0 | some s ↦ aw_playback_peek s.base ] in room < n
  unfolding aw_playback_peek
  room-Small n none large h = omega (arith, large, two j pos)
  room-Small n (some s) large h = omega (arith, large, available-Within j s.base.ringbuf h)

  peek-Full :
      (n : ℕ) (h : Handle) (w : World pa)
      → 2 ^ j ≤ n
      → Full pa to_text j pos h w
      → get_at pa h w 0 aw_playback_peek < n
  peek-Full n none w large full = omega (arith, large, two j pos)
  peek-Full n (some i) w large full = room-Small n (get_or w.streams i none) large full

  -- Moments in which no signal is heard, and the device calls back
  moments-Waits :
      (r : Reader) (b : BaseStream Handle) (n : ℕ)
      (ms : List (Bool × List Callback × List Callback))
      → All (λ m. m.0 ≡ false) ms
      → All
          (Waits (native_driver pa to_text) r b n (Full pa to_text j pos b.handle))
          (map (moment pa to_text) ms)
  moments-Waits r b n [] quiet = tt
  moments-Waits r b n ((t, before, during) ∷ ms) (q, quiet) = (
    record { quiet = q; stays = λ w. run_callbacks-Full pa to_text j pos before b.handle w },
    moments-Waits r b n ms quiet,
  )

  started-Full :
      (w : World pa) (o : Option (AwResult × Option (AwPaStream pa) × pa.State))
      → StartAgrees pa o
      → is_zero (started pa w o).0.code ≡ true
      → Makes pa to_text j pos o
      → Full pa to_text j pos (started pa w o).1 (started pa w o).2
  started-Full w none a good h = tt
  started-Full w (some (r, none, state)) a good h = tt
  started-Full w (some (r, some s, state)) a good h = rw (get_or-last w.streams s) h

  begun-Full :
      (builder : StreamBuilder) (name : List ℕ) (dev : Option (List ℕ)) (w0 w : World pa)
      (b : BaseStream Handle)
      → let cfg = into builder.config in
        native_buffer_size cfg cfg.max_buffer_frames ≡ 2 ^ j
        → j ≤ 63
        → start_stream (native_driver pa to_text) builder playback name dev w0 ≡ (ok b, w)
        → Full pa to_text j pos b.handle w
  unfolding is_ok aw_start_playback
  begun-Full builder name dev w0 w b size le e =
      let (_, _, good, same, h, _, _) =
        start_stream-eq-ok (native_driver pa to_text) builder playback name dev w0 w b e in
      let cfg = into builder.config in
      rw (h, same)
        (started-Full w0 _ (start_stream-Agrees pa to_text dev cfg false builder.error_cb w0.state)
          good
          (start_stream-Makes pa to_text j pos dev cfg false builder.error_cb w0.state size le))

  -- When a playback stream is started over PortAudio whose max_buffer_frames take 2 ^ j bytes, for a j from 1 to 63, and the
  -- raw playback loop's buffer has at least as many, the loop takes nothing from its peer, writes nothing, and does not end
  -- as long as no signal is heard, however many moments it runs for, whatever PortAudio answers, and whatever calls its
  -- threads make back meanwhile.
  pub raw_loop-Starves :
      (r : Reader) (builder : StreamBuilder) (name : List ℕ) (dev : Option (List ℕ))
      (w0 w : World pa) (b : BaseStream Handle) (n : ℕ)
      (ms : List (Bool × List Callback × List Callback)) (p : r.State)
      → let cfg = into builder.config in
        native_buffer_size cfg cfg.max_buffer_frames ≡ 2 ^ j
        → j ≤ 63
        → 2 ^ j ≤ n
        → start_stream (native_driver pa to_text) builder playback name dev w0 ≡ (ok b, w)
        → All (λ m. m.0 ≡ false) ms
        → Starves p (raw_loop (native_driver pa to_text) r b n (map (moment pa to_text) ms) w p)
  unfolding peek
  raw_loop-Starves r builder name dev w0 w b n ms p size le large begun quiet =
      raw_loop-Waits (native_driver pa to_text) r b n (Full pa to_text j pos b.handle)
        (map (moment pa to_text) ms) w p (λ w'. peek-Full n b.handle w' large)
        (moments-Waits r b n ms quiet) (begun-Full builder name dev w0 w b size le begun)
