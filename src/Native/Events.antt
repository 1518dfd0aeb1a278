-- ===== src/Native/Events.antt =====
-- What happens to a stream of libaudiowire, one event after another.
use audiowire.Base.{List, [], ◌∷◌, Option, some, Bool, String}
use audiowire.Config.{AwConfig}
use audiowire.Ring.{◌>>=◌}
use audiowire.Native.{
  AwStream, aw_stream_base_init, aw_record_read, aw_playback_write, on_stream_read, on_stream_write,
}
use audiowire.Native.Fifo.{Event, Effect, Fits, AllFit}
use audiowire.Native.Fifo

unfoldable pub run_event : Event → AwStream → Option (Effect × AwStream)
unfolding aw_record_read aw_playback_write on_stream_read on_stream_write
run_event (Fifo.reads n) s = do (out, s') ← aw_record_read s n; some (Fifo.got out, s')
run_event (Fifo.writes bytes) s = do (n, s') ← aw_playback_write s bytes; some (Fifo.wrote n, s')
run_event (Fifo.gives input count) s = do
  s' ← on_stream_read s input count
  some (Fifo.captured, s')
run_event (Fifo.asks output count) s = do
  (out, s') ← on_stream_write s output count
  some (Fifo.played out, s')

unfoldable pub run_events : List Event → AwStream → Option (List Effect × AwStream)
unfolding run_event
run_events [] s = some ([], s)
run_events (e ∷ es) s = do (r, s') ← run_event e s; (rs, s'') ← run_events es s'; some (r ∷ rs, s'')

-- A stream from its start, and what happens to it
unfoldable pub lifetime :
    AwConfig → Option String → Bool → List Event → Option (List Effect × AwStream)
unfolding aw_stream_base_init run_events
lifetime cfg devname error_cb es = do s ← aw_stream_base_init cfg devname error_cb; run_events es s
