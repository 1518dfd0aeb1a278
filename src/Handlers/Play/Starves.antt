-- ===== src/Handlers/Play/Starves.antt =====
-- The raw playback loop over a stream that never has room for a buffer.
use audiowire.Base.{ℕ, ◌<◌, ◌≡◌, refl, false, List, [], ◌∷◌, none, All, lt→not_leb}
use audiowire.Device.{Driver}
use audiowire.Stream.{BaseStream, peek, playback}
use audiowire.Handlers.{Moment}
use audiowire.Handlers.Peers.{Reader}
use audiowire.Handlers.Play.{Played, raw_loop}

-- A loop that still runs, with the peer as it was and nothing written
abbrev pub Starves : {W P : Type 0} → P → Played W P → Type 0
Starves p out = (out.outcome ≡ none) × (out.peer ≡ p) × (out.written ≡ [])

module _ (d : Driver) (r : Reader) (b : BaseStream d.Handle) (n : ℕ) (Full : d.World → Type 0) where
  -- No signal is heard, and what other threads do leaves the stream full.
  pub record Waits (m : Moment d.World) : Type 0 where
    pub quiet : m.term ≡ false
    pub stays : (w : d.World) → Full w → Full (m.before w)

  pub raw_loop-Waits :
      (ms : List (Moment d.World)) (w : d.World) (p : r.State)
      → ((w : d.World) → Full w → peek d playback b w < n)
      → All Waits ms
      → Full w
      → Starves p (raw_loop d r b n ms w p)
  unfolding raw_loop
  raw_loop-Waits [] w p short waits full = (refl, refl, refl)
  raw_loop-Waits (m ∷ ms) w p short (now, waits) full =
      let full' = now.stays w full in
      rw (now.quiet, raw_loop)
        (rw (lt→not_leb _ _ (short (m.before w) full'), raw_loop)
          (raw_loop-Waits ms (m.before w) p short waits full'))
