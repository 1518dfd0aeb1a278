-- ===== src/Handlers/Play/Raw.antt =====
-- What the raw playback loop writes to its stream.
use audiowire.Base.{
  ℕ, ◌≡◌, refl, ap, ◌∙◌, arith, true, false, List, [], ◌∷◌, ◌++◌, flatten, Outcome, ok, err, panic,
  length, All, append_assoc, leb, Bool-cases, inl, inr,
}
use audiowire.Device.{Driver}
use audiowire.Stream.{BaseStream, peek, playback}
use audiowire.Peer.{IoError}
use audiowire.Handlers.{Moment}
use audiowire.Handlers.Peers.{Reader, IsStream}
use audiowire.Handlers.Play.{Played, raw_loop, log_write}

module _ (d : Driver) (r : Reader) (b : BaseStream d.Handle) (unread : r.State → List ℕ)
    (stream : IsStream r unread) (n : ℕ) where
  -- What holds of everything that the loop has written, from a peer with these bytes to come
  pub record Writes (bytes : List ℕ) (out : Played d.World r.State) : Type 0 where
    pub sizes : All (λ c. length c ≡ n) out.written
    pub rest : List ℕ
    pub in_order : flatten out.written ++ rest ≡ bytes

  one_more :
      (chunk : List ℕ) (bytes : List ℕ) (p1 : List ℕ) (out : Played d.World r.State)
      → length chunk ≡ n
      → chunk ++ p1 ≡ bytes
      → Writes p1 out
      → Writes bytes (log_write chunk out)
  unfolding flatten
  one_more chunk bytes p1 out e order k = record {
    sizes = (e, k.sizes);
    rest = k.rest;
    in_order =
        append_assoc chunk (flatten out.written) k.rest ∙ ap (λ l. chunk ++ l) k.in_order ∙ order;
  }

  nothing : (bytes : List ℕ) (out : Played d.World r.State) → out.written ≡ [] → Writes bytes out
  unfolding flatten
  nothing bytes out e = record { sizes = rw e tt; rest = bytes; in_order = rw e }

  raw_read :
      (m : Moment d.World) (ms : List (Moment d.World)) (w : d.World) (p : r.State)
      (o : Outcome IoError (List ℕ))
      → m.term ≡ false
      → leb n (peek d playback b (m.before w)) ≡ true
      → (r.read_exact n p).0 ≡ o
      → ((w' : d.World) (p' : r.State) → Writes (unread p') (raw_loop d r b n ms w' p'))
      → Writes (unread p) (raw_loop d r b n (m ∷ ms) w p)
  unfolding raw_loop
  raw_read m ms w p (ok bytes) t room e ih =
      let (size, order) = stream.exact n p bytes e in
      rw (t, raw_loop)
        (rw (room, raw_loop) (rw (e, raw_loop) (one_more bytes (unread p) _ _ size order (ih _ _))))
  raw_read m ms w p (err x) t room e ih =
      rw (t, raw_loop) (rw (room, raw_loop) (rw (e, raw_loop) (nothing (unread p) _ refl)))
  raw_read m ms w p panic t room e ih =
      rw (t, raw_loop) (rw (room, raw_loop) (rw (e, raw_loop) (nothing (unread p) _ refl)))

  raw_skip :
      (m : Moment d.World) (ms : List (Moment d.World)) (w : d.World) (p : r.State)
      → m.term ≡ false
      → leb n (peek d playback b (m.before w)) ≡ false
      → raw_loop d r b n (m ∷ ms) w p ≡ raw_loop d r b n ms (m.before w) p
  unfolding raw_loop
  raw_skip m ms w p t full = rw (t, raw_loop) (rw full)

  -- From a byte stream, every buffer that the raw playback loop writes has the size of a buffer, and the
  -- buffers are the first bytes of the peer, in order and without a gap, whatever ends the loop.
  pub raw_loop-Writes :
      (ms : List (Moment d.World)) (w : d.World) (p : r.State)
      → Writes (unread p) (raw_loop d r b n ms w p)
  raw_loop-Writes [] w p = nothing (unread p) (raw_loop d r b n [] w p) (unfold raw_loop in refl)
  raw_loop-Writes (m ∷ ms) w p = elim (Bool-cases m.term) [
    | inl t ↦ nothing (unread p) _ (unfold raw_loop in ground arith)
    | inr t ↦ elim (Bool-cases (leb n (peek d playback b (m.before w)))) [
      | inl room ↦ raw_read m ms w p (r.read_exact n p).0 t room refl (raw_loop-Writes ms)
      | inr full ↦ rw (raw_skip m ms w p t full) (raw_loop-Writes ms (m.before w) p)
    ]
  ]
