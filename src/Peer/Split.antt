-- ===== src/Peer/Split.antt =====
-- `UdpPeerReadHalf::read_exact` when the bytes that it is asked for lie in more than one datagram.
use audiowire.Base.{
  ℕ, ◌-◌, ◌*◌, ◌<◌, ◌≡◌, ◌≢◌, refl, ap, ◌∙◌, arith, List, [], ◌∷◌, ◌++◌, flatten, none, some, ok,
  err, panic, length, take, drop, length-append, length-take, length-drop,
}
use audiowire.Peer.{UdpPeerReadHalf, unexpected_eof, read_exact, unread}
use audiowire.Peer.Copy.{round_same, round_less, take_leftover_less}
use audiowire.Peer.Rounds.{rounds_full, rounds_step, rounds_panic}
use audiowire.Peer.Exact.{read_fresh, read_step}

-- When nothing is left over and the next datagram is shorter than the buffer, `read_exact` panics, unless
-- the datagram has exactly half of the buffer's length.
pub read_exact_short_panics :
    (m : List ℕ) (msgs : List (List ℕ)) (buf : List ℕ)
    → length m < length buf
    → 2 * length m ≢ length buf
    → (read_exact (record { backlog = m ∷ msgs; leftover = none }) buf).outcome ≡ panic
read_exact_short_panics m msgs buf short ne =
    rw (read_fresh (record { backlog = m ∷ msgs; leftover = none }) buf refl) (
      rounds_panic m msgs _ (omega arith)
        (round_less _ m (omega arith) (omega arith) (omega arith)))

module _ (src m : List ℕ) (msgs : List (List ℕ)) (buf : List ℕ) (short : length src < length buf)
    (some_left : 0 < length src) (same : length m ≡ length src) where
  abbrev half : UdpPeerReadHalf
  half = record { backlog = m ∷ msgs; leftover = some src }

  abbrev mixed : List ℕ
  mixed = take (length buf - length src) (src ++ drop (length src) buf) ++ m

  length-filled : length (src ++ drop (length src) buf) ≡ length buf
  length-filled =
      omega (arith, length-append src (drop (length src) buf), length-drop (length src) buf)

  length-mixed : length mixed ≡ length buf
  length-mixed = omega (
    arith,
    length-append (take (length buf - length src) (src ++ drop (length src) buf)) m,
    length-take (length buf - length src) (src ++ drop (length src) buf),
    length-append src (drop (length src) buf),
    length-drop (length src) buf,
  )

  read_short_leftover :
      read_exact half buf
      ≡ record { outcome = ok tt; buf = mixed; half = record { backlog = msgs; leftover = none } }
  read_short_leftover =
      read_step half buf (take_leftover_less src buf short)
      ∙ rounds_step m msgs _ (omega (arith, length-filled))
          (round_same _ m (omega (arith, length-filled)) (omega (arith, length-filled)))
      ∙ rounds_full msgs _ (omega (arith, length-mixed, length-filled))

  -- When an earlier datagram left over bytes, fewer than the next read wants and not half as many, and
  -- the next datagram has as many bytes as were left over, `read_exact` returns `Ok` with a full buffer,
  -- although the buffer and what is then unread are together not the bytes that were unread before.
  pub read_exact_short_leftover :
      2 * length src ≢ length buf
      → let r = read_exact half buf in
        (r.outcome ≡ ok tt) × (length r.buf ≡ length buf) × (r.buf ++ unread r.half ≢ unread half)
  unfolding flatten
  read_exact_short_leftover ne = rw read_short_leftover (
    refl,
    length-mixed,
    λ e. omega (
      arith,
      ap length e,
      length-mixed,
      length-append mixed (flatten msgs),
      length-append src (m ++ flatten msgs),
      length-append m (flatten msgs),
    ),
  )

-- When every datagram has been read and the channel is closed, `read_exact` into a buffer that is not
-- empty returns `UnexpectedEof` and leaves the buffer as it was.
pub read_exact_eof :
    (buf : List ℕ)
    → 0 < length buf
    → let r = read_exact (record { backlog = []; leftover = none }) buf in
      (r.outcome ≡ err unexpected_eof) × (r.buf ≡ buf)
unfolding read_exact
read_exact_eof buf h = ground arith
