-- ===== src/Peer.antt =====
-- audiowire/src/peer.rs: the UDP peer, which turns datagrams into a byte stream.
pub mod Copy
pub mod Rounds
pub mod Exact
pub mod Split
pub mod Valid
pub mod Udp
use audiowire.Base.{
  ℕ, ◌+◌, ◌-◌, Bool, ◌&&◌, List, [], ◌∷◌, ◌++◌, flatten, Option, none, some, Outcome, ok, err,
  panic, ◌>>=◌, length, take, drop, ltb, leb, ◌==◌, if◌then◌else◌,
}

-- `io::Error`: the two kinds that the program makes, and a code of the system's.
pub data IoError : Type 0 where
  unexpected_eof write_zero : IoError
  os : ℕ → IoError

-- `UdpPeerReadHalf`. The receiver's end of the channel is the list of the datagrams that `recv` still
-- gives, in order; after the last one every sender is dropped and `recv` gives `None`.
pub record UdpPeerReadHalf : Type 0 where
  pub backlog : List (List ℕ)
  pub leftover : Option (List ℕ)

-- `dst[off..end].clone_from_slice(src)`: it panics on a range outside `dst` and on a source of another length.
unfoldable pub clone_from_slice : List ℕ → ℕ → ℕ → List ℕ → Outcome IoError (List ℕ)
clone_from_slice dst off end src =
    if leb off end && leb end (length dst) && (end - off == length src)
    then ok (take off dst ++ (src ++ drop end dst))
    else panic

-- The variables of `read_exact`: the caller's buffer, `self.leftover` and `off`.
pub record Progress : Type 0 where
  pub buf : List ℕ
  pub leftover : Option (List ℕ)
  pub off : ℕ

-- The first part of `read_exact`, before the loop: what an earlier datagram left over.
unfoldable pub take_leftover : Option (List ℕ) → List ℕ → Outcome IoError Progress
unfolding clone_from_slice
take_leftover none buf = ok (record { buf = buf; leftover = none; off = 0 })
take_leftover (some src) buf =
    let buflen = length buf in
    let srclen = length src in
    if buflen == srclen
    then (do
      buf' ← clone_from_slice buf 0 buflen src
      ok (record { buf = buf'; leftover = none; off = buflen }))
    else if ltb buflen srclen
    then (do
      buf' ← clone_from_slice buf 0 buflen (take buflen src)
      ok (record { buf = buf'; leftover = some (drop buflen src); off = buflen }))
    else do
      buf' ← clone_from_slice buf 0 srclen src
      ok (record { buf = buf'; leftover = none; off = buflen - srclen })

-- One round of the loop, with the datagram that `recv` gave.
unfoldable pub round : List ℕ → Progress → Outcome IoError Progress
unfolding clone_from_slice
round src p =
    let buflen = length p.buf in
    let srclen = length src in
    let remaining = buflen - p.off in
    if remaining == srclen
    then (do
      buf' ← clone_from_slice p.buf p.off buflen src
      ok (record p { buf = buf'; off = p.off + srclen }))
    else if ltb srclen remaining
    then (do
      let diff = remaining - srclen
      let end = p.off + diff
      buf' ← clone_from_slice p.buf p.off end src
      ok (record p { buf = buf'; off = p.off + srclen }))
    else do
      buf' ← clone_from_slice p.buf p.off buflen (take remaining src)
      ok (record { buf = buf'; leftover = some (drop remaining src); off = p.off + remaining })

-- What `read_exact` leaves: its outcome, the caller's buffer, and `self`.
pub record ReadResult : Type 0 where
  pub outcome : Outcome IoError Unit
  pub buf : List ℕ
  pub half : UdpPeerReadHalf

abbrev finish : Outcome IoError Unit → List (List ℕ) → Progress → ReadResult
finish o rest p = record {
  outcome = o;
  buf = p.buf;
  half = record { backlog = rest; leftover = p.leftover };
}

-- The loop `while off < buflen`.
unfoldable pub rounds : List (List ℕ) → Progress → ReadResult
unfolding round
rounds [] p =
    if ltb p.off (length p.buf) then finish (err unexpected_eof) [] p else finish (ok tt) [] p
rounds (src ∷ rest) p =
    if ltb p.off (length p.buf)
    then elim (round src p) [
      | ok p' ↦ rounds rest p'
      | err e ↦ finish (err e) rest p
      | panic ↦ finish panic rest p
    ]
    else finish (ok tt) (src ∷ rest) p

-- `UdpPeerReadHalf::read_exact`
unfoldable pub read_exact : UdpPeerReadHalf → List ℕ → ReadResult
unfolding take_leftover rounds
read_exact h buf = elim (take_leftover h.leftover buf) [
  | ok p ↦ rounds h.backlog p
  | err e ↦ record { outcome = err e; buf = buf; half = h }
  | panic ↦ record { outcome = panic; buf = buf; half = h }
]

abbrev pub left : Option (List ℕ) → List ℕ
left none = []
left (some xs) = xs

-- The bytes that the half has not yet handed out.
abbrev pub unread : UdpPeerReadHalf → List ℕ
unread h = left h.leftover ++ flatten h.backlog
