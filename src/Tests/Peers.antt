-- ===== src/Tests/Peers.antt =====
-- The UDP peer at concrete datagrams.
use audiowire.Base.{
  ℕ, ◌≡◌, ◌≢◌, refl, arith, List, [], ◌∷◌, ◌++◌, none, some, ok, panic, length, flatten,
}
use audiowire.Peer.{UdpPeerReadHalf, read_exact, unread}
use audiowire.Peer.Rounds.{Delivers}
use audiowire.Peer.Exact.{read_exact-Delivers, read_exact_within}
use audiowire.Peer.Split.{read_exact_short_panics, read_exact_short_leftover}

-- Two datagrams, and one of which two bytes are left
abbrev two_datagrams : UdpPeerReadHalf
two_datagrams = record { backlog = (1 ∷ 2 ∷ 3 ∷ []) ∷ (4 ∷ 5 ∷ 6 ∷ []) ∷ []; leftover = none }

abbrev two_left : UdpPeerReadHalf
two_left = record { backlog = (6 ∷ 7 ∷ []) ∷ []; leftover = some (4 ∷ 5 ∷ []) }

abbrev zeros : List ℕ
zeros = 0 ∷ 0 ∷ 0 ∷ 0 ∷ 0 ∷ 0 ∷ []

-- Six bytes from two datagrams of three, the only way to join two
six_bytes : read_exact two_datagrams zeros ≡ record {
  outcome = ok tt;
  buf = 1 ∷ 2 ∷ 3 ∷ 4 ∷ 5 ∷ 6 ∷ [];
  half = record { backlog = []; leftover = none };
}
unfolding read_exact
six_bytes = refl

-- Five bytes, where 4, 5 and 6 should come first
five_bytes : (read_exact two_left (0 ∷ 0 ∷ 0 ∷ 0 ∷ 0 ∷ [])).buf ≡ 4 ∷ 5 ∷ 0 ∷ 6 ∷ 7 ∷ []
unfolding read_exact
five_bytes = refl

read_exact-Delivers_example :
    Delivers 6 (1 ∷ 2 ∷ 3 ∷ 4 ∷ 5 ∷ 6 ∷ []) (read_exact two_datagrams zeros)
unfolding read_exact flatten
read_exact-Delivers_example = read_exact-Delivers two_datagrams zeros refl refl

read_exact_within_example :
    ((read_exact two_left (0 ∷ [])).outcome ≡ ok tt)
    × Delivers 1 (unread two_left) (read_exact two_left (0 ∷ []))
read_exact_within_example = read_exact_within two_left (0 ∷ []) (omega arith)

read_exact_short_panics_example : (read_exact two_datagrams (0 ∷ 0 ∷ 0 ∷ 0 ∷ [])).outcome ≡ panic
read_exact_short_panics_example =
    read_exact_short_panics (1 ∷ 2 ∷ 3 ∷ []) ((4 ∷ 5 ∷ 6 ∷ []) ∷ []) (0 ∷ 0 ∷ 0 ∷ 0 ∷ [])
      (omega arith) (omega arith)

read_exact_short_leftover_example :
    let r = read_exact two_left (0 ∷ 0 ∷ 0 ∷ 0 ∷ 0 ∷ []) in
    (r.outcome ≡ ok tt) × (length r.buf ≡ 5) × (r.buf ++ unread r.half ≢ unread two_left)
read_exact_short_leftover_example =
    read_exact_short_leftover (4 ∷ 5 ∷ []) (6 ∷ 7 ∷ []) [] (0 ∷ 0 ∷ 0 ∷ 0 ∷ 0 ∷ []) (omega arith)
      (omega arith) refl (omega arith)
