-- ===== src/Peer/Copy.antt =====
-- `clone_from_slice` on the ranges that `read_exact` uses, and the steps that its first part and its loop take.
use audiowire.Base.{
  ℕ, ◌+◌, ◌-◌, ◌*◌, ◌≤◌, ◌<◌, ◌≡◌, ◌≢◌, arith, List, ◌++◌, none, some, ok, panic, length, take,
  drop, append-nil, length-take, drop-of_length_le,
}
use audiowire.Peer.{Progress, take_leftover, round}

module _ (p : Progress) (src : List ℕ) (room : p.off ≤ length p.buf) where
  open p use {buf, off}

  -- A datagram of just the length that is wanted ends the loop.
  pub round_same :
      off + length src ≡ length buf
      → round src p ≡ ok (record p { buf = take off buf ++ src; off = length buf })
  unfolding round
  round_same e = ground (arith, drop-of_length_le (length buf) buf, append-nil src)

  -- A longer one ends the loop too, and leaves its rest over.
  pub round_more :
      length buf < off + length src
      → round src p
        ≡ ok (record {
          buf = take off buf ++ take (length buf - off) src;
          leftover = some (drop (length buf - off) src);
          off = length buf;
        })
  unfolding round
  round_more e = ground (
    arith,
    drop-of_length_le (length buf) buf,
    append-nil (take (length buf - off) src),
    length-take (length buf - off) src,
  )

  -- A shorter one panics unless it is exactly half of what is wanted.
  pub round_less :
      off + length src < length buf → off + 2 * length src ≢ length buf → round src p ≡ panic
  unfolding round
  round_less e ne = ground arith

  pub round_half :
      off + length src < length buf
      → off + 2 * length src ≡ length buf
      → round src p
        ≡ ok (record p {
          buf = take off buf ++ (src ++ drop (off + length src) buf);
          off = off + length src;
        })
  unfolding round
  round_half e h = ground arith

-- The first part of `read_exact`, for what an earlier datagram left over.
module _ (src buf : List ℕ) where
  pub take_leftover_same :
      length buf ≡ length src
      → take_leftover (some src) buf ≡ ok (record { buf = src; leftover = none; off = length buf })
  unfolding take_leftover
  take_leftover_same e = ground (arith, drop-of_length_le (length buf) buf, append-nil src)

  pub take_leftover_more :
      length buf < length src
      → take_leftover (some src) buf
        ≡ ok (record {
          buf = take (length buf) src;
          leftover = some (drop (length buf) src);
          off = length buf;
        })
  unfolding take_leftover
  take_leftover_more h = ground (
    arith,
    drop-of_length_le (length buf) buf,
    append-nil (take (length buf) src),
    length-take (length buf) src,
  )

  -- The offset is what is still wanted, not what was copied.
  pub take_leftover_less :
      length src < length buf
      → take_leftover (some src) buf
        ≡ ok (record {
          buf = src ++ drop (length src) buf;
          leftover = none;
          off = length buf - length src;
        })
  unfolding take_leftover
  take_leftover_less h = ground arith
