-- ===== src/Handlers/Peers.antt =====
-- audiowire/src/peer.rs: the traits `PeerReadHalf` and `PeerWriteHalf` as the handlers use them.
use audiowire.Base.{ℕ, ◌≤◌, ◌<◌, ◌≡◌, List, ◌++◌, Outcome, ok, err, length}
use audiowire.Peer.{IoError}

-- `PeerReadHalf`: `read_exact n` fills a buffer of `n` bytes.
pub record Reader : Type 1 where
  pub State : Type 0
  pub read_exact : ℕ → State → Outcome IoError (List ℕ) × State

-- `PeerWriteHalf`
pub record Writer : Type 1 where
  pub State : Type 0
  pub write_all : List ℕ → State → Outcome IoError Unit × State

-- What a byte stream such as TCP promises: a read that succeeds gives the next bytes, as many as asked for, and
-- a read succeeds exactly if so many are to come before the end of the stream.
pub record IsStream (r : Reader) (unread : r.State → List ℕ) : Type 0 where
  pub exact :
      (n : ℕ) (s : r.State) (bytes : List ℕ)
      → (r.read_exact n s).0 ≡ ok bytes
      → (length bytes ≡ n) × (bytes ++ unread (r.read_exact n s).1 ≡ unread s)
  pub enough :
      (n : ℕ) (s : r.State)
      → n ≤ length (unread s)
      → (bytes : List ℕ) × ((r.read_exact n s).0 ≡ ok bytes)
  pub short :
      (n : ℕ) (s : r.State) → length (unread s) < n → (e : IoError) × ((r.read_exact n s).0 ≡ err e)
