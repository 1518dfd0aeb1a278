-- ===== src/Ring/Threads/Moves.antt =====
-- What two threads over the ring of libaudiowire/src/ringbuf.c rely on between their steps.
use audiowire.Base.{
  ℕ, ◌+◌, ◌-◌, ◌^◌, ◌≤◌, ◌<◌, ◌≡◌, sym, ap, ◌∙◌, arith, List, [], ◌∷◌, ◌++◌, append-nil,
  append_assoc, length, take, drop, take-append_le,
}
use audiowire.Ring.{Ring, remaining}
use audiowire.Ring.Window.{window, length-window}
use audiowire.Ring.Loops.{IsValid}
use audiowire.Ring.Holds.{contents}
use audiowire.Ring.Threads.{
  Phase, testing, acting, Producer, resting, calls, compares, writing, copied, Consumer, skips,
  reading, Piece, taken, skipped, Threads,
}

abbrev pub Room : Phase → Type 0 → Type 0
Room testing P = Unit
Room acting P = P

abbrev pub ProducerOk : Ring → Producer → Type 0
ProducerOk rb resting = Unit
ProducerOk rb (calls phase buf) =
    (length buf < rb.mask) × Room phase (length buf + remaining rb < rb.capacity)
ProducerOk rb (compares phase buf h) =
    (length buf < rb.mask)
    × Room phase (length buf + remaining rb < rb.capacity)
    × (h ≤ rb.tail → rb.head ≤ rb.tail)
ProducerOk rb (writing buf offset) = length buf - offset + remaining rb < rb.capacity
ProducerOk rb (copied buf offset len) =
    (offset + len ≤ length buf)
    × (length buf - offset + remaining rb < rb.capacity)
    × (window rb.capacity rb.bytes rb.tail len ≡ take len (drop offset buf))

abbrev pub ConsumerOk : ℕ → Ring → Consumer → Type 0
ConsumerOk max_bufsize rb resting = Unit
ConsumerOk max_bufsize rb (calls phase n) = (n ≤ max_bufsize) × Room phase (n ≤ remaining rb)
ConsumerOk max_bufsize rb (compares phase n t) =
    (n ≤ max_bufsize) × Room phase (n ≤ remaining rb) × (t < rb.head → rb.tail < rb.head)
ConsumerOk max_bufsize rb (skips n r) = (n ≤ max_bufsize) × (n ≤ r) × (r ≤ remaining rb)
ConsumerOk max_bufsize rb (reading n offset) = n - offset ≤ remaining rb
ConsumerOk max_bufsize rb (copied n offset block) =
    (offset < n)
    × (n - offset ≤ remaining rb)
    × (length block ≤ n - offset)
    × (block ≡ take (length block) (contents rb))

-- The bytes that the consumer has moved the head past
abbrev pub piece_bytes : Piece → List ℕ
piece_bytes (taken block) = block
piece_bytes (skipped block) = block

abbrev pub passed_bytes : List Piece → List ℕ
passed_bytes [] = []
passed_bytes (p ∷ ps) = piece_bytes p ++ passed_bytes ps

pub passed_bytes-snoc :
    (ps : List Piece) (p : Piece) → passed_bytes (ps ++ (p ∷ [])) ≡ passed_bytes ps ++ piece_bytes p
passed_bytes-snoc [] p = append-nil (piece_bytes p)
passed_bytes-snoc (q ∷ ps) p =
    ap (λ l. piece_bytes q ++ l) (passed_bytes-snoc ps p)
    ∙ sym (append_assoc (piece_bytes q) (passed_bytes ps) (piece_bytes p))

-- What was pushed has been passed or is in the ring, and a push has overwritten nothing.
pub record Flow (k : ℕ) (s : Threads) : Type 0 where
  pub valid : IsValid k s.ring
  pub sized : s.ring.capacity ≤ 2 ^ 64
  pub in_order : s.pushed ≡ passed_bytes s.passed ++ contents s.ring
  pub kept : s.overwritten ≡ []

pub record Invariant (k max_bufsize : ℕ) (s : Threads) : Type 0 where
  pub flow : Flow k s
  pub producer_ok : ProducerOk s.ring s.producer
  pub consumer_ok : ConsumerOk max_bufsize s.ring s.consumer

room : (phase : Phase) (P Q : Type 0) → (P → Q) → Room phase P → Room phase Q
room testing P Q f r = tt
room acting P Q f r = f r

pub ProducerOk-head :
    (rb : Ring) (h' : ℕ) (p : Producer)
    → remaining (record rb { head = h' }) ≤ remaining rb
    → (rb.head ≤ rb.tail → h' ≤ rb.tail)
    → ProducerOk rb p
    → ProducerOk (record rb { head = h' }) p
ProducerOk-head rb h' resting le around ok = tt
ProducerOk-head rb h' (calls phase buf) le around (small, r) =
    (small, room phase _ _ (λ x. omega arith) r)
ProducerOk-head rb h' (compares phase buf h) le around (small, r, seen) =
    (small, room phase _ _ (λ x. omega arith) r, λ x. around (seen x))
ProducerOk-head rb h' (writing buf offset) le around ok = omega arith
ProducerOk-head rb h' (copied buf offset len) le around (inside, ok, same) =
    (inside, omega arith, same)

take-contents :
    (rb : Ring) (m : ℕ) (xs extra : List ℕ)
    → m ≤ remaining rb
    → xs ≡ contents rb ++ extra
    → take m xs ≡ take m (contents rb)
take-contents rb m xs extra le e = rw e (
    take-append_le m (contents rb) extra
      (omega (arith, length-window rb.capacity rb.bytes rb.head (remaining rb))))

pub ConsumerOk-tail :
    (max_bufsize : ℕ) (rb rb' : Ring) (extra : List ℕ) (c : Consumer)
    → rb.head ≡ rb'.head
    → remaining rb ≤ remaining rb'
    → (rb.tail < rb.head → rb'.tail < rb'.head)
    → contents rb' ≡ contents rb ++ extra
    → ConsumerOk max_bufsize rb c
    → ConsumerOk max_bufsize rb' c
ConsumerOk-tail max_bufsize rb rb' extra resting same le around more ok = tt
ConsumerOk-tail max_bufsize rb rb' extra (calls phase n) same le around more (small, r) =
    (small, room phase _ _ (λ x. omega arith) r)
ConsumerOk-tail max_bufsize rb rb' extra (compares phase n t) same le around more (small, r, seen) =
    (small, room phase _ _ (λ x. omega arith) r, λ x. around (seen (omega arith)))
ConsumerOk-tail max_bufsize rb rb' extra (skips n r) same le around more (small, ok, fits) =
    (small, ok, omega arith)
ConsumerOk-tail max_bufsize rb rb' extra (reading n offset) same le around more ok = omega arith
ConsumerOk-tail max_bufsize rb rb' extra (copied n offset block) same le around more (a, b, c, e) =
    (
      a,
      omega arith,
      c,
      e ∙ sym (take-contents rb (length block) (contents rb') extra (omega arith) more),
    )
