-- ===== src/Handlers/Play/Packets.antt =====
-- One packet as the Opus playback loop reads it from a byte stream.
use audiowire.Base.{
  ℕ, ◌≤◌, ◌<◌, ◌≡◌, refl, sym, ap, ◌∙◌, arith, List, [], ◌++◌, ok, err, panic, length, take, drop,
  length-append, take-append_at, drop-append_at, lt→ltb,
}
use audiowire.Frame.{frame, from_be_bytes, to_be_bytes, max_payload}
use audiowire.Frame.Laws.{be_bytes_roundtrip}
use audiowire.Handlers.{Error, io}
use audiowire.Handlers.Peers.{Reader, IsStream}
use audiowire.Handlers.Play.{receive}

module _ (r : Reader) (unread : r.State → List ℕ) (stream : IsStream r unread) where
  -- From a byte stream, a read of as many bytes as a known first part has gives that part and leaves the rest.
  pub read_prefix :
      (xs rest : List ℕ) (p : r.State)
      → unread p ≡ xs ++ rest
      → ((r.read_exact (length xs) p).0 ≡ ok xs) × (unread (r.read_exact (length xs) p).1 ≡ rest)
  read_prefix xs rest p e =
      let (bytes, got) =
        stream.enough (length xs) p (omega (arith, ap length e, length-append xs rest)) in
      let (n, order) = stream.exact (length xs) p bytes got in
      let whole = order ∙ e in
      let same : bytes ≡ xs =
        sym (take-append_at (length xs) bytes _ (sym n))
        ∙ ap (take (length xs)) whole
        ∙ take-append_at (length xs) xs rest refl in
      (
        got ∙ ap ok same,
        sym (drop-append_at (length xs) bytes _ (sym n))
            ∙ ap (drop (length xs)) whole
            ∙ drop-append_at (length xs) xs rest refl,
      )

  -- The two reads of `receive`, by what they give.
  receive_reads :
      (head payload : List ℕ) (p : r.State)
      → (r.read_exact 2 p).0 ≡ ok head
      → from_be_bytes head ≤ max_payload
      → (r.read_exact (from_be_bytes head) (r.read_exact 2 p).1).0 ≡ ok payload
      → receive r p ≡ (ok payload, (r.read_exact (from_be_bytes head) (r.read_exact 2 p).1).1)
  unfolding receive
  receive_reads head payload p h fits h2 = ground arith

  -- When the bytes that a byte stream holds start with a frame whose payload fits the buffer, exactly
  -- that payload is received, and the bytes after the frame stay unread.
  pub receive-frame :
      (payload rest : List ℕ) (p : r.State)
      → length payload ≤ max_payload
      → unread p ≡ frame payload ++ rest
      → ((receive r p).0 ≡ ok payload) × (unread (receive r p).1 ≡ rest)
  unfolding to_be_bytes frame
  receive-frame payload rest p fits e =
      let size = length payload in
      let (h, u) = read_prefix (to_be_bytes size) (payload ++ rest) p e in
      let known : from_be_bytes (to_be_bytes size) ≡ size =
        (be_bytes_roundtrip size (omega arith)).0 in
      let (h2, u2) = read_prefix payload rest (r.read_exact 2 p).1 u in
      let both =
        receive_reads (to_be_bytes size) payload p h (omega (arith, known)) (rw known h2) in
      rw both (refl, rw known u2)

  -- When the next two bytes of a byte stream, read as a number, exceed the size of the payload's buffer,
  -- receiving the packet panics, and the bytes after the two stay unread.
  pub receive-panic :
      (head rest : List ℕ) (p : r.State)
      → length head ≡ 2
      → max_payload < from_be_bytes head
      → unread p ≡ head ++ rest
      → ((receive r p).0 ≡ panic) × (unread (receive r p).1 ≡ rest)
  unfolding receive
  receive-panic head rest p two big e =
      let (h, u) = read_prefix head rest p e in
      let h' = rw two at h in
      (ground (arith, h'), rw (h', receive) (rw (lt→ltb _ _ big) (rw two at u)))

  -- At the end of the stream there is no packet to receive.
  pub receive-end : (p : r.State) → unread p ≡ [] → (e : Error) × ((receive r p).0 ≡ err e)
  unfolding receive
  receive-end p u =
      let (e, k) = stream.short 2 p (omega (arith, ap length u)) in (io e, rw (k, receive))
