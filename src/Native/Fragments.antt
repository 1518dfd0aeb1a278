-- ===== src/Native/Fragments.antt =====
-- A recording stream over PulseAudio takes in the fragments that the library holds.
use audiowire.Base.{
  ℕ, zero, suc, ◌+◌, ◌-◌, ◌^◌, ◌<◌, ◌≡◌, refl, ap, ◌∙◌, arith, true, List, [], ◌∷◌, ◌++◌, some,
  length, leb, ltb, if◌then◌else◌, All, inl, inr, lt_or_le, le→leb, lt→not_leb, lt→ltb, le→not_ltb,
}
use audiowire.Config.{AwConfig}
use audiowire.Device.{is_zero}
use audiowire.Ring.{available}
use audiowire.Native.{AwStream}
use audiowire.Native.Pipe.{Carries, push_fifo, available_room, with-Carries}
use audiowire.Native.Pulse.{
  PulseAudio, PulseStream, Fragment, hole, bytes, fragment_size, take_fragment, read_fragments,
}

-- What PulseAudio promises of a stream to record from, while no call fails: it shows its fragments one after another.
pub record Serves (pa : PulseAudio) (fragments : pa.State → List Fragment) : Type 0 where
  pub empty : (w : pa.State) → fragments w ≡ [] → pa.readable_size w ≡ 0
  pub more :
      (w : pa.State) (f : Fragment) (fs : List Fragment)
      → fragments w ≡ f ∷ fs
      → 0 < pa.readable_size w
  pub shows :
      (w : pa.State) (f : Fragment) (fs : List Fragment)
      → fragments w ≡ f ∷ fs
      → (is_zero (pa.peek w).0 ≡ true) × ((pa.peek w).1 ≡ f) × (fragments (pa.peek w).2 ≡ f ∷ fs)
  pub drops :
      (w : pa.State) (f : Fragment) (fs : List Fragment)
      → fragments w ≡ f ∷ fs
      → (is_zero (pa.drop w).0 ≡ true) × (fragments (pa.drop w).1 ≡ fs)

-- The queue after these fragments: each is put behind it whole, or dropped whole if it does not fit.
abbrev pub absorb_one : ℕ → Fragment → List ℕ → List ℕ
absorb_one cap (hole n) items = items
absorb_one cap (bytes xs) items = if leb (length items + length xs) cap then items ++ xs else items

abbrev pub absorb : ℕ → List Fragment → List ℕ → List ℕ
absorb cap [] items = items
absorb cap (f ∷ fs) items = absorb cap fs (absorb_one cap f items)

module _ (k : ℕ) (cfg : AwConfig) (room : ℕ) (pa : PulseAudio)
    (fragments : pa.State → List Fragment) (serves : Serves pa fragments) where
  take_one :
      (f : Fragment) (base : AwStream) (items : List ℕ)
      → Carries k cfg room items base
      → (base' : AwStream) × (take_fragment f base ≡ some base')
        × Carries k cfg room (absorb_one (2 ^ k - 1) f items) base'
  unfolding take_fragment
  take_one (hole n) base items c = (base, refl, c)
  take_one (bytes xs) base items c =
      let a = available_room k cfg room base items c in
      elim (lt_or_le (2 ^ k - 1) (length items + length xs)) [
        | inl over ↦ (
          base,
          rw (lt→not_leb (available base.ringbuf) (length xs) (omega (arith, a))) refl,
          rw (lt→not_leb _ _ over) c,
        )
        | inr fits ↦
            let (rb, pushed, held) = push_fifo k cfg room base items xs c fits in
            (
              record base { ringbuf = rb },
              rw (le→leb (length xs) (available base.ringbuf) (omega (arith, a))) (rw pushed refl),
              rw (le→leb _ _ fits) (with-Carries k cfg room base rb items _ c held),
            )
      ]

  -- One round
  read_step :
      (fuel : ℕ) (s : PulseStream pa) (base' : AwStream) (f : Fragment) (fs : List Fragment)
      → fragments s.server ≡ f ∷ fs
      → 0 < fragment_size f
      → take_fragment f s.base ≡ some base'
      → read_fragments pa (suc fuel) s
        ≡ read_fragments pa fuel
            (record s { base = base'; server = (pa.drop (pa.peek s.server).2).1 })
  unfolding read_fragments
  read_step fuel s base' f fs e full taken =
      let (ok1, same, kept) = serves.shows s.server f fs e in
      let (ok2, rest) = serves.drops _ f fs kept in
      let shown : ltb 0 (fragment_size (pa.peek s.server).1) ≡ true =
        ap (λ g. ltb 0 (fragment_size g)) same ∙ lt→ltb _ _ full in
      let taken' : take_fragment (pa.peek s.server).1 s.base ≡ some base' =
        ap (λ g. take_fragment g s.base) same ∙ taken in
      rw (lt→ltb _ _ (serves.more s.server f fs e), read_fragments)
        (rw (ok1, read_fragments)
          (rw (shown, read_fragments) (rw (taken', read_fragments) (rw ok2 refl))))

  -- When PulseAudio holds fragments that are not empty, and no call fails, the callback takes them all from it and ends
  -- within one round for each and one more; each is put behind the ring's queue whole if it fits, and is dropped whole if
  -- not or if it is a hole, and no error is reported.
  pub read_fragments-absorb :
      (fs : List Fragment) (fuel : ℕ) (s : PulseStream pa) (items : List ℕ)
      → Carries k cfg room items s.base
      → fragments s.server ≡ fs
      → All (λ f. 0 < fragment_size f) fs
      → length fs < fuel
      → (s' : PulseStream pa) × (read_fragments pa fuel s ≡ some s')
        × Carries k cfg room (absorb (2 ^ k - 1) fs items) s'.base
        × (fragments s'.server ≡ [])
        × (s'.reported ≡ s.reported)
        × (s'.listens ≡ s.listens)
  unfolding read_fragments
  read_fragments-absorb fs zero s items c e full enough = absurd (omega arith)
  read_fragments-absorb [] (suc fuel) s items c e full enough = (
    s,
    rw
        (
          le→not_ltb 0 (pa.readable_size s.server) (omega (arith, serves.empty s.server e)),
          read_fragments,
        )
        refl,
    c,
    e,
    refl,
    refl,
  )
  read_fragments-absorb (f ∷ fs) (suc fuel) s items c e (one, full) enough =
      let (base', taken, c') = take_one f s.base items c in
      let (ok1, same, kept) = serves.shows s.server f fs e in
      let (ok2, rest) = serves.drops _ f fs kept in
      let (s', run, carries, none_left, reported, listens) =
        read_fragments-absorb fs fuel
          (record s { base = base'; server = (pa.drop (pa.peek s.server).2).1 })
          (absorb_one (2 ^ k - 1) f items) c' rest full (omega arith) in
      (s', read_step fuel s base' f fs e one taken ∙ run, carries, none_left, reported, listens)
