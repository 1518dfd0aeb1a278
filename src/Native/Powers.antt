-- ===== src/Native/Powers.antt =====
-- A stream of libaudiowire whose max_buffer_frames take a power of two of bytes.
use native.Mathlib.Nat.{two-pow-succ, pow-le-pow_right}
use audiowire.Base.{
  ℕ, suc, ◌+◌, ◌-◌, ◌^◌, ◌≤◌, ◌<◌, ◌≡◌, inl, inr, ap, ◌∙◌, arith, Bool, List, [], Option, some,
  String, length, lt_or_le,
}
use audiowire.Config.{AwConfig, native_buffer_size}
use audiowire.Ring.{capacity}
use audiowire.Ring.Create.{CapacityFor}
use audiowire.Native.{AwStream, aw_playback_peek, aw_buffer_capacity}
use audiowire.Native.Fifo.{Event, Effect, AllFit}
use audiowire.Native.Fifo
use audiowire.Native.Events.{lifetime}
use audiowire.Native.Pipe.{available_room}
use audiowire.Native.Lifetime.{lifetime_fifo}

-- A power of two needs no greater one.
pub same_power : (n j k : ℕ) → n ≡ 2 ^ j → CapacityFor n k → 2 ^ k ≡ 2 ^ j
same_power n j k e (lo, hi) = elim (lt_or_le j k) [
  | inl above ↦ absurd (
      omega (
        arith,
        hi,
        e,
        two-pow-succ j,
        pow-le-pow_right {n = 2} (omega arith) {i = suc j} {j = k} (omega (arith, above)),
      ))
  | inr within ↦ omega (arith, lo, e, pow-le-pow_right {n = 2} (omega arith) {i = k} {j = j} within)
]

-- A stream whose max_buffer_frames take 2 ^ j bytes, for a j from 1 to 63, never has room for them: after whatever
-- its room allows its capacity is one byte less, and aw_playback_peek shows one byte less than what the bytes that wait
-- leave of them.
pub lifetime-short :
    (cfg : AwConfig) (devname : Option String) (error_cb : Bool) (es : List Event) (j : ℕ)
    → native_buffer_size cfg cfg.max_buffer_frames ≡ 2 ^ j
    → 0 < j
    → j ≤ 63
    → AllFit cfg (2 ^ j - 1) (2 ^ j) es []
    → let (rs, waiting) = Fifo.events cfg (2 ^ j - 1) es [] in
      (s : AwStream) × (lifetime cfg devname error_cb es ≡ some (rs, s))
      × (suc (aw_buffer_capacity s) ≡ 2 ^ j)
      × (suc (aw_playback_peek s + length waiting) ≡ 2 ^ j)
unfolding aw_buffer_capacity aw_playback_peek capacity
lifetime-short cfg devname error_cb es j size pos le fit =
    let some_room : 2 ^ 1 ≤ 2 ^ j = pow-le-pow_right {n = 2} (omega arith) {i = 1} {j = j} pos in
    let small : 2 ^ j ≤ 2 ^ 63 = pow-le-pow_right {n = 2} (omega arith) {i = j} {j = 63} le in
    let (k, bounds, given) =
      lifetime_fifo cfg devname error_cb es (omega (arith, size, some_room))
        (omega (arith, size, small)) (λ k c. rw (size, same_power _ j k size c) fit) in
    let (s, run, carries) = given in
    let same : 2 ^ k ≡ 2 ^ j = same_power _ j k size bounds in
    let v = carries.ring.valid in
    let n = native_buffer_size cfg cfg.max_buffer_frames in
    let events : (p : ℕ) → List Effect × List ℕ = λ p. Fifo.events cfg (p - 1) es [] in
    (
      s,
      run ∙ ap (λ p. some ((events p).0, s)) same,
      omega (arith, v.ones, v.power, same, some_room),
      omega (
        arith,
        available_room k cfg n s _ carries,
        ap (λ p. length (events p).1) same,
        same,
        some_room,
      ),
    )
