-- ===== src/Native/Search.antt =====
-- The search of libaudiowire/src/portaudio.c for a device.
use audiowire.Base.{
  ℕ, zero, suc, ◌+◌, ◌≤◌, ◌<◌, ◌≡◌, inl, inr, refl, ap, ◌∙◌, arith, Bool, true, false, List, Option,
  none, some, lt_or_le,
}
use audiowire.Config.{AwConfig}
use audiowire.Native.PortAudio.{PortAudio, DeviceInfo}
use audiowire.Native.Devices.{device_is_valid, find_device, found_or}

module _ (pa : PortAudio) where
  -- The device of an index is there, and valid or not.
  abbrev pub Valid : AwConfig → Option (List ℕ) → Bool → pa.State → Bool → ℕ → Type 0
  Valid cfg devname is_input w valid idx =
      (info : DeviceInfo) × (pa.get_device_info (some idx) w ≡ some info)
      × (device_is_valid cfg (some info) devname is_input ≡ some valid)

  -- What the search from `idx` on over `left` devices gives: the first valid one, or none if none is valid.
  abbrev pub First :
      AwConfig → Option (List ℕ) → Bool → pa.State → ℕ → ℕ → Option (ℕ × DeviceInfo) → Type 0
  First cfg devname is_input w left idx (some (device, info)) =
      (idx ≤ device)
      × (device < idx + left)
      × (pa.get_device_info (some device) w ≡ some info)
      × (device_is_valid cfg (some info) devname is_input ≡ some true)
      × ((i : ℕ) → idx ≤ i → i < device → Valid cfg devname is_input w false i)
  First cfg devname is_input w left idx none =
      (i : ℕ) → idx ≤ i → i < idx + left → Valid cfg devname is_input w false i

  module _ (cfg : AwConfig) (devname : Option (List ℕ)) (is_input : Bool) (w : pa.State) where
    First-step :
        (left idx : ℕ) (r : Option (ℕ × DeviceInfo))
        → Valid cfg devname is_input w false idx
        → First cfg devname is_input w left (suc idx) r
        → First cfg devname is_input w (suc left) idx r
    First-step left idx none bad rest = λ i lo hi. elim (lt_or_le idx i) [
      | inl p ↦ rest i p (omega arith)
      | inr p ↦ let e : i ≡ idx = omega arith in rw e bad
    ]
    First-step left idx (some (device, info)) bad (lo, hi, got, good, before) = (
      omega arith,
      omega arith,
      got,
      good,
      λ i lo' hi'. elim (lt_or_le idx i) [
        | inl p ↦ before i p hi'
        | inr p ↦ let e : i ≡ idx = omega arith in rw e bad
      ],
    )

    abbrev Finds : ℕ → ℕ → Type 0
    Finds left idx =
        (r : Option (ℕ × DeviceInfo)) × (find_device pa cfg devname is_input left idx w ≡ some r)
        × First cfg devname is_input w left idx r

    Finds-step :
        (left idx : ℕ) (info : DeviceInfo) (valid : Bool)
        → pa.get_device_info (some idx) w ≡ some info
        → device_is_valid cfg (some info) devname is_input ≡ some valid
        → Finds left (suc idx)
        → Finds (suc left) idx
    unfolding find_device
    Finds-step left idx info true e k rest = (
      some (idx, info),
      rw (e, find_device)
          (ap
            (λ v. found_or pa v (idx, info) (find_device pa cfg devname is_input left (suc idx) w))
            k),
      (omega arith, omega arith, e, k, λ i lo hi. absurd (omega arith)),
    )
    Finds-step left idx info false e k (r, run, first) = (
      r,
      rw (e, find_device)
          (ap
              (λ v.
                found_or pa v (idx, info) (find_device pa cfg devname is_input left (suc idx) w))
              k
            ∙ run),
      First-step left idx r (info, e, k) first,
    )

    valid_total :
        (info : DeviceInfo)
        → (valid : Bool) × (device_is_valid cfg (some info) devname is_input ≡ some valid)
    unfolding device_is_valid
    valid_total info = (_, refl)

    -- Where PortAudio describes the devices from an index on, the search over them gives the first whose channels and
    -- name fit, and none exactly if none of them does.
    pub find_device-First :
        (left idx : ℕ)
        → ((i : ℕ)
            → i < idx + left
            → (info : DeviceInfo) × (pa.get_device_info (some i) w ≡ some info))
        → Finds left idx
    unfolding find_device
    find_device-First zero idx there = (none, refl, λ i lo hi. absurd (omega arith))
    find_device-First (suc left) idx there =
        let (info, e) = there idx (omega arith) in
        let (valid, k) = valid_total info in
        Finds-step left idx info valid e k
          (find_device-First left (suc idx) (λ i hi. there i (omega arith)))
