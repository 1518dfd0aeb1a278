-- ===== src/Native/Devices.antt =====
-- How libaudiowire/src/portaudio.c chooses a device.
--
-- `none` is a null pointer that is read.
use audiowire.Base.{
  ℕ, zero, suc, Bool, true, false, not, ◌&&◌, ◌||◌, List, [], ◌∷◌, Option, none, some, ltb, ◌==◌,
  if◌then◌else◌,
}
use audiowire.Config.{AwConfig}
use audiowire.Ring.{◌>>=◌}
use audiowire.Native.PortAudio.{PortAudio, DeviceInfo}

-- `strstr`: whether one string has the other as a part
abbrev starts_with : List ℕ → List ℕ → Bool
starts_with s [] = true
starts_with [] (c ∷ t) = false
starts_with (c' ∷ s) (c ∷ t) = c' == c && starts_with s t

abbrev strstr : List ℕ → List ℕ → Bool
strstr [] t = starts_with [] t
strstr (c ∷ s) t = starts_with (c ∷ s) t || strstr s t

abbrev named : Option (List ℕ) → DeviceInfo → Bool
named none info = true
named (some devname) info = strstr info.name devname

-- `device_is_valid`
unfoldable pub device_is_valid : AwConfig → Option DeviceInfo → Option (List ℕ) → Bool → Option Bool
device_is_valid cfg none devname is_input = none
device_is_valid cfg (some info) devname is_input = some (
    if is_input && ltb info.max_input_channels cfg.channels
    then false
    else if not is_input && ltb info.max_output_channels cfg.channels
    then false
    else named devname info)

module _ (pa : PortAudio) where
  open pa use {State}

  abbrev pub default_device : Bool → State → Option ℕ
  default_device true = pa.get_default_input_device
  default_device false = pa.get_default_output_device

  -- The body of the loop over the devices: the `break` with the device that is valid, or the rounds that are left
  abbrev pub found_or :
      Option Bool
      → ℕ × DeviceInfo
      → Option (Option (ℕ × DeviceInfo))
      → Option (Option (ℕ × DeviceInfo))
  found_or none device rest = none
  found_or (some true) device rest = some (some device)
  found_or (some false) device rest = rest

  -- The loop over the devices, from index `idx` on, of which there are `left` more
  unfoldable pub find_device :
      AwConfig → Option (List ℕ) → Bool → ℕ → ℕ → State → Option (Option (ℕ × DeviceInfo))
  unfolding device_is_valid
  find_device cfg devname is_input zero idx w = some none
  find_device cfg devname is_input (suc left) idx w =
      let rest = find_device cfg devname is_input left (suc idx) w in
      elim (pa.get_device_info (some idx) w) [
        | none ↦ none
        | some info ↦ found_or (device_is_valid cfg (some info) devname is_input) (idx, info) rest
      ]

  -- The choice of a device: the default one if it is valid, or else the first one that is
  unfoldable pub choose_device :
      AwConfig → Option (List ℕ) → Bool → State → Option (Option (ℕ × DeviceInfo))
  unfolding device_is_valid find_device
  choose_device cfg devname is_input w = elim (default_device is_input w) [
    | none ↦ (do
      valid ← device_is_valid cfg (pa.get_device_info none w) devname is_input
      if valid then some none else find_device cfg devname is_input (pa.get_device_count w) 0 w)
    | some device ↦ elim (pa.get_device_info (some device) w) [
      | none ↦ none
      | some info ↦ (do
        valid ← device_is_valid cfg (some info) devname is_input
        if valid
            then some (some (device, info))
            else find_device cfg devname is_input (pa.get_device_count w) 0 w)
    ]
  ]
