-- ===== src/Tests/Values.antt =====
-- Configurations, flags, samples and retries at concrete values.
use audiowire.Base.{
  ℕ, zero, suc, ◌≤◌, ◌<◌, ◌≡◌, refl, arith, true, false, [], ◌∷◌, some, Outcome, ok, err,
}
use audiowire.Config.{default_config, buffer_size, max_buffer_size, buffer_duration}
use audiowire.Flags.{type_of, is_source, is_sink, flags_of, stream_type, opus_enabled}
use audiowire.Flags.Laws.{flags_roundtrip}
use audiowire.Retry.{with_retry}
use audiowire.Retry.Attempts.{delays, with_retry-ok, with_retry-err, with_retry-total}

default_sizes :
    (buffer_size default_config ≡ 3840)
    × (max_buffer_size default_config ≡ 57600)
    × (buffer_duration default_config ≡ some 20)
unfolding buffer_size max_buffer_size buffer_duration
default_sizes = (refl, refl, refl)

flags_roundtrip_example :
    let f = flags_of (type_of true false) true in
    (is_source (stream_type f) ≡ true)
    × (is_sink (stream_type f) ≡ false)
    × (opus_enabled f ≡ true)
    × (f.value < 8)
flags_roundtrip_example = flags_roundtrip true false true

-- A server that accepts the third attempt, and one that never does
abbrev third : ℕ → Outcome ℕ ℕ
third zero = err 10
third (suc zero) = err 11
third (suc (suc k)) = ok 7

abbrev refusing : ℕ → Outcome ℕ ℕ
refusing k = err k

with_retry-ok_example :
    with_retry third ≡ record { result = some (ok 7); calls = 3; sleeps = delays 0 2 }
with_retry-ok_example = with_retry-ok third 2 7 (omega arith) ((10, refl), ((11, refl), tt)) refl

with_retry-err_example :
    with_retry refusing
    ≡ record { result = some (err 5); calls = 6; sleeps = 3 ∷ 6 ∷ 9 ∷ 12 ∷ 15 ∷ [] }
with_retry-err_example =
    with_retry-err refusing 5 ((0, refl), ((1, refl), ((2, refl), ((3, refl), ((4, refl), tt)))))
      refl

with_retry-total_example :
    ((o : Outcome ℕ ℕ) × ((with_retry refusing).result ≡ some o))
    × ((with_retry refusing).calls ≤ 6)
with_retry-total_example = with_retry-total refusing
