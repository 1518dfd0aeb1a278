-- ===== src/Session/Start.antt =====
-- The start of audiowire/src/bin/client.rs: `main` and what it reads of the command line and the environment.
use mathlib.Core.Option
use audiowire.Base.{
  ℕ, Bool, false, List, [], ◌∷◌, Option, none, some, Outcome, ok, err, panic, String, ◌==◌,
}
use audiowire.Config.{Config}
use audiowire.Device.{Driver}
use audiowire.Peer.{IoError}
use audiowire.Handlers.{Error}
use audiowire.Session.{Task}
use audiowire.Session.Client.{Joined, Connection, init}

-- `OPUS_DISABLED`: `none` if it is not set or no text
unfoldable pub opus_disabled : Option (List ℕ) → Bool
opus_disabled none = false
opus_disabled (some []) = false
opus_disabled (some (x ∷ [])) = x == 49
opus_disabled (some (x ∷ y ∷ s)) = false

-- What `main` takes from the command line: the address, and then the input before the output
unfoldable pub client_args : List (List ℕ) → Option (List ℕ × Option (List ℕ) × Option (List ℕ))
client_args [] = none
client_args (program ∷ []) = none
client_args (program ∷ addr ∷ []) = some (addr, none, none)
client_args (program ∷ addr ∷ input ∷ []) = some (addr, some input, none)
client_args (program ∷ addr ∷ input ∷ output ∷ rest) = some (addr, some input, some output)

-- `map_err(|e| e.to_string())`
abbrev text_error : (Error → String) → Outcome Error Unit → Outcome String Unit
text_error to_string (ok u) = ok u
text_error to_string (err e) = err (to_string e)
text_error to_string panic = panic

-- `main`, with the configuration of `init`: its error is the text of the session's, by `to_string`
unfoldable pub main :
    (d : Driver)
    → Config
    → (Error → String)
    → List (List ℕ)
    → Option (List ℕ)
    → (List ℕ → ℕ → Outcome IoError Unit)
    → Connection
    → (List (Task d.Handle) → d.World → d.World × List Joined)
    → d.World
    → Option (Outcome String Unit × d.World)
unfolding client_args opus_disabled init
main d c to_string args env connect cn tasks w = elim (client_args args) [
  | none ↦ some (err "Address argument is required", w)
  | some (addr, input, output) ↦
      Option.map (λ r. (text_error to_string r.0, r.1))
        (init d c input output (opus_disabled env) (connect addr) cn addr tasks w)
]
