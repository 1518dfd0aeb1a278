-- ===== src/Stream/Callback.antt =====
-- The error callbacks: `on_error` of audiowire/src/audiowire/stream.rs and `error_cb` of audiowire/src/handlers.rs,
-- with the memory that they read.
--
-- `none` is an access to memory that is freed or to a null pointer.
use mathlib.Core.List.{map}
use audiowire.Base.{
  ℕ, zero, suc, ◌+◌, ◌<◌, ◌≡◌, sym, ◌∙◌, arith, List, [], ◌∷◌, ◌++◌, append-nil, append_assoc, Bool,
  true, false, Option, none, some, length, ℤ,
}

infixl 5 ◌>>=◌
abbrev ◌>>=◌ : {A B : Type 0} → Option A → (A → Option B) → Option B
none >>= f = none
some a >>= f = f a

-- What the copies of a `Logger` share: the number of copies that have not been dropped, and the lines that were
-- logged, the first one first. At zero it is freed.
pub record Shared : Type 0 where
  pub copies : ℕ
  pub lines : List (ℤ × List ℕ)

-- A new copy
unfoldable pub clone : Shared → Option Shared
clone s = elim s.copies [ zero ↦ none | suc n ↦ some (record s { copies = suc (suc n) }) ]

-- A copy goes out of scope.
unfoldable pub drop_copy : Shared → Option Shared
drop_copy s = elim s.copies [ zero ↦ none | suc n ↦ some (record s { copies = n }) ]

abbrev log : ℤ × List ℕ → Shared → Option Shared
log line s = elim s.copies [
  | zero ↦ none
  | suc n ↦ some (record s { lines = s.lines ++ (line ∷ []) })
]

-- `error_cb`: `ptr::read` makes a copy of the logger behind `userdata` that is not counted, logs with it and drops it at
-- the end.
unfoldable pub error_cb : ℤ → List ℕ → Bool → Shared → Option Shared
unfolding drop_copy
error_cb e message false s = none
error_cb e message true s = do s' ← log (e, message) s; drop_copy s'

-- `ErrorHandle`; `userdata` is false for a null pointer.
pub record ErrorHandle : Type 0 where
  pub error_cb : ℤ → List ℕ → Bool → Shared → Option Shared
  pub userdata : Bool

-- `unwrap_or_default`
abbrev or_empty : Option (List ℕ) → List ℕ
or_empty none = []
or_empty (some m) = m

-- `on_error`, with `CStr::to_str`; the handle that it copies has nothing to drop.
unfoldable pub on_error :
    (List ℕ → Option (List ℕ)) → ErrorHandle → ℤ → Option (List ℕ) → Shared → Option Shared
on_error to_str h e none s = none
on_error to_str h e (some message) s = h.error_cb e (or_empty (to_str message)) h.userdata s

-- The errors that libaudiowire reports for a stream, one after another
unfoldable pub on_errors :
    (List ℕ → Option (List ℕ)) → ErrorHandle → List (ℤ × List ℕ) → Shared → Option Shared
unfolding on_error
on_errors to_str h [] s = some s
on_errors to_str h ((e, message) ∷ es) s = do
  s' ← on_error to_str h e (some message) s
  on_errors to_str h es s'

-- The handle that the program installs
abbrev pub logging : ErrorHandle
logging = record { error_cb = error_cb; userdata = true }

-- The line that is logged of an error
abbrev pub line_of : (List ℕ → Option (List ℕ)) → ℤ × List ℕ → ℤ × List ℕ
line_of to_str (e, message) = (e, or_empty (to_str message))

-- What errors leave of the logger, if they do not use it after it is freed
abbrev pub Released :
    (List ℕ → Option (List ℕ)) → List (ℤ × List ℕ) → Shared → Option Shared → Type 0
Released to_str es s none = s.copies < length es
Released to_str es s (some s') =
    (s'.copies + length es ≡ s.copies) × (s'.lines ≡ s.lines ++ map (line_of to_str) es)

Released-more :
    (to_str : List ℕ → Option (List ℕ)) (e : ℤ × List ℕ) (es : List (ℤ × List ℕ)) (n : ℕ)
    (ls : List (ℤ × List ℕ)) (r : Option Shared)
    → Released to_str es (record { copies = n; lines = ls ++ (line_of to_str e ∷ []) }) r
    → Released to_str (e ∷ es) (record { copies = suc n; lines = ls }) r
Released-more to_str e es n ls none h = omega (arith, h)
Released-more to_str e es n ls (some s') (count, logged) = (
  omega (arith, count),
  logged ∙ append_assoc ls (line_of to_str e ∷ []) (map (line_of to_str) es),
)

releases :
    (to_str : List ℕ → Option (List ℕ)) (es : List (ℤ × List ℕ)) (n : ℕ) (ls : List (ℤ × List ℕ))
    → let s : Shared = record { copies = n; lines = ls } in
      Released to_str es s (on_errors to_str logging es s)
unfolding on_errors on_error error_cb drop_copy
releases to_str [] n ls = (omega arith, sym (append-nil ls))
releases to_str ((e, m) ∷ es) zero ls = omega arith
releases to_str ((e, m) ∷ es) (suc n) ls =
    Released-more to_str (e, m) es n ls _
      (releases to_str es n (ls ++ (line_of to_str (e, m) ∷ [])))

-- Each error that libaudiowire reports with a message takes one from the count of the logger's copies, which is not the
-- program's to give: after errors, either the count is lower by their number and the lines logged since are the errors in
-- their order, each with its code and its message, empty where it is no UTF-8; or they were more than the copies that
-- there were, and one of them used the logger after it was freed.
pub on_errors-releases :
    (to_str : List ℕ → Option (List ℕ)) (es : List (ℤ × List ℕ)) (s : Shared)
    → Released to_str es s (on_errors to_str logging es s)
on_errors-releases to_str es s = releases to_str es s.copies s.lines
