-- ===== src/Logging.antt =====
-- audiowire/src/logging.rs: which header the lines of the log have, and how it is printed.
use audiowire.Base.{
  ℕ, Bool, true, false, not, List, [], ◌∷◌, ◌++◌, Option, none, some, Outcome, ok, err, panic,
  map_ok, length, ◌==◌, if◌then◌else◌,
}
use audiowire.Peer.{IoError}

-- slog's `RecordDecorator`, and `Write` with it. A call changes the state; a write is of these bytes.
pub record RecordDecorator : Type 1 where
  pub State : Type 0
  pub start_level : State → Outcome IoError Unit × State
  pub start_location : State → Outcome IoError Unit × State
  pub start_whitespace : State → Outcome IoError Unit × State
  pub start_msg : State → Outcome IoError Unit × State
  pub write : List ℕ → State → Outcome IoError Unit × State

-- slog's `Record`: its texts as they are printed
pub record Record : Type 0 where
  pub level : List ℕ
  pub file : List ℕ
  pub line : List ℕ
  pub column : List ℕ
  pub msg : List ℕ

-- `LOG_TIMESTAMP_DISABLED`: `none` if it is not set or no text
unfoldable pub timestamp_disabled : Option (List ℕ) → Bool
timestamp_disabled none = false
timestamp_disabled (some []) = false
timestamp_disabled (some (c ∷ [])) = c == 49
timestamp_disabled (some (c ∷ d ∷ s)) = false

-- What a line of the log begins with: what `print_msg_header` prints, or slog's header with a timestamp
pub data Header : Type 0 where
  plain stamped : Header

-- A logger that writes to the terminal, with the values that stand in each of its lines
pub record Logger (V : Type 0) : Type 0 where
  pub header : Header
  pub values : List V

unfoldable pub term_logger_with_values : {V : Type 0} → Option (List ℕ) → List V → Logger V
unfolding timestamp_disabled
term_logger_with_values env kv = record {
  header = if timestamp_disabled env then plain else stamped;
  values = kv;
}

unfoldable pub term_logger : {V : Type 0} → Option (List ℕ) → Logger V
unfolding term_logger_with_values
term_logger env = term_logger_with_values env []

-- `Write`: how many of the bytes it has taken
pub record Write : Type 1 where
  pub State : Type 0
  pub write : List ℕ → State → Outcome IoError ℕ × State

-- The custom timestamp: one `write` of the formatted time, however many of its bytes are taken
unfoldable pub print_timestamp : (f : Write) → List ℕ → f.State → Outcome IoError Unit × f.State
print_timestamp f ts s = let (o, s') = f.write ts s in (map_ok (λ n. tt) o, s')

-- "[file:line:column]"
abbrev pub location : Record → List ℕ
location r = 91 ∷ (r.file ++ (58 ∷ (r.line ++ (58 ∷ (r.column ++ (93 ∷ []))))))

module _ (rd : RecordDecorator) where
  -- A call, and the next after `?`
  infixl 5 ◌then◌
  abbrev ◌then◌ :
      {A : Type 0}
      → (rd.State → Outcome IoError Unit × rd.State)
      → (rd.State → Outcome IoError A × rd.State)
      → rd.State
      → Outcome IoError A × rd.State
  (call then next) s =
      let (o, s') = call s in elim o [ ok u ↦ next s' | err e ↦ (err e, s') | panic ↦ (panic, s') ]

  abbrev print_location : Record → Bool → rd.State → Outcome IoError Unit × rd.State
  print_location r true = rd.start_location then rd.write (location r)
  print_location r false = λ s. (ok tt, s)

  -- `print_msg_header`; `CountingWriter` counts the bytes of the message.
  unfoldable pub print_msg_header : Record → Bool → rd.State → Outcome IoError Bool × rd.State
  print_msg_header r use_file_location =
      rd.start_level
      then (rd.write r.level
          then (print_location r use_file_location
              then (rd.start_whitespace
                  then (rd.write (32 ∷ [])
                      then (rd.start_msg
                          then (rd.write r.msg then λ s. (ok (not (length r.msg == 0)), s)))))))
