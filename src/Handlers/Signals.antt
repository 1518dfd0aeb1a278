-- ===== src/Handlers/Signals.antt =====
-- audiowire/src/handlers.rs: `handle_signal`.
use audiowire.Base.{◌≡◌, refl, Bool, true, Outcome, ok, err, panic}
use audiowire.Peer.{IoError}

pub data Signal : Type 0 where
  sigint sigterm : Signal

-- The crate signal_hook: `register` has a signal set the flag from then on.
pub record SignalHook : Type 1 where
  pub State : Type 0
  pub register : Signal → State → Outcome IoError Unit × State

module _ (hook : SignalHook) where
  -- `handle_signal`, which returns the flag that both signals set
  unfoldable pub handle_signal : hook.State → Outcome IoError Unit × hook.State
  handle_signal s =
      let (o, s1) = hook.register sigint s in
      elim o [ ok u ↦ hook.register sigterm s1 | err e ↦ (err e, s1) | panic ↦ (panic, s1) ]

  -- What signal_hook promises: a registration that succeeds stays.
  pub record Registers (sets : hook.State → Signal → Bool) : Type 0 where
    pub new :
        (x : Signal) (s : hook.State) (u : Unit)
        → (hook.register x s).0 ≡ ok u
        → sets (hook.register x s).1 x ≡ true
    pub old :
        (x y : Signal) (s : hook.State) → sets s y ≡ true → sets (hook.register x s).1 y ≡ true

  -- When handle_signal succeeds, each of the two signals sets the flag.
  pub handle_signal-Registers :
      (sets : hook.State → Signal → Bool) (laws : Registers sets) (s : hook.State) (u : Unit)
      → (handle_signal s).0 ≡ ok u
      → (x : Signal) → sets (handle_signal s).1 x ≡ true
  unfolding handle_signal
  handle_signal-Registers sets laws s u h x = both _ refl x
    where
      both :
          (o : Outcome IoError Unit)
          → (hook.register sigint s).0 ≡ o
          → (y : Signal) → sets (handle_signal s).1 y ≡ true
      both (ok v) e sigint =
          rw (e, handle_signal) (laws.old sigterm sigint _ (laws.new sigint s v e))
      both (ok v) e sigterm =
          rw (e, handle_signal) (laws.new sigterm _ u (rw (e, handle_signal) at h))
      both (err c) e y = cc (rw (e, handle_signal) at h)
      both panic e y = cc (rw (e, handle_signal) at h)
