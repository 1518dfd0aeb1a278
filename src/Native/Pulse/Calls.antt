-- ===== src/Native/Pulse/Calls.antt =====
-- One more call after those that libaudiowire/src/pulseaudio.c has made.
use mathlib.Core.Option.{some-injective}
use audiowire.Base.{
  ◌≡◌, refl, sym, ap, ◌∙◌, List, [], ◌∷◌, ◌++◌, append_assoc, Option, none, some, ap₂, append-nil,
}
use audiowire.Ring.{◌>>=◌}
use audiowire.Native.Pulse.Client.{Call, Held, nothing, allowed, accepts, loose, unguarded}

accepts-snoc :
    (h : Held) (cs : List Call) (c : Call)
    → accepts h (cs ++ (c ∷ [])) ≡ (accepts h cs >>= λ h'. allowed h' c)
unfolding accepts
accepts-snoc h [] c = elim (allowed h c) as (λ o. (o >>= (λ h'. some h')) ≡ o) [
  | none ↦ refl
  | some h' ↦ refl
]
accepts-snoc h (d ∷ cs) c =
    elim (allowed h d)
      as (λ o.
        (o >>= λ h'. accepts h' (cs ++ (c ∷ [])))
        ≡ ((o >>= λ h'. accepts h' cs) >>= λ h'. allowed h' c)) [
          | none ↦ refl
          | some h' ↦ accepts-snoc h' cs c
        ]

-- The calls are in order, and leave this.
abbrev pub Leaves : Held → List Call → Type 0
Leaves h cs = accepts nothing cs ≡ some h

pub more :
    {h h' : Held} (cs : List Call) (c : Call)
    → Leaves h cs
    → allowed h c ≡ some h'
    → Leaves h' (cs ++ (c ∷ []))
more cs c e k = accepts-snoc nothing cs c ∙ ap (λ o. o >>= λ x. allowed x c) e ∙ k

pub unguarded-snoc :
    (h h' : Held) (cs : List Call) (c : Call)
    → accepts h cs ≡ some h'
    → unguarded h (cs ++ (c ∷ [])) ≡ unguarded h cs ++ loose h' c
unfolding accepts unguarded
unguarded-snoc h h' [] c e =
    elim (allowed h c) as (λ o. loose h c ++ (elim o [ none ↦ [] | some x ↦ [] ]) ≡ loose h' c) [
      | none ↦ append-nil (loose h c) ∙ ap (λ x. loose x c) (some-injective h h' e)
      | some x ↦ append-nil (loose h c) ∙ ap (λ x. loose x c) (some-injective h h' e)
    ]
unguarded-snoc h h' (d ∷ cs) c e = later (allowed h d) refl (λ x k. unguarded-snoc x h' cs c k)
  where
    later :
        (o : Option Held)
        → allowed h d ≡ o
        → ((x : Held)
            → accepts x cs ≡ some h'
            → unguarded x (cs ++ (c ∷ [])) ≡ unguarded x cs ++ loose h' c)
        → unguarded h (d ∷ (cs ++ (c ∷ []))) ≡ unguarded h (d ∷ cs) ++ loose h' c
    later none k rest = cc (rw (k, accepts) at e)
    later (some x) k rest =
        rw (k, unguarded)
          (ap (λ l. loose h d ++ l) (rest x (rw (k, accepts) at e))
            ∙ sym (append_assoc (loose h d) (unguarded x cs) (loose h' c)))

-- The calls are in order, leave this, and touch nothing that is not guarded.
abbrev pub Guarded : Held → List Call → Type 0
Guarded h cs = Leaves h cs × (unguarded nothing cs ≡ [])

pub guarded :
    {h h' : Held} (cs : List Call) (c : Call)
    → Guarded h cs
    → allowed h c ≡ some h'
    → loose h c ≡ []
    → Guarded h' (cs ++ (c ∷ []))
guarded {h} cs c (e, q) k l = (more cs c e k, unguarded-snoc nothing h cs c e ∙ ap₂ ◌++◌ q l)
