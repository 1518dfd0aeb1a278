-- ===== src/Native/Table/Uses.antt =====
-- A stream of the Rust side over libaudiowire's memory: its start, and any number of stops.
use audiowire.Base.{
  ℕ, suc, zero, ◌≡◌, inl, inr, refl, sym, ap, ap₂, ◌∙◌, Bool, true, false, List, [], ◌∷◌, ◌++◌,
  Option, none, some, String, ok, length, Bool-cases, if◌then◌else◌,
}
use audiowire.Base.Arrays.{get_or, set}
use audiowire.Config.{into}
use audiowire.Device.{AwResult, is_zero, is_ok, parse_result, parse_result_value, parse_result_lazy}
use audiowire.Stream.{
  BaseStream, StreamBuilder, Direction, capture, playback, start_stream, stop, or_else,
}
use audiowire.Stream.Start.{start_stream-eq-ok}
use mathlib.Core.Bool.{true≢false, false≢true}
use audiowire.Native.PortAudio.{PortAudio}
use audiowire.Native.Backend.{AwPaStream, aw_start_record, aw_start_playback, aw_stop}
use audiowire.Native.Table.{
  Handle, World, stream_at, put_at, stop_at, started, stopped, native_driver,
}
use audiowire.Native.Table.Laws.{StartAgrees, start_stream-Agrees, aw_stop-frees}

module _ {A : Type 0} where
  pub get_or-last :
      (xs : List (Option A)) (x : A) → get_or (xs ++ (some x ∷ [])) (length xs) none ≡ some x
  get_or-last [] x = refl
  get_or-last (y ∷ xs) x = get_or-last xs x

  get_or-set-none : (xs : List (Option A)) (i : ℕ) → get_or (set xs i none) i none ≡ none
  get_or-set-none [] i = refl
  get_or-set-none (y ∷ xs) zero = refl
  get_or-set-none (y ∷ xs) (suc i) = get_or-set-none xs i

  get_or-set-some :
      (xs : List (Option A)) (i : ℕ) (x y : A)
      → get_or xs i none ≡ some x
      → get_or (set xs i (some y)) i none ≡ some y
  get_or-set-some [] i x y e = cc
  get_or-set-some (z ∷ xs) zero x y e = refl
  get_or-set-some (z ∷ xs) (suc i) x y e = get_or-set-some xs i x y e

module _ (pa : PortAudio) (to_text : List ℕ → String) where
  put_at-none :
      (h : Handle) (w : World pa) (state : pa.State)
      → stream_at pa h (record (put_at pa h none w) { state = state }) ≡ none
  put_at-none none w state = refl
  put_at-none (some i) w state = get_or-set-none w.streams i

  put_at-some :
      (h : Handle) (w : World pa) (state : pa.State) (s t : AwPaStream pa)
      → stream_at pa h w ≡ some s
      → stream_at pa h (record (put_at pa h (some t) w) { state = state }) ≡ some t
  put_at-some none w state s t e = cc
  put_at-some (some i) w state s t e = get_or-set-some w.streams i s t e

  -- No call has gone outside its memory, and the stream is allocated as long as it counts as running, and no longer.
  pub record Owned (b : BaseStream Handle) (w : World pa) : Type 0 where
    pub whole : w.crashed ≡ false
    pub there : b.running ≡ true → (s : AwPaStream pa) × (stream_at pa b.handle w ≡ some s)
    pub freed : b.running ≡ false → stream_at pa b.handle w ≡ none

  -- A number of stops, whatever they return
  abbrev pub stops : ℕ → BaseStream Handle → World pa → BaseStream Handle × World pa
  stops zero b w = (b, w)
  stops (suc n) b w = let (o, b', w') = stop (native_driver pa to_text) b w in stops n b' w'

  put_at-crashed :
      (h : Handle) (s : Option (AwPaStream pa)) (w : World pa)
      → (put_at pa h s w).crashed ≡ w.crashed
  put_at-crashed none s w = refl
  put_at-crashed (some i) s w = refl

  -- The stream after an `aw_stop` of what its handle points to
  stopped-Owned :
      (b : BaseStream Handle) (w : World pa) (s : AwPaStream pa)
      (r : AwResult × Option (AwPaStream pa) × pa.State)
      → Owned b w
      → b.running ≡ true
      → stream_at pa b.handle w ≡ some s
      → r.1 ≡ (if is_zero r.0.code then none else some s)
      → let (res, w') = stopped pa b.handle w r in
        Owned (or_else (parse_result_lazy res (λ u. record b { running = false })) b) w'
  unfolding parse_result_lazy parse_result parse_result_value
  stopped-Owned b w s (r, s', state) o run e k = elim (Bool-cases (is_zero r.code)) [
    | inl good ↦
        rw (k, good)
          (record {
            whole = put_at-crashed b.handle none w ∙ o.whole;
            there = λ h. absurd (false≢true h);
            freed = λ h. put_at-none b.handle w state;
          })
    | inr bad ↦
        rw (k, bad)
          (record {
            whole = put_at-crashed b.handle (some s) w ∙ o.whole;
            there = λ h. (s, put_at-some b.handle w state s s e);
            freed = λ h. absurd (true≢false (sym run ∙ h));
          })
  ]

  stop-Owned :
      (h : Handle) (name : Option String) (running : Bool) (w : World pa)
      → let b : BaseStream Handle = record { handle = h; devname = name; running = running } in
        Owned b w → let (o, b', w') = stop (native_driver pa to_text) b w in Owned b' w'
  unfolding stop stop_at
  stop-Owned h name true w o =
      let (s, e) = o.there refl in
      rw (e, stop_at)
        (stopped-Owned (record { handle = h; devname = name; running = true }) w s
          (aw_stop pa s w.state) o refl e (aw_stop-frees pa s w.state s.handle (some s) refl refl))
  stop-Owned h name false w o = o

  stops-Owned :
      (n : ℕ) (b : BaseStream Handle) (w : World pa)
      → Owned b w
      → let (b', w') = stops n b w in Owned b' w'
  stops-Owned zero b w o = o
  stops-Owned (suc n) b w o = stops-Owned n _ _ (stop-Owned b.handle b.devname b.running w o)

  started-Owned :
      (w w' : World pa) (b : BaseStream Handle)
      (r : Option (AwResult × Option (AwPaStream pa) × pa.State))
      → w.crashed ≡ false
      → StartAgrees pa r
      → is_zero (started pa w r).0.code ≡ true
      → w' ≡ (started pa w r).2
      → b.handle ≡ (started pa w r).1
      → b.running ≡ true
      → Owned b w'
  started-Owned w w' b none whole a good e h run = absurd (false≢true good)
  started-Owned w w' b (some (r, none, state)) whole a good e h run =
      absurd (false≢true (sym a ∙ good))
  started-Owned w w' b (some (r, some s, state)) whole a good e h run = record {
    whole = ap (λ x. x.crashed) e ∙ whole;
    there = λ p. (s, ap₂ (stream_at pa) h e ∙ get_or-last w.streams s);
    freed = λ p. absurd (true≢false (sym run ∙ p));
  }

  begun-Owned :
      (b : StreamBuilder) (dir : Direction) (name : List ℕ) (dev : Option (List ℕ))
      (w w' : World pa) (s : BaseStream Handle)
      → w.crashed ≡ false
      → start_stream (native_driver pa to_text) b dir name dev w ≡ (ok s, w')
      → Owned s w'
  unfolding is_ok aw_start_record aw_start_playback
  begun-Owned b capture name dev w w' s whole e =
      let (_, _, good, same, h, _, run) =
        start_stream-eq-ok (native_driver pa to_text) b capture name dev w w' s e in
      started-Owned w w' s _ whole
        (start_stream-Agrees pa to_text dev (into b.config) true b.error_cb w.state) good same h run
  begun-Owned b playback name dev w w' s whole e =
      let (_, _, good, same, h, _, run) =
        start_stream-eq-ok (native_driver pa to_text) b playback name dev w w' s e in
      started-Owned w w' s _ whole
        (start_stream-Agrees pa to_text dev (into b.config) false b.error_cb w.state) good same h
        run

  -- If a start over PortAudio succeeds from a world without a crash, no number of stops of the stream crashes, whatever
  -- PortAudio answers: each finds its memory, and the stream's memory is freed exactly when the stream no longer counts
  -- as running.
  pub stops-Owned_started :
      (n : ℕ) (b : StreamBuilder) (dir : Direction) (name : List ℕ) (dev : Option (List ℕ))
      (w w' : World pa) (s : BaseStream Handle)
      → w.crashed ≡ false
      → start_stream (native_driver pa to_text) b dir name dev w ≡ (ok s, w')
      → let (s', w'') = stops n s w' in Owned s' w''
  stops-Owned_started n b dir name dev w w' s whole e =
      stops-Owned n s w' (begun-Owned b dir name dev w w' s whole e)
