-- ===== src/Workers/Captures.antt =====
-- What `capture_main` of c-http-sniffer/src/main.c puts into the queue of raw packets.

use mathlib.Core.List.{append-nil, append_assoc}
use mathlib.Core.Path.{transport}
use monitoring_tool.Prelude.{
  ℕ, ◌+◌, ◌%◌, ◌^◌, ◌<◌, ◌≡◌, refl, sym, ap, ◌∙◌, Bool, true, false, ◌||◌, Option, none, some, List,
  [], ◌∷◌, ◌++◌, if◌then◌else◌, arith, leb, ltb, length, length-append, take, All, inl, inr,
  Bool-cases,
}
use monitoring_tool.Prelude.Partial.{>>=-returns}
use monitoring_tool.Queue.{enq}
use monitoring_tool.Queue.Fifo.{Holds, enq-Holds}
use monitoring_tool.Workers.{running, Capture, Captured, copy, keep_frame, no_frame, capture_main}

-- What is kept of a turn, and of all.
abbrev pub frame_of : Option (List ℕ) → (len : ℕ) → List (List ℕ)
frame_of none len = []
frame_of (some raw) len = if ltb len 54 then [] else take len raw ∷ []

abbrev pub frames : List Capture → List (List ℕ)
frames [] = []
frames (turn ∷ turns) = frame_of turn.raw turn.len ++ frames turns

-- The analysis is not stopped, and the frame is as long as its header says.
abbrev is_whole : Option (List ℕ) → (len : ℕ) → Bool
is_whole none len = true
is_whole (some raw) len = leb len (length raw)

abbrev pub IsRunning : Capture → Type 0
IsRunning turn = (turn.stopped ≡ false) × (is_whole turn.raw turn.len ≡ true)

-- The queue holds the list, and of a captured state the other two fields are as given.
pub record IsCaptured (c : Captured) (xs : List (List ℕ)) (count : ℕ) (stop : Bool) : Type 0 where
  pub rpq : Holds c.rpq xs
  pub pak : c.pak ≡ count
  pub has_stopped : c.has_stopped ≡ stop

module _ (livemode : Bool) where
  -- What a turn makes of the state, whatever turns follow.
  abbrev IsStep : Capture → List (List ℕ) → Captured → List (List ℕ) → ℕ → Bool → Type 0
  IsStep turn new c xs count stop =
      (c' : Captured) × ((turns : List Capture)
        → capture_main livemode (turn ∷ turns) c ≡ capture_main livemode turns c')
      × IsCaptured c' (xs ++ new) (count + length new) stop

  skip :
      (turn : Capture) (c : Captured) (xs : List (List ℕ)) (count : ℕ) (stop : Bool)
      → ((turns : List Capture)
          → capture_main livemode (turn ∷ turns) c ≡ capture_main livemode turns c)
      → IsCaptured c xs count stop
      → IsStep turn [] c xs count stop
  skip turn c xs count stop same h = (
    c,
    same,
    record {
      rpq = transport (ap (Holds c.rpq) (sym (append-nil xs))) h.rpq;
      pak = omega (arith, h.pak);
      has_stopped = h.has_stopped;
    },
  )

  take_frame :
      (turn : Capture) (raw : List ℕ) (c : Captured) (xs : List (List ℕ)) (count : ℕ) (stop : Bool)
      → turn.raw ≡ some raw
      → ltb turn.len 54 ≡ false
      → leb turn.len (length raw) ≡ true
      → turn.stopped ≡ false
      → count + 1 < 2 ^ 31
      → IsCaptured c xs count stop
      → IsStep turn (take turn.len raw ∷ []) c xs count stop
  unfolding capture_main
  take_frame turn raw c xs count stop e long whole on fits h =
      let frame = take turn.len raw in
      let (q, f, k) = enq-Holds c.rpq xs frame h.rpq in
      let null : no_frame turn.raw ≡ false = ap no_frame e in
      let after = record c { rpq = q; pak = (c.pak + 1) % 2 ^ 32 } in
      let copied : copy turn.len raw ≡ some frame = rw whole refl in
      let kept : keep_frame livemode turn.raw turn.len c ≡ some after =
        ap (λ (o : Option (List ℕ)). keep_frame livemode o turn.len c) e
        ∙ >>=-returns (copy turn.len raw) _ copied (>>=-returns (enq c.rpq frame) _ f refl) in
      (
        after,
        λ turns.
            rw (null, long, on)
              (>>=-returns (keep_frame livemode turn.raw turn.len c)
                (λ c'. capture_main livemode turns c') kept refl),
        record { rpq = k; pak = omega (arith, h.pak, fits); has_stopped = h.has_stopped },
      )

  pass_over :
      (turn : Capture) (turns : List Capture) (c : Captured)
      → no_frame turn.raw || ltb turn.len 54 ≡ true
      → capture_main livemode (turn ∷ turns) c ≡ capture_main livemode turns c
  unfolding capture_main
  pass_over turn turns c h = elim (Bool-cases (no_frame turn.raw)) [
    | inl null ↦ rw null refl
    | inr there ↦ elim (Bool-cases (ltb turn.len 54)) [
      | inl short ↦ rw (there, short) refl
      | inr long ↦ absurd (ground (arith, h, there, long))
    ]
  ]

  turn-IsStep :
      (turn : Capture) (o : Option (List ℕ)) (c : Captured) (xs : List (List ℕ)) (count : ℕ)
      (stop : Bool)
      → turn.raw ≡ o
      → turn.stopped ≡ false
      → is_whole o turn.len ≡ true
      → count + length (frame_of o turn.len) < 2 ^ 31
      → IsCaptured c xs count stop
      → IsStep turn (frame_of o turn.len) c xs count stop
  turn-IsStep turn none c xs count stop e on whole fits h =
      let null : no_frame turn.raw || ltb turn.len 54 ≡ true =
        ap (λ (r : Option (List ℕ)). no_frame r || ltb turn.len 54) e in
      skip turn c xs count stop (λ turns. pass_over turn turns c null) h
  turn-IsStep turn (some raw) c xs count stop e on whole fits h =
      elim (Bool-cases (ltb turn.len 54)) [
        | inl short ↦
            let passed : no_frame turn.raw || ltb turn.len 54 ≡ true =
              ap (λ (r : Option (List ℕ)). no_frame r || ltb turn.len 54) e ∙ short in
            rw short (skip turn c xs count stop (λ turns. pass_over turn turns c passed) h)
        | inr long ↦
            let small : count + 1 < 2 ^ 31 = omega (
              arith,
              fits,
              ap (λ (b : Bool). length (if b then [] else take turn.len raw ∷ [])) long,
            ) in
            rw long (take_frame turn raw c xs count stop e long whole on small h)
      ]

  -- While the analysis runs, the loop puts each frame of at least 54 bytes that `pcap_next` answers into
  -- the queue, each once and in their order, and counts them in `pak`; NULL and shorter frames are passed
  -- over, and `stop` is not called. The frames are as long as their headers say, and `pak` stays below
  -- 2 ^ 31.
  pub capture_main-IsCaptured :
      (turns : List Capture) (c : Captured) (xs : List (List ℕ)) (count : ℕ) (stop : Bool)
      → All IsRunning turns
      → count + length (frames turns) < 2 ^ 31
      → IsCaptured c xs count stop
      → (c' : Captured) × (capture_main livemode turns c ≡ some (running, c'))
        × IsCaptured c' (xs ++ frames turns) (count + length (frames turns)) stop
  unfolding capture_main
  capture_main-IsCaptured [] c xs count stop on fits h = (
    c,
    refl,
    record {
      rpq = transport (ap (Holds c.rpq) (sym (append-nil xs))) h.rpq;
      pak = omega (arith, h.pak);
      has_stopped = h.has_stopped;
    },
  )
  capture_main-IsCaptured (turn ∷ turns) c xs count stop ((on, whole), ons) fits h =
      let new = frame_of turn.raw turn.len in
      let total = length-append new (frames turns) in
      let (v, e, k) =
        turn-IsStep turn turn.raw c xs count stop refl on whole (omega (arith, fits, total)) h in
      let (u, f, l) =
        capture_main-IsCaptured turns v (xs ++ new) (count + length new) stop ons
          (omega (arith, fits, total)) k in
      (
        u,
        e turns ∙ f,
        record {
          rpq = transport (ap (Holds u.rpq) (append_assoc xs new (frames turns))) l.rpq;
          pak = omega (arith, l.pak, total);
          has_stopped = l.has_stopped;
        },
      )
