-- ===== src/Workers/Drains.antt =====
-- `process_packet` of c-http-sniffer/src/main.c loses no packet.

use mathlib.Core.List.{append-nil, append_assoc}
use mathlib.Core.Path.{transport}
use monitoring_tool.Prelude.{
  ℕ, zero, suc, ◌+◌, ◌≤◌, ◌<◌, ◌≡◌, refl, sym, ap, ◌∙◌, true, false, Option, some, List, [], ◌∷◌,
  ◌++◌, if◌then◌else◌, arith, length, length-append, replicate, All,
}
use monitoring_tool.Prelude.Partial.{>>=-returns}
use monitoring_tool.Queue.{Queue, deq}
use monitoring_tool.Queue.Fifo.{Holds, enq-Holds, deq-Holds, deq_empty}
use monitoring_tool.Workers.{Status, left, Turn, enq_all, on_packet, process_packet}

module _ {A : Type 0} where
  pub enq_all-Holds :
      (q : Queue A) (xs ys : List A)
      → Holds q xs
      → (q' : Queue A) × (enq_all q ys ≡ some q') × Holds q' (xs ++ ys)
  unfolding enq_all
  enq_all-Holds q xs [] h = (q, refl, transport (ap (Holds q) (sym (append-nil xs))) h)
  enq_all-Holds q xs (y ∷ ys) h =
      let (v, e, k) = enq-Holds q xs y h in
      let (u, f, l) = enq_all-Holds v (xs ++ y ∷ []) ys k in
      (u, rw e f, transport (ap (Holds u) (append_assoc xs (y ∷ []) ys)) l)

  -- The state that the elements of a list are handled to, one after the other.
  abbrev pub handle_all : {H : Type 0} → (H → A → H) → H → List A → H
  handle_all handle h [] = h
  handle_all handle h (x ∷ xs) = handle_all handle (handle h x) xs

  -- All that comes in the turns.
  abbrev pub arrived : List (Turn A) → List A
  arrived [] = []
  arrived (turn ∷ turns) = turn.arrivals ++ (turn.between ++ arrived turns)

  -- A turn of a stopped analysis in which nothing comes.
  abbrev pub idle : Turn A
  idle = record { arrivals = []; between = []; stopped = true }

  -- What the thread ends with.
  abbrev IsDrained :
      {H : Type 0} → (H → A → H) → H → List A → Option (Status × Queue A × H) → Type 0
  IsDrained handle h xs r =
      (q : Queue A) × (r ≡ some (left, q, handle_all handle h xs)) × Holds q []

  -- A turn, on an empty queue and on one with an element.
  turn_empty :
      {H : Type 0} (handle : H → A → H) (turn : Turn A) (turns : List (Turn A)) (q v w : Queue A)
      (h : H)
      → enq_all q turn.arrivals ≡ some v
      → enq_all (deq v).0 turn.between ≡ some w
      → Holds v []
      → process_packet handle (turn ∷ turns) q h
        ≡ (if turn.stopped then some (left, w, h) else process_packet handle turns w h)
  unfolding process_packet
  turn_empty handle turn turns q v w h e f k = >>=-returns (enq_all q turn.arrivals) _ e (
      >>=-returns (enq_all (deq v).0 turn.between) _ f (
        ap
          (λ (o : Option A).
            on_packet handle turn.stopped (λ q h. some (left, q, h)) (process_packet handle turns)
              (w, o) h)
          (deq_empty v k).1))

  turn_full :
      {H : Type 0} (handle : H → A → H) (turn : Turn A) (turns : List (Turn A)) (q v w : Queue A)
      (y : A) (ys : List A) (h : H)
      → enq_all q turn.arrivals ≡ some v
      → enq_all (deq v).0 turn.between ≡ some w
      → Holds v (y ∷ ys)
      → process_packet handle (turn ∷ turns) q h ≡ process_packet handle turns w (handle h y)
  unfolding process_packet
  turn_full handle turn turns q v w y ys h e f k = >>=-returns (enq_all q turn.arrivals) _ e (
      >>=-returns (enq_all (deq v).0 turn.between) _ f (
        ap
          (λ (o : Option A).
            on_packet handle turn.stopped (λ q h. some (left, q, h)) (process_packet handle turns)
              (w, o) h)
          (deq-Holds v y ys k).1))

  -- `deq` of an empty queue leaves one.
  pub deq_empty-Holds : (v : Queue A) → Holds v [] → Holds (deq v).0 []
  deq_empty-Holds v k = transport (ap (λ (u : Queue A). Holds u []) (sym (deq_empty v k).0)) k

  drain :
      {H : Type 0} (handle : H → A → H) (n : ℕ) (q : Queue A) (xs : List A) (h : H)
      → length xs < n
      → Holds q xs
      → IsDrained handle h xs (process_packet handle (replicate n idle) q h)
  unfolding enq_all
  drain handle zero q xs h lt k = absurd (omega (arith, lt))
  drain handle (suc n) q [] h lt k = (
    (deq q).0,
    turn_empty handle idle (replicate n idle) q q (deq q).0 h refl refl k,
    deq_empty-Holds q k,
  )
  drain handle (suc n) q (x ∷ xs) h lt k =
      let (k', answer) = deq-Holds q x xs k in
      let (q', e, empty) = drain handle n (deq q).0 xs (handle h x) (omega (arith, lt)) k' in
      (q', turn_full handle idle (replicate n idle) q q (deq q).0 x xs h refl refl k ∙ e, empty)

  -- A turn of a running analysis, whatever the queue holds after what has come.
  turn_step :
      {H : Type 0} (handle : H → A → H) (turn : Turn A) (turns : List (Turn A)) (q v : Queue A)
      (ys later : List A) (h : H)
      → turn.stopped ≡ false
      → enq_all q turn.arrivals ≡ some v
      → Holds v ys
      → ((u : Queue A) (zs : List A) (g : H)
          → length zs ≤ length ys + length turn.between
          → Holds u zs
          → IsDrained handle g (zs ++ later) (process_packet handle turns u g))
      → IsDrained handle h
          (ys ++ (turn.between ++ later))
          (process_packet handle (turn ∷ turns) q h)
  turn_step handle turn turns q v [] later h on e k rest =
      let (w, f, k') = enq_all-Holds (deq v).0 [] turn.between (deq_empty-Holds v k) in
      let (u, g, empty) = rest w turn.between h (omega arith) k' in
      (u, turn_empty handle turn turns q v w h e f k ∙ rw on g, empty)
  turn_step handle turn turns q v (y ∷ ys) later h on e k rest =
      let (held, answer) = deq-Holds v y ys k in
      let (w, f, k') = enq_all-Holds (deq v).0 ys turn.between held in
      let (u, g, empty) =
        rest w (ys ++ turn.between) (handle h y) (omega (arith, length-append ys turn.between))
          k' in
      (
        u,
        turn_full handle turn turns q v w y ys h e f k
            ∙ g
            ∙ ap (λ (l : List A). some (left, u, handle_all handle (handle h y) l))
                (append_assoc ys turn.between later),
        empty,
      )

-- However packets come into the queue in the turns that see the analysis running, if none comes in those
-- that see it stopped, between `deq` and `isStopped` neither, the thread ends, after at most one such turn
-- more than the packets that have come, with the queue empty and `packet_preprocess` called on all of
-- them, each once and in the order in which they came.
pub process_packet-drains :
    {A H : Type 0} (handle : H → A → H) (turns : List (Turn A)) (n : ℕ) (q : Queue A) (xs : List A)
    (h : H)
    → Holds q xs
    → All (λ (turn : Turn A). turn.stopped ≡ false) turns
    → length (xs ++ arrived turns) < n
    → (q' : Queue A) × (process_packet handle (turns ++ replicate n idle) q h
        ≡ some (left, q', handle_all handle h (xs ++ arrived turns)))
      × Holds q' []
process_packet-drains handle [] n q xs h k on lt =
    let (q', e, empty) = drain handle n q xs h (omega (arith, lt, length-append xs [])) k in
    (
      q',
      e ∙ ap (λ (l : List _). some (left, q', handle_all handle h l)) (sym (append-nil xs)),
      empty,
    )
process_packet-drains handle (turn ∷ turns) n q xs h k on lt =
    let (v, e, k') = enq_all-Holds q xs turn.arrivals k in
    let later = arrived turns in
    let new = turn.between ++ later in
    let (q', f, empty) =
      turn_step handle turn (turns ++ replicate n idle) q v (xs ++ turn.arrivals) later h on.0 e k'
        (λ u zs g le held. process_packet-drains handle turns n u zs g held on.1 (
          omega (
            arith,
            lt,
            le,
            length-append zs later,
            length-append xs turn.arrivals,
            length-append xs (turn.arrivals ++ new),
            length-append turn.arrivals new,
            length-append turn.between later,
          ))) in
    (
      q',
      f
          ∙ ap (λ (l : List _). some (left, q', handle_all handle h l))
              (append_assoc xs turn.arrivals new),
      empty,
    )
