-- ===== src/Workers/Rounds.antt =====
-- `process_packet_queue` and `process_flow_queue` of c-http-sniffer/src/main.c: how far the queues of the
-- protocols are served when the analysis is stopped.

use mathlib.Core.List.{append-nil, append_assoc}
use mathlib.Core.Path.{transport}
use monitoring_tool.Prelude.{
  ℕ, suc, ◌+◌, ◌≤◌, ◌≡◌, refl, sym, ap, ◌∙◌, true, false, Option, some, List, [], ◌∷◌, ◌++◌, arith,
  length, length-append, map, All,
}
use monitoring_tool.Prelude.Partial.{>>=-returns}
use monitoring_tool.Queue.{Queue, deq}
use monitoring_tool.Queue.Fifo.{Holds, deq-Holds, deq_empty}
use monitoring_tool.Workers.{left, Round, enq_all, visited, visit, enq_each, process_queues}
use monitoring_tool.Workers.Drains.{handle_all, enq_all-Holds, deq_empty-Holds}

-- All that comes into the queue of protocol `j`, behind what has come before.
abbrev pub coming : {A : Type 0} → (ℕ → List A) → List (Round A) → ℕ → List A
coming before [] = before
coming before (round ∷ rounds) = coming (λ j. before j ++ round.arrivals j) rounds

module _ {A H : Type 0} (handle : H → A → H) where
  handle_all-snoc :
      (h : H) (xs : List A) (x : A)
      → handle_all handle h (xs ++ x ∷ []) ≡ handle (handle_all handle h xs) x
  handle_all-snoc h [] x = refl
  handle_all-snoc h (y ∷ ys) x = handle_all-snoc (handle h y) ys x

  -- A protocol whose queue held `xs` at first, and into whose queue `came` has come since, after `n`
  -- turns: what is done, in the order of the queue, and what the queue holds.
  pub record IsServed (n : ℕ) (xs : List A) (h : H) (came : List A) (q : Queue A) (g : H)
      : Type 0 where
    pub done : List A
    pub rest : List A
    pub all : xs ++ came ≡ done ++ rest
    pub held : Holds q rest
    pub handled : g ≡ handle_all handle h done
    pub at_most : length done ≤ n
    pub exactly : n ≤ length xs → length done ≡ n

  -- The protocols and their first queues and states, from number `j` on.
  abbrev pub AreServed : (n j : ℕ) → (ℕ → List A) → List (Queue A × H) → List (List A × H) → Type 0
  AreServed n j came [] [] = Unit
  AreServed n j came [] ((xs, h) ∷ lists) = ⊥
  AreServed n j came ((q, g) ∷ protocols) [] = ⊥
  AreServed n j came ((q, g) ∷ protocols) ((xs, h) ∷ lists) =
      IsServed n xs h (came j) q g × AreServed n (suc j) came protocols lists

  -- The queues of the protocols hold the lists, and their states are those beside the lists.
  abbrev pub AreHeld : List (Queue A × H) → List (List A × H) → Type 0
  AreHeld [] [] = Unit
  AreHeld [] ((xs, g) ∷ lists) = ⊥
  AreHeld ((q, h) ∷ protocols) [] = ⊥
  AreHeld ((q, h) ∷ protocols) ((xs, g) ∷ lists) = (Holds q xs × (h ≡ g)) × AreHeld protocols lists

  at_start :
      (j : ℕ) (protocols : List (Queue A × H)) (lists : List (List A × H))
      → AreHeld protocols lists
      → AreServed 0 j (λ i. []) protocols lists
  at_start j [] [] h = tt
  at_start j [] ((xs, g) ∷ lists) h = h
  at_start j ((q, h) ∷ protocols) [] k = k
  at_start j ((q, h) ∷ protocols) ((xs, g) ∷ lists) ((k, e), ks) = (
    record {
      done = [];
      rest = xs;
      all = append-nil xs;
      held = k;
      handled = e;
      at_most = omega arith;
      exactly = λ le. refl;
    },
    at_start (suc j) protocols lists ks,
  )

  -- What comes into the queues waits behind what they hold.
  enq_each-AreServed :
      (n j : ℕ) (came arrivals : ℕ → List A) (protocols : List (Queue A × H))
      (lists : List (List A × H))
      → AreServed n j came protocols lists
      → (protocols' : List (Queue A × H)) × (enq_each j arrivals protocols ≡ some protocols')
        × AreServed n j (λ i. came i ++ arrivals i) protocols' lists
  unfolding enq_each
  enq_each-AreServed n j came arrivals [] [] h = ([], refl, tt)
  enq_each-AreServed n j came arrivals [] ((xs, g) ∷ lists) h = absurd h
  enq_each-AreServed n j came arrivals ((q, g) ∷ protocols) [] h = absurd h
  enq_each-AreServed n j came arrivals ((q, g) ∷ protocols) ((xs, h) ∷ lists) (s, ss) =
      let (q', e, k) = enq_all-Holds q s.rest (arrivals j) s.held in
      let (protocols', f, l) = enq_each-AreServed n (suc j) came arrivals protocols lists ss in
      (
        (q', g) ∷ protocols',
        >>=-returns (enq_all q (arrivals j)) _ e
            (>>=-returns (enq_each (suc j) arrivals protocols) _ f refl),
        (
          record {
            done = s.done;
            rest = s.rest ++ arrivals j;
            all =
                sym (append_assoc xs (came j) (arrivals j))
                ∙ (ap (λ (l : List A). l ++ arrivals j) s.all
                    ∙ append_assoc s.done s.rest (arrivals j));
            held = k;
            handled = s.handled;
            at_most = s.at_most;
            exactly = s.exactly;
          },
          l,
        ),
      )

  -- One turn handles the first of what the queue holds.
  visit-IsServed :
      (n : ℕ) (xs : List A) (h : H) (came : List A) (q : Queue A) (g : H) (done rest : List A)
      → xs ++ came ≡ done ++ rest
      → Holds q rest
      → g ≡ handle_all handle h done
      → length done ≤ n
      → (n ≤ length xs → length done ≡ n)
      → IsServed (suc n) xs h came (visit handle (q, g)).0 (visit handle (q, g)).1
  unfolding visit
  visit-IsServed n xs h came q g done [] all held handled at_most exactly =
      let answer : visited handle (deq q) g ≡ ((deq q).0, g) =
        ap (λ (o : Option A). visited handle ((deq q).0, o) g) (deq_empty q held).1 in
      rw answer (record {
        done = done;
        rest = [];
        all = all;
        held = deq_empty-Holds q held;
        handled = handled;
        at_most = omega (arith, at_most);
        exactly = λ le. absurd (
            omega (
              arith,
              le,
              at_most,
              ap length all,
              length-append xs came,
              length-append done [],
              exactly (omega (arith, le)),
            ));
      })
  visit-IsServed n xs h came q g done (y ∷ ys) all held handled at_most exactly =
      let answer : visited handle (deq q) g ≡ ((deq q).0, handle g y) =
        ap (λ (o : Option A). visited handle ((deq q).0, o) g) (deq-Holds q y ys held).1 in
      rw answer (record {
        done = done ++ y ∷ [];
        rest = ys;
        all = all ∙ sym (append_assoc done (y ∷ []) ys);
        held = (deq-Holds q y ys held).0;
        handled = ap (λ (s : H). handle s y) handled ∙ sym (handle_all-snoc h done y);
        at_most = omega (arith, at_most, length-append done (y ∷ []));
        exactly = λ le. omega (arith, exactly (omega (arith, le)), length-append done (y ∷ []));
      })

  visit_each-AreServed :
      (n j : ℕ) (came : ℕ → List A) (protocols : List (Queue A × H)) (lists : List (List A × H))
      → AreServed n j came protocols lists
      → AreServed (suc n) j came (map (visit handle) protocols) lists
  visit_each-AreServed n j came [] [] h = tt
  visit_each-AreServed n j came [] ((xs, g) ∷ lists) h = h
  visit_each-AreServed n j came ((q, g) ∷ protocols) [] h = h
  visit_each-AreServed n j came ((q, g) ∷ protocols) ((xs, h) ∷ lists) (s, ss) = (
    visit-IsServed n xs h (came j) q g s.done s.rest s.all s.held s.handled s.at_most s.exactly,
    visit_each-AreServed n (suc j) came protocols lists ss,
  )

  rounds-AreServed :
      (n : ℕ) (rounds more : List (Round A)) (last : Round A) (came : ℕ → List A)
      (protocols : List (Queue A × H)) (lists : List (List A × H))
      → All (λ (round : Round A). round.stopped ≡ false) rounds
      → last.stopped ≡ true
      → AreServed n 0 came protocols lists
      → (protocols' : List (Queue A × H)) × (process_queues handle (rounds ++ last ∷ more) protocols
          ≡ some (left, protocols'))
        × AreServed (n + length rounds) 0 (coming came (rounds ++ last ∷ [])) protocols' lists
  unfolding process_queues
  rounds-AreServed n [] more last came protocols lists on off h =
      let (protocols', e, k) = enq_each-AreServed n 0 came last.arrivals protocols lists h in
      let same : n ≡ n + 0 = omega arith in
      (
        protocols',
        >>=-returns (enq_each 0 last.arrivals protocols) _ e (rw off refl),
        transport (ap (λ (m : ℕ). AreServed m 0 (coming came (last ∷ [])) protocols' lists) same) k,
      )
  rounds-AreServed n (round ∷ rounds) more last came protocols lists (on, ons) off h =
      let (v, e, k) = enq_each-AreServed n 0 came round.arrivals protocols lists h in
      let (u, f, l) =
        rounds-AreServed (suc n) rounds more last (λ j. came j ++ round.arrivals j)
          (map (visit handle) v) lists ons off (visit_each-AreServed n 0 _ v lists k) in
      let same : suc n + length rounds ≡ n + length (round ∷ rounds) = omega arith in
      (
        u,
        >>=-returns (enq_each 0 round.arrivals protocols) _ e (rw on f),
        transport
            (ap (λ (m : ℕ). AreServed m 0 (coming came (round ∷ (rounds ++ last ∷ []))) u lists)
              same)
            l,
      )

  -- `process_packet_queue` and `process_flow_queue` end in the first turn that sees the analysis stopped.
  -- Whatever has come into the queues meanwhile, each protocol has then handled, each once and in their
  -- order, the first elements of what its queue held at first and what has come behind that, one at most
  -- in each of the turns before, and exactly one in each if its queue held as many at first. The others
  -- are in its queue.
  pub process_queues-AreServed :
      (rounds more : List (Round A)) (last : Round A) (protocols : List (Queue A × H))
      (lists : List (List A × H))
      → All (λ (round : Round A). round.stopped ≡ false) rounds
      → last.stopped ≡ true
      → AreHeld protocols lists
      → (protocols' : List (Queue A × H)) × (process_queues handle (rounds ++ last ∷ more) protocols
          ≡ some (left, protocols'))
        × AreServed (length rounds) 0 (coming (λ j. []) (rounds ++ last ∷ [])) protocols' lists
  process_queues-AreServed rounds more last protocols lists on off h =
      let (u, e, k) =
        rounds-AreServed 0 rounds more last (λ j. []) protocols lists on off
          (at_start 0 protocols lists h) in
      (
        u,
        e,
        transport
            (ap (λ (m : ℕ). AreServed m 0 (coming (λ j. []) (rounds ++ last ∷ [])) u lists)
              (omega arith))
            k,
      )
