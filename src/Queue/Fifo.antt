-- ===== src/Queue/Fifo.antt =====
-- The queue against a plain list: first in, first out.

use native.Mathlib.Numerals.{add-one}
use mathlib.Core.Option
use monitoring_tool.Prelude.{
  ℕ, suc, ◌+◌, ◌-◌, ◌≡◌, refl, ap, Option, none, some, List, [], ◌∷◌, ◌++◌, arith, ◌==◌,
  if◌then◌else◌, length, length-append, take,
}
use monitoring_tool.Queue.{Queue, new_queue, enq, deq, Op, enqueue, dequeue, run}

module _ {ℓ} {A : Type ℓ} where
  -- The position of the last element.
  abbrev pub last_position : List A → Option ℕ
  last_position [] = none
  last_position (x ∷ xs) = some (length xs)

  -- A queue that holds the elements of a list.
  pub record Holds (q : Queue A) (xs : List A) : Type ℓ where
    pub chain : q.chain ≡ xs
    pub last : q.last ≡ last_position xs
    pub qlen : q.qlen ≡ length xs

  pub take-all : (xs : List A) → take (length xs) xs ≡ xs
  take-all [] = refl
  take-all (x ∷ xs) = ap (λ (l : List A). x ∷ l) (take-all xs)

  pub new_queue-Holds : Holds new_queue []
  new_queue-Holds = record { chain = refl; last = refl; qlen = refl }

  pub enq-Holds :
      (q : Queue A) (xs : List A) (x : A)
      → Holds q xs
      → (q' : Queue A) × (enq q x ≡ some q') × Holds q' (xs ++ x ∷ [])
  unfolding enq
  enq-Holds q [] x h = (
    record { chain = x ∷ []; last = some 0; qlen = 1 },
    rw h.qlen,
    record { chain = refl; last = refl; qlen = refl },
  )
  enq-Holds q (y ∷ ys) x h = (
    record {
      chain = take (length ys + 1) q.chain ++ x ∷ [];
      last = some (length ys + 1);
      qlen = q.qlen + 1;
    },
    ground (arith, h.qlen, h.last),
    record {
      chain = rw (h.chain, add-one) (ap (λ (l : List A). y ∷ (l ++ x ∷ [])) (take-all ys));
      last = ap {B = Option ℕ} some (omega (arith, length-append ys (x ∷ [])));
      qlen = omega (arith, h.qlen, length-append ys (x ∷ []));
    },
  )

  last-unlink :
      (xs : List A) (qlen : ℕ) (last : Option ℕ)
      → qlen ≡ suc (length xs)
      → last ≡ some (length xs)
      → Option.map (λ (n : ℕ). n - 1) (if qlen == 1 then none else last) ≡ last_position xs
  last-unlink [] qlen last e f = ground arith
  last-unlink (y ∷ ys) qlen last e f = ground arith

  pub deq-Holds :
      (q : Queue A) (x : A) (xs : List A)
      → Holds q (x ∷ xs)
      → Holds (deq q).0 xs × ((deq q).1 ≡ some x)
  unfolding deq
  deq-Holds q x xs h = (
    record {
      chain = ground (arith, h.chain, h.qlen);
      last = ground (arith, h.chain, h.qlen, last-unlink xs q.qlen q.last h.qlen h.last);
      qlen = ground (arith, h.chain, h.qlen);
    },
    ground (arith, h.chain, h.qlen),
  )

  pub deq_empty : (q : Queue A) → Holds q [] → ((deq q).0 ≡ q) × ((deq q).1 ≡ none)
  unfolding deq
  deq_empty q h = (ground (arith, h.qlen), ground (arith, h.qlen))

  -- The specification: a list, taken from in front and added to behind.
  unfoldable pub fifo : List A → List (Op A) → List A × List (Option A)
  fifo xs [] = (xs, [])
  fifo xs (enqueue x ∷ ops) = fifo (xs ++ x ∷ []) ops
  fifo [] (dequeue ∷ ops) = let r = fifo [] ops in (r.0, none ∷ r.1)
  fifo (x ∷ xs) (dequeue ∷ ops) = let r = fifo xs ops in (r.0, some x ∷ r.1)

  run-Holds :
      (ops : List (Op A)) (q : Queue A) (xs : List A)
      → Holds q xs
      → (q' : Queue A) × (run q ops ≡ some (q', (fifo xs ops).1)) × Holds q' (fifo xs ops).0
  unfolding run fifo
  run-Holds [] q xs h = (q, refl, h)
  run-Holds (enqueue x ∷ ops) q xs h =
      let (q', e, h') = enq-Holds q xs x h in
      let (r, f, k) = run-Holds ops q' (xs ++ x ∷ []) h' in (r, rw e f, k)
  run-Holds (dequeue ∷ ops) q [] h =
      let (same, answer) = deq_empty q h in
      let (r, f, k) = run-Holds ops q [] h in (r, rw (same, answer) (rw f), k)
  run-Holds (dequeue ∷ ops) q (x ∷ xs) h =
      let (h', answer) = deq-Holds q x xs h in
      let (r, f, k) = run-Holds ops (deq q).0 xs h' in (r, rw answer (rw f), k)

-- Whatever sequence of `enq` and `deq` a new queue is given, it never follows a NULL pointer, its `deq`s
-- answer what the same operations on a list answer that is added to behind and taken from in front
-- (NULL where the list is empty), and afterwards its chain is that list and `qlen` is its length.
pub run-fifo {ℓ} :
    {A : Type ℓ} (ops : List (Op A))
    → (q : Queue A) × (run new_queue ops ≡ some (q, (fifo [] ops).1))
      × (q.chain ≡ (fifo [] ops).0)
      × (q.qlen ≡ length (fifo [] ops).0)
run-fifo ops = let (q, e, h) = run-Holds ops new_queue [] new_queue-Holds in (q, e, h.chain, h.qlen)
