-- ===== src/Tcp/Advance.antt =====
-- `tcp_order` on a whole order: it never follows a bad `last` pointer, keeps the order valid, and
-- either refuses a retransmission or links one new record into one direction.
use monitoring_tool.Prelude.{
  ℕ, ◌+◌, ◌%◌, ◌^◌, ◌≤◌, ◌≡◌, ◌⊎◌, refl, ap, Bool, true, false, not, Option, some, List, ◌∷◌, ◌++◌,
  arith, length, length-append,
}
use monitoring_tool.Order.{Seq, Order}
use monitoring_tool.Tcp.{Placed, counted_num, tcp_order}
use monitoring_tool.Tcp.Cursors.{LastIn}
use monitoring_tool.Tcp.Insert.{IsPieceOf, Outcome, Outcome-order_stream}

-- The list and the `last` pointer of a direction.
abbrev pub side : Bool → Order → List Seq
side true o = o.src
side false o = o.dst

abbrev pub last_of : Bool → Order → Option ℕ
last_of true o = o.last_src
last_of false o = o.last_dst

-- Each `last` points into its list, and no more records are counted than are linked.
pub record IsValid (o : Order) : Type 0 where
  pub last_src : LastIn o.src o.last_src
  pub last_dst : LastIn o.dst o.last_dst
  pub counted : o.num ≤ length o.src + length o.dst

pub data Advance (o : Order) (new : Seq) (src : Bool) (o' : Order) (code : ℕ) : Type 0 where
  resent : code ≡ 1 → o' ≡ o → Advance o new src o' code
  inserted :
      (front back : List Seq) (piece : Seq)
      → code ≡ 0
      → side src o ≡ front ++ back
      → side src o' ≡ front ++ (piece ∷ back)
      → IsPieceOf new piece
      → side (not src) o' ≡ side (not src) o
      → last_of (not src) o' ≡ last_of (not src) o
      → (o'.num ≡ o.num) ⊎ (o'.num ≡ (o.num + 1) % 2 ^ 32)
      → o'.rst ≡ o.rst
      → Advance o new src o' code

pub record Advances (o : Order) (new : Seq) (src : Bool) : Type 0 where
  pub after : Order
  pub code : ℕ
  pub returns : tcp_order o new src ≡ some (after, code)
  pub valid : IsValid after
  pub advance : Advance o new src after code

src_after : Order → Placed → Order
src_after o p = record o { src = p.list; last_src = p.last; num = counted_num o p }

dst_after : Order → Placed → Order
dst_after o p = record o { dst = p.list; last_dst = p.last; num = counted_num o p }

-- `num` goes up by one at most.
num_step :
    (o : Order) (p : Placed) → (counted_num o p ≡ o.num) ⊎ (counted_num o p ≡ (o.num + 1) % 2 ^ 32)
num_step o p = ground arith

counted_grows :
    (o : Order) (p : Placed) {list : List Seq} (front back : List Seq) (piece : Seq) (others : ℕ)
    → list ≡ front ++ back
    → p.list ≡ front ++ (piece ∷ back)
    → o.num ≤ length list + others
    → counted_num o p ≤ length p.list + others
counted_grows o p {list} front back piece others e e' h =
    ground (
      arith,
      ap length e,
      ap length e',
      length-append front back,
      length-append front (piece ∷ back),
    )

module _ (o : Order) (new : Seq) (v : IsValid o) where
  src_step :
      (p : Placed)
      → Outcome o.src o.last_src new p
      → IsValid (src_after o p) × Advance o new true (src_after o p) p.code
  unfolding src_after
  src_step p (Outcome.resent e l m n) = (
    record {
      last_src = rw (l, m) v.last_src;
      last_dst = v.last_dst;
      counted = ground (arith, v.counted);
    },
    Advance.resent e (rw (l, m, n)),
  )
  src_step p (Outcome.inserted f b q e s l k n) = (
    record {
      last_src = n;
      last_dst = v.last_dst;
      counted = counted_grows o p f b q (length o.dst) s l v.counted;
    },
    Advance.inserted f b q e s l k refl refl (num_step o p) refl,
  )

  dst_step :
      (p : Placed)
      → Outcome o.dst o.last_dst new p
      → IsValid (dst_after o p) × Advance o new false (dst_after o p) p.code
  unfolding dst_after
  dst_step p (Outcome.resent e l m n) = (
    record {
      last_src = v.last_src;
      last_dst = rw (l, m) v.last_dst;
      counted = ground (arith, v.counted);
    },
    Advance.resent e (rw (l, m, n)),
  )
  dst_step p (Outcome.inserted f b q e s l k n) = (
    record {
      last_src = v.last_src;
      last_dst = n;
      counted =
          omega (arith, counted_grows o p f b q (length o.src) s l (omega (arith, v.counted)));
    },
    Advance.inserted f b q e s l k refl refl (num_step o p) refl,
  )

-- On a valid order `tcp_order` returns, and the order it leaves is valid again. It answers 1 and
-- leaves the order as it was, or it answers 0 and links one record, equal to the new one up to its
-- packet and its two sequence numbers, somewhere into the list of the direction; the records that
-- were there keep their contents and their relative order, the other direction and `rst` are
-- untouched, and `num` is kept or counted up by one.
pub tcp_order-Advances : (o : Order) (new : Seq) (src : Bool) → IsValid o → Advances o new src
unfolding tcp_order src_after dst_after
tcp_order-Advances o new true v =
    let (p, e, out) = Outcome-order_stream o.src o.last_src new v.last_src in
    let (valid, advance) = src_step o new v p out in
    record {
      after = src_after o p;
      code = p.code;
      returns = rw e;
      valid = valid;
      advance = advance;
    }
tcp_order-Advances o new false v =
    let (p, e, out) = Outcome-order_stream o.dst o.last_dst new v.last_dst in
    let (valid, advance) = dst_step o new v p out in
    record {
      after = dst_after o p;
      code = p.code;
      returns = rw e;
      valid = valid;
      advance = advance;
    }
