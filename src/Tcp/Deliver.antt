-- ===== src/Tcp/Deliver.antt =====
-- Whole streams through `tcp_order`.
use mathlib.Core.List.{append_assoc, append-nil}
use mathlib.Core.Option
use monitoring_tool.Prelude.{
  ℕ, ◌^◌, ◌<◌, ◌≡◌, refl, sym, ap, ◌∙◌, Bool, true, false, not, Option, some, List, [], ◌∷◌, ◌++◌,
  arith,
}
use monitoring_tool.Order.{Seq, Order, order_new}
use monitoring_tool.Tcp.{
  Placed, order_stream, at_end, tcp_order, tcp_order_check, check_list, check_from,
}
use monitoring_tool.Tcp.Cursors.{LastIn}
use monitoring_tool.Tcp.Advance.{IsValid, Advance, side, last_of, tcp_order-Advances}
use monitoring_tool.Tcp.Stream.{IsStream, end_of, end_of-le, order_stream-run}

-- The records of one direction, one call of `tcp_order` after another.
unfoldable pub deliver : (src : Bool) → Order → List Seq → Option Order
deliver src o [] = some o
deliver src o (s ∷ ss) = Option.bind (tcp_order o s src) (λ (r : Order × ℕ). deliver src r.0 ss)

-- The list of the direction is the one that `order_stream` leaves.
pub side-tcp_order :
    (o : Order) (new : Seq) (src : Bool) {o' : Order} {code : ℕ} {p : Placed}
    → tcp_order o new src ≡ some (o', code)
    → order_stream (side src o) (last_of src o) new ≡ some p
    → side src o' ≡ p.list
unfolding tcp_order
side-tcp_order o new true e f = ground arith
side-tcp_order o new false e f = ground arith

pub LastIn-side : (o : Order) (src : Bool) → IsValid o → LastIn (side src o) (last_of src o)
LastIn-side o true v = v.last_src
LastIn-side o false v = v.last_dst

-- A segment that continues the stream goes to the end of the list.
stream_list :
    (list : List Seq) (last : Option ℕ) (new : Seq) (x : ℕ)
    → LastIn list last
    → IsStream x (list ++ new ∷ [])
    → new.seq < 2 ^ 32
    → (p : Placed) × (order_stream list last new ≡ some p) × (p.list ≡ list ++ new ∷ [])
unfolding order_stream
stream_list [] last new x valid run word = (at_end [] new, refl, refl)
stream_list (first ∷ rest) last new x valid run word =
    let (front, next) = split (first ∷ rest) x run in
    order_stream-run first rest last new x front next word valid
  where
    split :
        (l : List Seq) (y : ℕ) → IsStream y (l ++ new ∷ []) → IsStream y l × (end_of y l ≡ new.seq)
    split [] y h = (tt, sym h.0)
    split (s ∷ ss) y h = let (front, next) = split ss s.nxt_seq h.2 in ((h.0, h.1, front), next)

-- The other direction after a call.
other_side :
    (o : Order) (new : Seq) (src : Bool) (o' : Order) (code : ℕ)
    → Advance o new src o' code
    → side (not src) o' ≡ side (not src) o
other_side o new src o' code (Advance.resent c e) = ap (side (not src)) e
other_side o new src o' code (Advance.inserted f b q c s l k same m n r) = same

record Continues (o : Order) (new : Seq) (src : Bool) : Type 0 where
  after : Order
  code : ℕ
  returns : tcp_order o new src ≡ some (after, code)
  valid : IsValid after
  grown : side src after ≡ side src o ++ new ∷ []
  other : side (not src) after ≡ side (not src) o

continue_stream :
    (o : Order) (new : Seq) (src : Bool) (x : ℕ)
    → IsValid o
    → IsStream x (side src o ++ new ∷ [])
    → new.seq < 2 ^ 32
    → Continues o new src
continue_stream o new src x v run word =
    let a = tcp_order-Advances o new src v in
    let (p, e, l) = stream_list (side src o) (last_of src o) new x (LastIn-side o src v) run word in
    record {
      after = a.after;
      code = a.code;
      returns = a.returns;
      valid = a.valid;
      grown = side-tcp_order o new src a.returns e ∙ l;
      other = other_side o new src a.after a.code a.advance;
    }

-- What a delivered stream leaves.
pub record Delivered (src : Bool) (o : Order) (ss : List Seq) : Type 0 where
  pub after : Order
  pub returns : deliver src o ss ≡ some after
  pub kept : side src after ≡ side src o ++ ss
  pub other : side (not src) after ≡ side (not src) o
  pub valid : IsValid after

IsStream-head :
    (l : List Seq) (s : Seq) (ss : List Seq) (x : ℕ)
    → IsStream x (l ++ (s ∷ ss))
    → end_of x (l ++ (s ∷ ss)) < 2 ^ 32
    → IsStream x (l ++ s ∷ []) × (s.seq < 2 ^ 32)
IsStream-head [] s ss x h word = ((h.0, h.1, tt), omega (arith, end_of-le s.nxt_seq ss h.2))
IsStream-head (t ∷ l) s ss x h word =
    let (front, small) = IsStream-head l s ss t.nxt_seq h.2 word in ((h.0, h.1, front), small)

Delivered-stream :
    (src : Bool) (o : Order) (ss : List Seq) (x : ℕ)
    → IsValid o
    → IsStream x (side src o ++ ss)
    → end_of x (side src o ++ ss) < 2 ^ 32
    → Delivered src o ss
unfolding deliver Option.bind
Delivered-stream src o [] x v run word = record {
  after = o;
  returns = refl;
  kept = sym (append-nil (side src o));
  other = refl;
  valid = v;
}
Delivered-stream src o (s ∷ ss) x v run word =
    let (one, small) = IsStream-head (side src o) s ss x run word in
    let c = continue_stream o s src x v one small in
    let joined : side src c.after ++ ss ≡ side src o ++ (s ∷ ss) =
      ap (λ (l : List Seq). l ++ ss) c.grown ∙ append_assoc (side src o) (s ∷ []) ss in
    let d = Delivered-stream src c.after ss x c.valid (rw joined run) (rw joined word) in
    record {
      after = d.after;
      returns = rw c.returns d.returns;
      kept = d.kept ∙ joined;
      other = d.other ∙ c.other;
      valid = d.valid;
    }

-- A fresh order is valid.
order_new-IsValid : IsValid order_new
order_new-IsValid = record { last_src = tt; last_dst = tt; counted = omega arith }

check_from-stream : (s : Seq) (ss : List Seq) → IsStream s.nxt_seq ss → check_from s ss ≡ true
unfolding check_from
check_from-stream s [] h = refl
check_from-stream s (t ∷ ts) h = ground (arith, check_from-stream t ts h.2)

check_list-stream : (ss : List Seq) (x : ℕ) → IsStream x ss → check_list ss ≡ true
unfolding check_list
check_list-stream [] x h = refl
check_list-stream (s ∷ ss) x h = check_from-stream s ss h.2

check-stream :
    (src : Bool) (o : Order) (ss : List Seq) (x : ℕ)
    → IsStream x ss
    → side src o ≡ ss
    → side (not src) o ≡ []
    → tcp_order_check (some o) ≡ true
unfolding tcp_order_check
check-stream true o ss x h e f =
    rw (e, f) (rw (check_list-stream ss x h) (unfold check_list in refl))
check-stream false o ss x h e f =
    rw (e, f) (rw (check_list-stream ss x h) (unfold check_list in refl))

-- Segments that arrive in order, without a gap and below the wrap-around, are all linked in the order
-- of their arrival: a fresh order that was given them in one direction holds exactly them there and
-- nothing in the other direction, and `tcp_order_check` accepts it.
pub deliver-stream :
    (src : Bool) (ss : List Seq) (x : ℕ)
    → IsStream x ss
    → end_of x ss < 2 ^ 32
    → (o : Order) × (deliver src order_new ss ≡ some o)
      × (side src o ≡ ss)
      × (side (not src) o ≡ [])
      × (tcp_order_check (some o) ≡ true)
deliver-stream true ss x run word =
    let d = Delivered-stream true order_new ss x order_new-IsValid run word in
    (d.after, d.returns, d.kept, d.other, check-stream true d.after ss x run d.kept d.other)
deliver-stream false ss x run word =
    let d = Delivered-stream false order_new ss x order_new-IsValid run word in
    (d.after, d.returns, d.kept, d.other, check-stream false d.after ss x run d.kept d.other)
