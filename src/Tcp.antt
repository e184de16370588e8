-- ===== src/Tcp.antt =====
-- Ordering of TCP segments, c-http-sniffer/src/tcp.c: `tcp_cont_seq`, `tcp_order`, `tcp_order_check`.
-- A pointer into a chain is a cursor: the records before it, the record it points to and those after
-- it. The record that `tcp_order` is given is not linked yet. Sequence numbers and `num` are u_int32_t
-- and `tcp_dl` is u_int16_t, with their wrap-around written out; the code compares sequence numbers
-- as plain numbers.
pub mod Cursors
pub mod Insert
pub mod Advance
pub mod Stream
pub mod Deliver
pub mod Check
pub mod Ordered
pub mod Sorted
pub mod Anomalies
pub mod Tests
use monitoring_tool.Prelude.{
  ℕ, zero, suc, ◌+◌, ◌-◌, ◌%◌, ◌^◌, Bool, true, false, ◌&&◌, Option, none, some, List, [], ◌∷◌,
  ◌++◌, leb, ◌==◌, if◌then◌else◌, length,
}
use mathlib.Core.Option
use monitoring_tool.Packet.{Packet}
use monitoring_tool.Order.{Seq, Order}

pub record Cursor : Type 0 where
  pub before : List Seq
  pub here : Seq
  pub after : List Seq

abbrev pub cursor : List Seq → Seq → List Seq → Cursor
cursor b s a = record { before = b; here = s; after = a }

-- The walk to the end of the contiguous run that begins at a cursor.
pub cont_from : List Seq → Seq → List Seq → Cursor
cont_from b s [] = cursor b s []
cont_from b s (t ∷ ts) =
    let more = cont_from (b ++ s ∷ []) t ts in
    if s.nxt_seq == t.seq then more else cursor b s (t ∷ ts)

pub tcp_cont_seq : Cursor → Cursor
unfolding cont_from
tcp_cont_seq c = cont_from c.before c.here c.after

-- The record at a position, as `plist_last` points to it.
pub cursor_from : List Seq → List Seq → ℕ → Option Cursor
cursor_from b [] n = none
cursor_from b (s ∷ ss) zero = some (cursor b s ss)
cursor_from b (s ∷ ss) (suc n) = cursor_from (b ++ s ∷ []) ss n

pub cursor_at : List Seq → Option ℕ → Option Cursor
unfolding cursor_from
cursor_at ss none = none
cursor_at ss (some n) = cursor_from [] ss n

-- The search loop once `pre` has been passed: `none` at the end of the list, otherwise `pre` where
-- the next record reaches beyond `x`.
pub search_from : (x : ℕ) → List Seq → Seq → List Seq → Option Cursor
search_from x b pre [] = none
search_from x b pre (cp ∷ rest) =
    let more = search_from x (b ++ pre ∷ []) cp rest in
    if leb cp.nxt_seq x then more else some (cursor b pre (cp ∷ rest))

-- The loop from the start of the list, where `pre` and `cp` are both the first record.
pub search_position : (x : ℕ) → Seq → List Seq → Option Cursor
unfolding search_from
search_position x first rest =
    if leb first.nxt_seq x then search_from x [] first rest else some (cursor [] first rest)

-- "adjust the packet": the first bytes, already seen up to `bk`, are cut off.
pub trim_front : (bk : ℕ) → Seq → Seq
trim_front bk new =
    let delta = ((new.nxt_seq + 2 ^ 32 - 1) % 2 ^ 32 + 2 ^ 32 - bk) % 2 ^ 32 in
    record new {
      pkt =
          Option.map
            (λ (p : Packet). record p {
              tcp_data =
                  Option.map (λ (d : ℕ). d + (p.tcp_dl + 2 ^ 32 - delta) % 2 ^ 32) p.tcp_data;
              tcp_dl = delta % 2 ^ 16;
            })
            new.pkt;
      seq = (bk + 1) % 2 ^ 32;
    }

-- "partially overlapped": the bytes from the follower `aft` on are cut off.
pub trim_back : (aft : Seq) → Seq → Seq
trim_back aft new = record new {
  pkt =
      Option.map
        (λ (p : Packet). record p {
          tcp_dl = (p.tcp_dl + 2 ^ 32 - (new.nxt_seq - aft.seq)) % 2 ^ 32 % 2 ^ 16;
        })
        new.pkt;
  nxt_seq = aft.seq;
}

-- What `tcp_order` leaves of a direction: the list, the position of `last`, whether `num` is counted
-- up, and the value returned.
pub record Placed : Type 0 where
  pub list : List Seq
  pub last : Option ℕ
  pub counted : Bool
  pub code : ℕ

-- The new record behind the cursor.
abbrev pub link : Cursor → Seq → List Seq
link c new = c.before ++ (c.here ∷ new ∷ c.after)

abbrev pub linked : Cursor → Seq → Placed
linked c new = record {
  list = link c new;
  last = some (length c.before + 1);
  counted = true;
  code = 0;
}

-- The new record in front of a follower, cut where it reaches into it.
pub connect : Cursor → (aft : Seq) → Seq → Placed
unfolding trim_back
connect c aft new = if leb new.nxt_seq aft.seq then linked c new else linked c (trim_back aft new)

-- The two ends of the overlapping branch: at the end of the list `num` is left alone.
pub overlap : Cursor → List Seq → Seq → Placed
unfolding connect
overlap c [] new = record (linked c new) { counted = false }
overlap c (aft ∷ _) new = connect c aft new

-- The same without an overlap: at the end of the list `last` is left alone, too.
pub append_after : Option ℕ → Cursor → List Seq → Seq → Placed
unfolding connect
append_after last c [] new = record { list = link c new; last = last; counted = false; code = 0 }
append_after last c (aft ∷ _) new = connect c aft new

-- "add new seq to the right position": `fr` is the start of the run, `c` its last record.
pub place : List Seq → Option ℕ → (fr : ℕ) → Cursor → Seq → Placed
unfolding trim_front overlap append_after
place list last fr c new =
    let bk = (c.here.nxt_seq + 2 ^ 32 - 1) % 2 ^ 32 in
    if leb fr new.seq && leb new.seq bk
    then (if leb ((new.nxt_seq + 2 ^ 32 - 1) % 2 ^ 32) bk
        then record { list = list; last = last; counted = false; code = 1 }
        else overlap c c.after (trim_front bk new))
    else append_after last c c.after new

-- At the end of the list.
abbrev pub at_end : List Seq → Seq → Placed
at_end list new = record {
  list = list ++ new ∷ [];
  last = some (length list);
  counted = true;
  code = 0;
}

pub place_search : List Seq → Option ℕ → Option Cursor → Seq → Placed
unfolding place tcp_cont_seq
place_search list last none new = at_end list new
place_search list last (some pre) new = place list last pre.here.seq (tcp_cont_seq pre) new

-- One direction of `tcp_order`. `none`: `plist_last` is followed where it points to no record.
pub order_stream : List Seq → Option ℕ → Seq → Option Placed
unfolding cursor_at place place_search search_position tcp_cont_seq
order_stream [] last new = some (at_end [] new)
order_stream (first ∷ rest) last new =
    Option.map
      (λ (l : Cursor).
        if l.here.nxt_seq == new.seq
        then place (first ∷ rest) last l.here.seq (tcp_cont_seq l) new
        else place_search (first ∷ rest) last (search_position new.seq first rest) new)
      (cursor_at (first ∷ rest) last)

abbrev pub counted_num : Order → Placed → ℕ
counted_num ord p = if p.counted then (ord.num + 1) % 2 ^ 32 else ord.num

-- The order afterwards and the value returned.
unfoldable pub tcp_order : Order → Seq → (src : Bool) → Option (Order × ℕ)
unfolding order_stream
tcp_order ord new true =
    Option.map
      (λ (p : Placed).
        (record ord { src = p.list; last_src = p.last; num = counted_num ord p }, p.code))
      (order_stream ord.src ord.last_src new)
tcp_order ord new false =
    Option.map
      (λ (p : Placed).
        (record ord { dst = p.list; last_dst = p.last; num = counted_num ord p }, p.code))
      (order_stream ord.dst ord.last_dst new)

-- `tcp_order_check`: each list is a single contiguous run.
pub check_from : Seq → List Seq → Bool
check_from ps [] = true
check_from ps (t ∷ ts) = ps.nxt_seq == t.seq && check_from t ts

pub check_list : List Seq → Bool
unfolding check_from
check_list [] = true
check_list (s ∷ ss) = check_from s ss

-- `none` is a NULL order.
unfoldable pub tcp_order_check : Option Order → Bool
unfolding check_list
tcp_order_check none = false
tcp_order_check (some o) = check_list o.src && check_list o.dst
