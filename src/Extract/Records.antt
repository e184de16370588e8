-- ===== src/Extract/Records.antt =====
-- The data of `Protocol::extractPair`: a flow's ordered records and pairs, c-http-sniffer/include/flow.hpp
-- and include/protocols/protocol.hpp, and `Flow::compare_sequence_time` of src/flow.cpp. The chain of
-- pairs is a list with `pair_e` at its end; module Pairs has the chain with its addresses. `none` is
-- NULL. Of a message only what `extractPair` reads and writes is here.
use Prim.Native.Nat.{Ordering}
use monitoring_tool.Prelude.{
  ℕ, ◌%◌, ◌^◌, ◌≡◌, Bool, ◌&&◌, ◌||◌, Option, none, some, List, ltb, ◌==◌, if◌then◌else◌,
}
use monitoring_tool.Packet.{Packet}
use monitoring_tool.Order.{Seq}

pub record Request : Type 0 where
  pub hdlen : ℕ
  pub processed : Bool
  pub seq : ℕ
  pub nxt_seq : ℕ

-- `time` and `size` are the text in the buffers of 256 bytes, without the byte 0 that ends it.
pub record Response : Type 0 where
  pub time : List ℕ
  pub size : List ℕ
  pub hdlen : ℕ
  pub processed : Bool

pub record Pair : Type 0 where
  pub request_header : Option Request
  pub response_header : Option Response
  pub req_fb_sec : ℕ
  pub req_fb_usec : ℕ
  pub req_lb_sec : ℕ
  pub req_lb_usec : ℕ
  pub rsp_fb_sec : ℕ
  pub rsp_fb_usec : ℕ
  pub rsp_lb_sec : ℕ
  pub rsp_lb_usec : ℕ
  pub req_total_len : ℕ
  pub rsp_total_len : ℕ
  pub req_body_len : ℕ
  pub rsp_body_len : ℕ

abbrev pub pair_new : Pair
pair_new = record {
  request_header = none;
  response_header = none;
  req_fb_sec = 0;
  req_fb_usec = 0;
  req_lb_sec = 0;
  req_lb_usec = 0;
  rsp_fb_sec = 0;
  rsp_fb_usec = 0;
  rsp_lb_sec = 0;
  rsp_lb_usec = 0;
  req_total_len = 0;
  rsp_total_len = 0;
  req_body_len = 0;
  rsp_body_len = 0;
}

-- `addRequest` and `addResponse` on a pair: a message that is there stays.
abbrev pub add_request : Request → Pair → Pair
add_request req p = elim p.request_header [
  | none ↦ record p { request_header = some req }
  | some r ↦ p
]

abbrev pub add_response : Response → Pair → Pair
add_response rsp p = elim p.response_header [
  | none ↦ record p { response_header = some rsp }
  | some r ↦ p
]

-- `order->src` and `order->dst`, and the fields of the flow that `extractPair` changes.
pub record Flow : Type 0 where
  pub src : List Seq
  pub dst : List Seq
  pub init : Bool
  pub fb_sec : ℕ
  pub fb_usec : ℕ
  pub lb_sec : ℕ
  pub lb_usec : ℕ
  pub pair_f : List Pair

-- The virtual functions of a protocol that parse a packet's payload: `getRequest`, with the numbers
-- that it stores, and `getResponse`, with the acknowledgement number.
pub record MessageParser : Type 0 where
  pub get_request : Packet → (seq nxt_seq : ℕ) → Request
  pub get_response : Packet → (ack : ℕ) → Response
  pub keeps_nxt_seq : (p : Packet) (s n : ℕ) → (get_request p s n).nxt_seq ≡ n

-- `lt` is -1, `eq` is 0 and `gt` is 1; the times are cut to 32 bits.
unfoldable pub compare_sequence_time : Seq → Seq → Ordering
compare_sequence_time seq1 seq2 =
    let sec1 = seq1.cap_sec % 2 ^ 32 in
    let usec1 = seq1.cap_usec % 2 ^ 32 in
    let sec2 = seq2.cap_sec % 2 ^ 32 in
    let usec2 = seq2.cap_usec % 2 ^ 32 in
    if ltb sec2 sec1 || (sec1 == sec2 && ltb usec2 usec1)
    then Ordering.gt
    else if ltb sec1 sec2 || (sec1 == sec2 && ltb usec1 usec2)
    then Ordering.lt
    else Ordering.eq

abbrev pub is_before : Seq → Seq → Bool
is_before seq1 seq2 = elim (compare_sequence_time seq1 seq2) [
  | Ordering.lt ↦ Bool.true
  | _ ↦ Bool.false
]

-- "Update flow's last byte time": by the record's, where it is later.
abbrev pub last_byte : Seq → (lb_sec lb_usec : ℕ) → ℕ × ℕ
last_byte s sec usec =
    if ltb sec s.cap_sec || (s.cap_sec == sec && ltb usec s.cap_usec)
    then (s.cap_sec, s.cap_usec)
    else (sec, usec)
