-- ===== src/Extract/Fins.antt =====
-- The first part of `Protocol::extractPair`, c-http-sniffer/src/protocols/protocol.cpp: the time of the
-- flow's first byte, and the record with the FIN flag that ends the walks.
use Prim.Native.Nat.{bit_and, Ordering}
use monitoring_tool.Prelude.{
  ℕ, suc, Bool, true, false, not, Option, none, some, List, [], ◌∷◌, ◌==◌, if◌then◌else◌,
}
use monitoring_tool.Order.{Seq}
use monitoring_tool.Extract.Records.{Flow, compare_sequence_time}

-- `seq->th_flags & TH_FIN == TH_FIN`, which compares first: `TH_FIN == TH_FIN` is 1.
abbrev pub has_fin : Seq → Bool
has_fin s = not (bit_and s.th_flags 1 == 0)

-- `fin_seq`: in which list the record is, at which position, and the record.
pub record Fin : Type 0 where
  pub in_src : Bool
  pub position : ℕ
  pub seq : Seq

-- The search in one list.
unfoldable pub find_fin : (in_src : Bool) (position : ℕ) → List Seq → Option Fin
find_fin in_src n [] = none
find_fin in_src n (s ∷ seqs) =
    let later = find_fin in_src (suc n) seqs in
    if has_fin s then some (record { in_src = in_src; position = n; seq = s }) else later

-- The first record with a packet that the search in `src` visits.
unfoldable pub first_payload : List Seq → Option Seq
first_payload [] = none
first_payload (s ∷ seqs) =
    let later = first_payload seqs in
    elim s.pkt [ some p ↦ some s | none ↦ if has_fin s then none else later ]

-- The flow behind the search in `src`.
unfoldable pub set_first_byte : Flow → Flow
unfolding first_payload
set_first_byte f = if f.init then f else elim (first_payload f.src) [
  | none ↦ f
  | some s ↦ record f { fb_sec = s.cap_sec; fb_usec = s.cap_usec; init = true }
]

-- The earlier of the two, that of `src` where they are equal.
abbrev pub earlier_fin : (src_fin_seq dst_fin_seq : Option Fin) → Option Fin
earlier_fin none none = none
earlier_fin (some a) none = some a
earlier_fin none (some b) = some b
earlier_fin (some a) (some b) = elim (compare_sequence_time a.seq b.seq) [
  | Ordering.gt ↦ some b
  | _ ↦ some a
]

unfoldable pub fin_seq : (src dst : List Seq) → Option Fin
unfolding find_fin
fin_seq src dst = earlier_fin (find_fin true 0 src) (find_fin false 0 dst)
