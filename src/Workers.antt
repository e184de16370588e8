-- ===== src/Workers.antt =====
-- The threads of an analysis, c-http-sniffer/src/main.c: `capture_main`, `process_packet`,
-- `process_packet_queue`, `process_flow_queue` and `scrubbing_flow_htbl`. A loop is given the turns that
-- it takes: what the other threads put into the queues before and in each, and what `isStopped` answers.
-- What a thread calls on an element is a parameter, with the state that it changes. `none` is an access
-- through NULL or outside of a frame.
pub mod Drains
pub mod Rounds
pub mod Captures
pub mod Tests
use monitoring_tool.Prelude.{
  ℕ, suc, ◌+◌, ◌%◌, ◌^◌, Bool, true, false, Option, none, some, List, [], ◌∷◌, ltb, leb, ◌==◌,
  if◌then◌else◌, map, length, take,
}
use monitoring_tool.Prelude.Partial.{◌>>=◌}
use monitoring_tool.Queue.{Queue, enq, deq}

-- Whether the loop has been left, or goes on after the turns.
pub data Status : Type 0 where
  left running : Status

-- What has come into the queue before `deq` of a turn, what comes between it and `isStopped`, and what that
-- answers.
pub record Turn (A : Type 0) : Type 0 where
  pub arrivals : List A
  pub between : List A
  pub stopped : Bool

-- What has come into the queue of each protocol, by its number, since its `deq` of the turn before, and
-- what `isStopped` answers.
pub record Round (A : Type 0) : Type 0 where
  pub arrivals : ℕ → List A
  pub stopped : Bool

module _ {A : Type 0} where
  unfoldable pub enq_all : Queue A → List A → Option (Queue A)
  unfolding enq
  enq_all q [] = some q
  enq_all q (x ∷ xs) = enq q x >>= λ q'. enq_all q' xs

  -- The body of the loop of `process_packet` behind `isStopped`.
  abbrev pub on_packet :
      {H R : Type 0}
      → (handle : H → A → H) → (stopped : Bool) → (leave go_on : Queue A → H → R)
      → Queue A × Option A
      → H
      → R
  on_packet handle stopped leave go_on (q, some rpkt) h = go_on q (handle h rpkt)
  on_packet handle stopped leave go_on (q, none) h = if stopped then leave q h else go_on q h

  -- `process_packet`: `packet_preprocess` handles a packet of the queue `rpq`.
  unfoldable pub process_packet :
      {H : Type 0}
      → (handle : H → A → H) → List (Turn A)
      → Queue A
      → H
      → Option (Status × Queue A × H)
  unfolding enq_all deq
  process_packet handle [] q h = some (running, q, h)
  process_packet handle (turn ∷ turns) q h = do
    q' ← enq_all q turn.arrivals
    v ← enq_all (deq q').0 turn.between
    on_packet handle turn.stopped (λ q h. some (left, q, h)) (process_packet handle turns)
        (v, (deq q').1) h

  -- The body of the loop over the protocols in `process_packet_queue` and `process_flow_queue`, on a
  -- protocol's queue and state: `add_packet`, or `extractPair`, `extractData` and `delete`.
  abbrev pub visited : {H : Type 0} → (handle : H → A → H) → Queue A × Option A → H → Queue A × H
  visited handle (q, some x) h = (q, handle h x)
  visited handle (q, none) h = (q, h)

  unfoldable pub visit : {H : Type 0} → (handle : H → A → H) → Queue A × H → Queue A × H
  unfolding deq
  visit handle (q, h) = visited handle (deq q) h

  -- What comes into the queues of the protocols from number `j` on.
  unfoldable pub enq_each :
      {H : Type 0} → (j : ℕ) → (ℕ → List A) → List (Queue A × H) → Option (List (Queue A × H))
  unfolding enq_all
  enq_each j arrivals [] = some []
  enq_each j arrivals ((q, h) ∷ protocols) = do
    q' ← enq_all q (arrivals j)
    protocols' ← enq_each (suc j) arrivals protocols
    some ((q', h) ∷ protocols')

  -- The two functions: one turn after the other, until the analysis is stopped.
  unfoldable pub process_queues :
      {H : Type 0}
      → (handle : H → A → H) → List (Round A)
      → List (Queue A × H)
      → Option (Status × List (Queue A × H))
  unfolding visit enq_each
  process_queues handle [] protocols = some (running, protocols)
  process_queues handle (round ∷ rounds) protocols = do
    protocols' ← enq_each 0 round.arrivals protocols
    let later = process_queues handle rounds (map (visit handle) protocols') in
        if round.stopped then some (left, protocols') else later

-- The body of the loop over the protocols in `scrubbing_flow_htbl`: with the analysis stopped the thread
-- ends behind the first. The flows of a table, and the timeout, which is `none` for -1.
unfoldable pub scrub_round :
    {H : Type 0} → (flow_scrubber : Option ℕ → H → H) → (stopped : Bool) → List H → Status × List H
scrub_round flow_scrubber stopped [] = (running, [])
scrub_round flow_scrubber stopped (table ∷ tables) =
    let (status, tables') = scrub_round flow_scrubber stopped tables in
    if stopped
    then (left, flow_scrubber none table ∷ tables)
    else (status, flow_scrubber (some 600) table ∷ tables')

-- What `pcap_next` answers, `none` is NULL, with the length in the frame's header; and `isStopped`.
pub record Capture : Type 0 where
  pub raw : Option (List ℕ)
  pub len : ℕ
  pub stopped : Bool

-- `memcpy` of `len` bytes of the frame.
abbrev pub copy : (len : ℕ) → (raw : List ℕ) → Option (List ℕ)
copy len raw = if leb len (length raw) then some (take len raw) else none

-- What `capture_main` has changed: the queue `rpq`, the count `pak`, and whether it has called `stop`.
pub record Captured : Type 0 where
  pub rpq : Queue (List ℕ)
  pub pak : ℕ
  pub has_stopped : Bool

-- The rest of the body of the loop, behind its two `continue`s and `isStopped`. `pak` is an int as its 32
-- bits.
abbrev pub keep_frame : (livemode : Bool) → Option (List ℕ) → (len : ℕ) → Captured → Option Captured
keep_frame livemode (some raw) len c = do
  r ← copy len raw
  q ← enq c.rpq r
  some (record c { rpq = q; pak = (c.pak + 1) % 2 ^ 32 })
keep_frame false none len c = some (record c { has_stopped = true })
keep_frame true none len c = some c

abbrev pub no_frame : Option (List ℕ) → Bool
no_frame none = true
no_frame (some raw) = false

unfoldable pub capture_main :
    (livemode : Bool) → List Capture → Captured → Option (Status × Captured)
unfolding enq
capture_main livemode [] c = some (running, c)
capture_main livemode (turn ∷ turns) c =
    let skipped = capture_main livemode turns c in
    if no_frame turn.raw
    then skipped
    else if ltb turn.len 54
    then skipped
    else if turn.stopped
    then some (left, c)
    else (keep_frame livemode turn.raw turn.len c >>= λ c'. capture_main livemode turns c')
