-- ===== src/FlowTable/Lookup.antt =====
-- How often a socket stands in the table.
use native.Mathlib.Numerals.{add-one}
use monitoring_tool.Prelude.{
  ℕ, zero, suc, ◌+◌, ◌≤◌, ◌<◌, ◌≡◌, ◌↔◌, refl, true, none, some, List, [], ◌∷◌, ◌++◌, arith, ltb,
  if◌then◌else◌, length, get_elem?, set, take, drop, Bool-cases, Option-cases, inl, inr,
}
use monitoring_tool.Bucket.Shape.{IsBucket}
use monitoring_tool.FlowTable.{
  FlowSocket, OpenFlow, FlowTable, hash_flow, same_socket, find_flow, find_open, reverse_socket,
}

pub same_socket_iff : (s r : FlowSocket) → (same_socket s r ≡ true) ↔ (s ≡ r)
same_socket_iff s r = ground arith

-- The flows of a chain that have a socket.
abbrev pub occurs : FlowSocket → List OpenFlow → ℕ
occurs s [] = 0
occurs s (e ∷ es) = if same_socket e.socket s then suc (occurs s es) else occurs s es

-- The flows of a table that have a socket.
abbrev pub occurs_in : FlowTable → FlowSocket → ℕ
occurs_in t s = occurs s (t.flow_hash_table (hash_flow s)).chain

-- A connection has one flow at most, by its socket or by the reverse.
abbrev pub IsUnique : FlowTable → Type 0
IsUnique t =
    (s : FlowSocket)
    → occurs_in t s
        + (if same_socket s (reverse_socket s) then 0 else occurs_in t (reverse_socket s))
      ≤ 1

pub occurs-append :
    (s : FlowSocket) (es fs : List OpenFlow) → occurs s (es ++ fs) ≡ occurs s es + occurs s fs
occurs-append s [] fs = omega arith
occurs-append s (e ∷ es) fs = ground (arith, occurs-append s es fs)

pub occurs-find_none :
    (s : FlowSocket) (es : List OpenFlow) → find_flow es s ≡ none → occurs s es ≡ 0
unfolding find_flow
occurs-find_none s [] h = refl
occurs-find_none s (e ∷ es) h = elim (Option-cases (find_flow es s)) [
  | inl absent ↦ ground (arith, occurs-find_none s es absent)
  | inr (i, found) ↦ absurd (ground arith)
]

-- What a search finds: a flow with that socket, at a position of the chain.
pub find_flow-some :
    (es : List OpenFlow) (s : FlowSocket) (i : ℕ)
    → find_flow es s ≡ some i
    → (e : OpenFlow) × (get_elem? es i ≡ some e)
      × (e.socket ≡ s)
      × (i < length es)
      × (1 ≤ occurs s es)
unfolding find_flow
find_flow-some [] s i h = absurd (ground arith)
find_flow-some (e ∷ es) s i h = elim (Bool-cases (same_socket e.socket s)) [
  | inl here ↦
      let first : i ≡ 0 = ground arith in
      (
        e,
        rw first refl,
        (same_socket_iff e.socket s).0 here,
        rw first (omega arith),
        rw here (omega arith),
      )
  | inr elsewhere ↦ elim (Option-cases (find_flow es s)) [
    | inl absent ↦ absurd (ground arith)
    | inr (j, found) ↦
        let (e', got, same, within, more) = find_flow-some es s j found in
        let next : i ≡ suc j = ground arith in
        (e', rw next got, same, rw next (omega (arith, within)), rw elsewhere more)
  ]
]

pub occurs-set :
    (s : FlowSocket) (es : List OpenFlow) (i : ℕ) (e e' : OpenFlow)
    → get_elem? es i ≡ some e
    → e'.socket ≡ e.socket
    → occurs s (set es i e') ≡ occurs s es
occurs-set s [] i e e' h same = refl
occurs-set s (x ∷ es) zero e e' h same = ground arith
occurs-set s (x ∷ es) (suc i) e e' h same = ground (arith, occurs-set s es i e e' h same)

occurs-drop-le :
    (s : FlowSocket) (es : List OpenFlow) (i : ℕ)
    → occurs s (take i es ++ drop (suc i) es) ≤ occurs s es
occurs-drop-le s [] zero = omega arith
occurs-drop-le s [] (suc i) = omega arith
occurs-drop-le s (x ∷ es) zero = ground arith
occurs-drop-le s (x ∷ es) (suc i) = ground (arith, occurs-drop-le s es i)

pub occurs-remove-le :
    (s : FlowSocket) (es : List OpenFlow) (i : ℕ)
    → occurs s (take i es ++ drop (i + 1) es) ≤ occurs s es
occurs-remove-le s es i = rw add-one (occurs-drop-le s es i)

-- The search of a well-formed bucket is the walk along its chain.
pub find_open-find_flow :
    (t : FlowTable) (s : FlowSocket)
    → IsBucket (t.flow_hash_table (hash_flow s))
    → find_open t s ≡ find_flow (t.flow_hash_table (hash_flow s)).chain s
unfolding find_open find_flow
find_open-find_flow t s h =
    go (t.flow_hash_table (hash_flow s)).chain (t.flow_hash_table (hash_flow s)).elm_cnt h.elm_cnt
  where
    go :
        (chain : List OpenFlow) (n : ℕ)
        → n ≡ length chain
        → (if ltb 0 n then find_flow chain s else none) ≡ find_flow chain s
    go [] n e = ground arith
    go (x ∷ xs) n e = ground arith
