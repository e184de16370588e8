-- ===== src/Flow/Settles.antt =====
-- `Flow::add_packet`, src/flow.cpp, on all its branches.
use Prim.Native.Nat.{bit_and}
use monitoring_tool.Prelude.{
  ℕ, ◌+◌, ◌^◌, ◌<◌, ◌≡◌, refl, sym, Bool, true, false, Option, some, List, [], ◌∷◌, ◌++◌, arith,
  ltb, ◌==◌, if◌then◌else◌, Bool-cases, inl, inr,
}
use monitoring_tool.Prelude.Partial.{◌>>=◌}
use monitoring_tool.Packet.{Packet, th_fin, th_syn, th_rst}
use monitoring_tool.Order.SeqPkt.{has_bit, flag_mask}
use monitoring_tool.Flow.{
  Flow, Added, Ending, stays, dropped, finished, reset, hook_packet, cal_and_free, add_data,
  add_syn, add_other, add_rst, add_fin, add_packet, synchronised, closed,
}
use monitoring_tool.Flow.Owns.{
  IsFlow, Settled, is_dropped, hook-shape, cal_packet-Calculated, times, times-append, held,
  remaining, ending_of,
}

-- Both branches of a test.
either_branch :
    (f : Flow) (ptr : ℕ) (ending : Ending) (b : Bool) (x y : Option Added)
    → (b ≡ true → Settled f ptr ending x)
    → (b ≡ false → Settled f ptr ending y)
    → Settled f ptr ending (if b then x else y)
either_branch f ptr ending true x y h k = h refl
either_branch f ptr ending false x y h k = k refl

-- The flow `g`, made of `f` by freeing `freed`, takes the packet and then frees it.
cal_and_free-Settled :
    (now : ℕ × ℕ) (f g : Flow) (freed : List ℕ) (ptr : ℕ) (p : Packet) (src : Bool)
    (ending : Ending)
    → IsFlow g
    → ((x : ℕ) → times x (freed ++ held g) ≡ times x (held f))
    → (remaining ending ≡ held)
    → is_dropped ending ≡ false
    → Settled f ptr ending (cal_and_free now g freed ptr p src ending)
unfolding cal_and_free
cal_and_free-Settled now f g freed ptr p src ending h same rest kept =
    let c = cal_packet-Calculated now g (record p { type = 0 }) src h.order in
    record {
      after = record {
        flow = c.after;
        freed = freed ++ ptr ∷ [];
        ending = ending;
        code = 0;
        reads_deleted = false;
      };
      returns = rw c.returns;
      valid = record { order = c.order; src = rw c.src h.src; dst = rw c.dst h.dst };
      owned = λ x.
          rw (rest, c.src, c.dst)
            (ground (
              arith,
              same x,
              times-append x freed (held g),
              times-append x (freed ++ ptr ∷ []) (held g),
              times-append x freed (ptr ∷ []),
            ));
      ends = refl;
      reads = sym kept;
    }

-- `close` is not looked at.
closed-Settled :
    (f : Flow) (ptr : ℕ) (made : Option Added)
    → Settled f ptr finished made
    → Settled f ptr finished (made >>= λ r. some (closed r))
closed-Settled f ptr made s = record {
  after = closed s.after;
  returns = rw s.returns;
  valid = record { order = s.valid.order; src = s.valid.src; dst = s.valid.dst };
  owned = s.owned;
  ends = s.ends;
  reads = s.reads;
}

module _ (now : ℕ × ℕ) (f : Flow) (ptr : ℕ) (p : Packet) (h : IsFlow f) where
  add_rst-Settled :
      (src : Bool)
      → Settled f ptr (if ltb f.pkts_src 4 then dropped else finished) (add_rst now f ptr p src)
  unfolding add_rst
  add_rst-Settled src = elim (Bool-cases (ltb f.pkts_src 4)) [
    | inl few ↦ rw few (record {
      after = record {
        flow = f;
        freed = ptr ∷ held f;
        ending = dropped;
        code = 1;
        reads_deleted = true;
      };
      returns = refl;
      valid = h;
      owned = λ x. ground (arith, times-append x (ptr ∷ held f) []);
      ends = refl;
      reads = refl;
    })
    | inr many ↦ rw many (
        closed-Settled f ptr (cal_and_free now f [] ptr p src finished)
          (cal_and_free-Settled now f f [] ptr p src finished h (λ x. refl) refl refl))
  ]

  add_fin-Settled : (src : Bool) → Settled f ptr finished (add_fin now f ptr p src)
  unfolding add_fin
  add_fin-Settled src =
      let g : Flow = record f { close = if src then 1 else 2 } in
      closed-Settled f ptr (cal_and_free now g [] ptr p src finished) (
        cal_and_free-Settled now f g [] ptr p src finished
          (record { order = h.order; src = h.src; dst = h.dst }) (λ x. refl) refl refl)

  add_syn-Settled : Settled f ptr stays (add_syn now f ptr p)
  unfolding add_syn reset
  add_syn-Settled = elim (Bool-cases (f.pkts_src == 0)) [
    | inl first ↦ rw first (
        cal_and_free-Settled now f (synchronised f p) [] ptr p true stays
          (record { order = h.order; src = h.src; dst = h.dst }) (λ x. refl) refl refl)
    | inr repeated ↦ rw repeated (
        cal_and_free-Settled now f (synchronised (reset f).0 p) (reset f).1 ptr p true stays
          (record {
            order = record { last_src = tt; last_dst = tt; counted = omega arith };
            src = record { n = refl; end = refl };
            dst = record { n = refl; end = refl };
          })
          (λ x. omega (arith, times-append x (held f) [])) refl refl)
  ]

  -- A hooked packet takes the last place of its direction.
  hook_packet-IsFlow :
      (src : Bool)
      → f.pkt_src.n + 1 < 2 ^ 32
      → f.pkt_dst.n + 1 < 2 ^ 32
      → (g : Flow) × (hook_packet f ptr src ≡ some g)
        × IsFlow g
        × ((x : ℕ) → times x (held g) ≡ times x (ptr ∷ held f))
  unfolding hook_packet
  hook_packet-IsFlow true fits_src fits_dst =
      let (c, hooked, valid, grown) =
        hook-shape f.pkt_src.first f.pkt_src ptr refl h.src fits_src in
      (
        record f { pkt_src = c },
        rw hooked,
        record { order = h.order; src = valid; dst = h.dst },
        λ x. rw grown (
            ground (
              arith,
              times-append x f.pkt_dst.first (f.pkt_src.first ++ ptr ∷ []),
              times-append x f.pkt_dst.first f.pkt_src.first,
              times-append x f.pkt_src.first (ptr ∷ []),
            )),
      )
  hook_packet-IsFlow false fits_src fits_dst =
      let (c, hooked, valid, grown) =
        hook-shape f.pkt_dst.first f.pkt_dst ptr refl h.dst fits_dst in
      (
        record f { pkt_dst = c },
        rw hooked,
        record { order = h.order; src = h.src; dst = valid },
        λ x. rw grown (
            ground (
              arith,
              times-append x (f.pkt_dst.first ++ ptr ∷ []) f.pkt_src.first,
              times-append x f.pkt_dst.first f.pkt_src.first,
              times-append x f.pkt_dst.first (ptr ∷ []),
            )),
      )

  module _ (src : Bool) (fits_src : f.pkt_src.n + 1 < 2 ^ 32)
      (fits_dst : f.pkt_dst.n + 1 < 2 ^ 32) where
    add_data-Settled : Settled f ptr stays (add_data now f ptr p src)
    unfolding add_data
    add_data-Settled =
        either_branch f ptr stays (p.type == 0) _ _
          (λ bare. cal_and_free-Settled now f f [] ptr p src stays h (λ x. refl) refl refl)
          (λ loaded.
            let (g, hooked, valid, grown) = hook_packet-IsFlow src fits_src fits_dst in
            let c = cal_packet-Calculated now g p src valid.order in
            record {
              after = record {
                flow = c.after;
                freed = [];
                ending = stays;
                code = 0;
                reads_deleted = false;
              };
              returns = rw (hooked, c.returns);
              valid = record {
                order = c.order;
                src = rw c.src valid.src;
                dst = rw c.dst valid.dst;
              };
              owned = λ x. rw (c.src, c.dst) (grown x);
              ends = refl;
              reads = refl;
            })

module _ (now : ℕ × ℕ) (f : Flow) (ptr : ℕ) (p : Packet) (h : IsFlow f)
    (fits_src : f.pkt_src.n + 1 < 2 ^ 32) (fits_dst : f.pkt_dst.n + 1 < 2 ^ 32) where
  add_other-Settled : (src : Bool) → Settled f ptr stays (add_other now f ptr p src)
  unfolding add_other
  add_other-Settled true = elim (Bool-cases (p.tcp_flags == th_syn)) [
    | inl syn ↦ rw syn (add_syn-Settled now f ptr p h)
    | inr other ↦ rw other (add_data-Settled now f ptr p h true fits_src fits_dst)
  ]
  add_other-Settled false = add_data-Settled now f ptr p h false fits_src fits_dst

  -- A packet added to a well-formed flow, one whose chains are counted below 2 ^ 32 - 1, never makes
  -- `add_packet` follow a bad pointer but where it deletes the flow, which it reads afterwards to unlock
  -- the mutex of the bucket, and leaves the flow well-formed. Each packet, the new one and those that the
  -- flow held, is afterwards either in a chain or freed, and only once, where a flow that is deleted holds
  -- none. The flow is deleted on an RST before its fourth packet from the source, put into the flow queue
  -- on a later RST and on the first FIN of either side, and otherwise stays.
  pub add_packet-Settled : (src : Bool) → Settled f ptr (ending_of f p) (add_packet now f ptr p src)
  unfolding add_packet
  add_packet-Settled src = elim (Bool-cases (has_bit 2 p.tcp_flags)) [
    | inl rst ↦ rw rst (
        either_branch f ptr _ (bit_and p.tcp_flags th_rst == th_rst) _ _
          (λ is_set. add_rst-Settled now f ptr p h src)
          (λ unset. absurd (ground (arith, flag_mask 2 p.tcp_flags))))
    | inr no_rst ↦ rw no_rst (
        either_branch f ptr _ (bit_and p.tcp_flags th_rst == th_rst) _ _
          (λ is_set. absurd (ground (arith, flag_mask 2 p.tcp_flags)))
          (λ unset. elim (Bool-cases (has_bit 0 p.tcp_flags)) [
            | inl fin ↦ rw fin (
                either_branch f ptr finished (bit_and p.tcp_flags th_fin == th_fin) _ _
                  (λ is_set. add_fin-Settled now f ptr p h src)
                  (λ unset'. absurd (ground (arith, flag_mask 0 p.tcp_flags))))
            | inr no_fin ↦ rw no_fin (
                either_branch f ptr stays (bit_and p.tcp_flags th_fin == th_fin) _ _
                  (λ is_set. absurd (ground (arith, flag_mask 0 p.tcp_flags)))
                  (λ unset'. add_other-Settled src))
          ]))
  ]
