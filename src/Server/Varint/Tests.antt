-- ===== src/Server/Varint/Tests.antt =====
-- Runs of the length prefix, and its theorems at them.
use monitoring_tool.Prelude.{
  ℕ, ◌+◌, ◌-◌, ◌^◌, ◌≡◌, refl, none, some, List, [], ◌∷◌, ◌++◌, arith, ltb, if◌then◌else◌, length,
}
use monitoring_tool.Server.Varint.{decode_varint, encode_varint}
use monitoring_tool.Server.Varint.RoundTrip.{decode_varint-encode_varint}

three_hundred : encode_varint 10 300 ≡ some (172 ∷ 2 ∷ [], 2)
unfolding encode_varint
three_hundred = refl

decode_varint-encode_varint_example :
    (bytes : List ℕ) × (encode_varint 10 300 ≡ some (bytes, length bytes))
    × (decode_varint (bytes ++ 1 ∷ 2 ∷ []) ≡ (
        if ltb 300 (2 ^ 31)
        then some (300, 1 ∷ 2 ∷ [])
        else if ltb 300 (2 ^ 32)
        then some (300 + (2 ^ 64 - 2 ^ 32), 1 ∷ 2 ∷ [])
        else none))
decode_varint-encode_varint_example =
    decode_varint-encode_varint 10 300 (1 ∷ 2 ∷ []) (omega arith) (omega arith)
