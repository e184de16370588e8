-- ===== src/Server/Varint.antt =====
-- The length prefix of the server's messages, c-http-sniffer/src/server.c: `decode_varint` reads it
-- from the socket and `encode_varint` writes it into a buffer. A socket is the list of the bytes
-- that its peer sends before it closes; `recv` of one byte takes the first. An uint8_t, a size_t and
-- an uint64_t are numbers.
pub mod Encode
pub mod RoundTrip
pub mod Truncated
pub mod Tests
use Prim.Native.Nat.{bit_and, bit_or}
use monitoring_tool.Prelude.{
  ℕ, zero, suc, ◌+◌, ◌-◌, ◌*◌, ◌/◌, ◌^◌, ◌<◌, Option, none, some, List, [], ◌∷◌, ◌++◌, ltb, ◌==◌,
  if◌then◌else◌,
}

-- The C++ expression `x << s` for a non-negative `int` x, converted to the 64-bit size_t that it is
-- joined to. `none`: the behaviour is undefined (the count reaches the width of int, or a bit leaves
-- the word). A result that fills the sign bit is a negative int, and the conversion extends it.
shift_int : ℕ → ℕ → Option ℕ
shift_int x s =
    if ltb s 32
    then (if ltb (x * 2 ^ s) (2 ^ 31)
        then some (x * 2 ^ s)
        else if ltb (x * 2 ^ s) (2 ^ 32)
        then some (2 ^ 64 - 2 ^ 32 + x * 2 ^ s)
        else none)
    else none

-- The loop of `decode_varint`: `value` and `shifter` as they stand before the byte is received. An
-- end of the stream answers the value so far. The second part of the result is the unread stream.
pub decode_loop : List ℕ → ℕ → ℕ → Option (ℕ × List ℕ)
decode_loop [] value shifter = some (value, [])
decode_loop (i ∷ sock) value shifter = elim (shift_int (bit_and i 0x7f) shifter) [
  | none ↦ none
  | some group ↦
      let value' = bit_or value group in
      let more = decode_loop sock value' (shifter + 7) in
      if bit_and i 0x80 == 0 then some (value', sock) else more
]

unfoldable pub decode_varint : List ℕ → Option (ℕ × List ℕ)
unfolding decode_loop shift_int
decode_varint sock = decode_loop sock 0 0

-- The loop of `encode_varint`. `room` is what is left of the caller's buffer, `buffer` what has been
-- written and `encoded` its length. `none`: a byte is written behind the buffer.
pub encode_loop : (room : ℕ) (buffer : List ℕ) (encoded value : ℕ) → Option (List ℕ × ℕ)
encode_loop zero buffer encoded value = none
encode_loop (suc room) buffer encoded value =
    let low = bit_and value 0x7f in
    let value' = value / 2 ^ 7 in
    let next_byte = if value' == 0 then low else bit_or low 0x80 in
    let more = encode_loop room (buffer ++ next_byte ∷ []) (encoded + 1) value' in
    if value' == 0 then some (buffer ++ next_byte ∷ [], encoded + 1) else more

-- The bytes written and the number of them, for a buffer with room for `room` bytes.
unfoldable pub encode_varint : (room value : ℕ) → Option (List ℕ × ℕ)
unfolding encode_loop
encode_varint room value = encode_loop room [] 0 value
