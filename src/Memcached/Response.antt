-- ===== src/Memcached/Response.antt =====
-- A response, `_memcached::Response` of src/protocols/memcached.cpp, as its constructors make it. `flgs`
-- and `val` are what its two uninitialised variables hold: they are read where `sscanf` finds no number.
-- The numbers 0 and 19 of the status stand for the comparisons with "VALUE" and "NONE".
use monitoring_tool.Prelude.{
  ℕ, ◌+◌, ◌-◌, Bool, false, Option, some, List, [], ◌∷◌, ◌++◌, ◌==◌, if◌then◌else◌, drop,
}
use monitoring_tool.Prelude.Partial.{◌>>=◌}
use monitoring_tool.Text.{memcpy, get_token_len, find_line_end}
use monitoring_tool.Memcached.{parse_reply, scans, byte_behind, is_space, is_space_or_cr}

pub record Response : Type 0 where
  pub hdlen : ℕ
  pub processed : Bool
  pub acknowledgement : ℕ
  pub status_code : ℕ
  pub keys : List (List ℕ)
  pub flags : ℕ
  pub bodylen : ℕ

-- The first token of the line, if a space follows.
unfoldable pub value_key : (tokenlen : ℕ) → List ℕ → Response → Option Response
unfolding byte_behind memcpy
value_key tokenlen linesp r = do
  behind ← byte_behind tokenlen linesp
  if is_space behind
      then (do key ← memcpy tokenlen linesp; some (record r { keys = r.keys ++ key ∷ [] }))
      else some r

unfoldable pub value_flags : (flgs tokenlen : ℕ) → List ℕ → Response → Option Response
unfolding byte_behind scans
value_flags flgs tokenlen linesp r = do
  behind ← byte_behind tokenlen linesp
  if is_space behind
      then (do found ← scans linesp; some (if found then r else record r { flags = flgs }))
      else some r

unfoldable pub value_bodylen : (val tokenlen : ℕ) → List ℕ → Response → Option Response
unfolding byte_behind scans
value_bodylen val tokenlen linesp r = do
  behind ← byte_behind tokenlen linesp
  if is_space_or_cr behind
      then (do found ← scans linesp; some (if found then r else record r { bodylen = val }))
      else some r

-- What is read of a `VALUE`.
unfoldable pub value_fields : (flgs val n : ℕ) → List ℕ → Response → Option Response
unfolding get_token_len value_key value_flags value_bodylen
value_fields flgs val n first r = do
  (tokenlen, next_token) ← get_token_len n first
  r ← value_key tokenlen first r
  let second = drop next_token first in
      do
        (tokenlen', next) ← get_token_len (n - next_token) second
        r ← value_flags flgs tokenlen' second r
        let third = drop next second in
            do
              (tokenlen'', last) ← get_token_len (n - next_token - next) third
              value_bodylen val tokenlen'' third r

unfoldable pub response_new :
    (memory : Response) → (flgs val dataend : ℕ) → List ℕ → (ack : ℕ) → Option Response
unfolding find_line_end parse_reply value_fields
response_new memory flgs val dataend «data» ack = do
  (eoh, eol) ← find_line_end dataend «data»
  status_code ← parse_reply (eoh + 1) «data»
  let r = record memory {
    processed = false;
    hdlen = eoh + 1;
    acknowledgement = ack;
    status_code = status_code;
    keys = [];
  } in
      if status_code == 0 then value_fields flgs val eoh «data» r else some r
