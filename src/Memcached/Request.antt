-- ===== src/Memcached/Request.antt =====
-- A request, `_memcached::Request` of src/protocols/memcached.cpp, as its constructors make it. The class
-- has a member `time` of its own, which the constructor does not set. `val` is what its uninitialised
-- variable holds: it is read where `sscanf` finds no number. The numbers of the methods stand for the
-- comparisons of their pointers with literals.
use monitoring_tool.Prelude.{
  ℕ, zero, suc, ◌+◌, ◌-◌, Bool, false, ◌||◌, Option, none, some, List, [], ◌∷◌, ◌++◌, ◌==◌,
  if◌then◌else◌, drop,
}
use monitoring_tool.Prelude.Partial.{◌>>=◌}
use monitoring_tool.Text.{memcpy, get_token_len, find_line_end}
use monitoring_tool.Memcached.{
  parse_command, scans, byte_behind, is_space, is_space_or_cr, get_keys,
}

pub record Request : Type 0 where
  pub time : Option (List ℕ)
  pub hdlen : ℕ
  pub processed : Bool
  pub seq : ℕ
  pub nxt_seq : ℕ
  pub method_code : ℕ
  pub keys : List (List ℕ)
  pub expiration : ℕ
  pub flags : ℕ

-- The expiration of a `touch`, behind its key.
unfoldable pub touch_expiration : (val n : ℕ) → List ℕ → Request → Option Request
unfolding get_token_len byte_behind scans
touch_expiration val n linesp r = do
  (tokenlen, next_token) ← get_token_len n linesp
  behind ← byte_behind tokenlen linesp
  if is_space_or_cr behind
      then (do found ← scans linesp; some (if found then r else record r { expiration = val }))
      else some r

-- `delete`, `incr`, `decr` and `touch`.
unfoldable pub one_key : (val n : ℕ) → List ℕ → Request → Option Request
unfolding get_token_len byte_behind memcpy touch_expiration
one_key val n linesp r = do
  (tokenlen, next_token) ← get_token_len n linesp
  behind ← byte_behind tokenlen linesp
  if is_space_or_cr behind
      then (do
        key ← memcpy tokenlen linesp
        let r' = record r { keys = r.keys ++ key ∷ [] } in
            if r.method_code == 12
            then touch_expiration val (n - next_token) (drop next_token linesp) r'
            else some r')
      else some r

-- The loop for `gat` and `gats`, at a token whose length and next token are known.
unfoldable pub gat_keys : (fuel n tokenlen next_token : ℕ) → List ℕ → Option (List (List ℕ))
unfolding get_token_len byte_behind memcpy
gat_keys zero n tokenlen next_token linesp = none
gat_keys (suc fuel) n tokenlen next_token linesp = do
  behind ← byte_behind tokenlen linesp
  if is_space behind
      then (do
        (length, next) ← get_token_len (n - next_token) (drop next_token linesp)
        key ← memcpy length (drop next_token linesp)
        keys ← gat_keys fuel (n - next_token) length next (drop next_token linesp)
        some (key ∷ keys))
      else some []

unfoldable pub get_and_touch : (val n : ℕ) → List ℕ → Request → Option Request
unfolding get_token_len byte_behind scans gat_keys
get_and_touch val n linesp r = do
  (tokenlen, next_token) ← get_token_len n linesp
  behind ← byte_behind tokenlen linesp
  if is_space_or_cr behind
      then (do
        found ← scans linesp
        keys ← gat_keys (n + 1) n tokenlen next_token linesp
        some (record r { expiration = if found then r.expiration else val; keys = r.keys ++ keys }))
      else some r

unfoldable pub keys_of : (val n : ℕ) → List ℕ → Request → Option Request
unfolding get_keys one_key get_and_touch
keys_of val n linesp r =
    if r.method_code == 1
    then (do keys ← get_keys (n + 1) n linesp; some (record r { keys = r.keys ++ keys }))
    else if r.method_code == 7 || r.method_code == 10 || r.method_code == 11 || r.method_code == 12
    then one_key val n linesp r
    else if r.method_code == 13 || r.method_code == 14
    then get_and_touch val n linesp r
    else some r

-- The vector of keys starts empty.
unfoldable pub request_new :
    (memory : Request) → (val dataend : ℕ) → List ℕ → (seq nxt_seq : ℕ) → Option Request
unfolding find_line_end parse_command keys_of
request_new memory val dataend «data» seq nxt_seq = do
  (eoh, eol) ← find_line_end dataend «data»
  method_code ← parse_command (eoh + 1) «data»
  let r = record memory {
    processed = false;
    seq = seq;
    nxt_seq = nxt_seq;
    hdlen = eoh + 1;
    method_code = method_code;
    keys = [];
  } in
      if method_code == 0 then some r else keys_of val eoh «data» r
