-- ===== src/Util/Tests.antt =====
-- Addresses read and printed, and the theorems at them.
use monitoring_tool.Prelude.{ℕ, ◌≡◌, refl, List, [], ◌∷◌, arith}
use monitoring_tool.Util.{ip_ntos, ip_ston}
use monitoring_tool.Util.RoundTrip.{ip_ston-ip_ntos}

-- The text "0x7f.1".
abbrev loopback_text : List ℕ
loopback_text = b'0' ∷ b'x' ∷ b'7' ∷ b'f' ∷ b'.' ∷ b'1' ∷ []

loopback : ip_ston loopback_text ≡ 0x7f000001
unfolding ip_ston
loopback = refl

ip_ston-ip_ntos_example : ip_ston (ip_ntos 0xc0a80001) ≡ 0xc0a80001
ip_ston-ip_ntos_example = ip_ston-ip_ntos 0xc0a80001 (omega arith)
