-- ===== src/Network/Ranges.antt =====
-- The addresses that are blocked, as ranges of numbers.
use agentsecrets.Prelude.{ℕ, ◌+◌, ◌*◌, ◌≤◌, ◌<◌, ◌≡◌, ◌↔◌, ◌⊎◌, refl, true, [], ◌∷◌, ◌++◌, arith}
use agentsecrets.Network.{mapped_prefix, is_private_or_loopback_ip}

-- a.b.c.d as a number.
abbrev pub address : ℕ → ℕ → ℕ → ℕ → ℕ
address a b c d = ((a * 256 + b) * 256 + c) * 256 + d

abbrev pub InBlock : ℕ → ℕ → ℕ → Type 0
InBlock first next n = (first ≤ n) × (n < next)

-- 10/8, 100.64/10, 127/8, 169.254/16, 172.16/12, 192.168/16 and 224.0.0/24.
abbrev pub IsBlockedV4 : ℕ → Type 0
IsBlockedV4 n =
    InBlock (address 10 0 0 0) (address 11 0 0 0) n
    ⊎ InBlock (address 100 64 0 0) (address 100 128 0 0) n
    ⊎ InBlock (address 127 0 0 0) (address 128 0 0 0) n
    ⊎ InBlock (address 169 254 0 0) (address 169 255 0 0) n
    ⊎ InBlock (address 172 16 0 0) (address 172 32 0 0) n
    ⊎ InBlock (address 192 168 0 0) (address 192 169 0 0) n
    ⊎ InBlock (address 224 0 0 0) (address 224 0 1 0) n

-- An IPv4 address is blocked exactly when its number lies in one of seven ranges.
pub is_private_or_loopback_ip-IsBlockedV4 :
    (a b c d : ℕ)
    → a < 256
    → b < 256
    → c < 256
    → d < 256
    → (is_private_or_loopback_ip (a ∷ b ∷ c ∷ d ∷ []) ≡ true) ↔ IsBlockedV4 (address a b c d)
unfolding is_private_or_loopback_ip
is_private_or_loopback_ip-IsBlockedV4 a b c d ha hb hc hd = ground arith

-- Writing an IPv4 address in IPv6 form changes nothing.
blocked_mapped :
    (a b c d : ℕ)
    → is_private_or_loopback_ip (mapped_prefix ++ (a ∷ b ∷ c ∷ d ∷ []))
      ≡ is_private_or_loopback_ip (a ∷ b ∷ c ∷ d ∷ [])
unfolding is_private_or_loopback_ip
blocked_mapped a b c d = refl
