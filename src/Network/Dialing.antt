-- ===== src/Network/Dialing.antt =====
-- No connection is made to a blocked address.
use agentsecrets.Prelude.{◌≡◌, false, Option, none, some, List, [], ◌∷◌, arith, All, any}
use agentsecrets.Text.{Str}
use agentsecrets.Network.{
  Ip, is_private_or_loopback_ip, Resolver, connect, dial_ips, dial_split, dial_context,
  resolve_host,
}

any-All :
    (ips : List Ip)
    → any is_private_or_loopback_ip ips ≡ false
    → All (λ ip. is_private_or_loopback_ip ip ≡ false) ips
any-All [] h = tt
any-All (ip ∷ ips) h = ground (arith, any-All ips)

dial_ips-connect :
    (o : Option (List Ip)) (port p : Str) (ip : Ip)
    → dial_ips o port ≡ connect ip p
    → (rest : List Ip) × (o ≡ some (ip ∷ rest))
      × (p ≡ port)
      × All (λ x. is_private_or_loopback_ip x ≡ false) (ip ∷ rest)
unfolding dial_ips
dial_ips-connect none port p ip h = cc
dial_ips-connect (some []) port p ip h = cc
dial_ips-connect (some (x ∷ rest)) port p ip h =
    (rest, ground arith, ground arith, ground (arith, any-All rest))

-- What is known of a connection.
abbrev pub IsSafeConnection : Resolver → Option (Str × Str) → Ip → Str → Type 0
IsSafeConnection r split ip port =
    (host : Str) × (rest : List Ip) × (split ≡ some (host, port))
    × (resolve_host r host ≡ some (ip ∷ rest))
    × All (λ x. is_private_or_loopback_ip x ≡ false) (ip ∷ rest)

dial_split-connect :
    (r : Resolver) (o : Option (Str × Str)) (ip : Ip) (port : Str)
    → dial_split r o ≡ connect ip port
    → IsSafeConnection r o ip port
dial_split-connect r none ip port h = cc
dial_split-connect r (some (host, p)) ip port h =
    let (rest, found, same, safe) = dial_ips-connect (resolve_host r host) p port ip h in
    (host, rest, cc, found, safe)

-- A connection goes to the first address of the dialled host, at the dialled port, and none of the
-- host's addresses is private, loopback or link-local.
pub dial_context_safe :
    (r : Resolver) (addr : Str) (ip : Ip) (port : Str)
    → dial_context r addr ≡ connect ip port
    → (host : Str) × (rest : List Ip) × (r.split_host_port addr ≡ some (host, port))
      × (resolve_host r host ≡ some (ip ∷ rest))
      × All (λ x. is_private_or_loopback_ip x ≡ false) (ip ∷ rest)
unfolding dial_context
dial_context_safe r addr ip port h = dial_split-connect r (r.split_host_port addr) ip port h
