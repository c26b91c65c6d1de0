-- ===== src/Tests/Network.antt =====
-- Addresses that are blocked, and a dial.
use agentsecrets.Prelude.{◌≡◌, ◌↔◌, refl, true, false, none, some, [], ◌∷◌, All, List, arith}
use agentsecrets.Text.{Str, str}
use agentsecrets.Network.{
  Ip, is_private_or_loopback_ip, Resolver, resolve_host, dial_context, connect, dial_ips,
}
use agentsecrets.Network.Ranges.{address, IsBlockedV4, is_private_or_loopback_ip-IsBlockedV4}
use agentsecrets.Network.Dialing.{dial_context_safe}

is_private_or_loopback_ip-IsBlockedV4_example :
    (is_private_or_loopback_ip (172 ∷ 20 ∷ 0 ∷ 1 ∷ []) ≡ true) ↔ IsBlockedV4 (address 172 20 0 1)
is_private_or_loopback_ip-IsBlockedV4_example =
    is_private_or_loopback_ip-IsBlockedV4 172 20 0 1 (ground arith) (ground arith) (ground arith)
      (ground arith)

abbrev public_ip : Ip
public_ip = 8 ∷ 8 ∷ 8 ∷ 8 ∷ []

abbrev resolver : Resolver
resolver = record {
  split_host_port = λ _. some (str "api.stripe.com", str "443");
  parse_ip = λ _. none;
  lookup_ip = λ _. some (public_ip ∷ []);
}

abbrev addr : Str
addr = str "api.stripe.com:443"

dials : dial_context resolver addr ≡ connect public_ip (str "443")
unfolding dial_context dial_ips resolve_host is_private_or_loopback_ip
dials = refl

dial_context_safe_example :
    (host : Str) × (rest : List Ip) × (resolver.split_host_port addr ≡ some (host, str "443"))
    × (resolve_host resolver host ≡ some (public_ip ∷ rest))
    × All (λ x. is_private_or_loopback_ip x ≡ false) (public_ip ∷ rest)
dial_context_safe_example = dial_context_safe resolver addr public_ip (str "443") dials
