-- ===== src/Network.antt =====
-- pkg/proxy/engine.go: `isPrivateOrLoopbackIP` and the `DialContext` that `NewEngine` installs. An
-- address is the byte slice of net.IP. Name lookup and the parsing of addresses are arguments.
pub mod Ranges
pub mod Dialing
use Prim.Native.Nat.{bit_and}
use agentsecrets.Prelude.{
  ℕ, zero, suc, Bool, true, false, ◌&&◌, ◌||◌, Option, none, some, List, [], ◌∷◌, leb, ◌==◌,
  if◌then◌else◌, length, any, drop, take, get_elem?,
}
use agentsecrets.Text.{Str, str_eq}

abbrev pub Ip : Type 0
Ip = List ℕ

-- ip[i], at an index in range.
unfoldable pub byte_at : ℕ → Ip → ℕ
byte_at i [] = 0
byte_at zero (b ∷ ip) = b
byte_at (suc i) (b ∷ ip) = byte_at i ip

-- The first twelve bytes of an IPv4 address in IPv6 form.
abbrev pub mapped_prefix : Ip
mapped_prefix = 0 ∷ 0 ∷ 0 ∷ 0 ∷ 0 ∷ 0 ∷ 0 ∷ 0 ∷ 0 ∷ 0 ∷ 255 ∷ 255 ∷ []

-- ip.To4()
unfoldable pub to4 : Ip → Option Ip
unfolding str_eq
to4 ip =
    if length ip == 4
    then some ip
    else if length ip == 16 && str_eq (take 12 ip) mapped_prefix
    then some (drop 12 ip)
    else none

-- ip.IsLoopback()
unfoldable pub is_loopback : Option Ip → Ip → Bool
unfolding byte_at str_eq
is_loopback (some ip4) ip = byte_at 0 ip4 == 127
is_loopback none ip = str_eq ip (0 ∷ 0 ∷ 0 ∷ 0 ∷ 0 ∷ 0 ∷ 0 ∷ 0 ∷ 0 ∷ 0 ∷ 0 ∷ 0 ∷ 0 ∷ 0 ∷ 0 ∷ 1 ∷ [])

-- ip.IsLinkLocalUnicast()
unfoldable pub is_link_local_unicast : Option Ip → Ip → Bool
unfolding byte_at
is_link_local_unicast (some ip4) ip = byte_at 0 ip4 == 169 && byte_at 1 ip4 == 254
is_link_local_unicast none ip =
    length ip == 16 && byte_at 0 ip == 0xfe && bit_and (byte_at 1 ip) 0xc0 == 0x80

-- ip.IsLinkLocalMulticast()
unfoldable pub is_link_local_multicast : Option Ip → Ip → Bool
unfolding byte_at
is_link_local_multicast (some ip4) ip =
    byte_at 0 ip4 == 224 && byte_at 1 ip4 == 0 && byte_at 2 ip4 == 0
is_link_local_multicast none ip =
    length ip == 16 && byte_at 0 ip == 0xff && bit_and (byte_at 1 ip) 0x0f == 0x02

-- The tests behind the first `if`, on `ip.To4()` and else on `ip.To16()`.
unfoldable pub in_private_range : Option Ip → Ip → Bool
unfolding byte_at
in_private_range (some ip4) ip =
    byte_at 0 ip4 == 10
    || (byte_at 0 ip4 == 172 && leb 16 (byte_at 1 ip4) && leb (byte_at 1 ip4) 31)
    || (byte_at 0 ip4 == 192 && byte_at 1 ip4 == 168)
    || (byte_at 0 ip4 == 100 && leb 64 (byte_at 1 ip4) && leb (byte_at 1 ip4) 127)
in_private_range none ip = length ip == 16 && bit_and (byte_at 0 ip) 0xfe == 0xfc

unfoldable pub is_private_or_loopback_ip : Ip → Bool
unfolding to4 is_loopback is_link_local_unicast is_link_local_multicast in_private_range
is_private_or_loopback_ip ip =
    let v4 = to4 ip in
    is_loopback v4 ip
    || is_link_local_unicast v4 ip
    || is_link_local_multicast v4 ip
    || in_private_range v4 ip

pub data Dialed : Type 0 where
  bad_address dns_failed no_address : Dialed
  blocked : Dialed
  connect : Ip → Str → Dialed

abbrev connect_first : List Ip → Str → Dialed
connect_first [] port = no_address
connect_first (ip ∷ ips) port = connect ip port

-- What package net resolves: the parts of an address, a literal address, and the addresses of a name.
pub record Resolver : Type 0 where
  pub split_host_port : Str → Option (Str × Str)
  pub parse_ip : Str → Option Ip
  pub lookup_ip : Str → Option (List Ip)

unfoldable pub resolve_host : Resolver → Str → Option (List Ip)
resolve_host r host = elim (r.parse_ip host) [ some ip ↦ some (ip ∷ []) | none ↦ r.lookup_ip host ]

-- All addresses are checked, and the first is connected to.
unfoldable pub dial_ips : Option (List Ip) → Str → Dialed
dial_ips none port = dns_failed
dial_ips (some ips) port =
    if any is_private_or_loopback_ip ips then blocked else connect_first ips port

abbrev pub dial_split : Resolver → Option (Str × Str) → Dialed
dial_split r none = bad_address
dial_split r (some (host, port)) = dial_ips (resolve_host r host) port

unfoldable pub dial_context : Resolver → Str → Dialed
dial_context r addr = dial_split r (r.split_host_port addr)
