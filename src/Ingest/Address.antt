-- ===== src/Ingest/Address.antt =====
-- The address ranges that a fetch refuses: `is_blocked_ip` and its helpers in
-- crates/skb-core/src/ingest.rs, with the tests of `std::net` that it calls. An address is its
-- octets, or its 16-bit segments.
pub mod Ranges
use surreal_knowledge_base.Base.{
  ℕ, ◌-◌, ◌+◌, ◌*◌, ◌/◌, ◌%◌, Bool, ◌&&◌, ◌||◌, ◌==◌, leb, true, false, Option, none, some,
  if◌then◌else◌,
}

-- `Ipv4Addr`
pub record Ipv4 : Type 0 where
  pub a : ℕ
  pub b : ℕ
  pub c : ℕ
  pub d : ℕ

-- `Ipv6Addr`: its eight segments.
pub record Ipv6 : Type 0 where
  pub s0 : ℕ
  pub s1 : ℕ
  pub s2 : ℕ
  pub s3 : ℕ
  pub s4 : ℕ
  pub s5 : ℕ
  pub s6 : ℕ
  pub s7 : ℕ

-- `IpAddr`
pub data Ip : Type 0 where
  v4 : Ipv4 → Ip
  v6 : Ipv6 → Ip

-- A mask that clears the bits below a power of two, as `o & 0xC0` does for 0x40.
abbrev pub clear_below : ℕ → ℕ → ℕ
clear_below m n = n - n % m

-- The tests of `std::net::Ipv4Addr`.
abbrev pub is_private : Ipv4 → Bool
is_private o = o.a == 10 || (o.a == 172 && leb 16 o.b && leb o.b 31) || (o.a == 192 && o.b == 168)

abbrev pub is_loopback : Ipv4 → Bool
is_loopback o = o.a == 127

abbrev pub is_link_local : Ipv4 → Bool
is_link_local o = o.a == 169 && o.b == 254

abbrev pub is_multicast : Ipv4 → Bool
is_multicast o = leb 224 o.a && leb o.a 239

abbrev pub is_unspecified : Ipv4 → Bool
is_unspecified o = o.a == 0 && o.b == 0 && o.c == 0 && o.d == 0

abbrev pub is_broadcast : Ipv4 → Bool
is_broadcast o = o.a == 255 && o.b == 255 && o.c == 255 && o.d == 255

abbrev pub is_documentation : Ipv4 → Bool
is_documentation o =
    (o.a == 192 && o.b == 0 && o.c == 2)
    || (o.a == 198 && o.b == 51 && o.c == 100)
    || (o.a == 203 && o.b == 0 && o.c == 113)

-- `is_cgnat`
abbrev pub is_cgnat : Ipv4 → Bool
is_cgnat o = o.a == 100 && clear_below 0x40 o.b == 0x40

-- `is_benchmarking`
abbrev pub is_benchmarking : Ipv4 → Bool
is_benchmarking o = o.a == 198 && clear_below 2 o.b == 0x12

-- `is_reserved_v4`
abbrev pub is_reserved_v4 : Ipv4 → Bool
is_reserved_v4 o = leb 240 o.a

-- `is_blocked_v4`
unfoldable pub is_blocked_v4 : Ipv4 → Bool
is_blocked_v4 o =
    is_private o
    || is_loopback o
    || is_link_local o
    || is_multicast o
    || is_unspecified o
    || is_broadcast o
    || is_documentation o
    || is_cgnat o
    || is_benchmarking o
    || is_reserved_v4 o
    || (o.a == 169 && o.b == 254 && o.c == 169 && o.d == 254)
    || o.a == 0
    || (o.a == 192 && o.b == 88 && o.c == 99)

-- The tests of `std::net::Ipv6Addr`.
abbrev pub is_loopback_v6 : Ipv6 → Bool
is_loopback_v6 s =
    s.s0 == 0
    && s.s1 == 0
    && s.s2 == 0
    && s.s3 == 0
    && s.s4 == 0
    && s.s5 == 0
    && s.s6 == 0
    && s.s7 == 1

abbrev pub is_unspecified_v6 : Ipv6 → Bool
is_unspecified_v6 s =
    s.s0 == 0
    && s.s1 == 0
    && s.s2 == 0
    && s.s3 == 0
    && s.s4 == 0
    && s.s5 == 0
    && s.s6 == 0
    && s.s7 == 0

abbrev pub is_multicast_v6 : Ipv6 → Bool
is_multicast_v6 s = clear_below 0x100 s.s0 == 0xff00

abbrev pub is_unique_local : Ipv6 → Bool
is_unique_local s = clear_below 0x200 s.s0 == 0xfc00

abbrev pub is_unicast_link_local : Ipv6 → Bool
is_unicast_link_local s = clear_below 0x40 s.s0 == 0xfe80

-- `is_documentation_v6`
abbrev pub is_documentation_v6 : Ipv6 → Bool
is_documentation_v6 s = (s.s0 == 0x2001 && s.s1 == 0x0db8) || clear_below 0x10 s.s0 == 0x3ff0

-- `is_site_local_v6`
abbrev pub is_site_local_v6 : Ipv6 → Bool
is_site_local_v6 s = clear_below 0x40 s.s0 == 0xfec0

-- `is_nat64_v6`
abbrev pub is_nat64_v6 : Ipv6 → Bool
is_nat64_v6 s = s.s0 == 0x64 && s.s1 == 0xff9b && s.s2 == 0 && s.s3 == 0 && s.s4 == 0 && s.s5 == 0

-- `is_6to4_v6`
abbrev pub is_6to4_v6 : Ipv6 → Bool
is_6to4_v6 s = s.s0 == 0x2002

-- `is_teredo_v6`
abbrev pub is_teredo_v6 : Ipv6 → Bool
is_teredo_v6 s = s.s0 == 0x2001 && s.s1 == 0

-- The address in the last two segments.
abbrev pub low_v4 : Ipv6 → Ipv4
low_v4 s = record { a = s.s6 / 256; b = s.s6 % 256; c = s.s7 / 256; d = s.s7 % 256 }

abbrev pub low_80_zero : Ipv6 → Bool
low_80_zero s = s.s0 == 0 && s.s1 == 0 && s.s2 == 0 && s.s3 == 0 && s.s4 == 0

-- `Ipv6Addr::to_ipv4_mapped`
abbrev pub to_ipv4_mapped : Ipv6 → Option Ipv4
to_ipv4_mapped s = if low_80_zero s && s.s5 == 0xffff then some (low_v4 s) else none

-- `Ipv6Addr::to_ipv4`
abbrev pub to_ipv4 : Ipv6 → Option Ipv4
to_ipv4 s = if low_80_zero s && (s.s5 == 0 || s.s5 == 0xffff) then some (low_v4 s) else none

-- The native ranges of `is_blocked_ip`.
unfoldable pub is_blocked_native : Ipv6 → Bool
is_blocked_native s =
    is_loopback_v6 s
    || is_unspecified_v6 s
    || is_multicast_v6 s
    || is_unique_local s
    || is_unicast_link_local s
    || is_documentation_v6 s
    || is_site_local_v6 s
    || is_nat64_v6 s
    || is_6to4_v6 s
    || is_teredo_v6 s

-- `if let Some(v4) = … { return is_blocked_v4(v4) }`
blocked_or : Option Ipv4 → Bool → Bool
blocked_or none rest = rest
blocked_or (some o) rest = is_blocked_v4 o

-- `is_blocked_ip`
unfoldable pub is_blocked_ip : Ip → Bool
unfolding blocked_or
is_blocked_ip (v4 o) = is_blocked_v4 o
is_blocked_ip (v6 s) =
    if is_blocked_native s
    then true
    else blocked_or (to_ipv4_mapped s) (blocked_or (to_ipv4 s) false)
