-- ===== src/Ingest/Address/Ranges.antt =====
-- The blocked addresses (crates/skb-core/src/ingest.rs) as blocks of the address space.
use surreal_knowledge_base.Base.{
  ℕ, ◌+◌, ◌*◌, ◌/◌, ◌<◌, ◌≡◌, refl, sym, Bool, ◌&&◌, ◌||◌, ◌==◌, true, false, none, some,
  if◌then◌else◌, arith, List, [], ◌∷◌, any_by, leb, ◌^◌, ◌-◌,
}
use surreal_knowledge_base.Ingest.Address.{
  Ipv4, Ip, v4, is_blocked_v4, is_cgnat, is_benchmarking, is_multicast, is_reserved_v4, is_loopback,
  is_link_local, is_unspecified, is_broadcast, is_blocked_ip, is_blocked_native, blocked_or, low_v4,
  low_80_zero, Ipv6, v6,
}

-- Each octet is one.
pub record IsOctets (o : Ipv4) : Type 0 where
  pub a_lt : o.a < 256
  pub b_lt : o.b < 256
  pub c_lt : o.c < 256
  pub d_lt : o.d < 256

-- An address as one number.
abbrev pub address : Ipv4 → ℕ
address o = ((o.a * 256 + o.b) * 256 + o.c) * 256 + o.d

-- A block: the first `length` bits of the address are those of its base.
abbrev in_block : ℕ → ℕ × ℕ → Bool
in_block n (base, length) = n / 2 ^ (32 - length) == base / 2 ^ (32 - length)

-- The blocks that are not to be fetched: private, loopback, link-local (with the metadata service),
-- multicast, documentation, shared, benchmarking, reserved, this network, and 6to4 relays.
abbrev pub blocks : List (ℕ × ℕ)
blocks =
    (0x0a000000, 8)
    ∷ (0xac100000, 12)
    ∷ (0xc0a80000, 16)
    ∷ (0x7f000000, 8)
    ∷ (0xa9fe0000, 16)
    ∷ (0xe0000000, 4)
    ∷ (0xc0000200, 24)
    ∷ (0xc6336400, 24)
    ∷ (0xcb007100, 24)
    ∷ (0x64400000, 10)
    ∷ (0xc6120000, 15)
    ∷ (0xf0000000, 4)
    ∷ (0x00000000, 8)
    ∷ (0xc0586300, 24)
    ∷ []

abbrev pub in_blocks : Ipv4 → Bool
in_blocks o = any_by (in_block (address o)) blocks

or_assoc : (a b c : Bool) → ((a || b) || c) ≡ (a || (b || c))
or_assoc true b c = refl
or_assoc false b c = refl

-- Two disjunctions that go on equally once their common first test has failed.
same_first : (x a b : Bool) → (x ≡ false → a ≡ b) → (x || a) ≡ (x || b)
same_first true a b h = refl
same_first false a b h = h refl

-- Without the tests `u`, `b` and `m`, each of which another one implies.
absorbed :
    (p1 p2 p3 lo ll mu u b d1 d2 d3 cg be re m z rl : Bool)
    → (u ≡ true → z ≡ true)
    → (b ≡ true → re ≡ true)
    → (m ≡ true → ll ≡ true)
    → (p1
        || (p2
            || (p3
                || (lo
                    || (ll
                        || (mu
                            || (u
                                || (b
                                    || (d1
                                        || (d2
                                            || (d3
                                                || (cg
                                                    || (be || (re || (m || (z || rl))))))))))))))))
      ≡ (p1
          || (p2
              || (p3
                  || (lo
                      || (ll
                          || (mu
                              || (d1
                                  || (d2
                                      || (d3
                                          || (cg || (be || (re || (z || (rl || false))))))))))))))
absorbed p1 p2 p3 lo ll mu u b d1 d2 d3 cg be re m z rl hu hb hm = same_first p1 _ _ (λ _.
    same_first p2 _ _ (λ _. same_first p3 _ _ (λ _.
      same_first lo _ _ (λ _. same_first ll _ _ (λ no_ll. same_first mu _ _ (λ _. ground arith))))))

module _ (o : Ipv4) (h : IsOctets o) where
  high_8 : address o / 16777216 ≡ o.a
  high_8 = omega (arith, h.a_lt, h.b_lt, h.c_lt, h.d_lt)

  high_16 : address o / 65536 ≡ o.a * 256 + o.b
  high_16 = omega (arith, h.a_lt, h.b_lt, h.c_lt, h.d_lt)

  high_24 : address o / 256 ≡ (o.a * 256 + o.b) * 256 + o.c
  high_24 = omega (arith, h.a_lt, h.b_lt, h.c_lt, h.d_lt)

  high_10 : (address o / 4194304 == 401) ≡ is_cgnat o
  high_10 =
      let e : address o / 4194304 ≡ o.a * 4 + o.b / 64 =
        omega (arith, h.a_lt, h.b_lt, h.c_lt, h.d_lt) in
      rw e (ground (arith, h.a_lt, h.b_lt))

  high_12 : (address o / 1048576 == 2753) ≡ (o.a == 172 && leb 16 o.b && leb o.b 31)
  high_12 =
      let e : address o / 1048576 ≡ o.a * 16 + o.b / 16 =
        omega (arith, h.a_lt, h.b_lt, h.c_lt, h.d_lt) in
      rw e (ground (arith, h.a_lt, h.b_lt))

  high_15 : (address o / 131072 == 25353) ≡ is_benchmarking o
  high_15 =
      let e : address o / 131072 ≡ o.a * 128 + o.b / 2 =
        omega (arith, h.a_lt, h.b_lt, h.c_lt, h.d_lt) in
      rw e (ground (arith, h.a_lt, h.b_lt))

  high_4 : address o / 268435456 ≡ o.a / 16
  high_4 = omega (arith, h.a_lt, h.b_lt, h.c_lt, h.d_lt)

  multicast_eq : (o.a / 16 == 14) ≡ is_multicast o
  multicast_eq = ground arith

  reserved_eq : (o.a / 16 == 15) ≡ is_reserved_v4 o
  reserved_eq = ground (arith, h.a_lt)

  pair_eq : (m n : ℕ) → n < 256 → (o.a * 256 + o.b == m * 256 + n) ≡ (o.a == m && o.b == n)
  pair_eq m n k = ground (arith, h.a_lt, h.b_lt)

  triple_eq :
      (l m n : ℕ)
      → m < 256
      → n < 256
      → ((o.a * 256 + o.b) * 256 + o.c == (l * 256 + m) * 256 + n)
        ≡ (o.a == l && o.b == m && o.c == n)
  triple_eq l m n j k = ground (arith, h.b_lt, h.c_lt)

  -- The tests by blocks, as tests of octets in the code's order.
  in_octets : Bool
  in_octets =
      o.a == 10
      || ((o.a == 172 && leb 16 o.b && leb o.b 31)
          || ((o.a == 192 && o.b == 168)
              || (is_loopback o
                  || (is_link_local o
                      || (is_multicast o
                          || ((o.a == 192 && o.b == 0 && o.c == 2)
                              || ((o.a == 198 && o.b == 51 && o.c == 100)
                                  || ((o.a == 203 && o.b == 0 && o.c == 113)
                                      || (is_cgnat o
                                          || (is_benchmarking o
                                              || (is_reserved_v4 o
                                                  || (o.a == 0
                                                      || ((o.a == 192 && o.b == 88 && o.c == 99)
                                                          || (false))))))))))))))

  in_blocks-in_octets : in_blocks o ≡ in_octets
  in_blocks-in_octets =
      unfold in_octets in
      rw
        (
          high_8,
          high_16,
          high_24,
          high_10,
          high_12,
          high_15,
          high_4,
          multicast_eq,
          reserved_eq,
          pair_eq 169 254 (omega arith),
          pair_eq 192 168 (omega arith),
          triple_eq 192 0 2 (omega arith) (omega arith),
          triple_eq 192 88 99 (omega arith) (omega arith),
          triple_eq 198 51 100 (omega arith) (omega arith),
          triple_eq 203 0 113 (omega arith) (omega arith),
        )
        refl

  is_blocked_v4-in_blocks : is_blocked_v4 o ≡ in_blocks o
  unfolding is_blocked_v4 in_octets
  is_blocked_v4-in_blocks = rw in_blocks-in_octets (
      simp or_assoc (
        absorbed (o.a == 10) (o.a == 172 && leb 16 o.b && leb o.b 31) (o.a == 192 && o.b == 168)
          (is_loopback o) (is_link_local o) (is_multicast o) (is_unspecified o) (is_broadcast o)
          (o.a == 192 && o.b == 0 && o.c == 2) (o.a == 198 && o.b == 51 && o.c == 100)
          (o.a == 203 && o.b == 0 && o.c == 113) (is_cgnat o) (is_benchmarking o) (is_reserved_v4 o)
          (o.a == 169 && o.b == 254 && o.c == 169 && o.d == 254) (o.a == 0)
          (o.a == 192 && o.b == 88 && o.c == 99) (ground arith) (ground arith) (ground arith)))

low_v4-IsOctets : (s : Ipv6) → s.s6 < 65536 → s.s7 < 65536 → IsOctets (low_v4 s)
low_v4-IsOctets s h k = record {
  a_lt = omega arith;
  b_lt = omega arith;
  c_lt = omega arith;
  d_lt = omega arith;
}

-- The addresses that stand for an IPv4 address: mapped, or compatible.
abbrev pub embedded_v4 : Ipv6 → Bool
embedded_v4 s = low_80_zero s && (s.s5 == 0 || s.s5 == 0xffff)

-- The blocked addresses: a block of the IPv4 space, a native IPv6 range, or the IPv4 address that an
-- IPv6 address stands for.
abbrev pub is_refused : Ip → Bool
is_refused (v4 o) = in_blocks o
is_refused (v6 s) = is_blocked_native s || (embedded_v4 s && in_blocks (low_v4 s))

-- Octets or segments within their width.
abbrev pub IsAddress : Ip → Type 0
IsAddress (v4 o) = IsOctets o
IsAddress (v6 s) = (s.s6 < 65536) × (s.s7 < 65536)

of_embedded :
    (o : Ipv4) (native zero_80 compatible mapped : Bool)
    → (if native
        then true
        else blocked_or
            (if zero_80 && mapped then some o else none)
            (blocked_or (if zero_80 && (compatible || mapped) then some o else none) false))
      ≡ (native || (zero_80 && (compatible || mapped) && is_blocked_v4 o))
unfolding blocked_or
of_embedded o native zero_80 compatible mapped = ground arith

-- An address is blocked exactly if it lies in one of the listed blocks of the IPv4 space, or it is an
-- IPv6 address in one of the native ranges, or one that stands for an IPv4 address (mapped or
-- compatible) in a listed block.
pub is_blocked_ip-is_refused : (ip : Ip) → IsAddress ip → is_blocked_ip ip ≡ is_refused ip
unfolding is_blocked_ip
is_blocked_ip-is_refused (v4 o) h = is_blocked_v4-in_blocks o h
is_blocked_ip-is_refused (v6 s) (h, k) =
    unfold blocked_or in
    rw (sym (is_blocked_v4-in_blocks (low_v4 s) (low_v4-IsOctets s h k)))
      (of_embedded (low_v4 s) (is_blocked_native s) (low_80_zero s) (s.s5 == 0) (s.s5 == 0xffff))
