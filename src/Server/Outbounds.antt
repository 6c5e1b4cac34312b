-- ===== src/Server/Outbounds.antt =====
-- The addresses of direct connections: resolveAddrExTCP, resolveAddrExUDP, preferredUDPIP, TCP and
-- WriteTo of core/officialhy2/fast_direct_outbound.go, and parseAddrEx of outbound_adapter.go.
-- Parsing and looking up addresses, and the sockets, are the library's.
use v2node_hy.Base.{
  ℕ, String, Bool, true, false, ltb, str_eq, Option, none, some, List, [], ◌∷◌, if◌then◌else◌,
  Bytes, read_nat,
}
use v2node_hy.Traffic.Effect.{Error, text, wrapped, Result, ok, err}

-- A `net.IP` by what To4 and To16 make of it.
pub data Ip : Type 0 where
  ipv4_address ipv6_address no_address : String → Ip

abbrev pub is_v4 : Ip → Bool
is_v4 (ipv4_address s) = true
is_v4 _ = false

abbrev pub is_v6 : Ip → Bool
is_v6 (no_address s) = false
is_v6 _ = true

pub record ResolveInfo : Type 0 where
  pub ipv4 : Option Ip
  pub ipv6 : Option Ip
  pub failure : Option Error

pub record AddrEx : Type 0 where
  pub host : String
  pub port : ℕ
  pub resolve_info : Option ResolveInfo

abbrev pub Endpoint : Type 0
Endpoint = Ip × ℕ

unfoldable pub first_ip : (Ip → Bool) → List Ip → Option Ip
first_ip f [] = none
first_ip f (ip ∷ ips) = let rest = first_ip f ips in if f ip then some ip else rest

unfoldable pub preferred_udp_ip : ResolveInfo → Option Ip
preferred_udp_ip i = elim i.ipv4 [ some ip ↦ some ip | none ↦ i.ipv6 ]

abbrev pub resolve_error : Option Error → Result Endpoint
resolve_error none = err (text "no address available")
resolve_error (some e) = err (wrapped "resolve error" e)

abbrev pub endpoint_or : ℕ → Option Ip → Result Endpoint → Result Endpoint
endpoint_or port (some ip) otherwise = ok (ip, port)
endpoint_or port none otherwise = otherwise

-- The address that TCP dials, over IPv4 only: the resolved one, or the request's as it stands.
pub data Dialled : Type 0 where
  resolved : Endpoint → Dialled
  as_requested : AddrEx → Dialled

-- `lastWriteAddr`: the text of an address and what it was resolved to.
pub record CachedUdp : Type 0 where
  pub raw : String
  pub udp : Endpoint

-- net.SplitHostPort gives the host and the text of the port.
unfoldable pub port_of : String → Option ℕ → Result AddrEx
port_of host none = err (text "invalid port")
port_of host (some port) =
    if ltb port 65536
    then ok (record { host = host; port = port; resolve_info = none })
    else err (text "invalid port")

unfoldable pub parse_addr_ex : Result (String × Bytes) → Result AddrEx
unfolding port_of
parse_addr_ex (err e) = err e
parse_addr_ex (ok (host, port)) = port_of host (read_nat port)

module _ (parse_ip : String → Option Ip) (lookup_ip : String → Result (List Ip)) where
  unfoldable pub looked_up_tcp : ℕ → Result (List Ip) → Result Endpoint
  unfolding first_ip
  looked_up_tcp port (err e) = err e
  looked_up_tcp port (ok ips) =
      endpoint_or port (first_ip is_v4 ips) (err (text "no IPv4 address available"))

  unfoldable pub parsed_tcp : AddrEx → Option Ip → Result Endpoint
  unfolding looked_up_tcp
  parsed_tcp a (some ip) =
      if is_v4 ip
      then ok (ip, a.port)
      else err (text "IPv6 literal is not allowed for forced IPv4 outbound")
  parsed_tcp a none = looked_up_tcp a.port (lookup_ip a.host)

  unfoldable pub resolve_addr_ex_tcp : AddrEx → Result Endpoint
  unfolding parsed_tcp
  resolve_addr_ex_tcp a = elim a.resolve_info [
    | some i ↦ endpoint_or a.port i.ipv4 (resolve_error i.failure)
    | none ↦ parsed_tcp a (parse_ip a.host)
  ]

  unfoldable pub looked_up_udp : ℕ → Result (List Ip) → Result Endpoint
  unfolding first_ip
  looked_up_udp port (err e) = err e
  looked_up_udp port (ok ips) =
      endpoint_or port (first_ip is_v4 ips)
        (endpoint_or port (first_ip is_v6 ips) (err (text "no address available")))

  unfoldable pub parsed_udp : AddrEx → Option Ip → Result Endpoint
  unfolding looked_up_udp
  parsed_udp a (some ip) = ok (ip, a.port)
  parsed_udp a none = looked_up_udp a.port (lookup_ip a.host)

  unfoldable pub resolve_addr_ex_udp : AddrEx → Result Endpoint
  unfolding preferred_udp_ip parsed_udp
  resolve_addr_ex_udp a = elim a.resolve_info [
    | some i ↦ endpoint_or a.port (preferred_udp_ip i) (resolve_error i.failure)
    | none ↦ parsed_udp a (parse_ip a.host)
  ]

  unfoldable pub dial_tcp : AddrEx → Dialled
  unfolding resolve_addr_ex_tcp
  dial_tcp a = elim (resolve_addr_ex_tcp a) [ ok e ↦ resolved e | err e ↦ as_requested a ]

  -- The endpoint that a packet is written to, or the error, and the cache. `show` is the text of an
  -- address.
  unfoldable pub written_to :
      String → AddrEx → Option CachedUdp → Result Endpoint → Result Endpoint × Option CachedUdp
  written_to raw a c (err e) = (err e, c)
  written_to raw a c (ok u) = (ok u, some (record { raw = raw; udp = u }))

  unfoldable pub write_to :
      (AddrEx → String) → AddrEx → Option CachedUdp → Result Endpoint × Option CachedUdp
  unfolding written_to resolve_addr_ex_udp
  write_to show a none = written_to (show a) a none (resolve_addr_ex_udp a)
  write_to show a (some c) =
      if str_eq c.raw (show a)
      then (ok c.udp, some c)
      else written_to (show a) a (some c) (resolve_addr_ex_udp a)
