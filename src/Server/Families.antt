-- ===== src/Server/Families.antt =====
-- The address families of direct connections.
use v2node_hy.Base.{
  ℕ, String, Bool, true, false, Option, none, some, List, [], ◌∷◌, if◌then◌else◌, ◌≡◌, refl,
}
use v2node_hy.Traffic.Effect.{Error, text, Result, ok, err}
use v2node_hy.Server.Outbounds.{
  Ip, is_v4, ResolveInfo, AddrEx, Endpoint, first_ip, endpoint_or, resolve_error, looked_up_tcp,
  parsed_tcp, resolve_addr_ex_tcp,
}

-- An endpoint of IPv4 with this port, if there is one.
abbrev pub IsV4 : ℕ → Result Endpoint → Type 0
IsV4 port (err e) = Unit
IsV4 port (ok (ip, p)) = (is_v4 ip ≡ true) × (p ≡ port)

-- An address that was found as one of IPv4 is of IPv4.
abbrev pub IsV4Found : Option Ip → Type 0
IsV4Found none = Unit
IsV4Found (some ip) = is_v4 ip ≡ true

abbrev pub IsV4Info : Option ResolveInfo → Type 0
IsV4Info none = Unit
IsV4Info (some i) = IsV4Found i.ipv4

first_ip-IsV4Found : (ips : List Ip) → IsV4Found (first_ip is_v4 ips)
unfolding first_ip
first_ip-IsV4Found [] = tt
first_ip-IsV4Found (ip ∷ ips) = by_test (is_v4 ip) refl (first_ip-IsV4Found ips)
  where
    by_test :
        (b : Bool)
        → is_v4 ip ≡ b
        → IsV4Found (first_ip is_v4 ips)
        → IsV4Found (if b then some ip else first_ip is_v4 ips)
    by_test true e h = e
    by_test false e h = h

endpoint_or-IsV4 :
    (port : ℕ) (o : Option Ip) (e : Result Endpoint)
    → IsV4Found o
    → IsV4 port e
    → IsV4 port (endpoint_or port o e)
endpoint_or-IsV4 port none e h k = k
endpoint_or-IsV4 port (some ip) e h k = (h, refl)

resolve_error-IsV4 : (port : ℕ) (o : Option Error) → IsV4 port (resolve_error o)
resolve_error-IsV4 port none = tt
resolve_error-IsV4 port (some e) = tt

module _ (parse_ip : String → Option Ip) (lookup_ip : String → Result (List Ip)) where
  looked_up_tcp-IsV4 :
      (port : ℕ) (ips : Result (List Ip)) → IsV4 port (looked_up_tcp parse_ip lookup_ip port ips)
  unfolding looked_up_tcp
  looked_up_tcp-IsV4 port (err e) = tt
  looked_up_tcp-IsV4 port (ok ips) =
      endpoint_or-IsV4 port (first_ip is_v4 ips) (err (text "no IPv4 address available"))
        (first_ip-IsV4Found ips) tt

  parsed_tcp-IsV4 : (a : AddrEx) (o : Option Ip) → IsV4 a.port (parsed_tcp parse_ip lookup_ip a o)
  unfolding parsed_tcp
  parsed_tcp-IsV4 a none = looked_up_tcp-IsV4 a.port (lookup_ip a.host)
  parsed_tcp-IsV4 a (some ip) = by_test (is_v4 ip) refl
    where
      by_test :
          (b : Bool)
          → is_v4 ip ≡ b
          → IsV4 a.port (
              if b
              then ok (ip, a.port)
              else err (text "IPv6 literal is not allowed for forced IPv4 outbound"))
      by_test true e = (e, refl)
      by_test false e = tt

  -- An address for a TCP connection that is resolved is one of IPv4 and has the port of the request,
  -- wherever it comes from: the request's own information, a literal, or a lookup.
  pub resolve_addr_ex_tcp-IsV4 :
      (a : AddrEx)
      → IsV4Info a.resolve_info
      → IsV4 a.port (resolve_addr_ex_tcp parse_ip lookup_ip a)
  unfolding resolve_addr_ex_tcp
  resolve_addr_ex_tcp-IsV4 a h = by_info a.resolve_info h
    where
      by_info :
          (o : Option ResolveInfo)
          → IsV4Info o
          → IsV4 a.port (elim o [
            | some i ↦ endpoint_or a.port i.ipv4 (resolve_error i.failure)
            | none ↦ parsed_tcp parse_ip lookup_ip a (parse_ip a.host)
          ])
      by_info none k = parsed_tcp-IsV4 a (parse_ip a.host)
      by_info (some i) k =
          endpoint_or-IsV4 a.port i.ipv4 (resolve_error i.failure) k
            (resolve_error-IsV4 a.port i.failure)
