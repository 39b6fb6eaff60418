-- ===== src/Netguard.antt =====
-- internal/netguard/netguard.go: which hosts and addresses the server may reach.
use Prim.Native.Char.{Char, code}
use Prim.Native.String.{◌++◌ as join}
use contentflow.Prelude.{
  ◌==◌, if◌then◌else◌, trim_space, has_suffix, trim_suffix, trim_of, Sentinel, Err, Result, Proc,
  raise, lift, wrapping, ◌>>=◌, ◌>>◌, ok, err, length, ℕ, String, Bool, true, false, ◌&&◌, ◌||◌,
  not, Option, none, some, List, [], ◌∷◌, str_eq,
}
pub mod Tests
pub mod Reach

-- `netip.Addr`
pub record Addr : Type 0 where
  pub bits : ℕ
  pub width : ℕ
  pub zone : String

-- what `url.ParseRequestURI` finds
pub record Url : Type 0 where
  pub scheme : String
  pub has_user : Bool
  pub hostname : String

-- What stands outside: Go's net, netip and net/url, the resolver and the network.
pub record Net : Type 0 where
  pub to_lower : String → String
  pub parse_request_uri : String → Result Url
  pub parse_addr : String → Option Addr
  pub unmap : Addr → Addr
  pub is4 : Addr → Bool
  pub is_loopback : Addr → Bool
  pub is_private : Addr → Bool
  pub is_link_local_unicast : Addr → Bool
  pub is_link_local_multicast : Addr → Bool
  pub is_interface_local_multicast : Addr → Bool
  pub is_multicast : Addr → Bool
  pub is_unspecified : Addr → Bool
  pub addr_text : Addr → String
  pub split_host_port : String → Result (String × String)
  pub lookup_net_ip : String → Result (List Addr)
  -- the error of the connection with the number, if it has one
  pub connect : ℕ → Option Err

-- A connection that was tried: the network, the address and the port.
pub record Dialed : Type 0 where
  pub network : String
  pub addr : Addr
  pub port : String

abbrev is_bracket : Char → Bool
is_bracket c = code c == 0x5b || code c == 0x5d

module _ (net : Net) where
  -- `normalizeHost`
  unfoldable pub normalize_host : String → String
  normalize_host host = net.to_lower (trim_of is_bracket (trim_space (trim_suffix host ".")))

  -- `validateAddr`
  unfoldable pub validate_addr : Addr → Result (Unit {0})
  validate_addr given =
      let addr = net.unmap given in
      if net.is_loopback addr
        || net.is_private addr
        || net.is_link_local_unicast addr
        || net.is_link_local_multicast addr
        || net.is_interface_local_multicast addr
        || net.is_multicast addr
        || net.is_unspecified addr
      then err (Err.detail Sentinel.unsafe_address (net.addr_text addr))
      else ok tt

  abbrev pub is_local_host : String → Bool
  is_local_host host =
      str_eq host "localhost" || has_suffix host ".localhost" || has_suffix host ".local"

  -- `ValidateHost`
  unfoldable pub validate_host : String → Result (Unit {0})
  validate_host raw =
      let host = normalize_host raw in
      if str_eq host ""
      then err (Err.detail Sentinel.unsafe_address "empty host")
      else if is_local_host host
      then err (Err.detail Sentinel.unsafe_address "local host is not allowed")
      else elim (net.parse_addr host) [ some addr ↦ validate_addr addr | none ↦ ok tt ]

  -- `ValidateHTTPURL`
  unfoldable pub validate_http_url : String → Result (Unit {0})
  validate_http_url raw = elim (net.parse_request_uri (trim_space raw)) [
    | err e ↦ err e
    | ok parsed ↦
        if not (str_eq parsed.scheme "http") && not (str_eq parsed.scheme "https")
        then err (Err.detail Sentinel.unsafe_address "unsupported scheme")
        else if parsed.has_user
        then err (Err.detail Sentinel.unsafe_address "userinfo is not allowed")
        else validate_host parsed.hostname
  ]

  -- `Dialer.lookup`
  unfoldable pub lookup : String → Result (List Addr)
  lookup host = elim (net.parse_addr (normalize_host host)) [
    | some addr ↦ ok (addr ∷ [])
    | none ↦ elim (net.lookup_net_ip host) [
      | ok addrs ↦ ok addrs
      | err e ↦ err (Err.wrap "resolve outbound host" e)
    ]
  ]

  -- the addresses that `network` leaves out
  abbrev pub is_skipped : String → Addr → Bool
  is_skipped network addr =
      (str_eq network "tcp4" && not (net.is4 addr)) || (str_eq network "tcp6" && net.is4 addr)

  -- the loop of `Dialer.DialContext`, with the error of the last connection
  unfoldable pub dial_each :
      String → String → String → Option Err → List Addr → Proc (List Dialed) Dialed
  dial_each network host port last [] tried = elim last [
    | some e ↦ (err e, tried)
    | none ↦ (
      err (
          Err.other (join "resolve outbound host: no " (join network (join " address for " host)))),
      tried,
    )
  ]
  dial_each network host port last (addr ∷ addrs) tried =
      let dialed : Dialed = record { network = network; addr = addr; port = port } in
      elim (validate_addr addr) [
        | err e ↦ (err e, tried)
        | ok u ↦ elim (is_skipped network addr) [
          | true ↦ dial_each network host port last addrs tried
          | false ↦ elim (net.connect (length tried)) [
            | none ↦ (ok dialed, dialed ∷ tried)
            | some e ↦ dial_each network host port (some e) addrs (dialed ∷ tried)
          ]
        ]
      ]

  -- `Dialer.DialContext`
  unfoldable pub dial_context : String → String → Proc (List Dialed) Dialed
  dial_context network address =
      if not (str_eq network "tcp") && not (str_eq network "tcp4") && not (str_eq network "tcp6")
      then raise (Err.detail Sentinel.unsafe_address (join "unsupported network " network))
      else do
        pair ← wrapping "split outbound address" (lift (net.split_host_port address))
        checked ← lift (validate_host pair.0)
        addrs ← lift (lookup pair.0)
        elim addrs [
          | [] ↦ raise (Err.other (join "resolve outbound host: no addresses for " pair.0))
          | addr ∷ rest ↦ dial_each network pair.0 pair.1 none (addr ∷ rest)
        ]
