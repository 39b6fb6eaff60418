-- ===== src/Netguard/Reach.antt =====
-- What a guarded connection may reach.
use contentflow.Prelude.{
  Bool-cases, Option-cases, Err, length, All, String, ◌≡◌, refl, ◌≢◌, inl, inr, Bool, true, false,
  ◌&&◌, ◌||◌, not, Option, none, some, List, [], ◌∷◌, arith, str_eq,
}
use Prim.Native.String.{◌++◌ as join}
use contentflow.Netguard.{
  Net, Addr, Dialed, validate_addr, dial_each, is_skipped, dial_context, Url, normalize_host,
}

module _ (net : Net) where
  -- an address that the guard lets through
  abbrev pub is_public : Addr → Bool
  is_public given =
      let addr = net.unmap given in
      not (net.is_loopback addr)
      && not (net.is_private addr)
      && not (net.is_link_local_unicast addr)
      && not (net.is_link_local_multicast addr)
      && not (net.is_interface_local_multicast addr)
      && not (net.is_multicast addr)
      && not (net.is_unspecified addr)

  -- A connection to a public address of the family that the network asks for.
  abbrev pub IsSafe : String → Dialed → Type 0
  IsSafe network d =
      (d.network ≡ network)
      × (is_public d.addr ≡ true)
      × (str_eq network "tcp4" ≡ true → net.is4 d.addr ≡ true)
      × (str_eq network "tcp6" ≡ true → net.is4 d.addr ≡ false)

  dial_each-IsSafe :
      (network host port : String) (last : Option Err) (addrs : List Addr) (tried : List Dialed)
      → All (IsSafe network) tried
      → All (IsSafe network) (dial_each net network host port last addrs tried).1
  unfolding dial_each validate_addr
  dial_each-IsSafe network host port none [] tried h = h
  dial_each-IsSafe network host port (some e) [] tried h = h
  dial_each-IsSafe network host port last (addr ∷ addrs) tried h =
      let dialed : Dialed = record { network = network; addr = addr; port = port } in
      elim (Bool-cases (is_public addr)) [
        | inr unsafe ↦ ground (arith, h)
        | inl public ↦ elim (Bool-cases (is_skipped net network addr)) [
          | inl skipped ↦ ground (arith, dial_each-IsSafe network host port last addrs tried h)
          | inr tried_too ↦
              let safe : All (IsSafe network) (dialed ∷ tried) =
                ((refl, public, ground arith, ground arith), h) in
              elim (Option-cases (net.connect (length tried))) [
                | inl connected ↦ ground (arith, safe)
                | inr (e, refused) ↦
                    ground (
                      arith,
                      dial_each-IsSafe network host port (some e) addrs (dialed ∷ tried) safe,
                    )
              ]
        ]
      ]

-- Whatever the resolver answers and whichever connections fail, every connection that a dial tries
-- is to an address of the family of the network that the guard lets through.
pub dial_context-IsSafe :
    (net : Net) (network address : String)
    → All (IsSafe net network) (dial_context net network address []).1
unfolding dial_context
dial_context-IsSafe net network address = grind (arith, dial_each-IsSafe net network)

-- A host with a name that is not "localhost", does not end in ".localhost" or ".local", and is no
-- address of the kinds that the guard refuses.
pub record IsAllowedHost (net : Net) (host : String) : Type 0 where
  pub named : normalize_host net host ≢ ""
  pub remote : normalize_host net host ≢ "localhost"
  pub not_localhost : (t : String) → normalize_host net host ≢ join t ".localhost"
  pub not_local : (t : String) → normalize_host net host ≢ join t ".local"
  pub public :
      (addr : Addr)
      → net.parse_addr (normalize_host net host) ≡ some addr
      → is_public net addr ≡ true

-- A URL of the web without user information, for a host that is allowed.
pub record IsAllowedUrl (net : Net) (parsed : Url) : Type 0 where
  pub web : (str_eq parsed.scheme "http" || str_eq parsed.scheme "https") ≡ true
  pub anonymous : parsed.has_user ≡ false
  pub host : IsAllowedHost net parsed.hostname
