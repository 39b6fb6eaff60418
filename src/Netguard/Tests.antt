-- ===== src/Netguard/Tests.antt =====
-- A net with one loopback address, and the guard at work in it.
use contentflow.Prelude.{
  ◌==◌, if◌then◌else◌, trim_space, has_suffix, trim_suffix, trim_of, Err, ok, All, ℕ, ◌≡◌, refl,
  false, none, some, [], ◌∷◌, str_eq,
}
use contentflow.Netguard.{
  Net, Addr, dial_context, normalize_host, validate_addr, validate_host, lookup, dial_each,
}
use contentflow.Netguard.Reach.{IsSafe, dial_context-IsSafe}

abbrev pub address : ℕ → Addr
address bits = record { bits = bits; width = 32; zone = "" }

-- 127.0.0.1 is loopback; the first connection fails
abbrev pub small : Net
small = record {
  to_lower = λ s. s;
  parse_request_uri = λ s. ok (record { scheme = "https"; has_user = false; hostname = s });
  parse_addr = λ s. if str_eq s "127.0.0.1" then some (address 0x7f000001) else none;
  unmap = λ a. a;
  is4 = λ a. a.width == 32;
  is_loopback = λ a. a.bits == 0x7f000001;
  is_private = λ a. false;
  is_link_local_unicast = λ a. false;
  is_link_local_multicast = λ a. false;
  is_interface_local_multicast = λ a. false;
  is_multicast = λ a. false;
  is_unspecified = λ a. a.bits == 0;
  addr_text = λ a. "an address";
  split_host_port = λ s. ok (s, "443");
  lookup_net_ip = λ s. ok (address 1 ∷ address 2 ∷ address 0x7f000001 ∷ []);
  connect = λ n. if n == 0 then some (Err.other "connection refused") else none;
}

dial_context-IsSafe_example : All (IsSafe small "tcp") (dial_context small "tcp" "example.org" []).1
dial_context-IsSafe_example = dial_context-IsSafe small "tcp" "example.org"

-- the second address of the host answers
dial_second :
    (dial_context small "tcp" "example.org" []).0
    ≡ ok (record { network = "tcp"; addr = address 2; port = "443" })
unfolding dial_context validate_host normalize_host trim_of trim_space trim_suffix has_suffix lookup
    dial_each validate_addr
dial_second = refl
