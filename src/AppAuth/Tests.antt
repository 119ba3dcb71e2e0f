-- ===== src/AppAuth/Tests.antt =====
-- A gate at addresses of one byte, and its theorems there.
use agent_ops.Prelude.{
  ℕ, Str, lit, str_eq, trim_space, Option, none, some, ok, [], ◌∷◌, ◌≡◌, ◌↔◌, refl, false, ◌==◌,
  leb, ◌&&◌,
}
use agent_ops.Prelude.Text.{contains, has_prefix, split}
use agent_ops.AppAuth.Gate.{
  Net, Hashes, Gate, HttpRequest, allowed, public_hop, first_public, real_client_ip, allow_entry,
  allow_list, gate_of, apply, enforce,
}
use agent_ops.AppAuth.GateLaws.{Admits, enforce-Admits}
use agent_ops.AppAuth.Spoof.{forwarded, enforce_unspoofed}

-- an address is its first byte, those from `0` to `4` are internal
abbrev pub tiny_ip : Str → Option ℕ
tiny_ip [] = none
tiny_ip (c ∷ s) = some c

abbrev pub tiny : Net ℕ ℕ
tiny = record {
  parse_ip = tiny_ip;
  parse_cidr = tiny_ip;
  base = λ n. n;
  in_net = λ n ip. n == ip;
  is_loopback = λ ip. ip == b'0';
  is_private = λ ip. leb b'1' ip && leb ip b'4';
  is_link_local = λ ip. false;
  is_unspecified = λ ip. ip == b'*';
  host_of = λ s. s;
}

abbrev pub plain : Hashes
plain = record { bcrypt_fits = str_eq; sha256_hex = λ s. s }

abbrev pub office : Gate ℕ
office = record {
  basic = some (record { user = lit "ann"; pass_hash = lit "pw" });
  token_sha256 = [];
  ip_nets = b'7' ∷ [];
}

abbrev visit : HttpRequest
visit = record {
  forwarded_for = lit "9, 7, 2";
  remote_addr = lit "1";
  authorization = [];
  webhook_token = [];
  basic_auth = some (lit "ann", lit "pw");
}

seen_as : real_client_ip tiny visit ≡ some b'7'
unfolding real_client_ip first_public public_hop split trim_space
seen_as = refl

-- a list of nothing but networks that are dropped leaves the app open
fails_open :
    apply tiny
      (λ s. ok (record { basic = none; token = none; ip_allow_list = lit "*/0" ∷ lit "2" ∷ [] }))
      (lit "{}")
      (some office)
    ≡ (none, none)
unfolding apply gate_of allow_list allow_entry contains has_prefix trim_space str_eq
fails_open = refl

enforce-Admits_example :
    (enforce tiny plain (some office) visit ≡ allowed) ↔ Admits tiny plain office visit
enforce-Admits_example = enforce-Admits tiny plain office visit

enforce_unspoofed_example :
    enforce tiny plain
      (some office)
      (record visit { forwarded_for = forwarded (lit "7") (lit "9" ∷ lit "2" ∷ []) })
    ≡ enforce tiny plain
        (some office)
        (record visit { forwarded_for = forwarded [] (lit "9" ∷ lit "2" ∷ []) })
unfolding public_hop trim_space
enforce_unspoofed_example =
    enforce_unspoofed tiny plain (some office) visit (lit "7") [] (lit "9") (lit "2" ∷ []) b'9'
      (refl, (refl, tt)) refl (refl, tt)
