-- ===== src/AppAuth/Gate.antt =====
-- internal/appauth/appauth.go: Apply, Enforce and RealClientIP. Addresses and hashes are those of the
-- packages net, bcrypt and sha256; a header that is absent is empty.
use mathlib.Core.List.{reverse}
use agent_ops.Prelude.{
  ℕ, Str, lit, str_eq, trim_space, Option, none, some, List, [], ◌∷◌, ◌++◌, any, Bool, true, false,
  not, ◌&&◌, ◌||◌, is_nil, Result, ok, err, if◌then◌else◌,
}
use agent_ops.Prelude.Text.{split, contains, has_prefix, to_lower}

-- the package net, with a type of addresses and one of networks
pub record Net (Ip Cidr : Type 0) : Type 0 where
  pub parse_ip : Str → Option Ip
  pub parse_cidr : Str → Option Cidr
  pub base : Cidr → Ip
  pub in_net : Cidr → Ip → Bool
  pub is_loopback : Ip → Bool
  pub is_private : Ip → Bool
  pub is_link_local : Ip → Bool
  pub is_unspecified : Ip → Bool
  -- the host of SplitHostPort, empty on an error
  pub host_of : Str → Str

-- bcrypt.CompareHashAndPassword, and the hex digits of sha256
pub record Hashes : Type 0 where
  pub bcrypt_fits : Str → Str → Bool
  pub sha256_hex : Str → Str

pub record BasicCred : Type 0 where
  pub user : Str
  pub pass_hash : Str

pub record Gate (Cidr : Type 0) : Type 0 where
  pub basic : Option BasicCred
  pub token_sha256 : Str
  pub ip_nets : List Cidr

-- the JSON of the control plane: a part that is absent is `none`
pub record Wire : Type 0 where
  pub basic : Option BasicCred
  pub token : Option Str
  pub ip_allow_list : List Str

-- of an http.Request: `basic_auth` is its BasicAuth()
pub record HttpRequest : Type 0 where
  pub forwarded_for : Str
  pub remote_addr : Str
  pub authorization : Str
  pub webhook_token : Str
  pub basic_auth : Option (Str × Str)

pub data Verdict : Type 0 where
  allowed : Verdict
  denied : ℕ → Str → Verdict

module _ {Ip Cidr : Type 0} (net : Net Ip Cidr) where
  abbrev pub is_internal : Ip → Bool
  is_internal ip = net.is_loopback ip || net.is_private ip || net.is_link_local ip

  abbrev unless_internal : Option Ip → Option Ip
  unless_internal none = none
  unless_internal (some ip) = if is_internal ip then none else some ip

  -- the address of a hop, if it is one from outside
  unfoldable pub public_hop : Str → Option Ip
  public_hop part = unless_internal (net.parse_ip (trim_space part))

  abbrev pub or_else : Option Ip → Option Ip → Option Ip
  or_else none rest = rest
  or_else (some ip) rest = some ip

  -- the loops walk from the right: the parts are in reverse
  unfoldable pub first_public : List Str → Option Ip
  first_public [] = none
  first_public (p ∷ ps) = or_else (public_hop p) (first_public ps)

  unfoldable pub first_parsed : List Str → Option Ip
  first_parsed [] = none
  first_parsed (p ∷ ps) = or_else (net.parse_ip (trim_space p)) (first_parsed ps)

  abbrev direct : HttpRequest → Option Ip
  direct r = net.parse_ip (net.host_of r.remote_addr)

  unfoldable pub real_client_ip : HttpRequest → Option Ip
  real_client_ip r =
      if is_nil r.forwarded_for
      then direct r
      else let parts = reverse (split b',' r.forwarded_for) in
        or_else (first_public parts) (or_else (first_parsed parts) (direct r))

  -- a bare address is a network of one host
  abbrev pub as_cidr : Str → Str
  as_cidr s =
      if contains s (lit "/")
      then s
      else if contains s (lit ":")
      then s ++ lit "/128"
      else s ++ lit "/32"

  abbrev pub is_usable : Cidr → Bool
  is_usable n = not (is_internal (net.base n) || net.is_unspecified (net.base n))

  abbrev pub usable_only : Option Cidr → Option Cidr
  usable_only none = none
  usable_only (some n) = if is_usable n then some n else none

  unfoldable pub allow_entry : Str → Option Cidr
  allow_entry raw =
      if is_nil (trim_space raw)
      then none
      else usable_only (net.parse_cidr (as_cidr (trim_space raw)))

  abbrev pub cons_some : Option Cidr → List Cidr → List Cidr
  cons_some none ns = ns
  cons_some (some n) ns = n ∷ ns

  unfoldable pub allow_list : List Str → List Cidr
  allow_list [] = []
  allow_list (raw ∷ rest) = cons_some (allow_entry raw) (allow_list rest)

  abbrev usable_cred : Option BasicCred → Option BasicCred
  usable_cred none = none
  usable_cred (some b) = if is_nil b.user || is_nil b.pass_hash then none else some b

  abbrev usable_token : Option Str → Str
  usable_token none = []
  usable_token (some t) = if is_nil t then [] else to_lower (trim_space t)

  unfoldable pub gate_of : Wire → Gate Cidr
  gate_of w = record {
    basic = usable_cred w.basic;
    token_sha256 = usable_token w.token;
    ip_nets = allow_list w.ip_allow_list;
  }

  abbrev no_cred : Option BasicCred → Bool
  no_cred none = true
  no_cred (some b) = false

  abbrev pub is_open : Gate Cidr → Bool
  is_open g = no_cred g.basic && is_nil g.token_sha256 && is_nil g.ip_nets

  abbrev stored : Gate Cidr → Option (Gate Cidr)
  stored g = if is_open g then none else some g

  abbrev pub swapped : Result Str Wire → Option (Gate Cidr) → Option Str × Option (Gate Cidr)
  swapped (err e) current = (some e, current)
  swapped (ok w) current = (none, stored (gate_of w))

  -- Apply, over the live configuration: its error, and the configuration behind it
  unfoldable pub apply :
      (Str → Result Str Wire) → Str → Option (Gate Cidr) → Option Str × Option (Gate Cidr)
  apply decode raw current =
      if is_nil (trim_space raw) || str_eq (trim_space raw) (lit "null")
      then (none, none)
      else swapped (decode (trim_space raw)) current

  abbrev pub in_nets : List Cidr → Option Ip → Bool
  in_nets ns none = false
  in_nets ns (some ip) = any (λ n. net.in_net n ip) ns

  -- the text behind a prefix of so many bytes
  abbrev pub behind : Str → Str → Str
  behind [] s = s
  behind (p ∷ ps) [] = []
  behind (p ∷ ps) (c ∷ s) = behind ps s

  unfoldable pub bearer_or_webhook_token : HttpRequest → Str
  bearer_or_webhook_token r =
      if has_prefix r.authorization (lit "Bearer ")
      then trim_space (behind (lit "Bearer ") r.authorization)
      else trim_space r.webhook_token

  abbrev pub cred_fits : Hashes → BasicCred → Option (Str × Str) → Bool
  cred_fits h b none = false
  cred_fits h b (some (user, pass)) = str_eq user b.user && h.bcrypt_fits b.pass_hash pass

  abbrev pub basic_fits : Hashes → Option BasicCred → HttpRequest → Bool
  basic_fits h none r = true
  basic_fits h (some b) r = cred_fits h b r.basic_auth

  abbrev pub token_fits : Hashes → Str → HttpRequest → Bool
  token_fits h digest r =
      is_nil digest
      || (not (is_nil (bearer_or_webhook_token r))
          && str_eq (h.sha256_hex (bearer_or_webhook_token r)) digest)

  abbrev pub ip_fits : List Cidr → HttpRequest → Bool
  ip_fits ns r = is_nil ns || in_nets ns (real_client_ip r)

  unfoldable pub enforce : Hashes → Option (Gate Cidr) → HttpRequest → Verdict
  enforce h none r = allowed
  enforce h (some g) r =
      if not (ip_fits g.ip_nets r)
      then denied 403 []
      else if not (basic_fits h g.basic r)
      then denied 401 (lit "Basic realm=\"Restricted\"")
      else if not (token_fits h g.token_sha256 r)
      then denied 401 []
      else allowed
