-- ===== src/Front/Bridge.antt =====
-- internal/api/mcp/server.go: ohAgentProxy and ohvsProxy, which reach servers inside the container.
use agent_ops.Prelude.{
  ℕ, Str, lit, Option, none, some, [], ◌∷◌, ◌++◌, ◌≡◌, refl, ◌≤◌, ◌==◌, Bool, true, false, ◌&&◌,
  leb, if◌then◌else◌, Bool-cases, inl, inr, arith,
}
use agent_ops.Prelude.Int.{ℤ, pos, negsuc}
use agent_ops.Prelude.Text.{has_prefix, has_prefix-append}
use agent_ops.Front.Numbers.{has, digits, number, atoi, cut_at}

-- what a bridge does with a request: an error, or the host and the path that it is sent to
pub data Bridged : Type 0 where
  out_of_range bad_target : Bridged
  forward : Str → Str → Bridged

abbrev pub port_lo : ℕ
port_lo = 8000

abbrev pub port_hi : ℕ
port_hi = 8099

abbrev pub oh_agent_prefix : Str
oh_agent_prefix = lit "/_oh_agent/"

abbrev pub ohvs_prefix : Str
ohvs_prefix = lit "/_ohvs/"

-- strings.TrimPrefix
abbrev pub after_prefix : Str → Str → Str
after_prefix [] s = s
after_prefix (p ∷ ps) [] = []
after_prefix (p ∷ ps) (c ∷ s) = after_prefix ps s

unfoldable pub cut_prefix : Str → Str → Str
cut_prefix s p = if has_prefix s p then after_prefix p s else s

abbrev pub in_range : Option ℤ → Bool
in_range (some (pos p)) = leb port_lo p && leb p port_hi
in_range (some (negsuc p)) = false
in_range none = false

-- Of what Atoi accepts, url.Parse takes the digits as a port and refuses a sign.
abbrev pub loopback : Str → Option ℕ → Option Str
loopback port none = none
loopback port (some n) = some (lit "127.0.0.1:" ++ port)

abbrev pub sent_to : Str → Option Str → Bridged
sent_to path none = bad_target
sent_to path (some host) = forward host path

unfoldable pub to_port : Str → Str → Bridged
to_port port path =
    if in_range (atoi port) then sent_to path (loopback port (number port)) else out_of_range

-- the prefix and the port are cut off
unfoldable pub oh_agent_proxy : Str → Bridged
oh_agent_proxy path =
    let (port, tail) = cut_at b'/' (cut_prefix path oh_agent_prefix) in to_port port (b'/' ∷ tail)

-- the path stays as it is
unfoldable pub ohvs_proxy : Str → Bridged
ohvs_proxy path = to_port (cut_at b'/' (cut_prefix path ohvs_prefix)).0 path

-- A forward goes to the loopback address, at a port of the range.
pub data IsBridge (port path : Str) : Bridged → Type 0 where
  refused_range : IsBridge port path out_of_range
  refused_target : IsBridge port path bad_target
  allowed :
      {host : Str} (n : ℕ)
      → host ≡ lit "127.0.0.1:" ++ port
      → number port ≡ some n
      → port_lo ≤ n
      → n ≤ port_hi
      → IsBridge port path (forward host path)

-- a text of digits alone is the number that Atoi reads
atoi-number :
    (port : Str) (n : ℕ)
    → number port ≡ some n
    → in_range (atoi port) ≡ true
    → (port_lo ≤ n) × (n ≤ port_hi)
unfolding atoi number digits
atoi-number [] n h r = cc h
atoi-number (c ∷ s) n h r = ground arith

to_port-IsBridge : (port path : Str) → IsBridge port path (to_port port path)
unfolding to_port
to_port-IsBridge port path = elim (Bool-cases (in_range (atoi port))) [
  | inr r ↦ rw r refused_range
  | inl r ↦ rw r (by_number r (number port) refl)
]
  where
    by_number :
        in_range (atoi port) ≡ true
        → (o : Option ℕ) → number port ≡ o
        → IsBridge port path (sent_to path (loopback port o))
    by_number r none q = refused_target
    by_number r (some n) q = let b = atoi-number port n q r in allowed n refl q b.0 b.1

-- Whatever path a request has, a bridge sends it nowhere but to the loopback address, at a port from
-- 8000 to 8099, which the digits behind the bridge's prefix spell; or it refuses it. The server of an
-- agent gets the path behind the port, and the editor the whole path.
pub bridges-IsBridge :
    (path : Str)
    → IsBridge
        (cut_at b'/' (cut_prefix path oh_agent_prefix)).0
        (b'/' ∷ (cut_at b'/' (cut_prefix path oh_agent_prefix)).1)
        (oh_agent_proxy path)
      × IsBridge (cut_at b'/' (cut_prefix path ohvs_prefix)).0 path (ohvs_proxy path)
unfolding oh_agent_proxy ohvs_proxy
bridges-IsBridge path = (to_port-IsBridge _ _, to_port-IsBridge _ path)

cut_at-stop : (sep : ℕ) (s t : Str) → has sep s ≡ false → cut_at sep (s ++ sep ∷ t) ≡ (s, t)
unfolding cut_at
cut_at-stop sep [] t h = let e : (sep == sep) ≡ true = ground arith in rw e refl
cut_at-stop sep (c ∷ s) t h =
    let (p, q) : ((c == sep) ≡ false) × (has sep s ≡ false) = ground arith in
    rw (p, cut_at-stop sep s t q) refl

cut_prefix-append : (p s : Str) → cut_prefix (p ++ s) p ≡ s
unfolding cut_prefix
cut_prefix-append p s = rw (has_prefix-append p s) (after_prefix-append p s)
  where
    after_prefix-append : (p s : Str) → after_prefix p (p ++ s) ≡ s
    after_prefix-append [] s = refl
    after_prefix-append (c ∷ p) s = after_prefix-append p s

in_range-atoi :
    (port : Str) (n : ℕ)
    → number port ≡ some n
    → port_lo ≤ n
    → n ≤ port_hi
    → in_range (atoi port) ≡ true
unfolding atoi number digits
in_range-atoi [] n h a b = cc h
in_range-atoi (c ∷ s) n h a b = ground arith

-- A path with the prefix of a bridge, a port from 8000 to 8099 in digits, a slash and any rest is sent to
-- that port: with the rest alone to the server of an agent, and as it is to the editor.
bridges_forward :
    (port rest : Str) (n : ℕ)
    → has b'/' port ≡ false
    → number port ≡ some n
    → port_lo ≤ n
    → n ≤ port_hi
    → (oh_agent_proxy (oh_agent_prefix ++ (port ++ b'/' ∷ rest))
        ≡ forward (lit "127.0.0.1:" ++ port) (b'/' ∷ rest))
      × (ohvs_proxy (ohvs_prefix ++ (port ++ b'/' ∷ rest))
          ≡ forward (lit "127.0.0.1:" ++ port) (ohvs_prefix ++ (port ++ b'/' ∷ rest)))
unfolding oh_agent_proxy ohvs_proxy to_port
bridges_forward port rest n h q a b =
    let r = in_range-atoi port n q a b in
    (
      rw
          (
            cut_prefix-append oh_agent_prefix (port ++ b'/' ∷ rest),
            cut_at-stop b'/' port rest h,
            r,
            q,
          )
          refl,
      rw (cut_prefix-append ohvs_prefix (port ++ b'/' ∷ rest), cut_at-stop b'/' port rest h, r, q)
          refl,
    )
