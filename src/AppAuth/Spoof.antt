-- ===== src/AppAuth/Spoof.antt =====
-- internal/appauth/appauth.go: RealClientIP does not trust what a client forges, and what Apply stores.
use mathlib.Core.List.{reverse, reverse-append, reverse-cons}
use agent_ops.Prelude.{
  Str, lit, str_eq, trim_space, Option, none, some, Result, ok, err, List, [], ◌∷◌, ◌++◌, All,
  All-append, ◌≡◌, refl, ap, ◌∙◌, true, false, ◌||◌, is_nil, Bool-cases, Option-cases, inl, inr,
}
use agent_ops.Prelude.Text.{split, join, has_byte, split-append, split-join_parts}
use agent_ops.AppAuth.Gate.{
  Net, Hashes, Gate, Wire, HttpRequest, public_hop, first_public, real_client_ip, is_usable,
  allow_entry, allow_list, gate_of, is_open, apply, enforce, as_cidr, usable_only, swapped,
  BasicCred, basic_fits, bearer_or_webhook_token,
}

-- the header `X-Forwarded-For` of a client behind proxies: what the client sent, then the hops
abbrev pub forwarded : Str → List Str → Str
forwarded forged hops = forged ++ b',' ∷ join b',' hops

not_nil : (s t : Str) → is_nil (s ++ b',' ∷ t) ≡ false
not_nil [] t = refl
not_nil (c ∷ s) t = refl

module _ {Ip Cidr : Type 0} (net : Net Ip Cidr) where
  -- a hop of the load balancers: an internal address, or no address
  abbrev pub IsSkipped : Str → Type 0
  IsSkipped part = public_hop net part ≡ none

  first_public-append :
      (xs ys : List Str) (ip : Ip)
      → first_public net xs ≡ some ip
      → first_public net (xs ++ ys) ≡ some ip
  unfolding first_public
  first_public-append [] ys ip q = cc q
  first_public-append (x ∷ xs) ys ip q = elim (Option-cases (public_hop net x)) [
    | inl e ↦ rw e (first_public-append xs ys ip (rw e at q))
    | inr (a, e) ↦ rw e (rw e at q)
  ]

  first_public-skip :
      (xs : List Str) (part : Str) (ip : Ip)
      → All IsSkipped xs
      → public_hop net part ≡ some ip
      → first_public net (xs ++ part ∷ []) ≡ some ip
  unfolding first_public
  first_public-skip [] part ip _ q = rw q refl
  first_public-skip (x ∷ xs) part ip (e, es) q = rw e (first_public-skip xs part ip es q)

  All-reverse : (xs : List Str) → All IsSkipped xs → All IsSkipped (reverse xs)
  All-reverse [] _ = tt
  All-reverse (x ∷ xs) (p, ps) =
      rw (reverse-cons x xs)
        (All-append IsSkipped (reverse xs) (x ∷ []) (All-reverse xs ps) (p, tt))

  module _ (r : HttpRequest) (forged real : Str) (proxies : List Str) (ip : Ip)
      (clean : All (λ p. has_byte b',' p ≡ false) (real ∷ proxies))
      (outside : public_hop net real ≡ some ip) (inside : All IsSkipped proxies) where
    abbrev arriving : HttpRequest
    arriving = record r { forwarded_for = forwarded forged (real ∷ proxies) }

    parts :
        reverse (split b',' (forwarded forged (real ∷ proxies)))
        ≡ (reverse proxies ++ real ∷ []) ++ reverse (split b',' forged)
    parts =
        ap reverse (
          split-append b',' forged (join b',' (real ∷ proxies))
          ∙ ap (λ l. split b',' forged ++ l) (split-join_parts b',' (real ∷ proxies) refl clean))
        ∙ reverse-append (split b',' forged) (real ∷ proxies)
        ∙ ap (λ l. l ++ reverse (split b',' forged)) (reverse-cons real proxies)

    real_client_ip-arriving : real_client_ip net arriving ≡ some ip
    unfolding real_client_ip
    real_client_ip-arriving =
        rw
          (
            not_nil forged (join b',' (real ∷ proxies)),
            parts,
            first_public-append (reverse proxies ++ real ∷ []) (reverse (split b',' forged)) ip
                (first_public-skip (reverse proxies) real ip (All-reverse proxies inside) outside),
          )
          refl

  basic_same :
      (h : Hashes) (o : Option BasicCred) (r : HttpRequest) (a b : Str)
      → basic_fits net h o (record r { forwarded_for = a })
        ≡ basic_fits net h o (record r { forwarded_for = b })
  basic_same h none r a b = refl
  basic_same h (some k) r a b = refl

  -- What a client forges in X-Forwarded-For has no effect on the gate's verdict: if the first proxy
  -- adds an address from outside, and the hops behind it are internal or no addresses, and no hop has
  -- a comma, then the verdict on a request is the same whatever stands before them.
  pub enforce_unspoofed :
      (h : Hashes) (g : Option (Gate Cidr)) (r : HttpRequest) (forged forged' real : Str)
      (proxies : List Str) (ip : Ip)
      → All (λ p. has_byte b',' p ≡ false) (real ∷ proxies)
      → public_hop net real ≡ some ip
      → All IsSkipped proxies
      → enforce net h g (record r { forwarded_for = forwarded forged (real ∷ proxies) })
        ≡ enforce net h g (record r { forwarded_for = forwarded forged' (real ∷ proxies) })
  unfolding enforce bearer_or_webhook_token
  enforce_unspoofed h none r forged forged' real proxies ip c o i = refl
  enforce_unspoofed h (some g) r forged forged' real proxies ip c o i =
      rw
        (
          real_client_ip-arriving r forged real proxies ip c o i,
          real_client_ip-arriving r forged' real proxies ip c o i,
          basic_same h g.basic r (forwarded forged (real ∷ proxies))
              (forwarded forged' (real ∷ proxies)),
        )
        refl

  -- a live configuration has a gate, and only networks of outside addresses
  unfoldable pub IsSound : Option (Gate Cidr) → Type 0
  IsSound none = Unit
  IsSound (some g) = (is_open net g ≡ false) × All (λ n. is_usable net n ≡ true) g.ip_nets

  allow_entry-usable :
      (raw : Str) (n : Cidr) → allow_entry net raw ≡ some n → is_usable net n ≡ true
  unfolding allow_entry
  allow_entry-usable raw n q = elim (Bool-cases (is_nil (trim_space raw))) [
    | inl e ↦ cc (rw e at q)
    | inr e ↦ usable (net.parse_cidr (as_cidr net (trim_space raw))) (rw e at q)
  ]
    where
      usable : (o : Option Cidr) → usable_only net o ≡ some n → is_usable net n ≡ true
      usable none q = cc q
      usable (some m) q = elim (Bool-cases (is_usable net m)) [
        | inl e ↦ let same : m ≡ n = cc (rw e at q) in rw (← same) e
        | inr e ↦ cc (rw e at q)
      ]

  allow_list-usable : (raws : List Str) → All (λ n. is_usable net n ≡ true) (allow_list net raws)
  unfolding allow_list
  allow_list-usable [] = tt
  allow_list-usable (raw ∷ raws) = elim (Option-cases (allow_entry net raw)) [
    | inl e ↦ rw e (allow_list-usable raws)
    | inr (n, e) ↦ rw e (allow_entry-usable raw n e, allow_list-usable raws)
  ]

  -- Whatever the control plane sends, in whatever state, Apply keeps the live configuration sound: it
  -- is none, or it has a gate, and its networks are none of loopback, private, link-local or
  -- unspecified addresses.
  apply-IsSound :
      (decode : Str → Result Str Wire) (raw : Str) (current : Option (Gate Cidr))
      → IsSound current
      → IsSound (apply net decode raw current).1
  unfolding apply IsSound
  apply-IsSound decode raw current s =
      elim (Bool-cases (is_nil (trim_space raw) || str_eq (trim_space raw) (lit "null"))) [
        | inl e ↦ rw e tt
        | inr e ↦ rw e (swap (decode (trim_space raw)))
      ]
    where
      swap : (w : Result Str Wire) → IsSound (swapped net w current).1
      swap (err e) = s
      swap (ok w) = elim (Bool-cases (is_open net (gate_of net w))) [
        | inl e ↦ rw e tt
        | inr e ↦ rw e (e, unfold gate_of in allow_list-usable w.ip_allow_list)
      ]
