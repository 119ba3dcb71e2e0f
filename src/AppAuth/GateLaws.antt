-- ===== src/AppAuth/GateLaws.antt =====
-- internal/appauth/appauth.go: whom the gate lets through.
use agent_ops.Prelude.{
  ℕ, Str, str_eq, str_eq_iff, Option, none, some, List, [], ◌∷◌, any, get_elem?, zero, suc, ◌≡◌,
  refl, ap, ◌↔◌, ◌⊎◌, inl, inr, Bool, true, false, is_nil, Bool-cases, arith,
}
use agent_ops.AppAuth.Gate.{
  Net, Hashes, BasicCred, Gate, HttpRequest, allowed, real_client_ip, in_nets,
  bearer_or_webhook_token, cred_fits, basic_fits, token_fits, ip_fits, enforce,
}

module _ {Ip Cidr : Type 0} (net : Net Ip Cidr) where
  -- the request that a gate admits
  pub record Admits (h : Hashes) (g : Gate Cidr) (r : HttpRequest) : Type 0 where
    pub address :
        (g.ip_nets ≡ [])
        ⊎ ((ip : Ip) × (n : Cidr) × (i : ℕ) × (real_client_ip net r ≡ some ip)
            × (get_elem? g.ip_nets i ≡ some n)
            × (net.in_net n ip ≡ true))
    pub password :
        (b : BasicCred)
        → g.basic ≡ some b
        → (pass : Str) × (r.basic_auth ≡ some (b.user, pass))
          × (h.bcrypt_fits b.pass_hash pass ≡ true)
    pub token :
        is_nil g.token_sha256 ≡ false
        → (is_nil (bearer_or_webhook_token net r) ≡ false)
          × (h.sha256_hex (bearer_or_webhook_token net r) ≡ g.token_sha256)

  any_found :
      {A : Type 0} (p : A → Bool) (xs : List A)
      → any p xs ≡ true
      → (x : A) × (i : ℕ) × (get_elem? xs i ≡ some x) × (p x ≡ true)
  any_found p [] q = cc q
  any_found p (x ∷ xs) q = elim (Bool-cases (p x)) [
    | inl e ↦ (x, zero, refl, e)
    | inr e ↦ let (y, i, m, f) = any_found p xs (rw e at q) in (y, suc i, m, f)
  ]

  found_any :
      {A : Type 0} (p : A → Bool) (xs : List A) (x : A) (i : ℕ)
      → get_elem? xs i ≡ some x
      → p x ≡ true
      → any p xs ≡ true
  found_any p [] x i q h = cc q
  found_any p (y ∷ ys) x zero q h = let e : y ≡ x = cc q in rw (e, h) refl
  found_any p (y ∷ ys) x (suc i) q h = rw (found_any p ys x i q h) (ground arith)

  nil_or : {A : Type 0} (xs : List A) → (xs ≡ []) ⊎ (is_nil xs ≡ false)
  nil_or [] = inl refl
  nil_or (x ∷ xs) = inr refl

  in_nets-found :
      (ns : List Cidr) (o : Option Ip)
      → in_nets net ns o ≡ true
      → (ip : Ip) × (n : Cidr) × (i : ℕ) × (o ≡ some ip)
        × (get_elem? ns i ≡ some n)
        × (net.in_net n ip ≡ true)
  in_nets-found ns none q = cc q
  in_nets-found ns (some ip) q =
      let (n, i, m, f) = any_found (λ n. net.in_net n ip) ns q in (ip, n, i, refl, m, f)

  module _ (h : Hashes) (g : Gate Cidr) (r : HttpRequest) where
    -- the three tests, apart
    passes :
        enforce net h (some g) r ≡ allowed
        → (ip_fits net g.ip_nets r ≡ true)
          × (basic_fits net h g.basic r ≡ true)
          × (token_fits net h g.token_sha256 r ≡ true)
    unfolding enforce
    passes q = elim (Bool-cases (ip_fits net g.ip_nets r)) [
      | inr a ↦ cc (rw a at q)
      | inl a ↦ elim (Bool-cases (basic_fits net h g.basic r)) [
        | inr b ↦ cc (rw (a, b) at q)
        | inl b ↦ elim (Bool-cases (token_fits net h g.token_sha256 r)) [
          | inr c ↦ cc (rw (a, b, c) at q)
          | inl c ↦ (a, b, c)
        ]
      ]
    ]

    cred_lem :
        (b : BasicCred) (o : Option (Str × Str))
        → cred_fits net h b o ≡ true
        → (pass : Str) × (o ≡ some (b.user, pass)) × (h.bcrypt_fits b.pass_hash pass ≡ true)
    cred_lem b none q = cc q
    cred_lem b (some (user, pass)) q =
        let (u, p) : (str_eq user b.user ≡ true) × (h.bcrypt_fits b.pass_hash pass ≡ true) =
          ground arith in
        (pass, ap (λ n. some (n, pass)) ((str_eq_iff user b.user).0 u), p)

    allowed-Admits : enforce net h (some g) r ≡ allowed → Admits h g r
    allowed-Admits q =
        let (a, b, c) = passes q in
        record {
          address = elim (nil_or g.ip_nets) [
            | inl e ↦ inl e
            | inr e ↦ inr (in_nets-found g.ip_nets (real_client_ip net r) (ground arith))
          ];
          password = λ k e. cred_lem k r.basic_auth (rw e at b);
          token = λ e. (
            ground arith,
            (str_eq_iff (h.sha256_hex (bearer_or_webhook_token net r)) g.token_sha256).0
                (ground arith),
          );
        }

    address_fits : Admits h g r → ip_fits net g.ip_nets r ≡ true
    address_fits a = elim a.address [
      | inl e ↦ rw e refl
      | inr (ip, n, i, q, m, f) ↦
          let c : in_nets net g.ip_nets (some ip) ≡ true =
            found_any (λ n. net.in_net n ip) g.ip_nets n i m f in
          rw (q, c) (ground arith)
    ]

    password_fits :
        (o : Option BasicCred)
        → ((b : BasicCred)
            → o ≡ some b
            → (pass : Str) × (r.basic_auth ≡ some (b.user, pass))
              × (h.bcrypt_fits b.pass_hash pass ≡ true))
        → basic_fits net h o r ≡ true
    password_fits none a = refl
    password_fits (some b) a =
        let (pass, q, f) = a b refl in rw (q, f, (str_eq_iff b.user b.user).1 refl) refl

    secret_fits : Admits h g r → token_fits net h g.token_sha256 r ≡ true
    secret_fits a = elim (Bool-cases (is_nil g.token_sha256)) [
      | inl e ↦ rw e refl
      | inr e ↦
          let (n, q) = a.token e in
          let f = (str_eq_iff (h.sha256_hex (bearer_or_webhook_token net r)) g.token_sha256).1 q in
          rw (e, n, f) refl
    ]

    Admits-allowed : Admits h g r → enforce net h (some g) r ≡ allowed
    unfolding enforce
    Admits-allowed a = rw (address_fits a, password_fits g.basic a.password, secret_fits a) refl

    -- A gate admits a request exactly if the client's address is in one of its networks, where it has
    -- any; the user and the password are those of its credentials, where it has any; and the token of
    -- the request is there and has its digest, where it has one.
    pub enforce-Admits : (enforce net h (some g) r ≡ allowed) ↔ Admits h g r
    enforce-Admits = (allowed-Admits, Admits-allowed)
