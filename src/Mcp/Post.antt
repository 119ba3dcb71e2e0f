-- ===== src/Mcp/Post.antt =====
-- internal/api/mcp/server.go: handleMCP, handlePOST, authOK and originOK.
use agent_ops.Prelude.{
  Str, lit, str_eq, str_eq_iff, trim_space, Result, ok, err, List, [], ◌∷◌, ◌++◌, any, ◌≡◌, refl,
  ap, ◌∙◌, ◌==◌, Bool, true, false, not, ◌||◌, ◌⊎◌, inl, inr, is_nil, if◌then◌else◌, Bool-cases,
  arith,
}
use agent_ops.Prelude.Text.{has_prefix, split}
use agent_ops.Scheduler.Cron.{Cron}
use agent_ops.Mcp.Server.{
  Server, Json, Around, Answer, RpcRequest, text, initialized, tool_list, pong, rpc_error,
  trim_prefix, handle_tools_call,
}

-- a header that is absent is empty; the body, or the error of its read
pub record Incoming : Type 0 where
  pub method : Str
  pub origin : Str
  pub authorization : Str
  pub body : Result Str Str

pub data Response : Type 0 where
  forbidden unauthorized method_not_allowed no_content accepted stream : Response
  answer : Answer → Response

pub data Method : Type 0 where
  initialize notification tools_list tools_call ping no_method : Method

abbrev pub default_origins : List Str
default_origins =
    lit "https://zibby.dev"
    ∷ lit "https://zibby.app"
    ∷ lit "https://www.zibby.dev"
    ∷ lit "https://www.zibby.app"
    ∷ []

abbrev pub trimmed_parts : List Str → List Str
trimmed_parts [] = []
trimmed_parts (p ∷ ps) =
    let rest = trimmed_parts ps in if is_nil (trim_space p) then rest else trim_space p ∷ rest

-- of the environment's AGENT_OPS_ALLOWED_ORIGINS
unfoldable pub load_allowed_origins : Str → List Str
load_allowed_origins raw =
    if is_nil (trim_space raw) then default_origins else trimmed_parts (split b',' raw)

module _ (C : Cron) where
  unfoldable pub origin_ok : Server C → Incoming → Bool
  origin_ok s r = is_nil r.origin || any (λ o. str_eq o r.origin) s.allowed_origins

  unfoldable pub auth_ok : Server C → Incoming → Bool
  auth_ok s r =
      if is_nil s.token
      then false
      else if not (has_prefix r.authorization (lit "Bearer "))
      then false
      else str_eq (trim_prefix C r.authorization (lit "Bearer ")) s.token

  abbrev pub sent : Answer × Server C → Response × Server C
  sent (a, s) = (answer a, s)

  -- the cases of the switch over the methods
  unfoldable pub method_named : Str → Method
  method_named name =
      if str_eq name (lit "initialize")
      then initialize
      else if str_eq name (lit "initialized") || str_eq name (lit "notifications/initialized")
      then notification
      else if str_eq name (lit "tools/list")
      then tools_list
      else if str_eq name (lit "tools/call")
      then tools_call
      else if str_eq name (lit "ping")
      then ping
      else no_method

  abbrev pub dispatch : Json → Around → RpcRequest → Method → Server C → Response × Server C
  dispatch j x req initialize s = (answer (text initialized), s)
  dispatch j x req notification s = (accepted, s)
  dispatch j x req tools_list s = (answer (text tool_list), s)
  dispatch j x req tools_call s = sent (handle_tools_call C j x (j.call req.params) s)
  dispatch j x req ping s = (answer (text pong), s)
  dispatch j x req no_method s =
      (answer (rpc_error 32601 (lit "method not found: " ++ req.method)), s)

  abbrev pub on_request : Json → Around → Result Str RpcRequest → Server C → Response × Server C
  on_request j x (err e) s = (answer (rpc_error 32700 (lit "parse error: " ++ e)), s)
  on_request j x (ok req) s =
      if not (str_eq req.version (lit "2.0"))
      then (answer (rpc_error 32600 (lit "invalid jsonrpc version")), s)
      else dispatch j x req (method_named req.method) s

  abbrev pub on_body : Json → Around → Result Str Str → Server C → Response × Server C
  on_body j x (err e) s = (answer (rpc_error 32700 (lit "parse error: " ++ e)), s)
  on_body j x (ok body) s = on_request j x (j.request body) s

  unfoldable pub handle_post : Json → Around → Incoming → Server C → Response × Server C
  handle_post j x r s =
      if not (origin_ok s r)
      then (forbidden, s)
      else if not (auth_ok s r)
      then (answer (rpc_error 32001 (lit "unauthorized")), s)
      else on_body j x r.body s

  -- the stream itself is left out
  unfoldable pub handle_get : Incoming → Server C → Response
  handle_get r s =
      if not (origin_ok s r) then forbidden else if not (auth_ok s r) then unauthorized else stream

  unfoldable pub handle_mcp : Json → Around → Incoming → Server C → Response × Server C
  handle_mcp j x r s =
      if str_eq r.method (lit "POST")
      then handle_post j x r s
      else if str_eq r.method (lit "GET")
      then (handle_get r s, s)
      else if str_eq r.method (lit "DELETE")
      then (no_content, s)
      else (method_not_allowed, s)

  -- a request that carries the token, and comes from no page or from one of an allowed origin
  pub record IsTrusted (s : Server C) (r : Incoming) : Type 0 where
    pub with_token : r.authorization ≡ lit "Bearer " ++ s.token
    pub has_token : is_nil s.token ≡ false
    pub from : (r.origin ≡ []) ⊎ (any (λ o. str_eq o r.origin) s.allowed_origins ≡ true)

  -- a response that tells nothing of the daemon
  abbrev pub is_harmless : Response → Bool
  is_harmless forbidden = true
  is_harmless unauthorized = true
  is_harmless method_not_allowed = true
  is_harmless no_content = true
  is_harmless accepted = false
  is_harmless stream = false
  is_harmless (answer (rpc_error code message)) = code == 32001
  is_harmless (answer a) = false

  pub record IsRefused (s : Server C) (o : Response × Server C) : Type 0 where
    pub same_state : o.1 ≡ s
    pub harmless : is_harmless o.0 ≡ true

  bearer_lem : (p s : Str) → has_prefix s p ≡ true → s ≡ p ++ trim_prefix C s p
  unfolding has_prefix
  bearer_lem [] s h = refl
  bearer_lem (c ∷ p) [] h = cc h
  bearer_lem (c ∷ p) (d ∷ s) h =
      let (e, q) : (d ≡ c) × (has_prefix s p ≡ true) = ground arith in
      ap (λ x. x ∷ s) e ∙ ap (λ l. c ∷ l) (bearer_lem p s q)

  pub auth_ok_lem :
      (s : Server C) (r : Incoming)
      → auth_ok s r ≡ true
      → (r.authorization ≡ lit "Bearer " ++ s.token) × (is_nil s.token ≡ false)
  unfolding auth_ok
  auth_ok_lem s r h = elim (Bool-cases (is_nil s.token)) [
    | inl n ↦ cc (rw n at h)
    | inr n ↦ elim (Bool-cases (has_prefix r.authorization (lit "Bearer "))) [
      | inr p ↦ cc (rw (n, p) at h)
      | inl p ↦
          let e =
            (str_eq_iff (trim_prefix C r.authorization (lit "Bearer ")) s.token).0
              (rw (n, p) at h) in
          (bearer_lem (lit "Bearer ") r.authorization p ∙ ap (λ t. lit "Bearer " ++ t) e, n)
    ]
  ]

  trusted :
      (s : Server C) (r : Incoming) → origin_ok s r ≡ true → auth_ok s r ≡ true → IsTrusted s r
  unfolding origin_ok
  trusted s r o a =
      let (t, n) = auth_ok_lem s r a in
      record {
        with_token = t;
        has_token = n;
        from = elim (Bool-cases (is_nil r.origin)) [
          | inl e ↦ inl (nil_lem r.origin e)
          | inr e ↦ inr (ground arith)
        ];
      }
    where
      nil_lem : (t : Str) → is_nil t ≡ true → t ≡ []
      nil_lem [] h = refl
      nil_lem (c ∷ t) h = cc h

  -- both tests of a handler
  guarded :
      (s : Server C) (r : Incoming) (reply closed other : Response × Server C)
      → IsRefused s closed
      → IsRefused s other
      → IsTrusted s r
        ⊎ IsRefused s
            (if not (origin_ok s r) then closed else if not (auth_ok s r) then other else reply)
  guarded s r reply closed other n m = elim (Bool-cases (origin_ok s r)) [
    | inr o ↦ rw o (inr n)
    | inl o ↦ elim (Bool-cases (auth_ok s r)) [
      | inr a ↦ rw (o, a) (inr m)
      | inl a ↦ inl (trusted s r o a)
    ]
  ]

  refused : (s : Server C) (o : Response) → is_harmless o ≡ true → IsRefused s (o, s)
  refused s o h = record { same_state = refl; harmless = h }

  -- A request to the server carries the bearer token, which is not empty, and comes from no web page or
  -- from a page of an allowed origin; or it has no effect on the store, the scheduler and the runner,
  -- and the response has nothing but a refusal.
  pub handle_mcp-IsTrusted :
      (j : Json) (x : Around) (r : Incoming) (s : Server C)
      → IsTrusted s r ⊎ IsRefused s (handle_mcp j x r s)
  unfolding handle_mcp handle_post handle_get
  handle_mcp-IsTrusted j x r s = elim (Bool-cases (str_eq r.method (lit "POST"))) [
    | inl p ↦ rw p (
        guarded s r (on_body j x r.body s) (forbidden, s)
          (answer (rpc_error 32001 (lit "unauthorized")), s) (refused s forbidden refl)
          (refused s (answer (rpc_error 32001 (lit "unauthorized"))) refl))
    | inr p ↦ elim (Bool-cases (str_eq r.method (lit "GET"))) [
      | inl g ↦ rw (p, g) (get_guarded)
      | inr g ↦ elim (Bool-cases (str_eq r.method (lit "DELETE"))) [
        | inl d ↦ rw (p, g, d) (inr (refused s no_content refl))
        | inr d ↦ rw (p, g, d) (inr (refused s method_not_allowed refl))
      ]
    ]
  ]
    where
      get_guarded : IsTrusted s r ⊎ IsRefused s (handle_get r s, s)
      get_guarded = elim (Bool-cases (origin_ok s r)) [
        | inr o ↦ rw o (inr (refused s forbidden refl))
        | inl o ↦ elim (Bool-cases (auth_ok s r)) [
          | inr a ↦ rw (o, a) (inr (refused s unauthorized refl))
          | inl a ↦ inl (trusted s r o a)
        ]
      ]
