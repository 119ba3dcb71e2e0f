-- ===== src/Front/Guard.antt =====
-- internal/api/mcp/server.go: without the token, nobody changes the server or the access control.
use agent_ops.Prelude.{
  ℕ, Str, lit, Option, none, some, Result, List, [], ◌∷◌, ◌++◌, ◌≡◌, ◌≢◌, refl, ◌∙◌, false, is_nil,
  All, ◌⊎◌, inl, inr, Bool-cases, str_eq, not,
}
use agent_ops.Scheduler.Cron.{Cron}
use agent_ops.Mcp.Server.{Json, Around}
use agent_ops.Mcp.Post.{auth_ok, auth_ok_lem, handle_mcp, handle_mcp-IsTrusted}
use agent_ops.AppAuth.Gate.{Net, Hashes, Wire, Verdict, allowed, denied, enforce}
use agent_ops.Front.App.{
  Visit, Site, refused, Route, to_health, to_auth, to_mcp, to_oh_agent, to_ohvs, to_subtree, to_app,
  route, incoming, Front, Event, visit, gate_opens, front_after, handler, handle_set_auth,
  app_reverse_proxy, behind_gate, serve_route, upstream, at_target, is_starting, wants_slash,
  front_step,
}

module _ (C : Cron) {Ip Cidr : Type 0} (net : Net Ip Cidr) (hashes : Hashes)
    (decode : Str → Result Str Wire) (j : Json) (site : Site) where
  pub record Carries (token : Str) (v : Visit) : Type 0 where
    pub header : v.http.authorization ≡ lit "Bearer " ++ token
    pub not_empty : is_nil token ≡ false

  -- the parts of the front that decide who gets in
  pub record Unchanged (f g : Front C net hashes decode j site) : Type 0 where
    pub same_server : g.server ≡ f.server
    pub same_gate : g.gate ≡ f.gate

  same : (f : Front C net hashes decode j site) → Unchanged f f
  same f = record { same_server = refl; same_gate = refl }

  handle_set_auth-Unchanged :
      (v : Visit) (f : Front C net hashes decode j site)
      → Carries f.server.token v ⊎ Unchanged f (handle_set_auth C net hashes decode j site v f).1
  unfolding handle_set_auth
  handle_set_auth-Unchanged v f = elim (Bool-cases (not (str_eq v.method (lit "POST")))) [
    | inl p ↦ rw p (inr (same f))
    | inr p ↦ elim (Bool-cases (auth_ok C f.server (incoming v))) [
      | inr a ↦ rw (p, a) (inr (same f))
      | inl a ↦
          let (t, n) = auth_ok_lem C f.server (incoming v) a in
          inl (record { header = t; not_empty = n })
    ]
  ]

  mcp-Unchanged :
      (x : Around) (v : Visit) (f : Front C net hashes decode j site)
      → Carries f.server.token v
        ⊎ Unchanged f (record f { server = (handle_mcp C j x (incoming v) f.server).1 })
  mcp-Unchanged x v f = elim (handle_mcp-IsTrusted C j x (incoming v) f.server) [
    | inl t ↦ inl (record { header = t.with_token; not_empty = t.has_token })
    | inr r ↦ inr (record { same_server = r.same_state; same_gate = refl })
  ]

  upstream-Unchanged :
      (v : Visit) (host : Str) (answer : Option ℕ) (f : Front C net hashes decode j site)
      → Unchanged f (upstream C net hashes decode j site v host answer f).1
  upstream-Unchanged v host none f = same f
  upstream-Unchanged v host (some code) f = record { same_server = refl; same_gate = refl }

  at_target-Unchanged :
      (v : Visit) (target : Option Str) (answer : Option ℕ) (f : Front C net hashes decode j site)
      → Unchanged f (at_target C net hashes decode j site v target answer f).1
  at_target-Unchanged v none answer f = same f
  at_target-Unchanged v (some host) answer f = upstream-Unchanged v host answer f

  behind_gate-Unchanged :
      (d : Verdict) (v : Visit) (answer : Option ℕ) (f : Front C net hashes decode j site)
      → Unchanged f (behind_gate C net hashes decode j site d v answer f).1
  behind_gate-Unchanged (denied code challenge) v answer f = same f
  behind_gate-Unchanged allowed v answer f =
      elim (Bool-cases (is_starting C net hashes decode j site v f)) [
        | inl s ↦ rw s (same f)
        | inr s ↦ elim (Bool-cases (wants_slash site v)) [
          | inl w ↦ rw (s, w) (same f)
          | inr w ↦ elim (Bool-cases (is_nil site.app_port)) [
            | inl p ↦ rw (s, w, p) (same f)
            | inr p ↦ rw (s, w, p) (at_target-Unchanged v site.target answer f)
          ]
        ]
      ]

  serve_route-Unchanged :
      (r : Route) (x : Around) (v : Visit) (answer : Option ℕ)
      (f : Front C net hashes decode j site)
      → Carries f.server.token v
        ⊎ Unchanged f (serve_route C net hashes decode j site r x v answer f).1
  unfolding app_reverse_proxy
  serve_route-Unchanged to_auth x v answer f = handle_set_auth-Unchanged v f
  serve_route-Unchanged to_mcp x v answer f = mcp-Unchanged x v f
  serve_route-Unchanged to_app x v answer f =
      inr (behind_gate-Unchanged (enforce net hashes f.gate v.http) v answer f)
  serve_route-Unchanged to_health x v answer f = inr (same f)
  serve_route-Unchanged to_oh_agent x v answer f = inr (same f)
  serve_route-Unchanged to_ohvs x v answer f = inr (same f)
  serve_route-Unchanged to_subtree x v answer f = inr (same f)

  -- Whatever path and method a request has: it carries the server's bearer token, which is not empty;
  -- or the store, the scheduler and the access control of the application are behind it as before.
  pub handler-Unchanged :
      (x : Around) (v : Visit) (answer : Option ℕ) (f : Front C net hashes decode j site)
      → Carries f.server.token v ⊎ Unchanged f (handler C net hashes decode j site x v answer f).1
  unfolding handler
  handler-Unchanged x v answer f = serve_route-Unchanged (route v.path) x v answer f

  -- an event that is no request with the token
  abbrev pub IsForeign : Str → Event C net hashes decode j site → Type 0
  IsForeign token (visit x v answer) = v.http.authorization ≢ lit "Bearer " ++ token
  IsForeign token gate_opens = Unit

  front_step-Unchanged :
      (e : Event C net hashes decode j site) (f : Front C net hashes decode j site)
      → IsForeign f.server.token e
      → Unchanged f (front_step C net hashes decode j site e f)
  front_step-Unchanged gate_opens f n = record { same_server = refl; same_gate = refl }
  front_step-Unchanged (visit x v answer) f n = elim (handler-Unchanged x v answer f) [
    | inl c ↦ absurd (n c.header)
    | inr u ↦ u
  ]

  front_after-Unchanged :
      (es : List (Event C net hashes decode j site)) (f : Front C net hashes decode j site)
      → All (IsForeign f.server.token) es
      → Unchanged f (front_after C net hashes decode j site es f)
  front_after-Unchanged [] f n = same f
  front_after-Unchanged (e ∷ es) f (n, ns) =
      let u = front_step-Unchanged e f n in
      let g = front_step C net hashes decode j site e f in
      let w = front_after-Unchanged es g (rw u.same_server ns) in
      record { same_server = w.same_server ∙ u.same_server; same_gate = w.same_gate ∙ u.same_gate }

  -- After any requests without the token, and whether the readiness gate opened or not, a request for
  -- the application that the access control of the start refuses is answered with that refusal,
  -- and with nothing of the application.
  pub front_locked :
      (es : List (Event C net hashes decode j site)) (f : Front C net hashes decode j site)
      (x : Around) (v : Visit) (answer : Option ℕ) (code : ℕ) (challenge : Str)
      → All (IsForeign f.server.token) es
      → route v.path ≡ to_app
      → enforce net hashes f.gate v.http ≡ denied code challenge
      → (handler C net hashes decode j site x v answer
          (front_after C net hashes decode j site es f)).0
        ≡ refused code challenge
  unfolding handler app_reverse_proxy
  front_locked es f x v answer code challenge ns p d =
      rw (p, (front_after-Unchanged es f ns).same_gate, d) refl
