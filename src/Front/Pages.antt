-- ===== src/Front/Pages.antt =====
-- internal/api/mcp/server.go: the page that hides an application which starts, and when it is gone.
use agent_ops.Prelude.{
  ℕ, ◌<◌, Str, lit, Option, none, some, Result, ok, err, List, [], ◌∷◌, ◌++◌, ◌≡◌, ◌≢◌, ◌⊎◌, refl,
  ◌∙◌, Bool, true, false, not, ◌||◌, ◌&&◌, is_nil, inl, inr, Bool-cases, str_eq, ltb, arith,
}
use agent_ops.Scheduler.Cron.{Cron}
use agent_ops.Mcp.Server.{Json, Around}
use agent_ops.Mcp.Post.{auth_ok}
use agent_ops.AppAuth.Gate.{Net, Hashes, Gate, Wire, Verdict, allowed, denied, apply, enforce}
use agent_ops.Front.App.{
  Visit, Site, Reply, starting_up, healthy, mcp, refused, redirect, port_unknown, bad_port, proxied,
  bridged, auth_method_not_allowed, auth_unauthorized, auth_read_error, auth_bad_config,
  auth_applied, moved, location, wants_page, front_step, Route, to_subtree, to_health, to_auth,
  to_mcp, to_oh_agent, to_ohvs, to_app, route, incoming, limited, Front, Event, visit, gate_opens,
  front_after, handler, handle_set_auth, on_auth_body, applied, app_reverse_proxy, behind_gate,
  serve_route, at_target, is_starting, wants_slash,
}

abbrev pub is_page : Reply → Bool
is_page starting_up = true
is_page _ = false

module _ (C : Cron) {Ip Cidr : Type 0} (net : Net Ip Cidr) (hashes : Hashes)
    (decode : Str → Result Str Wire) (j : Json) (site : Site) where
  -- the application has answered, and its readiness is not waited for
  pub record IsUp (f : Front C net hashes decode j site) : Type 0 where
    pub answered : f.ever_healthy ≡ true
    pub waited : is_nil site.ready_path || f.ready ≡ true

  -- what one step does to the two flags, and to the page
  record Serves (f : Front C net hashes decode j site)
      (o : Reply × Front C net hashes decode j site) : Type 0 where
    healthy_stays : f.ever_healthy ≡ true → o.1.ever_healthy ≡ true
    ready_stays : f.ready ≡ true → o.1.ready ≡ true
    no_page : IsUp f → is_page o.0 ≡ false
    answers :
        (host path : Str) (code : ℕ)
        → o.0 ≡ proxied host path code
        → code < 500
        → o.1.ever_healthy ≡ true

  -- a reply that is neither the page nor an answer of the application
  silent :
      (f g : Front C net hashes decode j site) (r : Reply)
      → g.ever_healthy ≡ f.ever_healthy
      → g.ready ≡ f.ready
      → is_page r ≡ false
      → ((host path : Str) (code : ℕ) → r ≢ proxied host path code)
      → Serves f (r, g)
  silent f g r a b p n = record {
    healthy_stays = λ h. a ∙ h;
    ready_stays = λ h. b ∙ h;
    no_page = λ u. p;
    answers = λ host path code q l. absurd (n host path code q);
  }

  on_auth_body-Serves :
      (b : Result Str Str) (f : Front C net hashes decode j site)
      → Serves f (on_auth_body C net hashes decode j site b f)
  on_auth_body-Serves (err e) f = silent f f auth_read_error refl refl refl (λ h p c q. cc q)
  on_auth_body-Serves (ok body) f = by_outcome (apply net decode (limited body) f.gate)
    where
      by_outcome :
          (o : Option Str × Option (Gate Cidr)) → Serves f (applied C net hashes decode j site o f)
      by_outcome (some e, gate) = silent f f auth_bad_config refl refl refl (λ h p c q. cc q)
      by_outcome (none, gate) = silent f _ auth_applied refl refl refl (λ h p c q. cc q)

  handle_set_auth-Serves :
      (v : Visit) (f : Front C net hashes decode j site)
      → Serves f (handle_set_auth C net hashes decode j site v f)
  unfolding handle_set_auth
  handle_set_auth-Serves v f = elim (Bool-cases (not (str_eq v.method (lit "POST")))) [
    | inl p ↦ rw p (silent f f auth_method_not_allowed refl refl refl (λ h p c q. cc q))
    | inr p ↦ elim (Bool-cases (auth_ok C f.server (incoming v))) [
      | inr a ↦ rw (p, a) (silent f f auth_unauthorized refl refl refl (λ h p c q. cc q))
      | inl a ↦ rw (p, a) (on_auth_body-Serves v.body f)
    ]
  ]

  at_target-Serves :
      (v : Visit) (target : Option Str) (answer : Option ℕ) (f : Front C net hashes decode j site)
      → Serves f (at_target C net hashes decode j site v target answer f)
  at_target-Serves v none answer f = silent f f bad_port refl refl refl (λ h p c q. cc q)
  at_target-Serves v (some host) none f = record {
    healthy_stays = λ h. h;
    ready_stays = λ h. h;
    no_page = λ u. rw u.answered refl;
    answers = λ h p c q l. elim (Bool-cases (not f.ever_healthy && wants_page v)) [
      | inl w ↦ cc (w, q)
      | inr w ↦ cc (w, q)
    ];
  }
  at_target-Serves v (some host) (some code) f = record {
    healthy_stays = λ h. rw h refl;
    ready_stays = λ h. h;
    no_page = λ u. refl;
    answers = λ h p c q l.
        let e : code ≡ c = cc q in
        let m : ltb code 500 ≡ true = ground (arith, e, l) in or_true f.ever_healthy m;
  }
    where
      or_true : (b : Bool) {c : Bool} → c ≡ true → b || c ≡ true
      or_true b h = ground (arith, h)

  not_starting :
      (v : Visit) (f : Front C net hashes decode j site)
      → IsUp f
      → is_starting C net hashes decode j site v f ≡ false
  not_starting v f u = elim (Bool-cases (is_nil site.ready_path)) [
    | inl n ↦ rw n refl
    | inr n ↦ let r : f.ready ≡ true = rw n at (u.waited) in rw (n, r) refl
  ]

  behind_gate-Serves :
      (d : Verdict) (v : Visit) (answer : Option ℕ) (f : Front C net hashes decode j site)
      → Serves f (behind_gate C net hashes decode j site d v answer f)
  behind_gate-Serves (denied code challenge) v answer f =
      silent f f (refused code challenge) refl refl refl (λ h p c q. cc q)
  behind_gate-Serves allowed v answer f =
      elim (Bool-cases (is_starting C net hashes decode j site v f)) [
        | inl s ↦ rw s (record {
          healthy_stays = λ h. h;
          ready_stays = λ h. h;
          no_page = λ u. let n = not_starting v f u in cc (s, n);
          answers = λ h p c q l. cc q;
        })
        | inr s ↦ elim (Bool-cases (wants_slash site v)) [
          | inl w ↦ rw (s, w) (silent f f (redirect (location v)) refl refl refl (λ h p c q. cc q))
          | inr w ↦ elim (Bool-cases (is_nil site.app_port)) [
            | inl p ↦ rw (s, w, p) (silent f f port_unknown refl refl refl (λ h p c q. cc q))
            | inr p ↦ rw (s, w, p) (at_target-Serves v site.target answer f)
          ]
        ]
      ]

  handler-Serves :
      (x : Around) (v : Visit) (answer : Option ℕ) (f : Front C net hashes decode j site)
      → Serves f (handler C net hashes decode j site x v answer f)
  unfolding handler app_reverse_proxy
  handler-Serves x v answer f = by_route (route v.path)
    where
      by_route : (r : Route) → Serves f (serve_route C net hashes decode j site r x v answer f)
      by_route to_auth = handle_set_auth-Serves v f
      by_route to_app = behind_gate-Serves (enforce net hashes f.gate v.http) v answer f
      by_route to_mcp = silent f _ (mcp _) refl refl refl (λ h p c q. cc q)
      by_route to_health = silent f f healthy refl refl refl (λ h p c q. cc q)
      by_route to_oh_agent = silent f f (bridged _) refl refl refl (λ h p c q. cc q)
      by_route to_ohvs = silent f f (bridged _) refl refl refl (λ h p c q. cc q)
      by_route to_subtree = silent f f (moved _) refl refl refl (λ h p c q. cc q)

  healthy-front_after :
      (es : List (Event C net hashes decode j site)) (f : Front C net hashes decode j site)
      → f.ever_healthy ≡ true
      → (front_after C net hashes decode j site es f).ever_healthy ≡ true
  healthy-front_after [] f h = h
  healthy-front_after (visit x v answer ∷ es) f h =
      healthy-front_after es _ ((handler-Serves x v answer f).healthy_stays h)
  healthy-front_after (gate_opens ∷ es) f h = healthy-front_after es _ h

  ready-front_after :
      (es : List (Event C net hashes decode j site)) (f : Front C net hashes decode j site)
      → f.ready ≡ true
      → (front_after C net hashes decode j site es f).ready ≡ true
  ready-front_after [] f h = h
  ready-front_after (visit x v answer ∷ es) f h =
      ready-front_after es _ ((handler-Serves x v answer f).ready_stays h)
  ready-front_after (gate_opens ∷ es) f h = ready-front_after es _ refl

  front_after-append :
      (es es' : List (Event C net hashes decode j site)) (f : Front C net hashes decode j site)
      → front_after C net hashes decode j site (es ++ es') f
        ≡ front_after C net hashes decode j site es' (front_after C net hashes decode j site es f)
  front_after-append [] es' f = refl
  front_after-append (e ∷ es) es' f =
      front_after-append es es' (front_step C net hashes decode j site e f)

  -- a run in which the readiness gate has opened, if the site has a path for it
  abbrev pub Opened : List (Event C net hashes decode j site) → Type 0
  Opened es =
      (is_nil site.ready_path ≡ true)
      ⊎ ((before after : List (Event C net hashes decode j site)) × (es
            ≡ before ++ gate_opens ∷ after))

  Opened-waited :
      (es : List (Event C net hashes decode j site)) (f : Front C net hashes decode j site)
      → Opened es
      → is_nil site.ready_path || (front_after C net hashes decode j site es f).ready ≡ true
  Opened-waited es f (inl n) = rw n refl
  Opened-waited es f (inr (before, after, e)) =
      let g = front_after C net hashes decode j site before f in
      let r = ready-front_after after (front_step C net hashes decode j site gate_opens g) refl in
      rw (e, front_after-append before (gate_opens ∷ after) f, r) (or_true (is_nil site.ready_path))
    where
      or_true : (b : Bool) → b || true ≡ true
      or_true b = ground arith

  -- Once a request has been answered by the application, with a status below 500, and, where the site
  -- has a path for its readiness, the readiness gate has opened, before that request or behind it: no
  -- later request gets the page that the application starts, whatever else happens.
  pub page_gone :
      (es es' : List (Event C net hashes decode j site)) (f : Front C net hashes decode j site)
      (x y : Around) (v u : Visit) (answer answer' : Option ℕ) (host path : Str) (code : ℕ)
      → (handler C net hashes decode j site x v answer
          (front_after C net hashes decode j site es f)).0
        ≡ proxied host path code
      → code < 500
      → Opened (es ++ visit x v answer ∷ es')
      → is_page
          (handler C net hashes decode j site y u answer'
            (front_after C net hashes decode j site (es ++ visit x v answer ∷ es') f)).0
        ≡ false
  page_gone es es' f x y v u answer answer' host path code q l o =
      let g = front_after C net hashes decode j site es f in
      let up = (handler-Serves x v answer g).answers host path code q l in
      let healthy =
        healthy-front_after es' (handler C net hashes decode j site x v answer g).1 up in
      (handler-Serves y u answer' _).no_page (record {
        answered = rw (front_after-append es (visit x v answer ∷ es') f) healthy;
        waited = Opened-waited (es ++ visit x v answer ∷ es') f o;
      })
