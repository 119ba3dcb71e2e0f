-- ===== src/Front/App.antt =====
-- internal/api/mcp/server.go: Handler with its routes, handleSetAuth and appReverseProxy. What the
-- application answers is an argument: its status, or `none` where it cannot be reached.
use agent_ops.Prelude.{
  ℕ, Str, lit, str_eq, Option, none, some, Result, ok, err, List, [], ◌∷◌, ◌++◌, any, take, Bool,
  true, false, not, ◌&&◌, ◌||◌, is_nil, if◌then◌else◌, ltb,
}
use agent_ops.Prelude.Text.{has_prefix, contains}
use agent_ops.Scheduler.Cron.{Cron}
use agent_ops.Mcp.Server.{Server, Json, Around}
use agent_ops.Mcp.Post.{Incoming, Response, handle_mcp, auth_ok}
use agent_ops.AppAuth.Gate.{
  Net, Hashes, Gate, Wire, HttpRequest, Verdict, allowed, denied, apply, enforce,
}
use agent_ops.Front.Bridge.{Bridged, oh_agent_prefix, ohvs_prefix, oh_agent_proxy, ohvs_proxy}

-- an http.Request, with a path that is clean
pub record Visit : Type 0 where
  pub method : Str
  pub path : Str
  pub raw_query : Str
  pub accept : Str
  pub origin : Str
  pub http : HttpRequest
  pub body : Result Str Str

-- the environment, and the target of url.Parse for the application's port
pub record Site : Type 0 where
  pub ready_path : Str
  pub trailing_slash_paths : List Str
  pub app_port : Str
  pub target : Option Str

pub data Reply : Type 0 where
  healthy : Reply
  mcp : Response → Reply
  refused : ℕ → Str → Reply
  starting_up : Reply
  -- the application's own redirect, and http.ServeMux's to a subtree
  redirect moved : Str → Reply
  port_unknown bad_port bad_gateway : Reply
  -- the target, the path, and the status of the answer
  proxied : Str → Str → ℕ → Reply
  bridged : Bridged → Reply
  auth_method_not_allowed auth_unauthorized auth_read_error auth_bad_config auth_applied : Reply

pub data Route : Type 0 where
  to_health to_auth to_mcp to_oh_agent to_ohvs to_subtree to_app : Route

abbrev pub api_prefix : Str
api_prefix = lit "/_zibby_ops"

-- http.ServeMux: the longest pattern that fits; a subtree's path without its slash is moved there
unfoldable pub route : Str → Route
route path =
    if str_eq path (api_prefix ++ lit "/healthz") || str_eq path (lit "/healthz")
    then to_health
    else if str_eq path (api_prefix ++ lit "/auth")
    then to_auth
    else if str_eq path (api_prefix ++ lit "/mcp") || str_eq path (lit "/mcp")
    then to_mcp
    else if has_prefix path oh_agent_prefix
    then to_oh_agent
    else if has_prefix path ohvs_prefix
    then to_ohvs
    else if str_eq (path ++ lit "/") oh_agent_prefix || str_eq (path ++ lit "/") ohvs_prefix
    then to_subtree
    else to_app

-- io.LimitReader with 64 << 10
unfoldable pub limited : Str → Str
limited body = take 65536 body

abbrev pub wants_page : Visit → Bool
wants_page v =
    (str_eq v.method (lit "GET") || str_eq v.method (lit "HEAD"))
    && contains v.accept (lit "text/html")

abbrev pub ends_with_slash : Str → Bool
ends_with_slash [] = false
ends_with_slash (c ∷ []) = str_eq (c ∷ []) (lit "/")
ends_with_slash (c ∷ d ∷ s) = ends_with_slash (d ∷ s)

abbrev pub wants_slash : Site → Visit → Bool
wants_slash e v = not (ends_with_slash v.path) && any (λ p. str_eq p v.path) e.trailing_slash_paths

abbrev pub location : Visit → Str
location v =
    if is_nil v.raw_query then v.path ++ lit "/" else v.path ++ lit "/" ++ lit "?" ++ v.raw_query

abbrev pub incoming : Visit → Incoming
incoming v = record {
  method = v.method;
  origin = v.origin;
  authorization = v.http.authorization;
  body = v.body;
}

module _ (C : Cron) {Ip Cidr : Type 0} (net : Net Ip Cidr) (hashes : Hashes)
    (decode : Str → Result Str Wire) (j : Json) (site : Site) where
  -- the server, the live access control, and the two flags
  pub record Front : Type 0 where
    pub server : Server C
    pub gate : Option (Gate Cidr)
    pub ever_healthy : Bool
    pub ready : Bool

  abbrev pub is_starting : Visit → Front → Bool
  is_starting v f = not (is_nil site.ready_path) && not f.ready && wants_page v

  -- ModifyResponse and ErrorHandler
  abbrev pub upstream : Visit → Str → Option ℕ → Front → Reply × Front
  upstream v host (some code) f =
      (proxied host v.path code, record f { ever_healthy = f.ever_healthy || ltb code 500 })
  upstream v host none f =
      (if not f.ever_healthy && wants_page v then starting_up else bad_gateway, f)

  abbrev pub at_target : Visit → Option Str → Option ℕ → Front → Reply × Front
  at_target v none answer f = (bad_port, f)
  at_target v (some host) answer f = upstream v host answer f

  abbrev pub to_upstream : Visit → Option ℕ → Front → Reply × Front
  to_upstream v answer f =
      if is_nil site.app_port then (port_unknown, f) else at_target v site.target answer f

  abbrev pub behind_gate : Verdict → Visit → Option ℕ → Front → Reply × Front
  behind_gate (denied code challenge) v answer f = (refused code challenge, f)
  behind_gate allowed v answer f =
      if is_starting v f
      then (starting_up, f)
      else if wants_slash site v
      then (redirect (location v), f)
      else to_upstream v answer f

  unfoldable pub app_reverse_proxy : Visit → Option ℕ → Front → Reply × Front
  app_reverse_proxy v answer f = behind_gate (enforce net hashes f.gate v.http) v answer f

  abbrev pub applied : Option Str × Option (Gate Cidr) → Front → Reply × Front
  applied (some e, gate) f = (auth_bad_config, f)
  applied (none, gate) f = (auth_applied, record f { gate = gate })

  abbrev pub on_auth_body : Result Str Str → Front → Reply × Front
  on_auth_body (err e) f = (auth_read_error, f)
  on_auth_body (ok body) f = applied (apply net decode (limited body) f.gate) f

  unfoldable pub handle_set_auth : Visit → Front → Reply × Front
  handle_set_auth v f =
      if not (str_eq v.method (lit "POST"))
      then (auth_method_not_allowed, f)
      else if not (auth_ok C f.server (incoming v))
      then (auth_unauthorized, f)
      else on_auth_body v.body f

  abbrev pub answered_mcp : Response × Server C → Front → Reply × Front
  answered_mcp (r, server) f = (mcp r, record f { server = server })

  abbrev pub serve_route : Route → Around → Visit → Option ℕ → Front → Reply × Front
  serve_route to_health x v answer f = (healthy, f)
  serve_route to_auth x v answer f = handle_set_auth v f
  serve_route to_mcp x v answer f = answered_mcp (handle_mcp C j x (incoming v) f.server) f
  serve_route to_oh_agent x v answer f = (bridged (oh_agent_proxy v.path), f)
  serve_route to_ohvs x v answer f = (bridged (ohvs_proxy v.path), f)
  serve_route to_subtree x v answer f = (moved (location v), f)
  serve_route to_app x v answer f = app_reverse_proxy v answer f

  unfoldable pub handler : Around → Visit → Option ℕ → Front → Reply × Front
  handler x v answer f = serve_route (route v.path) x v answer f

  -- what happens to the front: a request with its surroundings and the application's answer, or the
  -- readiness gate opens
  pub data Event : Type 0 where
    visit : Around → Visit → Option ℕ → Event
    gate_opens : Event

  abbrev pub front_step : Event → Front → Front
  front_step (visit x v answer) f = (handler x v answer f).1
  front_step gate_opens f = record f { ready = true }

  abbrev pub front_after : List Event → Front → Front
  front_after [] f = f
  front_after (e ∷ es) f = front_after es (front_step e f)
