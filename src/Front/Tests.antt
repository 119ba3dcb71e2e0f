-- ===== src/Front/Tests.antt =====
-- internal/api/mcp/server.go: runs of the front, and its theorems at concrete inputs.
use agent_ops.Prelude.{
  ℕ, Str, lit, str_eq, trim_space, Result, none, some, ok, err, [], ◌∷◌, ◌++◌, ◌≡◌, ◌≢◌, ◌≤◌, ◌+◌,
  ◌*◌, ◌⊎◌, refl, sym, ◌∙◌, false, true, inr, str_eq_iff, arith,
}
use mathlib.Core.Bool.{false≢true}
use agent_ops.Prelude.Text.{contains, has_prefix, split}
use agent_ops.Scheduler.Slots.{slots_cron}
use agent_ops.Mcp.Tests.{server, json, calm}
use agent_ops.AppAuth.Gate.{
  Wire, HttpRequest, denied, public_hop, first_public, first_parsed, real_client_ip, enforce,
}
use agent_ops.AppAuth.Tests.{tiny, plain, office}
use agent_ops.Front.Numbers.{atoi, number, digits, cut_at, parse_status_range, parse_path_set}
use agent_ops.Front.Bridge.{
  out_of_range, bad_target, cut_prefix, oh_agent_prefix, ohvs_prefix, to_port, oh_agent_proxy,
  ohvs_proxy, IsBridge, bridges-IsBridge,
}
use agent_ops.Front.Ready.{
  Poll, Opened, poll_interval, readiness_gate, IsJustified, readiness_gate_total,
}
use agent_ops.Front.App.{
  Visit, Site, Front, visit, gate_opens, front_after, handler, route, to_app, refused, starting_up,
  proxied, moved, app_reverse_proxy,
}
use agent_ops.Front.Guard.{Carries, Unchanged, handler-Unchanged, front_locked}
use agent_ops.Front.Pages.{is_page, page_gone}

status_ranges :
    (parse_status_range (lit " 204 ") ≡ (204, 204))
    × (parse_status_range (lit "200-299") ≡ (200, 299))
    × (parse_status_range (lit "-5") ≡ (200, 399))
    × (parse_status_range (lit "9-1") ≡ (200, 399))
unfolding parse_status_range trim_space atoi number digits cut_at
status_ranges = (refl, refl, refl, refl)

path_set : parse_path_set (lit " /a, ,/b") ≡ lit "/a" ∷ lit "/b" ∷ []
unfolding parse_path_set trim_space split
path_set = refl

bridge_refusals :
    (oh_agent_proxy (lit "/_oh_agent/7842/mcp") ≡ out_of_range)
    × (oh_agent_proxy (lit "/_oh_agent/+8000/x") ≡ bad_target)
unfolding oh_agent_proxy to_port cut_prefix cut_at has_prefix atoi number digits
bridge_refusals = (refl, refl)

port_8001 : number (lit "8001") ≡ some 8001
unfolding number digits
port_8001 = refl

abbrev agent_path : Str
agent_path = lit "/_oh_agent/8001/x"

bridges-IsBridge_example :
    IsBridge
      (cut_at b'/' (cut_prefix agent_path oh_agent_prefix)).0
      (b'/' ∷ (cut_at b'/' (cut_prefix agent_path oh_agent_prefix)).1)
      (oh_agent_proxy agent_path)
    × IsBridge
        (cut_at b'/' (cut_prefix agent_path ohvs_prefix)).0
        agent_path
        (ohvs_proxy agent_path)
bridges-IsBridge_example = bridges-IsBridge agent_path

-- an application that never answers
silent : ℕ → Poll
silent n = record { answer = none; now = 5 + poll_interval * n }

silent_is_slow : (i : ℕ) → 5 + poll_interval * i ≤ (silent i).now
unfolding silent
silent_is_slow i = omega arith

readiness_gate_total_example :
    (o : Opened) × (readiness_gate 122 (200, 399) 5 silent ≡ some o)
    × IsJustified (200, 399) 5 silent o
readiness_gate_total_example = readiness_gate_total (200, 399) 5 silent silent_is_slow

abbrev from_inside : HttpRequest
from_inside = record {
  forwarded_for = lit "2";
  remote_addr = lit "1";
  authorization = lit "Bearer guess";
  webhook_token = [];
  basic_auth = none;
}

abbrev get_page : Visit
get_page = record {
  method = lit "GET";
  path = lit "/";
  raw_query = [];
  accept = lit "text/html";
  origin = [];
  http = from_inside;
  body = ok [];
}

abbrev set_auth : Visit
set_auth = record get_page {
  method = lit "POST";
  path = lit "/_zibby_ops/auth";
  body = ok (lit "null");
}

abbrev site : Site
site = record {
  ready_path = lit "/ready";
  trailing_slash_paths = [];
  app_port = lit "3000";
  target = some (lit "127.0.0.1:3000");
}

abbrev no_wire : Str → Result Str Wire
no_wire raw = err raw

abbrev locked : Front slots_cron tiny plain no_wire json site
locked = record { server = server; gate = some office; ever_healthy = true; ready = true }

wrong_token : lit "Bearer guess" ≢ lit "Bearer " ++ lit "t0k"
unfolding str_eq
wrong_token e = false≢true (sym unequal ∙ (str_eq_iff (lit "Bearer guess") (lit "Bearer t0k")).1 e)
  where
    unequal : str_eq (lit "Bearer guess") (lit "Bearer t0k") ≡ false
    unequal = refl

handler-Unchanged_example :
    Carries slots_cron tiny plain no_wire json site (lit "t0k") set_auth
    ⊎ Unchanged slots_cron tiny plain no_wire json site locked
        (handler slots_cron tiny plain no_wire json site calm set_auth none locked).1
handler-Unchanged_example =
    handler-Unchanged slots_cron tiny plain no_wire json site calm set_auth none locked

outside : enforce tiny plain (some office) from_inside ≡ denied 403 []
unfolding enforce real_client_ip first_public public_hop first_parsed split trim_space
outside = refl

to_the_app : route (lit "/") ≡ to_app
unfolding route str_eq has_prefix
to_the_app = refl

front_locked_example :
    (handler slots_cron tiny plain no_wire json site calm get_page (some 200) (
      front_after slots_cron tiny plain no_wire json site
        (visit calm set_auth none ∷ gate_opens ∷ [])
        locked)).0
    ≡ refused 403 []
front_locked_example =
    front_locked slots_cron tiny plain no_wire json site
      (visit calm set_auth none ∷ gate_opens ∷ []) locked calm get_page (some 200) 403 []
      (wrong_token, (tt, tt)) to_the_app outside

-- a front that has just started, without access control
abbrev booting : Front slots_cron tiny plain no_wire json site
booting = record locked { gate = none; ever_healthy = false; ready = false }

first_answer :
    (handler slots_cron tiny plain no_wire json site calm get_page
      (some 200)
      (front_after slots_cron tiny plain no_wire json site (gate_opens ∷ []) booting)).0
    ≡ proxied (lit "127.0.0.1:3000") (lit "/") 200
unfolding handler app_reverse_proxy route enforce str_eq has_prefix
first_answer = refl

page_gone_example :
    is_page
      (handler slots_cron tiny plain no_wire json site calm get_page none (
        front_after slots_cron tiny plain no_wire json site
          ((gate_opens ∷ []) ++ (visit calm get_page (some 200) ∷ []))
          booting)).0
    ≡ false
page_gone_example =
    page_gone slots_cron tiny plain no_wire json site (gate_opens ∷ []) [] booting calm calm
      get_page get_page (some 200) none (lit "127.0.0.1:3000") (lit "/") 200 first_answer
      (omega arith) (inr ([], visit calm get_page (some 200) ∷ [], refl))

-- ServeMux moves a bridge's path without its slash, before the access control
bridge_moved :
    (handler slots_cron tiny plain no_wire json site calm
      (record get_page { path = lit "/_ohvs" })
      none
      locked).0
    ≡ moved (lit "/_ohvs/")
unfolding handler route str_eq has_prefix
bridge_moved = refl

-- before it has answered, a browser gets the page
still_booting :
    (handler slots_cron tiny plain no_wire json site calm get_page none booting).0 ≡ starting_up
unfolding handler app_reverse_proxy route enforce str_eq has_prefix contains
still_booting = refl
