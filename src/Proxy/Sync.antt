-- ===== src/Proxy/Sync.antt =====
-- internal/proxy/proxy.go: WriteConfig, EnsureMapFile and Sync. The operating system's calls and
-- `caddy reload` are arguments: the error of each, or `none` if it succeeds.
use agent_ops.Prelude.{
  ℕ, Str, str_eq, Option, none, some, Result, ok, err, List, [], ◌∷◌, Bool, true, false, length,
  if◌then◌else◌,
}
use agent_ops.Proxy.Caddyfile.{ProxyConfig, Route, render_caddyfile, render_map_file}

-- The two files, at their paths, and the routes that Caddy serves: the map file when it last loaded its configuration.
pub record Host : Type 0 where
  pub caddyfile : Option Str
  pub map_file : Option Str
  pub served : Option Str

-- the calls of one Sync
pub record SyncCalls : Type 0 where
  -- the map source, `none` where no source is installed
  pub source : Option (Result Str (List Route))
  -- os.ReadFile fails on a file that exists
  pub unreadable : Bool
  -- the error of os.WriteFile, and what it leaves in the file
  pub write : Option (Str × Option Str)
  pub reload : Option Str

pub data ProxyError : Type 0 where
  map_source write_map caddy_reload mkdir_etc mkdir_map write_caddyfile : Str → ProxyError

-- a missing file reads as an empty one, and so does one whose read fails
unfoldable pub current : SyncCalls → Option Str → Str
current k none = []
current k (some t) = if k.unreadable then [] else t

abbrev pub routes_of : Option (Result Str (List Route)) → Result Str (List Route)
routes_of none = ok []
routes_of (some r) = r

-- the error comes with a number, as in the source
abbrev pub reloaded : Option Str → ℕ → Host → (ℕ × Option ProxyError) × Host
reloaded none n h = ((n, none), record h { served = h.map_file })
reloaded (some e) n h = ((n, some (caddy_reload e)), h)

abbrev pub written :
    Option (Str × Option Str) → Option Str → Str → ℕ → Host → (ℕ × Option ProxyError) × Host
written none reload next n h = reloaded reload n (record h { map_file = some next })
written (some (e, left)) reload next n h = ((0, some (write_map e)), record h { map_file = left })

abbrev pub sync_routes : SyncCalls → Result Str (List Route) → Host → (ℕ × Option ProxyError) × Host
sync_routes k (err e) h = ((0, some (map_source e)), h)
sync_routes k (ok routes) h =
    if str_eq (current k h.map_file) (render_map_file routes)
    then ((length routes, none), h)
    else written k.write k.reload (render_map_file routes) (length routes) h

unfoldable pub sync : SyncCalls → Host → (ℕ × Option ProxyError) × Host
sync k h = sync_routes k (routes_of k.source) h

-- the first Sync of Up, and the one of each tick, until the context ends
unfoldable pub syncs : List SyncCalls → Host → Host
syncs [] h = h
syncs (k ∷ ks) h = syncs ks (sync k h).1

-- the calls of EnsureMapFile and WriteConfig
pub record ConfigCalls : Type 0 where
  pub mkdir : Option Str
  pub write : Option (Str × Option Str)
  pub map_dir : Option Str
  -- os.Stat fails on a file that exists
  pub stat_fails : Bool
  pub map_write : Option (Str × Option Str)

abbrev pub is_there : ConfigCalls → Option Str → Bool
is_there k none = false
is_there k (some t) = if k.stat_fails then false else true

abbrev pub create_map : Option (Str × Option Str) → Host → Option ProxyError × Host
create_map none h = (none, record h { map_file = some [] })
create_map (some (e, left)) h = (some (write_map e), record h { map_file = left })

abbrev pub in_map_dir : ConfigCalls → Option Str → Host → Option ProxyError × Host
in_map_dir k (some e) h = (some (mkdir_map e), h)
in_map_dir k none h = if is_there k h.map_file then (none, h) else create_map k.map_write h

unfoldable pub ensure_map_file : ConfigCalls → Host → Option ProxyError × Host
ensure_map_file k h = in_map_dir k k.map_dir h

abbrev pub put_caddyfile :
    ConfigCalls → Option (Str × Option Str) → ProxyConfig → Host → Option ProxyError × Host
put_caddyfile k none c h = ensure_map_file k (record h { caddyfile = some (render_caddyfile c) })
put_caddyfile k (some (e, left)) c h = (some (write_caddyfile e), record h { caddyfile = left })

abbrev pub in_etc : ConfigCalls → Option Str → ProxyConfig → Host → Option ProxyError × Host
in_etc k none c h = put_caddyfile k k.write c h
in_etc k (some e) c h = (some (mkdir_etc e), h)

unfoldable pub write_config : ConfigCalls → ProxyConfig → Host → Option ProxyError × Host
write_config k c h = in_etc k k.mkdir c h
