-- ===== src/Proxy/Tests.antt =====
-- internal/proxy/proxy.go: runs of its operations, and the theorems at concrete inputs.
use std.HLevel.{¬_prop}
use mathlib.Core.Logic.Or
use mathlib.Core.Bool.{false≢true}
use mathlib.Core.List.{eq-or-mem_of_mem-cons, not-mem-nil, Permᴰ, Pairwise}
use agent_ops.Prelude.{
  Str, lit, str_eq, Option, none, some, ok, err, List, [], ◌∷◌, ◌≡◌, ◌∙◌, refl, sym, str_eq_iff,
  false,
}
use agent_ops.Prelude.Text.{str_le}
use agent_ops.Prelude.Sort.{sort}
use agent_ops.Proxy.Caddyfile.{
  ProxyConfig, Route, by_host, quote, render_caddyfile, render_map_file,
}
use agent_ops.Proxy.Sync.{
  Host, SyncCalls, ConfigCalls, caddy_reload, write_map, sync, syncs, current, write_config,
  ensure_map_file,
}
use agent_ops.Proxy.Order.{HostsDiffer}
use agent_ops.Proxy.Fresh.{IsSmooth, Gives, sync_stranded, sync-Perm}

abbrev shop : Route
shop = record { host = lit "shop.dev"; upstream = lit "10.0.0.7:80" }

abbrev blog : Route
blog = record { host = lit "blog.dev"; upstream = lit "10.0.0.9:81" }

abbrev both : List Route
both = shop ∷ blog ∷ []

abbrev booted : Host
booted = record { caddyfile = none; map_file = some []; served = some [] }

abbrev gives : Option Str → List Route → SyncCalls
gives e rs = record { source = some (ok rs); unreadable = false; write = none; reload = e }

abbrev away : SyncCalls
away = record {
  source = some (err (lit "timeout"));
  unreadable = false;
  write = none;
  reload = none;
}

-- as fmt prints it
quoted : quote (lit "a\"b") ≡ lit "\"a\\\"b\""
unfolding quote
quoted = refl

sorted_map :
    render_map_file both
    ≡ lit "    \"blog.dev\" \"10.0.0.9:81\"\n    \"shop.dev\" \"10.0.0.7:80\"\n"
unfolding render_map_file sort by_host str_le quote
sorted_map = refl

is_smooth : (rs : List Route) → IsSmooth (gives none rs)
is_smooth rs = record { readable = refl; writable = refl; reloads = refl }

repeated : Gives both (gives none both)
repeated = record { routes = refl; readable = refl }

changed : str_eq (current (gives (some (lit "busy")) both) (some [])) (render_map_file both) ≡ false
unfolding render_map_file current str_eq sort by_host str_le
changed = refl

sync_stranded_example :
    ((sync (gives (some (lit "busy")) both) booted).0 ≡ (2, some (caddy_reload (lit "busy"))))
    × ((syncs (gives none both ∷ []) (sync (gives (some (lit "busy")) both) booted).1).served
        ≡ some [])
    × ((sync
          (gives none both)
          (syncs (gives none both ∷ []) (sync (gives (some (lit "busy")) both) booted).1)).0
        ≡ (2, none))
sync_stranded_example =
    sync_stranded both (gives (some (lit "busy")) both) (lit "busy") booted (gives none both ∷ [])
      (gives none both) refl changed refl refl (repeated, tt) repeated

unequal : str_eq (lit "shop.dev") (lit "blog.dev") ≡ false
unfolding str_eq
unequal = refl

differ : HostsDiffer shop blog
differ e = false≢true (sym unequal ∙ (str_eq_iff (lit "shop.dev") (lit "blog.dev")).1 e)

apart : Pairwise HostsDiffer both
apart =
    Pairwise.cons
      (λ x m.
        Or.elim ¬_prop (eq-or-mem_of_mem-cons m) (λ e. rw e differ) (λ i. absurd (not-mem-nil i)))
      (Pairwise.cons (λ x m. absurd (not-mem-nil m)) Pairwise.nil)

sync-Perm_example :
    sync (gives (some (lit "down")) (blog ∷ shop ∷ [])) (sync (gives none both) booted).1
    ≡ ((2, none), (sync (gives none both) booted).1)
sync-Perm_example =
    sync-Perm both (blog ∷ shop ∷ []) (gives none both)
      (gives (some (lit "down")) (blog ∷ shop ∷ [])) booted refl (is_smooth both) refl
      ∣ Permᴰ.swap refl refl ∣₁ apart (record { routes = refl; readable = refl })

abbrev front : ProxyConfig
front = record {
  domain_base = [];
  ask_url = [];
  acme_ca = lit "https://ca";
  map_path = lit "/etc/caddy/upstreams.map";
}

abbrev all_well : ConfigCalls
all_well = record {
  mkdir = none;
  write = none;
  map_dir = none;
  stat_fails = false;
  map_write = none;
}

-- an existing map stays
kept_map : write_config all_well front (record booted { map_file = some (lit "x") }) ≡ (
  none,
  record { caddyfile = some (render_caddyfile front); map_file = some (lit "x"); served = some [] },
)
unfolding write_config ensure_map_file
kept_map = refl

-- a write that fails half way
half_written :
    sync (record (gives none both) { write = some (lit "full", some (lit "  ")) }) booted
    ≡ ((0, some (write_map (lit "full"))), record booted { map_file = some (lit "  ") })
unfolding sync str_eq current
half_written = rw changed refl
