-- ===== src/Proxy/Fresh.antt =====
-- internal/proxy/proxy.go: what Caddy serves after some calls of Sync.
use mathlib.Core.List.{Perm, Pairwise}
use agent_ops.Prelude.{
  ℕ, Str, str_eq, str_eq_iff, str_eq_refl, Option, none, some, Result, ok, err, List, [], ◌∷◌, ◌≡◌,
  refl, sym, ap, ◌∙◌, false, length, inl, inr, Bool-cases, All,
}
use agent_ops.Proxy.Caddyfile.{Route, render_map_file}
use agent_ops.Proxy.Sync.{
  Host, SyncCalls, ProxyError, caddy_reload, current, routes_of, sync_routes, sync, syncs,
}
use agent_ops.Proxy.Order.{HostsDiffer, render_map_file-Perm}

abbrev pub text_of : Option Str → Str
text_of none = []
text_of (some t) = t

-- the file can be read and written, and Caddy reloads
pub record IsSmooth (k : SyncCalls) : Type 0 where
  pub readable : k.unreadable ≡ false
  pub writable : k.write ≡ none
  pub reloads : k.reload ≡ none

current_lem : (k : SyncCalls) (m : Option Str) → k.unreadable ≡ false → current k m ≡ text_of m
unfolding current
current_lem k none h = refl
current_lem k (some t) h = rw h refl

-- Caddy serves what the map file says
abbrev pub IsFresh : Host → Type 0
IsFresh h = h.served ≡ h.map_file

-- a Sync with nothing that fails but the source
pub record IsSettled (r : Result Str (List Route)) (o : (ℕ × Option ProxyError) × Host)
    : Type 0 where
  pub fresh : IsFresh o.1
  pub serves :
      (rs : List Route)
      → r ≡ ok rs
      → (o.0 ≡ (length rs, none)) × (text_of o.1.served ≡ render_map_file rs)

ok_routes : {rs qs : List Route} → Path (Result Str (List Route)) (ok rs) (ok qs) → rs ≡ qs
ok_routes q = cc q

sync_routes-IsSettled :
    (k : SyncCalls) (h : Host) (r : Result Str (List Route))
    → IsSmooth k
    → IsFresh h
    → IsSettled r (sync_routes k r h)
sync_routes-IsSettled k h (err e) c f = record { fresh = f; serves = λ rs q. cc q }
sync_routes-IsSettled k h (ok rs) c f =
    elim (Bool-cases (str_eq (current k h.map_file) (render_map_file rs))) [
      | inl e ↦ rw e (record {
        fresh = f;
        serves = λ qs q. rw (sym (ok_routes q)) (
          refl,
          ap text_of f
              ∙ sym (current_lem k h.map_file c.readable)
              ∙ (str_eq_iff (current k h.map_file) (render_map_file rs)).0 e,
        );
      })
      | inr e ↦
          rw (e, c.writable, c.reloads)
            (record { fresh = refl; serves = λ qs q. rw (sym (ok_routes q)) (refl, refl) })
    ]

syncs-IsFresh :
    (ks : List SyncCalls) (h : Host) → All IsSmooth ks → IsFresh h → IsFresh (syncs ks h)
unfolding syncs sync
syncs-IsFresh [] h c f = f
syncs-IsFresh (k ∷ ks) h (c, cs) f =
    syncs-IsFresh ks _ cs (sync_routes-IsSettled k h (routes_of k.source) c f).fresh

-- Where Caddy serves what the map file says at the start, and in some calls of Sync nothing fails but
-- the map source, and the source of the last call gives routes: this call gives their number and no
-- error, and Caddy serves the map of these routes behind it.
syncs_serve :
    (ks : List SyncCalls) (k : SyncCalls) (rs : List Route) (h : Host)
    → IsFresh h
    → All IsSmooth ks
    → IsSmooth k
    → routes_of k.source ≡ ok rs
    → ((sync k (syncs ks h)).0 ≡ (length rs, none))
      × (text_of (sync k (syncs ks h)).1.served ≡ render_map_file rs)
unfolding sync
syncs_serve ks k rs h f cs c q =
    (sync_routes-IsSettled k (syncs ks h) (routes_of k.source) c (syncs-IsFresh ks h cs f)).serves
      rs q

-- the source of a readable Sync gives these routes; its other calls may fail or not
pub record Gives (rs : List Route) (k : SyncCalls) : Type 0 where
  pub routes : routes_of k.source ≡ ok rs
  pub readable : k.unreadable ≡ false

sync_idle :
    (rs : List Route) (k : SyncCalls) (h : Host)
    → Gives rs k
    → text_of h.map_file ≡ render_map_file rs
    → sync k h ≡ ((length rs, none), h)
unfolding sync
sync_idle rs k h g m =
    rw (g.routes, current_lem k h.map_file g.readable, m, str_eq_refl (render_map_file rs)) refl

syncs_idle :
    (rs : List Route) (ks : List SyncCalls) (h : Host)
    → All (Gives rs) ks
    → text_of h.map_file ≡ render_map_file rs
    → syncs ks h ≡ h
unfolding syncs
syncs_idle rs [] h g m = refl
syncs_idle rs (k ∷ ks) h (g, gs) m = rw (sync_idle rs k h g m) (syncs_idle rs ks h gs m)

-- A Sync whose routes change the map file and whose reload fails gives the error, and leaves the new
-- map in the file. Any later calls of Sync with these routes change nothing, so Caddy goes on with the
-- routes it had; and each of them reports success, whatever a reload would do.
pub sync_stranded :
    (rs : List Route) (k : SyncCalls) (e : Str) (h : Host) (ks : List SyncCalls) (k' : SyncCalls)
    → routes_of k.source ≡ ok rs
    → str_eq (current k h.map_file) (render_map_file rs) ≡ false
    → k.write ≡ none
    → k.reload ≡ some e
    → All (Gives rs) ks
    → Gives rs k'
    → ((sync k h).0 ≡ (length rs, some (caddy_reload e)))
      × ((syncs ks (sync k h).1).served ≡ h.served)
      × ((sync k' (syncs ks (sync k h).1)).0 ≡ (length rs, none))
unfolding sync
sync_stranded rs k e h ks k' q d w r gs g =
    let i = syncs_idle rs ks (record h { map_file = some (render_map_file rs) }) gs refl in
    rw (q, d, w, r) (refl, ap (λ t. t.served) i, rw i (ap (λ t. t.0) (sync_idle rs k' _ g refl)))

-- After a Sync in which nothing failed, a Sync that gets the same routes in any order, no two of them
-- with one host, changes nothing and succeeds, whatever a write or a reload would do.
pub sync-Perm :
    (rs qs : List Route) (k k' : SyncCalls) (h : Host)
    → routes_of k.source ≡ ok rs
    → IsSmooth k
    → IsFresh h
    → Perm rs qs
    → Pairwise HostsDiffer rs
    → Gives qs k'
    → sync k' (sync k h).1 ≡ ((length qs, none), (sync k h).1)
unfolding sync
sync-Perm rs qs k k' h q c f p d g =
    let s = sync_routes-IsSettled k h (routes_of k.source) c f in
    sync_idle qs k' (sync k h).1 g
      (ap text_of (sym s.fresh) ∙ (s.serves rs q).1 ∙ render_map_file-Perm rs qs p d)
