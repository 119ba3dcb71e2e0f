-- ===== src/Proxy/Order.antt =====
-- internal/proxy/proxy.go: the map file does not depend on the order of the routes.
use std.HLevel.{¬_prop}
use native.Mathlib.Nat.{ℕ_set}
use mathlib.Core.Logic.{◌≢◌, ∥∥₁_elim}
use mathlib.Core.List.{Perm, Pairwise}
use agent_ops.Prelude.{
  Str, List, [], ◌∷◌, ◌≡◌, refl, sym, ap, true, not, inl, inr, Bool-cases, arith,
}
use agent_ops.Prelude.Text.{str_le, str_le_total, str_le_trans}
use agent_ops.Prelude.Sort.{IsOrder, sort-Perm}
use agent_ops.Proxy.Caddyfile.{Route, by_host, render_map_file, map_lines, text_lines}

str_le_antisym : (a b : Str) → str_le a b ≡ true → str_le b a ≡ true → a ≡ b
unfolding str_le
str_le_antisym [] [] p q = refl
str_le_antisym [] (y ∷ ys) p q = cc q
str_le_antisym (x ∷ xs) [] p q = cc p
str_le_antisym (x ∷ xs) (y ∷ ys) p q = ground (arith, str_le_antisym xs ys)

by_host-IsOrder : IsOrder by_host
unfolding by_host
by_host-IsOrder = record {
  total = λ a b. str_le_total a.host b.host;
  trans = λ a b c. str_le_trans a.host b.host c.host;
}

abbrev pub HostsDiffer : Route → Route → Type 0
HostsDiffer a b = a.host ≢ b.host

by_host_lem : (a b : Route) → HostsDiffer a b → by_host b a ≡ not (by_host a b)
unfolding by_host
by_host_lem a b n = elim (Bool-cases (str_le a.host b.host)) [
  | inr p ↦ rw p (str_le_total a.host b.host p)
  | inl p ↦ elim (Bool-cases (str_le b.host a.host)) [
    | inr q ↦ rw (p, q) refl
    | inl q ↦ absurd (n (str_le_antisym a.host b.host p q))
  ]
]

-- Two lists of the same routes, of which no two have one host, give the same map file.
pub render_map_file-Perm :
    (xs ys : List Route)
    → Perm xs ys
    → Pairwise HostsDiffer xs
    → render_map_file xs ≡ render_map_file ys
unfolding render_map_file
render_map_file-Perm xs ys p d = ∥∥₁_elim p (hlevel ℕ_set) (λ c.
    ap (λ l. text_lines (map_lines l))
      (sort-Perm by_host by_host-IsOrder HostsDiffer (λ a b. ¬_prop) (λ a b n e. n (sym e))
        by_host_lem c d))
