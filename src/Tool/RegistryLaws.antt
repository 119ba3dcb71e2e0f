-- ===== src/Tool/RegistryLaws.antt =====
-- What the registry promises: a name has one tool, and an allowlist lets through what it names.
use mathlib.Core.List.{Perm}
use agent_ops.Prelude.{
  Str, str_eq, str_eq_iff, Option, none, some, ok, err, List, [], ◌∷◌, ◌≡◌, refl, ◌⊎◌, inl, inr,
  Bool-cases, Option-cases, true, false, ◌||◌, if◌then◌else◌, is_nil, is_some, any, arith,
}
use agent_ops.Prelude.Text.{str_le_total, str_le_trans}
use agent_ops.Prelude.Sort.{IsSorted, IsOrder, sort-perm, sort-IsSorted}
use agent_ops.Prelude.Assoc.{get, put, get-put}
use agent_ops.Tool.Registry.{
  Tool, Registry, already_registered, register, get_tool, values, by_name, list, add_found,
  or_unchanged, pick, subset,
}

-- every tool stands under its own name, which is not empty
pub record IsKeyed (r : Registry) : Type 0 where
  pub own_name : (k : Str) (t : Tool) → get k r ≡ some t → t.name ≡ k
  pub named : (k : Str) (t : Tool) → get k r ≡ some t → is_nil k ≡ false

pub IsKeyed-empty : IsKeyed []
unfolding get
IsKeyed-empty = record { own_name = λ k t p. cc; named = λ k t p. cc }

-- Register keeps the registry well-formed: each tool under its own name, no name empty.
pub register-IsKeyed :
    (o : Option Tool) (r r' : Registry) → IsKeyed r → register o r ≡ ok r' → IsKeyed r'
unfolding register
register-IsKeyed none r r' h q = cc
register-IsKeyed (some t) r r' h q = record {
  own_name = λ k u p. ground (arith, get-put t.name k t r, h.own_name k u, str_eq_iff t.name k);
  named = λ k u p. ground (arith, get-put t.name k t r, h.named k u, str_eq_iff t.name k);
}

-- Register of a named tool: a name that is taken is refused; otherwise the tool is found under its
-- name, and every other name as before.
get_tool-register :
    (t : Tool) (r : Registry) (k : Str)
    → is_nil t.name ≡ false
    → ((is_some (get_tool t.name r) ≡ true)
        × (register (some t) r ≡ err (already_registered t.name)))
      ⊎ ((r' : Registry) × (register (some t) r ≡ ok r')
          × (get_tool k r' ≡ (if str_eq t.name k then some t else get_tool k r)))
unfolding register get_tool
get_tool-register t r k h = elim (Bool-cases (is_some (get t.name r))) [
  | inl p ↦ inl (p, rw (h, p))
  | inr p ↦ inr (put t.name t r, rw (h, p), get-put t.name k t r)
]

abbrev either : Option Tool → Option Tool → Option Tool
either (some t) o = some t
either none o = o

get-or_unchanged :
    (t : Tool) (k : Str) (out : Registry)
    → is_nil t.name ≡ false
    → get k (or_unchanged out (register (some t) out))
      ≡ either (get k out) (if str_eq t.name k then some t else none)
unfolding register
get-or_unchanged t k out h = ground (arith, get-put t.name k t out, str_eq_iff t.name k)

add_some :
    (name k : Str) (t : Tool) (r out : Registry)
    → IsKeyed r
    → get name r ≡ some t
    → get k (add_found (some t) out) ≡ either (get k out) (if str_eq name k then get k r else none)
add_some name k t r out h q =
    let e = h.own_name name t q in
    rw (get-or_unchanged t k out (rw e (h.named name t q)))
      (ground (arith, e, q, str_eq_iff name k))

-- one name of the allowlist
get-add_found :
    (name k : Str) (r out : Registry)
    → IsKeyed r
    → get k (add_found (get name r) out)
      ≡ either (get k out) (if str_eq name k then get k r else none)
get-add_found name k r out h = elim (Option-cases (get name r)) [
  | inl q ↦ ground (arith, q, str_eq_iff name k)
  | inr (t, q) ↦ rw q (add_some name k t r out h q)
]

get-pick :
    (k : Str) (r : Registry) (allow : List Str) (out : Registry)
    → IsKeyed r
    → get k (pick r allow out)
      ≡ either (get k out) (if any (λ n. str_eq n k) allow then get k r else none)
unfolding pick
get-pick k r [] out h = ground arith
get-pick k r (name ∷ allow) out h =
    ground (arith, get-pick k r allow (add_found (get name r) out) h, get-add_found name k r out h)

-- Subset, of a well-formed registry: an empty allowlist lets every tool through; any other lets
-- through exactly the tools that it names and the registry has, whatever is repeated or unknown.
get_tool-subset :
    (allow : List Str) (r : Registry) (k : Str)
    → IsKeyed r
    → get_tool k (subset allow r)
      ≡ (if is_nil allow || any (λ n. str_eq n k) allow then get_tool k r else none)
unfolding subset get_tool get
get_tool-subset [] r k h = refl
get_tool-subset (n ∷ allow) r k h = get-pick k r (n ∷ allow) [] h

by_name-IsOrder : IsOrder by_name
by_name-IsOrder = record {
  total = λ a b. str_le_total a.name b.name;
  trans = λ a b c. str_le_trans a.name b.name c.name;
}

-- List returns the tools of the registry, each once for each key, in the order of their names.
list-IsSorted : (r : Registry) → IsSorted by_name (list r) × Perm (list r) (values r)
unfolding list
list-IsSorted r = (sort-IsSorted by_name by_name-IsOrder (values r), sort-perm by_name (values r))
