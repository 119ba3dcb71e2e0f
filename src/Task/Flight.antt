-- ===== src/Task/Flight.antt =====
-- internal/task/runner.go: concurrent calls of Runner.Run. The runner's mutex makes markInflight and
-- releaseInflight atomic, so the calls interleave at these two points.
use agent_ops.Prelude.{
  Str, str_eq, str_eq_iff, List, [], ◌∷◌, ◌++◌, ◌≡◌, refl, sym, ◌∙◌, Bool, true, false, ◌&&◌, ◌||◌,
  not, arith, Bool-cases, inl, inr,
}
use agent_ops.Task.Runner.{is_busy, mark_inflight, release_inflight}

-- the set of the runner, and the task names of the calls that are between their two points
pub record Flight : Type 0 where
  pub inflight : List Str
  pub active : List Str

-- a call gets in, a call is refused, and a call that is in, any one of them, ends
pub data Step : Flight → Flight → Type 0 where
  begin :
      (name : Str) (s : Flight)
      → (mark_inflight name s.inflight).1 ≡ true
      → Step s (record { inflight = (mark_inflight name s.inflight).0; active = name ∷ s.active })
  refused :
      (name : Str) (s : Flight)
      → (mark_inflight name s.inflight).1 ≡ false
      → Step s (record { inflight = (mark_inflight name s.inflight).0; active = s.active })
  end :
      (name : Str) (pre post : List Str) (s : Flight)
      → s.active ≡ pre ++ name ∷ post
      → Step s (record { inflight = release_inflight name s.inflight; active = pre ++ post })

pub data Reachable : Flight → Type 0 where
  idle : Reachable (record { inflight = []; active = [] })
  next : (s t : Flight) → Reachable s → Step s t → Reachable t

-- no name twice
abbrev pub IsUnique : List Str → Type 0
IsUnique [] = Unit
IsUnique (n ∷ ns) = (is_busy n ns ≡ false) × IsUnique ns

is_busy-release_inflight :
    (name n : Str) (l : List Str)
    → is_busy n (release_inflight name l) ≡ (is_busy n l && not (str_eq name n))
unfolding release_inflight
is_busy-release_inflight name n [] = refl
is_busy-release_inflight name n (m ∷ l) =
    ground (
      arith,
      is_busy-release_inflight name n l,
      str_eq_iff m name,
      str_eq_iff m n,
      str_eq_iff name n,
    )

is_busy-middle :
    (n name : Str) (pre post : List Str)
    → is_busy n (pre ++ name ∷ post) ≡ (str_eq name n || is_busy n (pre ++ post))
is_busy-middle n name [] post = refl
is_busy-middle n name (m ∷ pre) post = ground (arith, is_busy-middle n name pre post)

-- without the one in the middle
IsUnique-middle :
    (name : Str) (pre post : List Str)
    → IsUnique (pre ++ name ∷ post)
    → IsUnique (pre ++ post) × (is_busy name (pre ++ post) ≡ false)
IsUnique-middle name [] post (h, hs) = (hs, h)
IsUnique-middle name (m ∷ pre) post (h, hs) =
    let (u, b) = IsUnique-middle name pre post hs in
    let e = is_busy-middle m name pre post in
    ((ground arith, u), ground (arith, str_eq_iff m name, str_eq_iff name m))

and_false : (b : Bool) → (b && false) ≡ false
and_false b = ground arith

and_true : (b : Bool) → (b && true) ≡ b
and_true b = ground arith

without_middle :
    (name n : Str) (pre post : List Str)
    → is_busy name (pre ++ post) ≡ false
    → (is_busy n (pre ++ name ∷ post) && not (str_eq name n)) ≡ is_busy n (pre ++ post)
without_middle name n pre post h = elim (Bool-cases (str_eq name n)) [
  | inl p ↦ rw (p, ← (str_eq_iff name n).0 p, h) (and_false (is_busy name (pre ++ name ∷ post)))
  | inr p ↦ rw (is_busy-middle n name pre post, p) (and_true (is_busy n (pre ++ post)))
]

-- no task has two calls in, and the runner's set has the names of the calls that are in
pub record IsSingle (s : Flight) : Type 0 where
  pub unique : IsUnique s.active
  pub same : (n : Str) → is_busy n s.inflight ≡ is_busy n s.active

mark_cases :
    (name : Str) (l : List Str)
    → ((mark_inflight name l).1 ≡ true
        → (is_busy name l ≡ false) × ((mark_inflight name l).0 ≡ name ∷ l))
      × ((mark_inflight name l).1 ≡ false → (mark_inflight name l).0 ≡ l)
unfolding mark_inflight
mark_cases name l = ground arith

Step-IsSingle : (s t : Flight) → Step s t → IsSingle s → IsSingle t
Step-IsSingle _ _ (begin name s q) h =
    let (free, e) = (mark_cases name s.inflight).0 q in
    record { unique = (sym (h.same name) ∙ free, h.unique); same = λ n. rw (e, h.same n) }
Step-IsSingle _ _ (refused name s q) h = record {
  unique = h.unique;
  same = λ n. rw ((mark_cases name s.inflight).1 q) (h.same n);
}
Step-IsSingle _ _ (end name pre post s q) h =
    let (u, b) = IsUnique-middle name pre post (rw q at h.unique) in
    record {
      unique = u;
      same = λ n.
          rw (is_busy-release_inflight name n s.inflight, h.same n, q)
            (without_middle name n pre post b);
    }

-- However calls of Run interleave from an idle runner, no two calls for one task are in at a time,
-- and a task is in the runner's set exactly if a call for it is in: none is refused without cause and
-- no name stays behind.
pub Reachable-IsSingle : (s : Flight) → Reachable s → IsSingle s
Reachable-IsSingle _ idle = record { unique = tt; same = λ n. refl }
Reachable-IsSingle _ (next r s p q) = Step-IsSingle r s q (Reachable-IsSingle r p)
