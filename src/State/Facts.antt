-- ===== src/State/Facts.antt =====
-- The bound on the mission's facts.
use agent_ops.Prelude.{
  ℕ, ◌+◌, ◌-◌, ◌≤◌, Str, trim_space, List, [], ◌∷◌, ◌++◌, ◌≡◌, false, is_nil, arith, ok, length,
  length-append, length-drop, length-take, take, Bool-cases, inl, inr, drop, take-append-drop, ltb,
}
use agent_ops.State.Data.{Fact, Store, fresh}
use agent_ops.State.Tx.{no_faults, transaction, insert_event}
use agent_ops.State.Mission.{max_facts, bound_facts, add_fact, get_mission, new_fact, or_auto}
use agent_ops.State.History.{History, after_all}
use agent_ops.State.Effect.{effects_keep}
use agent_ops.State.Change.{
  Change, none_of_them, task, insert, close, charter, learned, Effected, event, line, effect_cases,
}

length-bound_facts : (fs : List Fact) → length (bound_facts fs) ≤ max_facts
unfolding bound_facts
length-bound_facts fs = ground (arith, length-drop (length fs - max_facts) fs)

bound_facts_lem : (fs : List Fact) → bound_facts fs ≡ drop (length fs - max_facts) fs
unfolding bound_facts
bound_facts_lem fs = elim (Bool-cases (ltb max_facts (length fs))) [
  | inl p ↦ rw p
  | inr p ↦ rw p (let e : length fs - max_facts ≡ 0 = ground arith in rw e)
]

dropped_count :
    (fs : List Fact) (f : Fact)
    → length (take (length (fs ++ f ∷ []) - max_facts) (fs ++ f ∷ [])) ≡ length fs + 1 - max_facts
dropped_count fs f = omega (
  arith,
  length-take (length (fs ++ f ∷ []) - max_facts) (fs ++ f ∷ []),
  length-append fs (f ∷ []),
)

-- AddFact of a text that is not blank, with no failing call: it returns the facts that GetMission
-- then reads, at most a hundred; they are the old ones with the trimmed text last, less the oldest.
add_fact_lem :
    (now : ℕ) (source text : Str) (s : Store)
    → is_nil (trim_space text) ≡ false
    → (old kept : List Fact) × ((add_fact no_faults now source text s).0 ≡ ok kept)
      × (get_mission no_faults (add_fact no_faults now source text s).1
          ≡ ok (record s.mission { facts = kept; updated_at = now }))
      × (old ++ kept ≡ s.mission.facts ++ new_fact now (or_auto source) (trim_space text) ∷ [])
      × (length old ≡ length s.mission.facts + 1 - max_facts)
unfolding add_fact get_mission transaction insert_event
add_fact_lem now source text s h =
    let all = s.mission.facts ++ new_fact now (or_auto source) (trim_space text) ∷ [] in
    (
      take (length all - max_facts) all,
      bound_facts all,
      rw h,
      rw h,
      rw bound_facts_lem (take-append-drop (length all - max_facts) all),
      dropped_count s.mission.facts (new_fact now (or_auto source) (trim_space text)),
    )

-- the facts of a store's mission are within the bound, as a property of stores
Bounded : Store → Type 0
Bounded s = length s.mission.facts ≤ max_facts

Change-Bounded : (s u : Store) → Bounded s → Change s u → Bounded u
unfolding Bounded
Change-Bounded s u h (none_of_them p) = rw p h
Change-Bounded s u h (task t _ p) = rw p h
Change-Bounded s u h (insert _ _ _ _ _ p) = rw p h
Change-Bounded s u h (close _ _ _ _ _ _ _ p) = rw p h
Change-Bounded s u h (charter _ _ p) = rw p h
Change-Bounded s u h (learned f now p) = rw p (length-bound_facts (s.mission.facts ++ f ∷ []))

Effected-Bounded : (s t : Store) → Bounded s → Effected s t → Bounded t
unfolding Bounded
Effected-Bounded s t h (event ts typ payload u c q) =
    rw q (unfold insert_event in Change-Bounded s u h c)
Effected-Bounded s t h (line _ _ _ _ _ _ _ q) = rw q h

-- After any history of a fresh store the mission has at most a hundred facts.
facts_bounded : (now : ℕ) (h : History) → length (after_all h (fresh now)).mission.facts ≤ max_facts
unfolding Bounded
facts_bounded now h =
    effects_keep {P = Bounded} (λ at op s t p q. Effected-Bounded s t p (effect_cases at op s t q))
      h (fresh now) (unfold fresh in omega arith)
