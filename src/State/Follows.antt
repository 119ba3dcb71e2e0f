-- ===== src/State/Follows.antt =====
-- One store behind another: some operations of the store lie between them.
use agent_ops.Prelude.{[], ◌∷◌, ◌++◌, ◌≡◌, refl}
use agent_ops.State.Data.{Store}
use agent_ops.State.History.{History, after_all, step}

-- the second store is the first one after some operations
pub record Follows (s t : Store) : Type 0 where
  pub acts : History
  pub at : t ≡ after_all acts s

pub after_all-append :
    (h k : History) (s : Store) → after_all (h ++ k) s ≡ after_all k (after_all h s)
unfolding after_all
after_all-append [] k s = refl
after_all-append ((f, now, op) ∷ h) k s = after_all-append h k (step f now op s).1

pub unchanged-Follows : (s : Store) → Follows s s
unfolding after_all
unchanged-Follows s = record { acts = []; at = refl }

pub chained-Follows : (s t u : Store) → Follows s t → Follows t u → Follows s u
chained-Follows s t u p q = record {
  acts = p.acts ++ q.acts;
  at = rw (after_all-append p.acts q.acts s, q.at, p.at);
}

-- what every history keeps
pub Follows_keeps :
    (P : Store → Type 0)
    → ((h : History) (s : Store) → P s → P (after_all h s))
    → (s t : Store) → Follows s t
    → P s
    → P t
Follows_keeps P keeps s t f p = rw f.at (keeps f.acts s p)
