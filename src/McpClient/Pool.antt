-- ===== src/McpClient/Pool.antt =====
-- internal/mcpclient/manager.go, client.go: New, Boot and Close. What the calls of a client answer is an
-- argument: the error of each, or its tools.
use mathlib.Core.List.{Perm, perm_middle}
use mathlib.Core.List.Perm
use agent_ops.Prelude.{
  Str, lit, str_eq, Option, none, some, Result, ok, err, List, [], ◌∷◌, ◌++◌, map, keep, ◌≡◌, refl,
  ap, Bool, true, false, ◌&&◌, not, is_nil, if◌then◌else◌, Bool-cases, Option-cases, ◌⊎◌, inl, inr,
}

pub record ClientConfig : Type 0 where
  pub name : Str
  pub transport : Str
  pub url : Str
  pub command : Str

pub record Started : Type 0 where
  pub client : ClientConfig
  pub tools : List Str

-- the answers of Start, Initialize and ListTools, and the error of Close
pub record Remote : Type 0 where
  pub start : ClientConfig → Option Str
  pub initialize : ClientConfig → Option Str
  pub list_tools : ClientConfig → Result Str (List Str)
  pub close : ClientConfig → Option Str

-- New: a client, unless its configuration is refused
unfoldable pub new_client : ClientConfig → Bool
new_client c =
    if str_eq c.transport (lit "http")
    then not (is_nil c.url)
    else if str_eq c.transport (lit "stdio")
    then not (is_nil c.command)
    else false

-- what Boot leaves: the pairs for the caller, the pool, and the clients that were started and closed
pub record Booted : Type 0 where
  pub out : List Started
  pub clients : List ClientConfig
  pub closed : List ClientConfig

abbrev skip : Booted → Booted
skip b = b

abbrev give_up : ClientConfig → Booted → Booted
give_up c b = record b { closed = c ∷ b.closed }

abbrev keep_client : ClientConfig → List Str → Booted → Booted
keep_client c tools b = record b {
  out = record { client = c; tools = tools } ∷ b.out;
  clients = c ∷ b.clients;
}

abbrev pub listed : ClientConfig → Result Str (List Str) → Booted → Booted
listed c (err e) b = give_up c b
listed c (ok tools) b = keep_client c tools b

abbrev pub initialized : Remote → ClientConfig → Option Str → Booted → Booted
initialized r c (some e) b = give_up c b
initialized r c none b = listed c (r.list_tools c) b

abbrev pub started : Remote → ClientConfig → Option Str → Booted → Booted
started r c (some e) b = skip b
started r c none b = initialized r c (r.initialize c) b

-- the lists are in the order of the configurations
unfoldable pub boot : Remote → List ClientConfig → Booted
boot r [] = record { out = []; clients = []; closed = [] }
boot r (c ∷ cs) =
    let rest = boot r cs in if new_client c then started r c (r.start c) rest else rest

abbrev first_error : Option Str → Option Str → Option Str
first_error none rest = rest
first_error (some e) rest = some e

abbrev pub close_errors : Remote → List ClientConfig → Option Str
close_errors r [] = none
close_errors r (c ∷ cs) = first_error (r.close c) (close_errors r cs)

-- `m.stop`, and the clients
pub record Manager : Type 0 where
  pub running : Bool
  pub clients : List ClientConfig

-- Close: its first error, the manager behind it, and the clients that it closes
unfoldable pub close_manager : Remote → Manager → Option Str × Manager × List ClientConfig
close_manager r m =
    if m.running
    then (close_errors r m.clients, record { running = false; clients = [] }, m.clients)
    else (none, m, [])

-- the clients whose Start has succeeded: a process may run for each of them
abbrev pub no_error : Option Str → Bool
no_error none = true
no_error (some e) = false

abbrev pub dialled : Remote → List ClientConfig → List ClientConfig
dialled r cs = keep (λ c. new_client c && no_error (r.start c)) cs

-- the clients that answer
abbrev pub has_tools : Result Str (List Str) → Bool
has_tools (ok tools) = true
has_tools (err e) = false

abbrev pub answers : Remote → ClientConfig → Bool
answers r c =
    new_client c && no_error (r.start c) && no_error (r.initialize c) && has_tools (r.list_tools c)

abbrev pub client_of : Started → ClientConfig
client_of s = s.client

Result-cases :
    (o : Result Str (List Str)) → ((a : List Str) × (o ≡ ok a)) ⊎ ((e : Str) × (o ≡ err e))
Result-cases (ok a) = inl (a, refl)
Result-cases (err e) = inr (e, refl)

-- what Boot leaves of its configurations
abbrev Accounts : Remote → List ClientConfig → Booted → Type 0
Accounts r cs b =
    Perm (b.closed ++ b.clients) (dialled r cs)
    × (b.clients ≡ keep (answers r) cs)
    × (map client_of b.out ≡ keep (answers r) cs)

boot-Accounts : (r : Remote) (cs : List ClientConfig) → Accounts r cs (boot r cs)
unfolding boot
boot-Accounts r [] = (Perm.refl _, refl, refl)
boot-Accounts r (c ∷ cs) =
    let b = boot r cs in
    let (all, kept, told) = boot-Accounts r cs in
    elim (Bool-cases (new_client c)) [
      | inr n ↦ rw n (all, kept, told)
      | inl n ↦ elim (Option-cases (r.start c)) [
        | inr (e, s) ↦ rw (n, s) (all, kept, told)
        | inl s ↦ elim (Option-cases (r.initialize c)) [
          | inr (e, i) ↦ rw (n, s, i) (Perm.cons c all, kept, told)
          | inl i ↦ elim (Result-cases (r.list_tools c)) [
            | inr (e, l) ↦ rw (n, s, i, l) (Perm.cons c all, kept, told)
            | inl (tools, l) ↦
                rw (n, s, i, l)
                  (
                    Perm.trans (perm_middle b.closed b.clients) (Perm.cons c all),
                    ap (λ k. c ∷ k) kept,
                    ap (λ k. c ∷ k) told,
                  )
          ]
        ]
      ]
    ]

abbrev pub manager_of : Booted → Manager
manager_of b = record { running = true; clients = b.clients }

-- Boot keeps the clients that answer, in the order of their configurations, whatever becomes of the
-- others, and hands out the tools of the same; and once the manager was closed, each client whose Start
-- had succeeded was closed, and a second Close closes nothing.
close_manager-boot :
    (r : Remote) (cs : List ClientConfig)
    → ((boot r cs).clients ≡ keep (answers r) cs)
      × (map client_of (boot r cs).out ≡ keep (answers r) cs)
      × Perm ((boot r cs).closed ++ (close_manager r (manager_of (boot r cs))).2) (dialled r cs)
      × ((close_manager r (close_manager r (manager_of (boot r cs))).1).2 ≡ [])
unfolding close_manager
close_manager-boot r cs = let (all, kept, told) = boot-Accounts r cs in (kept, told, all, refl)
