-- ===== src/Bootstrap/Token.antt =====
-- internal/bootstrap/bootstrap.go: EnsureToken. The random bytes come as their hex digits.
use agent_ops.Prelude.{
  Str, lit, Option, none, some, Result, ok, err, [], ◌∷◌, ◌++◌, ◌≡◌, refl, sym, false, is_nil,
  if◌then◌else◌,
}

-- the calls of one EnsureToken, with the error of each that fails
pub record TokenCalls : Type 0 where
  pub mkdir : Option Str
  -- os.ReadFile fails on a file that exists
  pub read : Option Str
  pub random : Result Str Str
  -- the error of os.WriteFile, and what it leaves in the file
  pub write : Option (Str × Option Str)

pub data TokenError : Type 0 where
  state_dir unreadable no_random not_persisted : Str → TokenError

abbrev pub new_token : Result Str Str → Result TokenError Str
new_token (err e) = err (no_random e)
new_token (ok hex) = ok (lit "ao_" ++ hex)

abbrev pub persist :
    Option (Str × Option Str)
    → Result TokenError Str
    → Option Str
    → Result TokenError Str × Option Str
persist write (err e) file = (err e, file)
persist none (ok t) file = (ok t, some t)
persist (some (e, left)) (ok t) file = (err (not_persisted e), left)

abbrev pub or_new : TokenCalls → Option Str → Result TokenError Str × Option Str
or_new k file = persist k.write (new_token k.random) file

abbrev pub from_text : TokenCalls → Option Str → Str → Result TokenError Str × Option Str
from_text k none t = if is_nil t then or_new k (some t) else (ok t, some t)
from_text k (some e) t = (err (unreadable e), some t)

-- a file that does not exist, or is empty, gets a new token
abbrev pub from_file : TokenCalls → Option Str → Result TokenError Str × Option Str
from_file k none = or_new k none
from_file k (some t) = from_text k k.read t

abbrev pub in_state_dir : TokenCalls → Option Str → Option Str → Result TokenError Str × Option Str
in_state_dir k (some e) file = (err (state_dir e), file)
in_state_dir k none file = from_file k file

-- the variable that the configuration names, if it is set; then the file
unfoldable pub ensure_token : TokenCalls → Str → Option Str → Result TokenError Str × Option Str
ensure_token k env file = if is_nil env then in_state_dir k k.mkdir file else (ok env, file)

-- what a start leaves for the next: a token that is not empty, and in the file if the variable is not set
pub record Lasts (env t : Str) (file : Option Str) : Type 0 where
  pub not_empty : is_nil t ≡ false
  pub again :
      (k : TokenCalls) → k.mkdir ≡ none → k.read ≡ none → ensure_token k env file ≡ (ok t, file)

stored-Lasts : (t : Str) → is_nil t ≡ false → Lasts [] t (some t)
unfolding ensure_token
stored-Lasts t n = record { not_empty = n; again = λ k m r. rw (m, r, n) refl }

persist-Lasts :
    (w : Option (Str × Option Str)) (r : Result Str Str) (file : Option Str) (t : Str)
    → (persist w (new_token r) file).0 ≡ ok t
    → Lasts [] t (persist w (new_token r) file).1
persist-Lasts w (err e) file t h = cc h
persist-Lasts none (ok hex) file t h =
    let e : lit "ao_" ++ hex ≡ t = cc h in rw (sym e) (stored-Lasts (lit "ao_" ++ hex) refl)
persist-Lasts (some (e, left)) (ok hex) file t h = cc h

from_text-Lasts :
    (k : TokenCalls) (r : Option Str) (text t : Str)
    → (from_text k r text).0 ≡ ok t
    → Lasts [] t (from_text k r text).1
from_text-Lasts k (some e) text t h = cc h
from_text-Lasts k none [] t h = persist-Lasts k.write k.random (some []) t h
from_text-Lasts k none (c ∷ text) t h =
    let e : Path Str (c ∷ text) t = cc h in rw (sym e) (stored-Lasts (c ∷ text) refl)

in_state_dir-Lasts :
    (k : TokenCalls) (m file : Option Str) (t : Str)
    → (in_state_dir k m file).0 ≡ ok t
    → Lasts [] t (in_state_dir k m file).1
in_state_dir-Lasts k (some e) file t h = cc h
in_state_dir-Lasts k none none t h = persist-Lasts k.write k.random none t h
in_state_dir-Lasts k none (some text) t h = from_text-Lasts k k.read text t h

-- A token that EnsureToken gives is not empty. While the variable stays as it is and the file can be read,
-- each later start gives this token and leaves the file alone, whatever random bytes it would draw.
pub ensure_token-Lasts :
    (k : TokenCalls) (env : Str) (file : Option Str) (t : Str)
    → (ensure_token k env file).0 ≡ ok t
    → Lasts env t (ensure_token k env file).1
unfolding ensure_token
ensure_token-Lasts k [] file t h = in_state_dir-Lasts k k.mkdir file t h
ensure_token-Lasts k (c ∷ env) file t h =
    let e : Path Str (c ∷ env) t = cc h in
    rw (sym e) (record { not_empty = refl; again = λ k' m r. refl })
