-- ===== src/Bootstrap/Balance.antt =====
-- internal/bootstrap/bootstrap.go: the first JSON object in a text is found, whatever stands around it.
use agent_ops.Prelude.{
  ℕ, suc, ◌-◌, ◌==◌, Str, some, Result, [], ◌∷◌, ◌++◌, ◌≡◌, refl, false, ◌||◌, append_assoc, arith,
}
use agent_ops.Front.Numbers.{has}
use agent_ops.Bootstrap.Verdict.{
  outside, in_string, string_mode, balanced_text, extract_json_object, parse_verifier_json, decoded,
  VerifierResult,
}

abbrev pub quote : ℕ
quote = b'"'

abbrev pub backslash : ℕ
backslash = b'\\'

abbrev pub open_brace : ℕ
open_brace = b'{'

abbrev pub close_brace : ℕ
close_brace = b'}'

-- the inside of a string, with its closing quote
pub data IsStringEnd : Str → Type 0 where
  closes : IsStringEnd (quote ∷ [])
  escapes : {s : Str} (c : ℕ) → IsStringEnd s → IsStringEnd (backslash ∷ c ∷ s)
  goes_on :
      {s : Str} (c : ℕ)
      → (c == backslash) || (c == quote) ≡ false
      → IsStringEnd s
      → IsStringEnd (c ∷ s)

-- the inside of an object at this depth, with the braces that close it; of the values only their bytes,
-- their strings and their braces are looked at
pub data IsObjectEnd : ℕ → Str → Type 0 where
  ends : IsObjectEnd 1 (close_brace ∷ [])
  up : {s : Str} (n : ℕ) → IsObjectEnd (suc n) s → IsObjectEnd (suc (suc n)) (close_brace ∷ s)
  down : {s : Str} (n : ℕ) → IsObjectEnd (suc (suc n)) s → IsObjectEnd (suc n) (open_brace ∷ s)
  string :
      {s : Str} (n : ℕ) (t : Str)
      → IsStringEnd t
      → IsObjectEnd n s
      → IsObjectEnd n (quote ∷ (t ++ s))
  byte :
      {s : Str} (n c : ℕ)
      → (c == quote) || (c == open_brace) || (c == close_brace) ≡ false
      → IsObjectEnd n s
      → IsObjectEnd n (c ∷ s)

-- the end of a string leads back to the outside
string-balanced :
    {t : Str}
    → IsStringEnd t
    → (n : ℕ) (s r : Str) → balanced_text outside n s ≡ some r
    → balanced_text in_string n (t ++ s) ≡ some (t ++ r)
unfolding balanced_text
string-balanced closes n s r h = rw h refl
string-balanced (escapes c e) n s r h = rw (string-balanced e n s r h) refl
string-balanced (goes_on c q e) n s r h =
    let m : string_mode c ≡ in_string = ground arith in rw (m, string-balanced e n s r h) refl

object-balanced :
    {n : ℕ} {s : Str}
    → IsObjectEnd n s
    → (rest : Str) → balanced_text outside n (s ++ rest) ≡ some s
unfolding balanced_text
object-balanced ends rest = refl
object-balanced (up n e) rest =
    let d : (suc (suc n) == 1) ≡ false = ground arith in
    let m : suc (suc n) - 1 ≡ suc n = omega arith in rw (d, m, object-balanced e rest) refl
object-balanced (down n e) rest = rw (object-balanced e rest) refl
object-balanced (string {s = s} n t q e) rest =
    rw (append_assoc t s rest, string-balanced q n (s ++ rest) s (object-balanced e rest)) refl
object-balanced (byte n c q e) rest =
    let (a, b, d) : ((c == quote) ≡ false)
        × ((c == open_brace) ≡ false)
        × ((c == close_brace) ≡ false) =
      ground arith in
    rw (a, b, d, object-balanced e rest) refl

finds :
    (prose s rest : Str)
    → has open_brace prose ≡ false
    → IsObjectEnd 1 s
    → extract_json_object (prose ++ ((open_brace ∷ s) ++ rest)) ≡ some (open_brace ∷ s)
unfolding extract_json_object balanced_text
finds [] s rest h e = rw (object-balanced e rest) refl
finds (c ∷ prose) s rest h e =
    let (p, q) : ((c == open_brace) ≡ false) × (has open_brace prose ≡ false) = ground arith in
    rw p (finds prose s rest q e)

-- Whatever text without an opening brace stands before an object, and whatever stands behind it:
-- extractJSONObject gives the object, in which braces inside of strings are no braces, and
-- parseVerifierJSON is what its decoding gives.
pub extract_json_object-finds :
    (prose s rest : Str) (decode : Str → Result Str VerifierResult)
    → has open_brace prose ≡ false
    → IsObjectEnd 1 s
    → (extract_json_object (prose ++ ((open_brace ∷ s) ++ rest)) ≡ some (open_brace ∷ s))
      × (parse_verifier_json decode (prose ++ ((open_brace ∷ s) ++ rest))
          ≡ decoded (decode (open_brace ∷ s)))
unfolding parse_verifier_json
extract_json_object-finds prose s rest decode h e = let f = finds prose s rest h e in (f, rw f refl)
