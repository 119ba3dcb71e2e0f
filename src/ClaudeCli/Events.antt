-- ===== src/ClaudeCli/Events.antt =====
-- internal/driver/claudecli/claudecli.go: which result parseStream gives, whatever other events there are.
use agent_ops.Prelude.{
  Str, Option, none, some, Result, ok, err, List, [], ◌∷◌, ◌++◌, ◌≡◌, refl, ◌∙◌, is_nil,
  if◌then◌else◌,
}
use agent_ops.ClaudeCli.Stream.{
  StreamResult, Envelope, StreamJson, Scan, Next, Event, assistant, user, result, other,
  event_named, on_line, on_envelope, on_event, on_result, unless_stopped, scan_lines, seen, at_end,
  parse_stream, start,
}

-- an independent description: the results that the lines spell, and the last before one that does not decode
abbrev pub if_result : StreamJson → Str → Event → List (Result Str StreamResult)
if_result j line result = j.result line ∷ []
if_result j line assistant = []
if_result j line user = []
if_result j line other = []

abbrev pub in_envelope : StreamJson → Str → Option Envelope → List (Result Str StreamResult)
in_envelope j line none = []
in_envelope j line (some e) = if_result j line (event_named e.type)

abbrev pub line_results : StreamJson → Str → List (Result Str StreamResult)
line_results j line = if is_nil line then [] else in_envelope j line (j.envelope line)

abbrev pub results : StreamJson → List Str → List (Result Str StreamResult)
results j [] = []
results j (line ∷ lines) = line_results j line ++ results j lines

abbrev pub last_good : List (Result Str StreamResult) → Option StreamResult → Option StreamResult
last_good [] last = last
last_good (ok r ∷ rs) last = last_good rs (some r)
last_good (err e ∷ rs) last = last

-- what a line does to the result, by the results that it spells
abbrev Does : Option StreamResult → List (Result Str StreamResult) → Next → Type 0
Does last [] (s, some e) = ⊥
Does last [] (s, none) = s.out.result ≡ last
Does last (ok r ∷ rs) (s, some e) = ⊥
Does last (ok r ∷ rs) (s, none) = (s.out.result ≡ some r) × (rs ≡ [])
Does last (err e ∷ rs) (s, some m) = s.out.result ≡ last
Does last (err e ∷ rs) (s, none) = ⊥

on_result-Does :
    (r : Result Str StreamResult) (s : Scan) → Does s.out.result (r ∷ []) (on_result r s)
on_result-Does (err e) s = refl
on_result-Does (ok r) s = (refl, refl)

on_event-Does :
    (j : StreamJson) (line message : Str) (e : Event) (s : Scan)
    → Does s.out.result (if_result j line e) (on_event j line message e s)
on_event-Does j line message assistant s = refl
on_event-Does j line message user s = refl
on_event-Does j line message result s = on_result-Does (j.result line) s
on_event-Does j line message other s = refl

on_line-Does :
    (j : StreamJson) (line : Str) (s : Scan)
    → Does s.out.result (line_results j line) (on_line j line s)
unfolding on_line
on_line-Does j [] s = refl
on_line-Does j (c ∷ line) s = in_envelope-Does (j.envelope (c ∷ line))
  where
    in_envelope-Does :
        (e : Option Envelope)
        → Does s.out.result
            (in_envelope j (c ∷ line) e)
            (on_envelope j (c ∷ line) e (seen (c ∷ line) s))
    in_envelope-Does none = refl
    in_envelope-Does (some e) =
        on_event-Does j (c ∷ line) e.message (event_named e.type) (seen (c ∷ line) s)

at_end-result : (failed : Option Str) (s : Scan) → (at_end failed s).0.out.result ≡ s.out.result
at_end-result none s = refl
at_end-result (some e) s = refl

scan_lines-result :
    (j : StreamJson) (lines : List Str) (failed : Option Str) (s : Scan)
    → (scan_lines j lines failed s).0.out.result ≡ last_good (results j lines) s.out.result
unfolding scan_lines
scan_lines-result j [] failed s = at_end-result failed s
scan_lines-result j (line ∷ lines) failed s =
    by_line (line_results j line) (on_line j line s) (on_line-Does j line s)
      (λ t. scan_lines-result j lines failed t)
  where
    by_line :
        (rs : List (Result Str StreamResult)) (n : Next)
        → Does s.out.result rs n
        → ((t : Scan)
            → (scan_lines j lines failed t).0.out.result ≡ last_good (results j lines) t.out.result)
        → (unless_stopped n (λ t. scan_lines j lines failed t)).0.out.result
          ≡ last_good (rs ++ results j lines) s.out.result
    by_line [] (t, none) d ih = ih t ∙ rw d refl
    by_line [] (t, some e) d ih = absurd d
    by_line (ok r ∷ rs) (t, none) (d, q) ih = ih t ∙ rw (d, q) refl
    by_line (ok r ∷ rs) (t, some e) d ih = absurd d
    by_line (err m ∷ rs) (t, some e) d ih = d
    by_line (err m ∷ rs) (t, none) d ih = absurd d

-- Whatever lines a stream has, in any order, and whether the scanner fails behind them: the result is the
-- last that a result event spells, of those before the first that does not decode.
pub parse_stream-result :
    (j : StreamJson) (lines : List Str) (failed : Option Str)
    → (parse_stream j lines failed).0.out.result ≡ last_good (results j lines) none
unfolding parse_stream
parse_stream-result j lines failed = scan_lines-result j lines failed start
