-- ===== src/ClaudeCli/Tail.antt =====
-- internal/driver/claudecli/claudecli.go: the end of the output that parseStream keeps for the diagnosis.
use agent_ops.Prelude.{
  ℕ, Str, Option, none, some, Result, ok, err, List, [], ◌∷◌, ◌++◌, ◌+◌, ◌≤◌, ◌≡◌, refl, sym, ap,
  ◌∙◌, false, Bool-cases, inl, inr, ◌⊎◌, length, length-append, ltb, append_assoc, append-nil,
  arith,
}
use agent_ops.ClaudeCli.Stream.{
  StreamResult, Envelope, StreamJson, Scan, Next, Event, assistant, user, result, other,
  event_named, on_line, on_envelope, on_event, on_result, unless_stopped, scan_lines, seen, at_end,
  parse_stream, start, keep_tail, tail_budget, if_empty,
}

-- the lines as they were written, but for the empty ones
abbrev pub written : List Str → Str
written [] = []
written ([] ∷ lines) = written lines
written ((c ∷ line) ∷ lines) = ((c ∷ line) ++ 10 ∷ []) ++ written lines

written-append : (xs ys : List Str) → written (xs ++ ys) ≡ written xs ++ written ys
written-append [] ys = refl
written-append ([] ∷ xs) ys = written-append xs ys
written-append ((c ∷ l) ∷ xs) ys =
    ap (λ t. ((c ∷ l) ++ 10 ∷ []) ++ t) (written-append xs ys)
    ∙ sym (append_assoc ((c ∷ l) ++ 10 ∷ []) (written xs) (written ys))

-- the end of what was written by these lines, within the budget or one line
pub record IsEnd (lines : List Str) (tail : Str) : Type 0 where
  pub before : Str
  pub whole : before ++ tail ≡ written lines
  pub bounded : (length tail ≤ tail_budget) ⊎ ((line : Str) × (tail ≡ line ++ 10 ∷ []))

keep_tail-IsEnd :
    (lines : List Str) (c : ℕ) (line tail : Str)
    → IsEnd lines tail
    → IsEnd (lines ++ (c ∷ line) ∷ []) (keep_tail (c ∷ line) tail)
unfolding keep_tail
keep_tail-IsEnd lines c line tail h =
    let e : written (lines ++ (c ∷ line) ∷ []) ≡ written lines ++ ((c ∷ line) ++ 10 ∷ []) =
      written-append lines ((c ∷ line) ∷ []) ∙ ap (λ t. written lines ++ t) (append-nil _) in
    elim (Bool-cases (ltb tail_budget (length tail + length (c ∷ line) + 1))) [
      | inl b ↦
          rw b (record { before = written lines; whole = sym e; bounded = inr (c ∷ line, refl) })
      | inr b ↦ rw b (record {
        before = h.before;
        whole =
            sym (append_assoc h.before tail ((c ∷ line) ++ 10 ∷ []))
            ∙ ap (λ t. t ++ ((c ∷ line) ++ 10 ∷ [])) h.whole
            ∙ sym e;
        bounded = inl (fits b);
      })
    ]
  where
    fits :
        ltb tail_budget (length tail + length (c ∷ line) + 1) ≡ false
        → length (tail ++ ((c ∷ line) ++ 10 ∷ [])) ≤ tail_budget
    fits b =
        ground
          (arith, length-append tail ((c ∷ line) ++ 10 ∷ []), length-append (c ∷ line) (10 ∷ []))

skip-IsEnd : (lines : List Str) (tail : Str) → IsEnd lines tail → IsEnd (lines ++ [] ∷ []) tail
skip-IsEnd lines tail h = record {
  before = h.before;
  whole = h.whole ∙ sym (written-append lines ([] ∷ []) ∙ append-nil (written lines));
  bounded = h.bounded;
}

-- the end of what some of the first lines wrote
pub record IsKept (lines : List Str) (tail : Str) : Type 0 where
  pub read : List Str
  pub rest : List Str
  pub parts : lines ≡ read ++ rest
  pub end : IsEnd read tail

later-IsKept :
    (lines more : List Str) (tail : Str) → IsKept lines tail → IsKept (lines ++ more) tail
later-IsKept lines more tail h = record {
  read = h.read;
  rest = h.rest ++ more;
  parts = ap (λ l. l ++ more) h.parts ∙ append_assoc h.read h.rest more;
  end = h.end;
}

now-IsKept : (lines : List Str) (tail : Str) → IsEnd lines tail → IsKept lines tail
now-IsKept lines tail h = record {
  read = lines;
  rest = [];
  parts = sym (append-nil lines);
  end = h;
}

record Tracks (lines : List Str) (s : Scan) : Type 0 where
  ends : IsEnd lines s.tail
  kept : IsKept lines s.out.raw_tail

on_result-Tracks :
    (lines : List Str) (r : Result Str StreamResult) (s : Scan)
    → Tracks lines s
    → Tracks lines (on_result r s).0
on_result-Tracks lines (err e) s h = h
on_result-Tracks lines (ok r) s h = record { ends = h.ends; kept = now-IsKept lines s.tail h.ends }

on_envelope-Tracks :
    (j : StreamJson) (lines : List Str) (line : Str) (e : Option Envelope) (s : Scan)
    → Tracks lines s
    → Tracks lines (on_envelope j line e s).0
on_envelope-Tracks j lines line none s h = h
on_envelope-Tracks j lines line (some e) s h = by_event (event_named e.type)
  where
    by_event : (v : Event) → Tracks lines (on_event j line e.message v s).0
    by_event assistant = record { ends = h.ends; kept = h.kept }
    by_event user = record { ends = h.ends; kept = h.kept }
    by_event result = on_result-Tracks lines (j.result line) s h
    by_event other = h

on_line-Tracks :
    (j : StreamJson) (lines : List Str) (line : Str) (s : Scan)
    → Tracks lines s
    → Tracks (lines ++ line ∷ []) (on_line j line s).0
unfolding on_line
on_line-Tracks j lines [] s h = record {
  ends = skip-IsEnd lines s.tail h.ends;
  kept = later-IsKept lines ([] ∷ []) _ h.kept;
}
on_line-Tracks j lines (c ∷ line) s h =
    on_envelope-Tracks j (lines ++ (c ∷ line) ∷ []) (c ∷ line) (j.envelope (c ∷ line))
      (seen (c ∷ line) s)
      (record {
        ends = keep_tail-IsEnd lines c line s.tail h.ends;
        kept = later-IsKept lines ((c ∷ line) ∷ []) _ h.kept;
      })

if_empty-IsKept :
    (lines : List Str) (raw tail : Str)
    → IsKept lines raw
    → IsKept lines tail
    → IsKept lines (if_empty raw tail)
if_empty-IsKept lines [] tail h k = k
if_empty-IsKept lines (c ∷ raw) tail h k = h

at_end-IsKept :
    (lines : List Str) (failed : Option Str) (s : Scan)
    → Tracks lines s
    → IsKept lines (at_end failed s).0.out.raw_tail
at_end-IsKept lines (some e) s h = now-IsKept lines s.tail h.ends
at_end-IsKept lines none s h =
    if_empty-IsKept lines s.out.raw_tail s.tail h.kept (now-IsKept lines s.tail h.ends)

scan_lines-IsKept :
    (j : StreamJson) (done lines : List Str) (failed : Option Str) (s : Scan)
    → Tracks done s
    → IsKept (done ++ lines) (scan_lines j lines failed s).0.out.raw_tail
unfolding scan_lines
scan_lines-IsKept j done [] failed s h = rw (append-nil done) (at_end-IsKept done failed s h)
scan_lines-IsKept j done (line ∷ lines) failed s h =
    rw (sym (append_assoc done (line ∷ []) lines)) (
      by_next (on_line j line s) (on_line-Tracks j done line s h)
        (λ t k. scan_lines-IsKept j (done ++ line ∷ []) lines failed t k))
  where
    by_next :
        (n : Next)
        → Tracks (done ++ line ∷ []) n.0
        → ((t : Scan)
            → Tracks (done ++ line ∷ []) t
            → IsKept ((done ++ line ∷ []) ++ lines) (scan_lines j lines failed t).0.out.raw_tail)
        → IsKept
            ((done ++ line ∷ []) ++ lines)
            (unless_stopped n (λ t. scan_lines j lines failed t)).0.out.raw_tail
    by_next (t, none) k ih = ih t k
    by_next (t, some e) k ih = later-IsKept (done ++ line ∷ []) lines _ k.kept

nothing-IsEnd : IsEnd [] []
nothing-IsEnd = record { before = []; whole = refl; bounded = inl (omega arith) }

-- The raw end that parseStream gives, on each of its ways out: it is an end of what some of the first
-- lines of the stream wrote, and it has at most 4096 bytes or is one line.
pub parse_stream-IsKept :
    (j : StreamJson) (lines : List Str) (failed : Option Str)
    → IsKept lines (parse_stream j lines failed).0.out.raw_tail
unfolding parse_stream
parse_stream-IsKept j lines failed =
    scan_lines-IsKept j [] lines failed start
      (record { ends = nothing-IsEnd; kept = now-IsKept [] [] nothing-IsEnd })
