-- ===== src/Bootstrap/TailBuffer.antt =====
-- internal/bootstrap/bootstrap.go: tailBuffer, the end of a script's output.
use agent_ops.Prelude.{
  lit, ℕ, zero, suc, ◌+◌, ◌-◌, ◌*◌, ◌≤◌, ◌<◌, ◌==◌, Str, List, [], ◌∷◌, ◌++◌, ◌≡◌, refl, sym, ap,
  ◌∙◌, length, drop, length-append, length-drop, append_assoc, append-nil, ltb, if◌then◌else◌,
  Bool-cases, ◌⊎◌, inl, inr, arith,
}

pub record TailBuffer : Type 0 where
  pub buf : Str
  pub cap : ℕ

abbrev pub empty_tail : TailBuffer
empty_tail = record { buf = []; cap = 0 }

-- s[len(s)-cap:]
abbrev pub last_bytes : ℕ → Str → Str
last_bytes n s = drop (length s - n) s

abbrev pub or_default_cap : ℕ → ℕ
or_default_cap cap = if cap == 0 then 32 * 1024 else cap

abbrev pub snipped : ℕ → Str → Str
snipped cap s = if ltb (2 * cap) (length s) then last_bytes cap s else s

unfoldable pub write_tail : Str → TailBuffer → TailBuffer
write_tail s t =
    let cap = or_default_cap t.cap in record { buf = snipped cap (t.buf ++ s); cap = cap }

unfoldable pub tail_string : TailBuffer → Str
tail_string t = if ltb t.cap (length t.buf) then last_bytes t.cap t.buf else t.buf

abbrev pub line : Str → Str
line s = s ++ lit "\n"

unfoldable pub write_lines : List Str → TailBuffer → TailBuffer
write_lines [] t = t
write_lines (s ∷ ss) t = write_lines ss (write_tail (line s) t)

abbrev pub joined : List Str → Str
joined [] = []
joined (s ∷ ss) = line s ++ joined ss

drop-append-long : (n : ℕ) (xs ys : Str) → n ≤ length xs → drop n (xs ++ ys) ≡ drop n xs ++ ys
drop-append-long zero xs ys h = refl
drop-append-long (suc n) [] ys h = absurd (omega arith)
drop-append-long (suc n) (x ∷ xs) ys h = drop-append-long n xs ys (omega arith)

drop-drop : (m n : ℕ) (xs : Str) → drop m (drop n xs) ≡ drop (n + m) xs
drop-drop m zero xs = let e : 0 + m ≡ m = omega arith in rw e refl
drop-drop zero (suc n) [] = let e : suc n + 0 ≡ suc n = omega arith in rw e refl
drop-drop (suc m) (suc n) [] = let e : suc n + suc m ≡ suc (n + suc m) = omega arith in rw e refl
drop-drop m (suc n) (x ∷ xs) =
    let e : suc n + m ≡ suc (n + m) = omega arith in rw e (drop-drop m n xs)

-- the buffer has the last bytes of what was written, and as many of them as the cap if there are so many
pub record HoldsEnd (all : Str) (cap : ℕ) (buf : Str) : Type 0 where
  pub cut : ℕ
  pub rest : buf ≡ drop cut all
  pub enough : (cut ≡ 0) ⊎ (cut + cap ≤ length all)

HoldsEnd-append :
    (all s buf : Str) (cap : ℕ) → HoldsEnd all cap buf → HoldsEnd (all ++ s) cap (buf ++ s)
HoldsEnd-append all s buf cap h = record {
  cut = h.cut;
  rest = ap (λ t. t ++ s) h.rest ∙ sym (drop-append-long h.cut all s (omega (arith, h.enough)));
  enough = elim h.enough [ inl z ↦ inl z | inr m ↦ inr (omega (arith, length-append all s)) ];
}

last_bytes-HoldsEnd :
    (all buf : Str) (cap : ℕ)
    → HoldsEnd all cap buf
    → cap ≤ length buf
    → last_bytes cap buf ≡ last_bytes cap all
last_bytes-HoldsEnd all buf cap h m =
    let l : length buf ≡ length all - h.cut = ap length h.rest ∙ length-drop h.cut all in
    let e : h.cut + (length all - h.cut - cap) ≡ length all - cap = omega (arith, l) in
    rw (l, h.rest) (drop-drop (length all - h.cut - cap) h.cut all ∙ rw e refl)

snipped-HoldsEnd :
    (all buf : Str) (cap : ℕ) → HoldsEnd all cap buf → HoldsEnd all cap (snipped cap buf)
snipped-HoldsEnd all buf cap h = elim (Bool-cases (ltb (2 * cap) (length buf))) [
  | inr n ↦ rw n h
  | inl m ↦
      let l : length buf ≡ length all - h.cut = ap length h.rest ∙ length-drop h.cut all in
      let b : 2 * cap < length buf = ground arith in
      rw m (record {
        cut = length all - cap;
        rest = last_bytes-HoldsEnd all buf cap h (omega arith);
        enough = inr (omega arith);
      })
]

tail_string-HoldsEnd :
    (all : Str) (t : TailBuffer) → HoldsEnd all t.cap t.buf → tail_string t ≡ last_bytes t.cap all
unfolding tail_string
tail_string-HoldsEnd all t h = elim (Bool-cases (ltb t.cap (length t.buf))) [
  | inl m ↦ rw m (last_bytes-HoldsEnd all t.buf t.cap h (ground arith))
  | inr n ↦
      let l : length t.buf ≡ length all - h.cut = ap length h.rest ∙ length-drop h.cut all in
      let b : length t.buf ≤ t.cap = ground arith in
      let e : h.cut ≡ length all - t.cap = omega (arith, h.enough) in
      rw n (h.rest ∙ ap (λ k. drop k all) e)
]

abbrev pub tail_cap : ℕ
tail_cap = 32 * 1024

write_lines-HoldsEnd :
    (all : Str) (ss : List Str) (buf : Str)
    → HoldsEnd all tail_cap buf
    → HoldsEnd
        (all ++ joined ss)
        tail_cap
        (write_lines ss (record { buf = buf; cap = tail_cap })).buf
      × ((write_lines ss (record { buf = buf; cap = tail_cap })).cap ≡ tail_cap)
unfolding write_lines write_tail
write_lines-HoldsEnd all [] buf h = (rw (append-nil all) h, refl)
write_lines-HoldsEnd all (s ∷ ss) buf h = rw (sym (append_assoc all (line s) (joined ss))) (
    write_lines-HoldsEnd (all ++ line s) ss (snipped tail_cap (buf ++ line s)) (
      snipped-HoldsEnd (all ++ line s) (buf ++ line s) tail_cap
        (HoldsEnd-append all (line s) buf tail_cap h)))

-- However many lines the output has, at least one: the buffer gives its last 32 KiB, each line with its
-- newline, or all of it if it is shorter, though it snips itself only when it has grown to twice as much.
pub tail_string-write_lines :
    (s : Str) (ss : List Str)
    → tail_string (write_lines (s ∷ ss) empty_tail) ≡ last_bytes tail_cap (joined (s ∷ ss))
unfolding write_lines write_tail
tail_string-write_lines s ss =
    let l = line s in
    let whole : HoldsEnd l tail_cap l = record { cut = 0; rest = refl; enough = inl refl } in
    let h = write_lines-HoldsEnd l ss (snipped tail_cap l) (snipped-HoldsEnd l l tail_cap whole) in
    tail_string-HoldsEnd (l ++ joined ss) _ (rw h.1 h.0)
    ∙ ap (λ c. last_bytes c (l ++ joined ss)) h.1
