-- ===== src/Shell/Lines.antt =====
-- What a line buffer holds after any input, and after a line is typed.
use esp32_rid.Shell.{line_feed}
use mathlib.Core.Path.{subst}
use esp32_rid.Prelude.{
  ℕ, zero, suc, ◌+◌, ◌≤◌, ◌<◌, ◌≡◌, refl, ap, ◌∙◌, false, ◌&&◌, ◌||◌, List, [], ◌∷◌, ◌++◌,
  append-nil, append_assoc, arith, ltb, leb, ◌==◌, if_cases, All, length, set, take, length-append,
  length-set, length-take, All-append,
}
use esp32_rid.Shell.{
  LineBuffer, LineResult, ready, newline, fresh, end_line, edit, push, push_all, take_line,
  max_line_size, carriage_return,
}

-- From the space to the tilde.
abbrev pub Printable : ℕ → Type 0
Printable c = (0x20 ≤ c) × (c ≤ 0x7e)

abbrev pub text : LineBuffer → List ℕ
text b = take b.size b.bytes

record Ok (b : LineBuffer) : Type 0 where
  full : length b.bytes ≡ max_line_size
  bounded : b.size ≤ max_line_size
  printable : All Printable (text b)

take-set :
    (n : ℕ) (xs : List ℕ) (c : ℕ)
    → n < length xs
    → take (suc n) (set xs n c) ≡ take n xs ++ (c ∷ [])
take-set n [] c h = absurd (omega arith)
take-set zero (x ∷ xs) c h = refl
take-set (suc n) (x ∷ xs) c h = ap (◌∷◌ x) (take-set n xs c (omega arith))

All-take-less :
    (P : ℕ → Type 0) (m n : ℕ) (xs : List ℕ) → m ≤ n → All P (take n xs) → All P (take m xs)
All-take-less P zero n xs h a = tt
All-take-less P (suc m) n [] h a = tt
All-take-less P (suc m) zero (x ∷ xs) h a = absurd (omega arith)
All-take-less P (suc m) (suc n) (x ∷ xs) h a = (a.0, All-take-less P m n xs (omega arith) a.1)

-- A buffer with the same bytes and no larger size.
shorter-Ok : (b b' : LineBuffer) → b'.bytes ≡ b.bytes → b'.size ≤ b.size → Ok b → Ok b'
shorter-Ok b b' e h v = record {
  full = ap length e ∙ v.full;
  bounded = omega (arith, v.bounded);
  printable = rw e (All-take-less Printable b'.size b.size b.bytes h v.printable);
}

longer-Ok :
    (b b' : LineBuffer) (c : ℕ)
    → b'.bytes ≡ set b.bytes b.size c
    → b'.size ≡ suc b.size
    → b.size < max_line_size
    → Printable c
    → Ok b
    → Ok b'
longer-Ok b b' c e s h p v = record {
  full = ap length e ∙ length-set b.bytes b.size c ∙ v.full;
  bounded = omega arith;
  printable =
      rw (e, s, take-set b.size b.bytes c (omega (arith, v.full)))
        (All-append Printable (text b) (c ∷ []) v.printable (p, tt));
}

abbrev OkAfter : LineResult × LineBuffer → Type 0
OkAfter r = Ok r.1

edit-Ok : (b : LineBuffer) (c : ℕ) → Ok b → Ok (edit b c).1
unfolding edit
edit-Ok b c v =
    let same =
      λ (b' : LineBuffer) (e : b'.bytes ≡ b.bytes) (h : b'.size ≤ b.size). shorter-Ok b b' e h v in
    if_cases OkAfter (c == 0x1b) (λ h. same _ refl (omega arith))
      (λ h.
        if_cases OkAfter (c == 0x15) (λ i. same _ refl (omega arith))
          (λ i.
            if_cases OkAfter (c == 0x08 || c == 0x7f)
              (λ j.
                if_cases OkAfter (b.overflow || b.size == 0) (λ k. v)
                  (λ k. same _ refl (omega arith)))
              (λ j.
                if_cases OkAfter (ltb c 0x20 || ltb 0x7e c || b.overflow) (λ k. v)
                  (λ k.
                    if_cases OkAfter (b.size == max_line_size) (λ l. same _ refl (omega arith))
                      (λ l.
                        longer-Ok b _ c refl (omega arith) (ground (arith, v.bounded))
                          (ground arith, ground arith) v)))))

end_line-Ok : (b : LineBuffer) (c : ℕ) → Ok b → Ok (end_line b c).1
unfolding end_line
end_line-Ok b c v =
    if_cases OkAfter b.overflow (λ h. shorter-Ok b _ refl (omega arith) v)
      (λ h. shorter-Ok b _ refl (omega arith) v)

push-Ok : (b : LineBuffer) (c : ℕ) → Ok b → Ok (push b c).1
unfolding push
push-Ok b c v =
    let b' = record b { last_was_cr = false } in
    let plain = shorter-Ok b b' refl (omega arith) v in
    if_cases OkAfter (c == line_feed && b.last_was_cr) (λ h. plain)
      (λ h.
        if_cases OkAfter (c == carriage_return || c == line_feed) (λ i. end_line-Ok b c v)
          (λ i.
            if_cases OkAfter (b.escape_state == 1) (λ j. shorter-Ok b _ refl (omega arith) v)
              (λ j.
                if_cases OkAfter (b.escape_state == 2)
                  (λ k.
                    if_cases Ok (leb 0x40 c && leb c 0x7e)
                      (λ l. shorter-Ok b _ refl (omega arith) v) (λ l. plain))
                  (λ k. edit-Ok b' c plain))))

fresh-Ok : Ok fresh
unfolding fresh
fresh-Ok = record { full = refl; bounded = omega arith; printable = tt }

push_all-Ok : (cs : List ℕ) (b : LineBuffer) → Ok b → Ok (push_all b cs)
unfolding push_all
push_all-Ok [] b v = v
push_all-Ok (c ∷ cs) b v = push_all-Ok cs (push b c).1 (push-Ok b c v)

-- After any input at all, the line that is taken has at most 255 characters, each of them printable
-- ASCII.
pub take_line-Printable :
    (cs : List ℕ)
    → let line = (take_line (push_all fresh cs)).0 in (length line ≤ 255) × All Printable line
unfolding take_line
take_line-Printable cs =
    let v = push_all-Ok cs fresh fresh-Ok in
    (
      omega (
        arith,
        v.bounded,
        v.full,
        length-take (push_all fresh cs).size (push_all fresh cs).bytes
            (omega (arith, v.bounded, v.full)),
      ),
      v.printable,
    )

-- A buffer in which a line has been typed so far.
record Typing (typed : List ℕ) (b : LineBuffer) : Type 0 where
  well : Ok b
  shown : text b ≡ typed
  counted : b.size ≡ length typed
  open_ended : b.overflow ≡ false
  outside : b.escape_state ≡ 0

push_accepts :
    (b : LineBuffer) (c : ℕ)
    → Printable c
    → b.size < max_line_size
    → b.overflow ≡ false
    → b.escape_state ≡ 0
    → (push b c).1
      ≡ record b { last_was_cr = false; bytes = set b.bytes b.size c; size = b.size + 1 }
unfolding push edit
push_accepts b c p h o e = ground arith

push-Typing :
    (typed : List ℕ) (b : LineBuffer) (c : ℕ)
    → Printable c
    → length typed < max_line_size
    → Typing typed b
    → Typing (typed ++ (c ∷ [])) (push b c).1
push-Typing typed b c p h v =
    let room : b.size < max_line_size = omega (arith, v.counted) in
    let e = push_accepts b c p room v.open_ended v.outside in
    let one : b.size + 1 ≡ suc b.size = omega arith in
    let grown : text (push b c).1 ≡ typed ++ (c ∷ []) =
      ap text e
      ∙ ap (λ n. take n (set b.bytes b.size c)) one
      ∙ take-set b.size b.bytes c (omega (arith, v.well.full))
      ∙ ap (λ xs. xs ++ (c ∷ [])) v.shown in
    record {
      well = push-Ok b c v.well;
      shown = grown;
      counted =
          ap (λ (x : LineBuffer). x.size) e
          ∙ omega (arith, v.counted, length-append typed (c ∷ []));
      open_ended = ap (λ (x : LineBuffer). x.overflow) e ∙ v.open_ended;
      outside = ap (λ (x : LineBuffer). x.escape_state) e ∙ v.outside;
    }

push_all-Typing :
    (cs typed : List ℕ) (b : LineBuffer)
    → All Printable cs
    → length typed + length cs ≤ max_line_size
    → Typing typed b
    → Typing (typed ++ cs) (push_all b cs)
unfolding push_all
push_all-Typing [] typed b p h v = rw (append-nil typed) v
push_all-Typing (c ∷ cs) typed b p h v =
    let rest =
      push_all-Typing cs (typed ++ (c ∷ [])) (push b c).1 p.1
        (omega (arith, length-append typed (c ∷ []))) (push-Typing typed b c p.0 (omega arith) v) in
    subst (λ xs. Typing xs (push_all (push b c).1 cs)) (append_assoc typed (c ∷ []) cs) rest

-- The end of a line that was typed.
push-return :
    (typed : List ℕ) (b : LineBuffer)
    → 0 < length typed
    → Typing typed b
    → let (result, b') = push b carriage_return in
      (result.event ≡ ready) × (result.echo ≡ newline) × ((take_line b').0 ≡ typed)
unfolding push end_line take_line
push-return typed b h v =
    let n : (b.size == 0) ≡ false = ground (arith, v.counted) in
    rw (push, v.open_ended, n) (refl, refl, v.shown)

fresh-Typing : Typing [] fresh
unfolding fresh
fresh-Typing = record {
  well = fresh-Ok;
  shown = refl;
  counted = refl;
  open_ended = refl;
  outside = refl;
}

-- A line of 1 to 255 printable ASCII characters, typed into a fresh buffer and ended by a carriage
-- return, is announced as ready and taken as it was typed.
pub line-typed :
    (line : List ℕ)
    → 0 < length line
    → length line ≤ 255
    → All Printable line
    → let (result, b) = push (push_all fresh line) carriage_return in
      (result.event ≡ ready) × (result.echo ≡ newline) × ((take_line b).0 ≡ line)
line-typed line h few p =
    push-return line (push_all fresh line) h
      (push_all-Typing line [] fresh p (omega arith) fresh-Typing)
