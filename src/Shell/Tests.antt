-- ===== src/Shell/Tests.antt =====
-- Lines typed into a buffer.
use esp32_rid.Prelude.{◌≤◌, ◌≡◌, refl, [], ◌∷◌, arith, All, length}
use esp32_rid.Shell.{
  fresh, push, push_all, take_line, end_line, edit, ready, newline, carriage_return,
}
use esp32_rid.Shell.Lines.{Printable, line-typed, take_line-Printable}

-- "hi", a backspace, "o", and an arrow key that is passed over.
edited : (take_line (push_all fresh (104 ∷ 105 ∷ 8 ∷ 111 ∷ 27 ∷ 91 ∷ 65 ∷ []))).0 ≡ 104 ∷ 111 ∷ []
unfolding take_line push_all push end_line edit fresh
edited = refl

line-typed_example :
    let (result, b) = push (push_all fresh (104 ∷ 105 ∷ [])) carriage_return in
    (result.event ≡ ready) × (result.echo ≡ newline) × ((take_line b).0 ≡ 104 ∷ 105 ∷ [])
line-typed_example =
    line-typed (104 ∷ 105 ∷ []) (omega arith) (omega arith)
      ((omega arith, omega arith), ((omega arith, omega arith), tt))

take_line-Printable_example :
    let line = (take_line (push_all fresh (104 ∷ 200 ∷ 13 ∷ []))).0 in
    (length line ≤ 255) × All Printable line
take_line-Printable_example = take_line-Printable (104 ∷ 200 ∷ 13 ∷ [])
