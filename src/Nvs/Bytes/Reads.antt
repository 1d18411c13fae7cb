-- ===== src/Nvs/Bytes/Reads.antt =====
-- A reader that gives back a value from the bytes written for it, and leaves what follows them.
use mathlib.Core.Path.{subst}
use esp32_rid.Prelude.{
  ℕ, zero, suc, ◌+◌, ◌*◌, ◌/◌, ◌%◌, ◌<◌, ◌≡◌, refl, ◌∙◌, Bool, true, false, some, List, [], ◌∷◌,
  ◌++◌, append-nil, append_assoc, arith, All, length,
}
use esp32_rid.Nvs.Bytes.{
  Reader, ◌>>=◌, done, check, write_scalar, read_scalar, read_string, read_many, write_many,
}

pub record Reads {A : Type 0} (m : Reader A) (written : List ℕ) (a : A) : Type 0 where
  pub run : (rest : List ℕ) → m (written ++ rest) ≡ some (a, rest)

pub Reads-done : {A : Type 0} (a b : A) → a ≡ b → Reads (done a) [] b
Reads-done a b e = record { run = λ rest. unfold done in rw e }

bind-run :
    {A B : Type 0} (m : Reader A) (f : A → Reader B) (xs ys rest : List ℕ) (a : A) (b : B)
    → m (xs ++ (ys ++ rest)) ≡ some (a, ys ++ rest)
    → f a (ys ++ rest) ≡ some (b, rest)
    → (m >>= f) ((xs ++ ys) ++ rest) ≡ some (b, rest)
unfolding ◌>>=◌
bind-run m f xs ys rest a b p q = rw (append_assoc xs ys rest, ◌>>=◌, p, q)

pub Reads-bind :
    {A B : Type 0} {m : Reader A} (f : A → Reader B) {xs ys : List ℕ} {a : A} {b : B}
    → Reads m xs a
    → Reads (f a) ys b
    → Reads (m >>= f) (xs ++ ys) b
Reads-bind {m = m} f {xs} {ys} {a} {b} p q = record {
  run = λ rest. bind-run m f xs ys rest a b (p.run (ys ++ rest)) (q.run rest);
}

-- A last reader, with nothing behind it but what is made of its value.
pub Reads-last :
    {A B : Type 0} {m : Reader A} (f : A → Reader B) {xs : List ℕ} {a : A} {b : B}
    → Reads m xs a
    → Reads (f a) [] b
    → Reads (m >>= f) xs b
Reads-last {m = m} f {xs} {a} {b} p q =
    subst (λ ys. Reads (m >>= f) ys b) (append-nil xs) (Reads-bind f p q)

checked-run :
    {B : Type 0} (c : Bool) (f : Unit {0} → Reader B) (xs : List ℕ)
    → c ≡ true
    → (check c >>= f) xs ≡ f tt xs
unfolding ◌>>=◌ check
checked-run true f xs e = refl
checked-run false f xs e = cc

-- A check that holds reads nothing.
pub Reads-checked :
    {B : Type 0} {c : Bool} (f : Unit {0} → Reader B) {ys : List ℕ} {b : B}
    → c ≡ true
    → Reads (f tt) ys b
    → Reads (check c >>= f) ys b
Reads-checked {c = c} f {ys} {b} e q = record {
  run = λ rest. checked-run c f (ys ++ rest) e ∙ q.run rest;
}

-- What `width` bytes can hold.
abbrev pub bound : ℕ → ℕ
bound zero = 1
bound (suc width) = 256 * bound width

read_scalar-write_scalar :
    (width v : ℕ) (rest : List ℕ)
    → v < bound width
    → read_scalar width (write_scalar width v ++ rest) ≡ some (v, rest)
unfolding read_scalar write_scalar
read_scalar-write_scalar zero v rest h = let e : v ≡ 0 = omega arith in rw e
read_scalar-write_scalar (suc width) v rest h =
    let e : v % 256 + 256 * (v / 256) ≡ v = omega arith in
    rw (read_scalar-write_scalar width (v / 256) rest (omega arith), e)

pub Reads-scalar :
    (width v : ℕ) → v < bound width → Reads (read_scalar width) (write_scalar width v) v
Reads-scalar width v h = record { run = λ rest. read_scalar-write_scalar width v rest h }

read_string-append :
    (text rest : List ℕ) → read_string (length text) (text ++ rest) ≡ some (text, rest)
unfolding read_string
read_string-append [] rest = refl
read_string-append (c ∷ text) rest = rw (read_string-append text rest)

pub Reads-string : (text : List ℕ) → Reads (read_string (length text)) text text
Reads-string text = record { run = read_string-append text }

read_many-write_many :
    {A : Type 0} (item : Reader A) (write : A → List ℕ) (as_ : List A) (rest : List ℕ)
    → All (λ a. Reads item (write a) a) as_
    → read_many (length as_) item (write_many write as_ ++ rest) ≡ some (as_, rest)
unfolding read_many write_many
read_many-write_many item write [] rest h = refl
read_many-write_many item write (a ∷ as_) rest h =
    rw (append_assoc (write a) (write_many write as_) rest)
      (rw (h.0.run (write_many write as_ ++ rest), read_many-write_many item write as_ rest h.1))

pub Reads-many :
    {A : Type 0} (item : Reader A) (write : A → List ℕ) (as_ : List A)
    → All (λ a. Reads item (write a) a) as_
    → Reads (read_many (length as_) item) (write_many write as_) as_
Reads-many item write as_ h = record { run = λ rest. read_many-write_many item write as_ rest h }
