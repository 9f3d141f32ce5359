-- ===== src/Adapters/Wire/Reads.antt =====
-- A reader of src/adapters/indexer-chain.ts reads a field of the wire layout: it succeeds exactly on
-- the bytes that start with the field, and leaves what comes after it.
use exfer_honor.Base.{
  ℕ, zero, suc, ◌≡◌, refl, sym, ap, ◌∙◌, subst, [], ◌∷◌, ◌++◌, arith, length, take, drop, ◌≤◌,
  length-append,
}
use mathlib.Core.List.{append_assoc}
use exfer_honor.Spec.Errors.{Result, ok}
use exfer_honor.Ports.Effect.{pure, ◌>>=◌, >>=-ok, >>=-eq-ok}
use exfer_honor.Adapters.HexText.{Bytes, to_hex}
use exfer_honor.Adapters.Wire.{Reader, little_endian, read, word, hex}
use exfer_honor.Adapters.Wire.Layout.{Field, ◌⨟◌, Word, Spelt, Starts}

-- The reader succeeds with `a` only on bytes that start with the field of `a`.
abbrev pub Sound : {A : Type 0} → (A → Field) → Reader A → Type 0
Sound P m = (bytes rest : Bytes) (a : _) → m bytes ≡ (ok a, rest) → Starts (P a) bytes rest

-- The reader succeeds with `a` on all bytes that start with the field of `a`.
abbrev pub Complete : {A : Type 0} → (A → Field) → Reader A → Type 0
Complete P m = (bytes rest : Bytes) (a : _) → Starts (P a) bytes rest → m bytes ≡ (ok a, rest)

abbrev pub Reads : {A : Type 0} → (A → Field) → Reader A → Type 0
Reads P m = Sound P m × Complete P m

-- Fields one after the other.
pub Starts-join :
    (P Q : Field) (bytes mid rest : Bytes)
    → Starts P bytes mid
    → Starts Q mid rest
    → Starts (P ⨟ Q) bytes rest
Starts-join P Q bytes mid rest (xs, p, e) (ys, q, f) =
    (xs ++ ys, (xs, ys, p, q, refl), e ∙ ap (λ zs. xs ++ zs) f ∙ sym (append_assoc xs ys rest))

pub Starts-split :
    (P Q : Field) (bytes rest : Bytes)
    → Starts (P ⨟ Q) bytes rest
    → (mid : Bytes) × Starts P bytes mid × Starts Q mid rest
Starts-split P Q bytes rest (zs, (xs, ys, p, q, f), e) =
    (ys ++ rest, (xs, p, e ∙ ap (λ us. us ++ rest) f ∙ append_assoc xs ys rest), (ys, q, refl))

take-append : (xs rest : Bytes) → take (length xs) (xs ++ rest) ≡ xs
take-append [] [] = refl
take-append [] (y ∷ ys) = refl
take-append (x ∷ xs) rest = ap (λ us. x ∷ us) (take-append xs rest)

drop-append : (xs rest : Bytes) → drop (length xs) (xs ++ rest) ≡ rest
drop-append [] rest = refl
drop-append (x ∷ xs) rest = drop-append xs rest

take-drop : (n : ℕ) (xs : Bytes) → take n xs ++ drop n xs ≡ xs
take-drop zero xs = refl
take-drop (suc n) [] = refl
take-drop (suc n) (x ∷ xs) = ap (λ us. x ∷ us) (take-drop n xs)

pub ok-inj :
    {A : Type 0} {a b : A} {r s : Bytes}
    → ◌≡◌ {A = Result A × Bytes} (ok a, r) (ok b, s)
    → (a ≡ b) × (r ≡ s)
ok-inj h = (ground arith, ground arith)

read-append : (xs rest : Bytes) → read (length xs) (xs ++ rest) ≡ (ok xs, rest)
unfolding read
read-append xs rest =
    ground (arith, length-append xs rest, take-append xs rest, drop-append xs rest)

length-take : (n : ℕ) (xs : Bytes) → n ≤ length xs → length (take n xs) ≡ n
length-take zero xs h = refl
length-take (suc n) [] h = absurd (omega arith)
length-take (suc n) (x ∷ xs) h = ap suc (length-take n xs (omega arith))

read-ok :
    (n : ℕ) (bytes rest xs : Bytes)
    → read n bytes ≡ (ok xs, rest)
    → (n ≤ length bytes) × (xs ≡ take n bytes) × (rest ≡ drop n bytes)
unfolding read
read-ok n bytes rest xs h = (ground arith, ground arith, ground arith)

pub read-Reads : (n : ℕ) → Reads (λ a xs. (length xs ≡ n) × (xs ≡ a)) (read n)
read-Reads n = (
  λ bytes rest a h.
      let (l, e, f) = read-ok n bytes rest a h in
      (
        a,
        (ap length e ∙ length-take n bytes l, refl),
        sym (ap (λ u. u ++ rest) e ∙ ap (λ u. take n bytes ++ u) f ∙ take-drop n bytes),
      ),
  λ bytes rest a (xs, (l, e), k).
      subst (λ n. read n bytes ≡ (ok a, rest)) l
        (subst (λ a. read (length xs) bytes ≡ (ok a, rest)) e
          (subst (λ bs. read (length xs) bs ≡ (ok xs, rest)) (sym k) (read-append xs rest))),
)

pub mapped-Reads :
    {A B : Type 0} (P : A → Field) (m : Reader A) (g : A → B)
    → Reads P m
    → Reads (λ b xs. (a : A) × P a xs × (g a ≡ b)) (m >>= λ a. pure (g a))
mapped-Reads P m g (sound, complete) = (
  λ bytes rest b h.
      let (a, mid, e, f) = >>=-eq-ok m (λ a. pure (g a)) bytes h in
      let (xs, p, k) = sound bytes mid a e in
      let (i, j) = ok-inj f in (xs, (a, p, i), k ∙ ap (λ r. xs ++ r) j),
  λ bytes rest b (xs, (a, p, e), k).
      >>=-ok m (λ a. pure (g a)) bytes (complete bytes rest a (xs, p, k))
      ∙ ap (λ b. (ok b, rest)) e,
)

-- A reader of one of two equivalent fields reads the other.
pub same-Reads :
    {A : Type 0} {P Q : A → Field} {m : Reader A}
    → ((a : A) (xs : Bytes) → P a xs → Q a xs)
    → ((a : A) (xs : Bytes) → Q a xs → P a xs)
    → Reads P m
    → Reads Q m
same-Reads into from (sound, complete) = (
  λ bytes rest a h. let (xs, p, k) = sound bytes rest a h in (xs, into a xs p, k),
  λ bytes rest a (xs, q, k). complete bytes rest a (xs, from a xs q, k),
)

pub word-Reads : (n : ℕ) → Reads (Word n) (word n)
unfolding word
word-Reads n =
    same-Reads (λ v xs (ys, (l, e), f). (l, ap little_endian e ∙ f))
      (λ v xs (l, e). (xs, (l, refl), e)) (mapped-Reads _ (read n) little_endian (read-Reads n))

pub hex-Reads : (n : ℕ) → Reads (Spelt n) (hex n)
unfolding hex
hex-Reads n =
    same-Reads (λ v xs (ys, (l, e), f). (l, ap to_hex e ∙ f)) (λ v xs (l, e). (xs, (l, refl), e))
      (mapped-Reads _ (read n) to_hex (read-Reads n))

-- One reader, and then a second one that the first one's value chooses.
pub then-Reads :
    {A B : Type 0} (P : A → Field) (Q : A → B → Field) (m : Reader A) (f : A → Reader B)
    → Reads P m
    → ((a : A) → Reads (Q a) (f a))
    → Reads (λ b xs. (a : A) × (P a ⨟ Q a b) xs) (m >>= f)
then-Reads P Q m f (sound, complete) reads = (
  λ bytes rest b h.
      let (a, mid, e, g) = >>=-eq-ok m f bytes h in
      let (xs, s, k) =
        Starts-join (P a) (Q a b) bytes mid rest (sound bytes mid a e) ((reads a).0 mid rest b g) in
      (xs, (a, s), k),
  λ bytes rest b (xs, (a, s), k).
      let (mid, p, q) = Starts-split (P a) (Q a b) bytes rest (xs, s, k) in
      >>=-ok m f bytes (complete bytes mid a p) ∙ (reads a).1 mid rest b q,
)
