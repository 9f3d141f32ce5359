-- ===== src/Adapters/Wire/Typed.antt =====
-- The types of what `decodeTxHex` of src/adapters/indexer-chain.ts returns, and its run on the text of a
-- transaction's bytes.
use exfer_honor.Base.{
  ℕ, ◌*◌, ◌^◌, ◌<◌, ◌≡◌, refl, sym, ap, ◌∙◌, subst, true, List, [], ◌∷◌, ◌++◌, arith, length, All,
}
use native.Mathlib.Nat.{pow-suc}
use exfer_honor.Spec.Types.{Hex, Outpoint}
use exfer_honor.Spec.Errors.{Result, ok, throw}
use exfer_honor.Spec.Datum.{is_bare_hex}
use exfer_honor.Adapters.HexText.{Bytes, to_hex, hex_to_bytes}
use exfer_honor.Adapters.Wire.{
  DecodedOutput, DecodedTx, little_endian, decoded, decode_tx_bytes, decode_tx_hex,
}
use exfer_honor.Adapters.Wire.Layout.{
  Field, ◌⨟◌, Word, Spelt, VarSpelt, Each, InputWire, OutputWire, TxWire,
}
use exfer_honor.Adapters.Wire.Exact.{decode_tx_bytes-ok_iff}
use exfer_honor.Adapters.HexText.RoundTrip.{
  IsByte, to_hex-bare, length-to_hex, hex_to_bytes-IsByte, hex_to_bytes-to_hex,
}

little_endian-lt : (xs : Bytes) → All IsByte xs → little_endian xs < 256 ^ length xs
little_endian-lt [] h = omega arith
little_endian-lt (b ∷ xs) (h, hs) = omega (arith, little_endian-lt xs hs, pow-suc 256 (length xs))

All-append-left : (xs ys : Bytes) → All IsByte (xs ++ ys) → All IsByte xs
All-append-left [] ys h = tt
All-append-left (x ∷ xs) ys (h, hs) = (h, All-append-left xs ys hs)

All-append-right : (xs ys : Bytes) → All IsByte (xs ++ ys) → All IsByte ys
All-append-right [] ys h = h
All-append-right (x ∷ xs) ys (h, hs) = All-append-right xs ys hs

-- A field of bytes that has a property of what it spells.
abbrev Gives : Field → Type 0 → Type 0
Gives P Q = (xs : Bytes) → All IsByte xs → P xs → Q

then-Gives : (P Q : Field) (R S : Type 0) → Gives P R → Gives Q S → Gives (P ⨟ Q) (R × S)
then-Gives P Q R S f g bytes h (xs, ys, p, q, k) =
    let bs = subst (All IsByte) k h in
    (f xs (All-append-left xs ys bs) p, g ys (All-append-right xs ys bs) q)

Word-Gives : (n v : ℕ) → Gives (Word n v) (v < 256 ^ n)
Word-Gives n v xs h (l, e) =
    subst (λ v. v < 256 ^ n) e (subst (λ n. little_endian xs < 256 ^ n) l (little_endian-lt xs h))

-- A text of `n` bytes in bare hexadecimal.
abbrev pub IsHexOf : ℕ → Hex → Type 0
IsHexOf n text = (is_bare_hex text ≡ true) × (length text ≡ 2 * n)

Spelt-Gives : (n : ℕ) (text : Hex) → Gives (Spelt n text) (IsHexOf n text)
Spelt-Gives n text xs h (l, e) = (
  subst (λ t. is_bare_hex t ≡ true) e (to_hex-bare xs h),
  ap length (sym e) ∙ length-to_hex xs ∙ ap (λ n. 2 * n) l,
)

VarSpelt-Gives : (text : Hex) → Gives (VarSpelt text) ((n : ℕ) × (n < 65536) × IsHexOf n text)
VarSpelt-Gives text xs h (n, s) =
    let (l, t) =
      then-Gives (Word 2 n) (Spelt n text) _ _ (Word-Gives 2 n) (Spelt-Gives n text) xs h s in
    (n, l, t)

abbrev pub InputTyped : Outpoint → Type 0
InputTyped input = IsHexOf 32 input.tx_id × (input.output_index < 2 ^ 32)

abbrev pub ScriptTyped : Hex → Type 0
ScriptTyped text = (n : ℕ) × (n < 65536) × IsHexOf n text

abbrev pub OutputTyped : DecodedOutput → Type 0
OutputTyped output = (output.value < 2 ^ 64) × ScriptTyped output.script_hex

Each-Gives :
    {A : Type 0} (P : A → Field) (Q : A → Type 0)
    → ((a : A) → Gives (P a) (Q a))
    → (xs : List A) → Gives (Each P xs) (All Q xs)
Each-Gives P Q f [] bytes h e = tt
Each-Gives P Q f (x ∷ xs) bytes h s =
    then-Gives (P x) (Each P xs) (Q x) (All Q xs) (f x) (Each-Gives P Q f xs) bytes h s

InputWire-Gives : (o : Outpoint) → Gives (InputWire o) (InputTyped o)
InputWire-Gives o =
    then-Gives (Spelt 32 o.tx_id) (Word 4 o.output_index) _ _ (Spelt-Gives 32 o.tx_id)
      (Word-Gives 4 o.output_index)

OutputWire-Gives : (o : DecodedOutput) → Gives (OutputWire o) (OutputTyped o)
OutputWire-Gives o bytes h s =
    let (v, rest) =
      then-Gives (Word 8 o.value) _ _ _ (Word-Gives 8 o.value)
        (then-Gives (VarSpelt o.script_hex) _ _ Unit (VarSpelt-Gives o.script_hex) (λ xs h p. tt))
        bytes h s in
    (v, rest.0)

abbrev pub TxTyped : DecodedTx → Type 0
TxTyped tx =
    (length tx.inputs < 65536)
    × (length tx.outputs < 65536)
    × All InputTyped tx.inputs
    × All OutputTyped tx.outputs

TxWire-Gives : (tx : DecodedTx) → Gives (TxWire tx) (TxTyped tx)
TxWire-Gives tx bytes h s =
    let (n, (m, (ins, outs))) =
      then-Gives (Word 2 (length tx.inputs)) _ _ _ (Word-Gives 2 (length tx.inputs))
        (then-Gives (Word 2 (length tx.outputs)) _ _ _ (Word-Gives 2 (length tx.outputs)) (
          then-Gives (Each InputWire tx.inputs) _ _ _
            (Each-Gives InputWire InputTyped InputWire-Gives tx.inputs)
            (Each-Gives OutputWire OutputTyped OutputWire-Gives tx.outputs)))
        bytes h s in
    (n, m, ins, outs)

decoded-ok :
    (r : Result Bytes) (tx : DecodedTx)
    → decoded r ≡ ok tx
    → (bytes : Bytes) × (r ≡ ok bytes)
      × (decode_tx_bytes bytes ≡ (ok tx, (decode_tx_bytes bytes).1))
decoded-ok (ok bytes) tx h = (bytes, refl, ap (λ r. (r, (decode_tx_bytes bytes).1)) h)
decoded-ok (throw e) tx h = absurd (ground arith)

-- What the decoder returns has the types that it is declared with: each transaction id is 32 bytes of
-- bare lowercase hexadecimal, each script is such a text of fewer than 2 ^ 16 bytes, an index is below
-- 2 ^ 32 and a value below 2 ^ 64, and fewer than 2 ^ 16 inputs and outputs are listed.
pub decode_tx_hex-TxTyped : (text : Hex) (tx : DecodedTx) → decode_tx_hex text ≡ ok tx → TxTyped tx
unfolding decode_tx_hex
decode_tx_hex-TxTyped text tx h =
    let (bytes, e, f) = decoded-ok (hex_to_bytes text) tx h in
    let (xs, w, k) = (decode_tx_bytes-ok_iff bytes _ tx).0 f in
    TxWire-Gives tx xs
      (All-append-left xs _ (subst (All IsByte) k (hex_to_bytes-IsByte text bytes e))) w

-- Decoding the text of a transaction's bytes, with any witnesses after them, gives the transaction
-- that the wire layout spells in them.
pub decode_tx_hex-to_hex :
    (tx : DecodedTx) (bytes witnesses : Bytes)
    → All IsByte (bytes ++ witnesses)
    → TxWire tx bytes
    → decode_tx_hex (to_hex (bytes ++ witnesses)) ≡ ok tx
unfolding decode_tx_hex
decode_tx_hex-to_hex tx bytes witnesses h w =
    ap decoded (hex_to_bytes-to_hex (bytes ++ witnesses) h)
    ∙ ap (λ p. p.0) ((decode_tx_bytes-ok_iff (bytes ++ witnesses) witnesses tx).1 (bytes, w, refl))
