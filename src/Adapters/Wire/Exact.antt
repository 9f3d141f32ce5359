-- ===== src/Adapters/Wire/Exact.antt =====
-- `decodeTxHex` of src/adapters/indexer-chain.ts reads exactly the wire layout: each of its readers
-- does, and so does their sequence.
use exfer_honor.Base.{
  ℕ, zero, suc, ◌≡◌, ◌≢◌, refl, sym, ap, ◌∙◌, subst, ◌↔◌, ◌⊎◌, inl, inr, Text, List, [], ◌∷◌, ◌++◌,
  arith, ◌==◌, if◌then◌else◌, length,
}
use mathlib.Core.List.{append-nil, append_assoc}
use exfer_honor.Spec.Errors.{Thrown, Result, ok, throw}
use exfer_honor.Ports.Effect.{pure, raise, ◌>>=◌}
use exfer_honor.Adapters.HexText.{Bytes, bare_error, to_hex}
use exfer_honor.Adapters.Wire.{
  Reader, DecodedTx, read, word, hex, skip_var_bytes, var_bytes_hex, flagged, read_input,
  read_output, repeat, decode_tx_bytes,
}
use exfer_honor.Adapters.Wire.Layout.{
  Field, ◌⨟◌, Raw, Word, Spelt, VarBytes, VarSpelt, Optional, Each, InputWire, OutputWire, TxWire,
}
use exfer_honor.Adapters.Wire.Reads.{
  Reads, read-Reads, word-Reads, hex-Reads, then-Reads, same-Reads, mapped-Reads, ok-inj,
}

done-Reads : {A : Type 0} (c : A) → Reads (λ b xs. (xs ≡ []) × (c ≡ b)) (pure c)
done-Reads c = (
  λ bytes rest b h. let (e, f) = ok-inj h in ([], (refl, e), f),
  λ bytes rest b (xs, (e, f), k). ground (arith, k ∙ ap (λ u. u ++ rest) e),
)

raw-Reads : (n : ℕ) → Reads {A = Unit} (λ _. Raw n) (read n >>= λ _. pure tt)
raw-Reads n =
    same-Reads (λ u xs (ys, (l, e), f). l) (λ u xs l. (xs, (l, refl), refl))
      (mapped-Reads _ (read n) (λ _. tt) (read-Reads n))

skip_var_bytes-Reads : Reads (λ _. VarBytes) skip_var_bytes
unfolding skip_var_bytes
skip_var_bytes-Reads =
    then-Reads (Word 2) (λ len _. Raw len) (word 2) _ (word-Reads 2) (λ len. raw-Reads len)

var_bytes_hex-Reads : Reads VarSpelt var_bytes_hex
unfolding var_bytes_hex
var_bytes_hex-Reads = then-Reads (Word 2) Spelt (word 2) hex (word-Reads 2) hex-Reads

-- What follows a flag byte.
abbrev AfterFlag : Field → ℕ → Field
AfterFlag P flag bytes = ((flag ≡ 1) × P bytes) ⊎ ((flag ≡ 0) × (bytes ≡ []))

flag_branch-Reads :
    (P : Field) (message : Text) (field : Reader Unit) (flag : ℕ)
    → Reads (λ _. P) field
    → Reads
        (λ _. AfterFlag P flag)
        (if flag == 1 then field else if flag == 0 then pure tt else raise (bare_error message))
flag_branch-Reads P message field zero reads =
    same-Reads (λ u xs (e, f). inr (refl, e))
      (λ u xs s. elim s [ inl (f, p) ↦ absurd (omega (arith, f)) | inr (f, e) ↦ (e, refl) ])
      (done-Reads tt)
flag_branch-Reads P message field (suc zero) reads =
    same-Reads (λ u xs p. inl (refl, p))
      (λ u xs s. elim s [ inl (f, p) ↦ p | inr (f, e) ↦ absurd (omega (arith, f)) ]) reads
flag_branch-Reads P message field (suc (suc n)) reads = (
  λ bytes rest a h. absurd (ground arith),
  λ bytes rest a (xs, s, k). elim s [
    | inl (f, p) ↦ absurd (omega (arith, f))
    | inr (f, e) ↦ absurd (omega (arith, f))
  ],
)

flagged-Reads :
    (P : Field) (message : Text) (field : Reader Unit)
    → Reads (λ _. P) field
    → Reads (λ _. Optional P) (flagged message field)
unfolding flagged
flagged-Reads P message field reads =
    same-Reads
      (λ u xs (flag, (ys, zs, w, s, k)). elim s [
        | inl (f, p) ↦ inr (ys, zs, subst (λ n. Word 1 n ys) f w, p, k)
        | inr (f, e) ↦ inl (
            subst (Word 1 0) (sym (k ∙ ap (λ us. ys ++ us) e ∙ append-nil ys))
              (subst (λ n. Word 1 n ys) f w))
      ])
      (λ u xs s. elim s [
        | inl w ↦ (0, (xs, [], w, inr (refl, refl), sym (append-nil xs)))
        | inr (ys, zs, w, p, k) ↦ (1, (ys, zs, w, inl (refl, p), k))
      ])
      (then-Reads (Word 1) (λ flag _. AfterFlag P flag) (word 1) _ (word-Reads 1)
        (λ flag. flag_branch-Reads P message field flag reads))

read_input-Reads : Reads InputWire read_input
unfolding read_input
read_input-Reads =
    same-Reads
      (λ o xs (t, (ys, zs, s, (i, w, e), k)). subst (λ o. InputWire o xs) e (ys, zs, s, w, k))
      (λ o xs (ys, zs, s, w, k). (o.tx_id, (ys, zs, s, (o.output_index, w, refl), k)))
      (then-Reads (Spelt 32) _ (hex 32) _ (hex-Reads 32)
        (λ t. mapped-Reads (Word 4) (word 4) _ (word-Reads 4)))

hash-Reads : Reads {A = Unit} (λ _. Raw 32) (hex 32 >>= λ _. pure tt)
hash-Reads =
    same-Reads (λ u xs (t, s, e). s.0) (λ u xs l. (to_hex xs, (l, refl), refl))
      (mapped-Reads (Spelt 32) (hex 32) (λ _. tt) (hex-Reads 32))

read_output-Reads : Reads OutputWire read_output
unfolding read_output
read_output-Reads =
    same-Reads
      (λ o xs (v, (a, b, w, (s, (c, d, t, (u, (f, g, x, (u', y, e), k)), l)), m)).
        subst (λ o. OutputWire o xs) e (a, b, w, (c, d, t, (f, g, x, y, k), l), m))
      (λ o xs (a, b, w, (c, d, t, (f, g, x, y, k), l), m).
        (o.value, (a, b, w, (o.script_hex, (c, d, t, (tt, (f, g, x, (tt, y, refl), k)), l)), m)))
      (then-Reads (Word 8) _ (word 8) _ (word-Reads 8) (λ v.
        then-Reads VarSpelt _ var_bytes_hex _ var_bytes_hex-Reads (λ s.
          then-Reads {A = Unit} (λ _. Optional VarBytes) _ _ _
            (flagged-Reads VarBytes _ _ skip_var_bytes-Reads)
            (λ _.
              mapped-Reads {A = Unit} (λ _. Optional (Raw 32)) _ _
                (flagged-Reads (Raw 32) _ _ hash-Reads)))))

each_none :
    {A : Type 0} (P : A → Field) (xs : List A) (bytes : Bytes)
    → (length xs ≡ 0) × Each P xs bytes
    → (bytes ≡ []) × ([] ≡ xs)
each_none P [] bytes (l, e) = (e, refl)
each_none P (x ∷ xs) bytes (l, e) = absurd (omega (arith, l))

each_some :
    {A : Type 0} (P : A → Field) (n : ℕ) (xs : List A) (bytes : Bytes)
    → (length xs ≡ suc n) × Each P xs bytes
    → (x : A) × (P x ⨟ (λ bs. (ys : List A) × ((length ys ≡ n) × Each P ys bs) × (x ∷ ys ≡ xs)))
        bytes
each_some P n [] bytes (l, e) = absurd (omega (arith, l))
each_some P n (x ∷ xs) bytes (l, (a, b, p, q, k)) =
    (x, (a, b, p, (xs, (omega (arith, l), q), refl), k))

repeat-Reads :
    {A : Type 0} (P : A → Field) (one : Reader A) (n : ℕ)
    → Reads P one
    → Reads (λ xs bytes. (length xs ≡ n) × Each P xs bytes) (repeat n one)
unfolding repeat
repeat-Reads P one zero reads =
    same-Reads (λ xs bs (e, f). subst (λ xs. (length xs ≡ 0) × Each P xs bs) f (refl, e))
      (each_none P) (done-Reads [])
repeat-Reads P one (suc n) reads =
    same-Reads
      (λ xs bs (x, (a, b, p, (ys, (l, q), e), k)).
        subst (λ xs. (length xs ≡ suc n) × Each P xs bs) e (ap suc l, (a, b, p, q, k)))
      (each_some P n)
      (then-Reads P _ one _ reads
        (λ x. mapped-Reads _ (repeat n one) _ (repeat-Reads P one n reads)))

decode_tx_bytes-Reads : Reads TxWire decode_tx_bytes
unfolding decode_tx_bytes
decode_tx_bytes-Reads =
    same-Reads
      (λ tx xs (n, (a, b, w, (m, (c, d, v, (ins, (f, g, (l, p), (outs, (k, q), e), x)), y)), z)).
        subst (λ tx. TxWire tx xs) e
          (
            a,
            b,
            subst (λ n. Word 2 n a) (sym l) w,
            (c, d, subst (λ n. Word 2 n c) (sym k) v, (f, g, p, q, x), y),
            z,
          ))
      (λ tx xs (a, b, w, (c, d, v, (f, g, p, q, x), y), z). (
        length tx.inputs,
        (
          a,
          b,
          w,
          (
            length tx.outputs,
            (c, d, v, (tx.inputs, (f, g, (refl, p), (tx.outputs, (refl, q), refl), x)), y),
          ),
          z,
        ),
      ))
      (then-Reads (Word 2) _ (word 2) _ (word-Reads 2) (λ n.
        then-Reads (Word 2) _ (word 2) _ (word-Reads 2) (λ m.
          then-Reads _ _ _ _ (repeat-Reads InputWire read_input n read_input-Reads)
            (λ ins. mapped-Reads _ _ _ (repeat-Reads OutputWire read_output m read_output-Reads)))))

-- The decoder succeeds exactly on the bytes that start with the wire layout of a transaction, with
-- that transaction, and leaves the bytes that follow it, which are the witnesses.
pub decode_tx_bytes-ok_iff :
    (bytes rest : Bytes) (tx : DecodedTx)
    → (decode_tx_bytes bytes ≡ (ok tx, rest)) ↔ (xs : Bytes) × TxWire tx xs × (bytes ≡ xs ++ rest)
decode_tx_bytes-ok_iff bytes rest tx =
    (decode_tx_bytes-Reads.0 bytes rest tx, decode_tx_bytes-Reads.1 bytes rest tx)

-- More bytes at the end change neither what is decoded nor that it is.
decode_tx_bytes-append :
    (bytes rest more : Bytes) (tx : DecodedTx)
    → decode_tx_bytes bytes ≡ (ok tx, rest)
    → decode_tx_bytes (bytes ++ more) ≡ (ok tx, rest ++ more)
decode_tx_bytes-append bytes rest more tx h =
    let (xs, w, k) = decode_tx_bytes-Reads.0 bytes rest tx h in
    decode_tx_bytes-Reads.1 (bytes ++ more) (rest ++ more) tx
      (xs, w, ap (λ us. us ++ more) k ∙ append_assoc xs rest more)

append-some : (xs : Bytes) (b : ℕ) (ys : Bytes) → xs ++ b ∷ ys ≢ []
append-some [] b ys h = cc
append-some (x ∷ xs) b ys h = cc

result-cases :
    {A : Type 0} (p : Result A × Bytes)
    → ((a : A) × (p ≡ (ok a, p.1))) ⊎ ((e : Thrown) × (p.0 ≡ throw e))
result-cases (ok a, rest) = inl (a, refl)
result-cases (throw e, rest) = inr (e, refl)

-- A transaction's bytes that are cut short anywhere do not decode: the decoder throws.
pub decode_tx_bytes-prefix-throw :
    (tx : DecodedTx) (xs : Bytes) (b : ℕ) (ys : Bytes)
    → TxWire tx (xs ++ b ∷ ys)
    → (e : Thrown) × ((decode_tx_bytes xs).0 ≡ throw e)
decode_tx_bytes-prefix-throw tx xs b ys w = elim (result-cases (decode_tx_bytes xs)) [
  | inr refused ↦ refused
  | inl (a, e) ↦
      let longer = decode_tx_bytes-append xs (decode_tx_bytes xs).1 (b ∷ ys) a e in
      let whole =
        decode_tx_bytes-Reads.1 (xs ++ b ∷ ys) [] tx (xs ++ b ∷ ys, w, sym (append-nil _)) in
      absurd (append-some (decode_tx_bytes xs).1 b ys (sym (ok-inj (sym whole ∙ longer)).1))
]
