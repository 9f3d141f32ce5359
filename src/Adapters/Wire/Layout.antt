-- ===== src/Adapters/Wire/Layout.antt =====
-- The wire layout of a transaction, as src/adapters/indexer-chain.ts gives it above its decoder: which
-- bytes spell which fields, apart from how they are read.
use exfer_honor.Base.{ℕ, ◌≡◌, ◌⊎◌, List, [], ◌∷◌, ◌++◌, length}
use exfer_honor.Spec.Types.{Hex, Outpoint}
use exfer_honor.Adapters.HexText.{Bytes, to_hex}
use exfer_honor.Adapters.Wire.{DecodedOutput, DecodedTx, little_endian}

abbrev pub Field : Type 1
Field = Bytes → Type 0

-- One field, and the next one after it.
infixr 20 ◌⨟◌
abbrev pub ◌⨟◌ : Field → Field → Field
(P ⨟ Q) bytes = (xs : Bytes) × (ys : Bytes) × P xs × Q ys × (bytes ≡ xs ++ ys)

abbrev pub Raw : ℕ → Field
Raw n bytes = length bytes ≡ n

-- An unsigned little-endian number of `n` bytes.
abbrev pub Word : ℕ → ℕ → Field
Word n value bytes = (length bytes ≡ n) × (little_endian bytes ≡ value)

-- `n` bytes that a text spells.
abbrev pub Spelt : ℕ → Hex → Field
Spelt n text bytes = (length bytes ≡ n) × (to_hex bytes ≡ text)

-- A length of 2 bytes, and that many bytes.
abbrev pub VarBytes : Field
VarBytes bytes = (len : ℕ) × (Word 2 len ⨟ Raw len) bytes

abbrev pub VarSpelt : Hex → Field
VarSpelt text bytes = (len : ℕ) × (Word 2 len ⨟ Spelt len text) bytes

-- An optional field: the flag 0 alone, or the flag 1 and the field.
abbrev pub Optional : Field → Field
Optional P bytes = Word 1 0 bytes ⊎ (Word 1 1 ⨟ P) bytes

abbrev pub Each : {A : Type 0} → (A → Field) → List A → Field
Each P [] bytes = bytes ≡ []
Each P (x ∷ xs) bytes = (P x ⨟ Each P xs) bytes

abbrev pub InputWire : Outpoint → Field
InputWire input = Spelt 32 input.tx_id ⨟ Word 4 input.output_index

abbrev pub OutputWire : DecodedOutput → Field
OutputWire output =
    Word 8 output.value ⨟ VarSpelt output.script_hex ⨟ Optional VarBytes ⨟ Optional (Raw 32)

abbrev pub TxWire : DecodedTx → Field
TxWire tx =
    Word 2 (length tx.inputs)
    ⨟ Word 2 (length tx.outputs)
    ⨟ Each InputWire tx.inputs
    ⨟ Each OutputWire tx.outputs

-- The bytes start with the field, and then come the others.
abbrev pub Starts : Field → Bytes → Bytes → Type 0
Starts P bytes rest = (xs : Bytes) × P xs × (bytes ≡ xs ++ rest)
