-- ===== src/Adapters/Wire.antt =====
-- The decoder of a transaction's bytes in src/adapters/indexer-chain.ts. The state of `ByteReader` is
-- the list of the bytes from its `pos` on; the offsets in its messages are left out.
pub mod Layout
pub mod Reads
pub mod Exact
pub mod Typed
use exfer_honor.Base.{
  ℕ, zero, suc, ◌+◌, ◌*◌, Text, codes, List, [], ◌∷◌, leb, ◌==◌, if◌then◌else◌, length, take, drop,
}
use exfer_honor.Spec.Types.{Hex, Outpoint}
use exfer_honor.Spec.Errors.{Result, ok, throw}
use exfer_honor.Ports.Effect.{Eff, pure, raise, ◌>>=◌, ◌>>◌}
use exfer_honor.Adapters.HexText.{Bytes, bare_error, to_hex, hex_to_bytes}

pub record DecodedOutput : Type 0 where
  pub value : ℕ
  pub script_hex : Hex

-- An input is the outpoint that it spends.
pub record DecodedTx : Type 0 where
  pub inputs : List Outpoint
  pub outputs : List DecodedOutput

abbrev pub Reader : Type 0 → Type 0
Reader A = Eff Bytes A

-- Little-endian: the least significant byte comes first.
abbrev pub little_endian : Bytes → ℕ
little_endian [] = 0
little_endian (b ∷ bs) = b + little_endian bs * 256

abbrev need : ℕ → Reader Unit
need n bytes =
    if leb n (length bytes)
    then (ok tt, bytes)
    else (throw (bare_error (codes "tx_hex truncated")), bytes)

-- The next `n` bytes, and `pos += n`.
unfoldable pub read : ℕ → Reader Bytes
read n = need n >> λ bytes. (ok (take n bytes), drop n bytes)

unfoldable pub word : ℕ → Reader ℕ
unfolding read
word n = do bytes ← read n; pure (little_endian bytes)

abbrev pub u8 : Reader ℕ
u8 = word 1

abbrev pub u16le : Reader ℕ
u16le = word 2

abbrev pub u32le : Reader ℕ
u32le = word 4

abbrev pub u64le : Reader ℕ
u64le = word 8

unfoldable pub hex : ℕ → Reader Hex
unfolding read
hex n = do bytes ← read n; pure (to_hex bytes)

unfoldable pub skip_var_bytes : Reader Unit
unfolding word read
skip_var_bytes = do len ← u16le; bytes ← read len; pure tt

unfoldable pub var_bytes_hex : Reader Hex
unfolding word hex
var_bytes_hex = do len ← u16le; hex len

-- A flag byte and, under the flag 1, a field that is passed over.
unfoldable pub flagged : Text → Reader Unit → Reader Unit
unfolding word
flagged message field = do
  flag ← u8
  if flag == 1 then field else if flag == 0 then pure tt else raise (bare_error message)

unfoldable pub read_input : Reader Outpoint
unfolding hex word
read_input = do
  prev_tx_id ← hex 32
  prev_output_index ← u32le
  pure record { tx_id = prev_tx_id; output_index = prev_output_index }

unfoldable pub read_output : Reader DecodedOutput
unfolding word var_bytes_hex flagged skip_var_bytes hex
read_output = do
  value ← u64le
  script ← var_bytes_hex
  flagged (codes "non-canonical has_datum flag") skip_var_bytes
  flagged (codes "non-canonical has_datum_hash flag") (do hash ← hex 32; pure tt)
  pure record { value = value; script_hex = script }

-- The loops over the inputs and over the outputs.
unfoldable pub repeat : {A : Type 0} → ℕ → Reader A → Reader (List A)
repeat zero one = pure []
repeat (suc n) one = do x ← one; xs ← repeat n one; pure (x ∷ xs)

unfoldable pub decode_tx_bytes : Reader DecodedTx
unfolding word repeat read_input read_output
decode_tx_bytes = do
  input_count ← u16le
  output_count ← u16le
  ins ← repeat input_count read_input
  outs ← repeat output_count read_output
  pure record { inputs = ins; outputs = outs }

-- The witnesses that follow the outputs are not read.
abbrev pub decoded : Result Bytes → Result DecodedTx
decoded (ok bytes) = (decode_tx_bytes bytes).0
decoded (throw e) = throw e

unfoldable pub decode_tx_hex : Hex → Result DecodedTx
unfolding hex_to_bytes decode_tx_bytes
decode_tx_hex tx_hex = decoded (hex_to_bytes tx_hex)
