-- ===== src/Forms/Address.antt =====
-- The address binding of src/forms/address.ts, with its reference derivation: 32-bit words are
-- numbers below 2 ^ 32, and `Math.imul` keeps the low 32 bits of a product.
use Prim.Native.Nat.{bit_or, bit_xor}
use exfer_honor.Base.{
  ℕ, zero, suc, ◌+◌, ◌-◌, ◌*◌, ◌/◌, ◌%◌, ◌^◌, Text, codes, Option, none, some, [], ◌∷◌, ◌++◌, ltb,
  if◌then◌else◌, length, ◌≡◌, refl,
}
use exfer_honor.Spec.Types.{Hex, PubKey}
use exfer_honor.Spec.Datum.{is_bare_hex}

abbrev pub AddressDeriver : Type 0
AddressDeriver = PubKey → Hex

abbrev exfer_addr_domain_tag : Text
exfer_addr_domain_tag = codes "exfer-addr"

abbrev hex_digit : ℕ → ℕ
hex_digit d = if ltb d 10 then d + 48 else d + 87

-- `toString(16)`; the first argument is fuel.
hex_digits : ℕ → ℕ → Text
hex_digits zero n = []
hex_digits (suc fuel) n =
    let leading = hex_digits fuel (n / 16) in
    if ltb n 16 then hex_digit n ∷ [] else leading ++ hex_digit (n % 16) ∷ []

zeros : ℕ → Text
zeros zero = []
zeros (suc n) = b'0' ∷ zeros n

-- `n.toString(16).padStart(width, "0")`.
padded_hex : ℕ → ℕ → Text
unfolding hex_digits zeros
padded_hex width n = let s = hex_digits (suc n) n in zeros (width - length s) ++ s

ascii_to_hex : Text → Text
unfolding padded_hex
ascii_to_hex [] = []
ascii_to_hex (c ∷ s) = padded_hex 2 c ++ ascii_to_hex s

abbrev word : ℕ → ℕ
word n = n % 2 ^ 32

-- One round of the loop of `fold`, on both lanes.
mix : ℕ → ℕ × ℕ → ℕ × ℕ
mix c (h1, h2) =
    (word (bit_xor h1 c * 0x01000193), word (bit_xor h2 (bit_or (c * 32) (c / 8)) * 0x85ebca6b))

mix_all : Text → ℕ × ℕ → ℕ × ℕ
mix_all [] lanes = lanes
mix_all (c ∷ s) lanes = mix_all s (mix c lanes)

take : ℕ → Text → Text
take zero s = []
take (suc n) [] = []
take (suc n) (c ∷ s) = c ∷ take n s

fold : Text → Text
unfolding mix mix_all padded_hex take
fold s =
    let (h1, h2) = mix_all s (0x811c9dc5, 0x01000193) in
    let core = padded_hex 8 h1 ++ padded_hex 8 h2 in take 56 (core ++ core ++ core ++ core)

unfoldable pub reference_address_deriver : PubKey → Hex
unfolding ascii_to_hex fold
reference_address_deriver pubkey =
    let tag_hex = ascii_to_hex exfer_addr_domain_tag in
    let key = if is_bare_hex pubkey then pubkey else ascii_to_hex pubkey in
    tag_hex ++ fold (tag_hex ++ b':' ∷ key)

abbrev pub domain_hash_addr : PubKey → Option AddressDeriver → Hex
domain_hash_addr pubkey none = reference_address_deriver pubkey
domain_hash_addr pubkey (some derive) = derive pubkey

-- A key and its script under the reference derivation, of 76 digits.
reference_length : length (reference_address_deriver (codes "ab")) ≡ 76
unfolding reference_address_deriver
reference_length = refl
