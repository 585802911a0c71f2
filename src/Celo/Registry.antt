-- ===== src/Celo/Registry.antt =====
-- packages/vm/src/evm/precompiles/ce10-celo-registry.ts: the precompile at address ce10, which answers
-- `getAddressForOrDie(bytes32)` for three contracts.
use moola_fix.Common.{
  ℕ, ◌≡◌, ◌≤◌, ◌<◌, ◌^◌, ◌∙◌, List, false, not, Result, ok, err, ◌>>◌, throw_if, arith, length,
  slice, ◌==◌, if◌then◌else◌,
}
use moola_fix.Common.Bytes.{from_be, to_be, length-to_be, from_be-to_be}
use moola_fix.Util.Padding.{set_length_right, set_length_left, set_length_left_lem}
use moola_fix.Evm.Error.{VmError, assertion}
use moola_fix.Celo.Transfer.{ExecResult}

-- The selector dcf0aaed, the three keys and the three addresses.
abbrev pub selector : ℕ
selector = 0xdcf0aaed

abbrev pub gold_token_key : ℕ
gold_token_key = 0xd7e89ade8430819f08bf97a087285824af3351ee12d72a2d132b0c6c0687bfaf

abbrev pub sorted_oracles_key : ℕ
sorted_oracles_key = 0xab7ca110ac6f740fa4bdcd667652ab6f883b80daaedaf0cb53396dc5d5be6f2c

abbrev pub freezer_key : ℕ
freezer_key = 0x24e33447c847c15e68fca3f15a635d2d4d83cb99d7befc9068c4a148521fccf4

abbrev pub gold_token : ℕ
gold_token = 0x471EcE3750Da237f93B8E339c536989b8978a438

abbrev pub sorted_oracles : ℕ
sorted_oracles = 0xefB84935239dAcdecF7c5bA76d8dE40b077B7b33

abbrev pub freezer : ℕ
freezer = 0x47a472F45057A9d79d62C6427367016409f4fF5A

-- A word that holds an address of 20 bytes.
abbrev pub answer : ℕ → ExecResult
answer address = record { gas_used = 0; return_value = set_length_left (to_be 20 address) 32 }

-- The precompile. A key is compared as the number of its 32 bytes, which the hexadecimal strings of
-- the source spell.
unfoldable pub celo_registry : List ℕ → Result VmError ExecResult
celo_registry opts_data = do
  let bytes = set_length_right opts_data 36
  throw_if (not (from_be (slice bytes 0 4) == selector)) assertion
  let key = from_be (slice bytes 4 36)
  if key == gold_token_key
      then ok (answer gold_token)
      else if key == sorted_oracles_key
      then ok (answer sorted_oracles)
      else if key == freezer_key
      then ok (answer freezer)
      else ok (record { gas_used = 0; return_value = set_length_left (to_be 1 0) 32 })

-- The address that the registry holds under a key, 0 for a key that it does not know.
abbrev pub registered : ℕ → ℕ
registered key =
    if key == gold_token_key
    then gold_token
    else if key == sorted_oracles_key
    then sorted_oracles
    else if key == freezer_key
    then freezer
    else 0

abbrev pub key_of : List ℕ → ℕ
key_of bytes = from_be (slice (set_length_right bytes 36) 4 36)

-- What a call answers: nothing but an assertion on another selector, and else one word without a
-- charge, which reads as the registered address.
abbrev pub Answers : List ℕ → Result VmError ExecResult → Type 0
Answers bytes (ok r) =
    (from_be (slice (set_length_right bytes 36) 0 4) ≡ selector)
    × (r.gas_used ≡ 0)
    × (length r.return_value ≡ 32)
    × (from_be r.return_value ≡ registered (key_of bytes))
Answers bytes (err e) =
    (e ≡ assertion) × ((from_be (slice (set_length_right bytes 36) 0 4) == selector) ≡ false)

word_lem :
    (n v : ℕ)
    → n ≤ 32
    → v < 256 ^ n
    → (length (set_length_left (to_be n v) 32) ≡ 32)
      × (from_be (set_length_left (to_be n v) 32) ≡ v)
word_lem n v h fits =
    let padded = set_length_left_lem (to_be n v) 32 (omega (arith, length-to_be n v)) in
    (padded.0, padded.1 ∙ from_be-to_be n v fits)

-- Every call answers with the registered address as one word, or fails on another selector.
pub celo_registry-Answers : (bytes : List ℕ) → Answers bytes (celo_registry bytes)
unfolding celo_registry
celo_registry-Answers bytes = ground (
  arith,
  word_lem 20 gold_token (omega arith) (omega arith),
  word_lem 20 sorted_oracles (omega arith) (omega arith),
  word_lem 20 freezer (omega arith) (omega arith),
  word_lem 1 0 (omega arith) (omega arith),
)
