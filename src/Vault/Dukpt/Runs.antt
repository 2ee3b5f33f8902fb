-- ===== src/Vault/Dukpt/Runs.antt =====
-- Tests, and the keys of two counters, with the cipher of the tests.
use isopace.Common.{ℕ, ◌≡◌, refl, [], ◌∷◌, Bytes, length, replicate, ok, err, arith}
use isopace.Vault.Cipher.Toy.{toy_des, toy_des-IsDesLibrary}
use isopace.Vault.Dukpt.{
  derive_session_key, generate_key, register_base, ksn_counter, derive_variant, bad_variant_length,
  set_counter_bit,
}
use isopace.Vault.Dukpt.Parent.{full_register, session_key_parent}

abbrev ksn : Bytes
ksn = 0xFF ∷ 0xFF ∷ 0x98 ∷ 0x76 ∷ 0x54 ∷ 0x32 ∷ 0x10 ∷ 0xE0 ∷ 0 ∷ 8 ∷ []

-- Two transactions later: the counter is 10, and 8 is 10 without its lowest bit.
abbrev later : Bytes
later = 0xFF ∷ 0xFF ∷ 0x98 ∷ 0x76 ∷ 0x54 ∷ 0x32 ∷ 0x10 ∷ 0xE0 ∷ 0 ∷ 10 ∷ []

session_key_parent_example :
    (parent key : Bytes) × (derive_session_key toy_des (replicate 16 1) ksn ≡ ok parent)
    × (generate_key toy_des parent (full_register later) ≡ ok key)
    × (derive_session_key toy_des (replicate 16 1) later ≡ ok key)
    × (length key ≡ 16)
unfolding register_base ksn_counter
session_key_parent_example =
    session_key_parent toy_des toy_des-IsDesLibrary (replicate 16 1) later ksn 2 1 refl refl refl
      (omega arith) refl refl refl

eighth : ksn_counter ksn ≡ 8
unfolding ksn_counter
eighth = refl

bit_set : set_counter_bit (replicate 8 0) 0x100000 ≡ 0 ∷ 0 ∷ 0 ∷ 0 ∷ 0 ∷ 0x10 ∷ 0 ∷ 0 ∷ []
unfolding set_counter_bit
bit_set = refl

short_mask : derive_variant {C = ℕ} (replicate 16 1) [] ≡ err (bad_variant_length 16 0)
unfolding derive_variant
short_mask = refl
