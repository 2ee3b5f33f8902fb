-- ===== src/Vault/KeyBlock/Runs.antt =====
-- Tests, and the theorems at concrete inputs: a key of three bytes under the cipher of the tests.
use isopace.Common.{
  ℕ, zero, suc, ◌≡◌, refl, inl, [], ◌∷◌, Bytes, IsByte, All, replicate, ok, err, some, arith,
}
use isopace.Vault.Cipher.Toy.{toy_des, toy_des-IsDesLibrary}
use isopace.Vault.KeyBlock.{
  KeyBlockHeader, wrap_key_block, unwrap_key_block, marshal_header, bad_usage,
}
use isopace.Vault.KeyBlock.Authentic.{IsAuthentic, unwrap_key_block-IsAuthentic}
use isopace.Vault.KeyBlock.Header.{normal_header}
use isopace.Vault.KeyBlock.RoundTrip.{Fills, unwrap-wrap}
use isopace.Vault.PinBlock.{Reader}
use isopace.Common.{length-replicate}

abbrev protection_key : Bytes
protection_key = replicate 16 7

-- "P0", 'T', 'E', no key version, 'N'
abbrev pin_header : KeyBlockHeader
pin_header = record {
  version = 0;
  key_usage = b'P' ∷ b'0' ∷ [];
  algorithm = b'T';
  mode_of_use = b'E';
  key_version = [];
  exportability = b'N';
}

abbrev short_key : Bytes
short_key = 1 ∷ 2 ∷ 3 ∷ []

abbrev zeros : Reader
zeros n = some (replicate n 0)

zeros-IsByte : (n : ℕ) → All IsByte (replicate n 0)
zeros-IsByte zero = tt
zeros-IsByte (suc n) = (omega arith, zeros-IsByte n)

zeros-Fills : Fills zeros
zeros-Fills n h = (replicate n 0, refl, length-replicate n 0, zeros-IsByte n)

wrapped :
    (block : Bytes) × (wrap_key_block toy_des protection_key pin_header short_key zeros ≡ ok block)
    × (unwrap_key_block toy_des protection_key block ≡ ok (normal_header pin_header, short_key))
wrapped =
    unwrap-wrap toy_des toy_des-IsDesLibrary protection_key (inl refl) pin_header short_key zeros
      refl refl (omega arith) (omega arith) (omega arith, (omega arith, (omega arith, tt)))
      zeros-Fills

unwrap-wrap_example :
    (block : Bytes) × (wrap_key_block toy_des protection_key pin_header short_key zeros ≡ ok block)
    × (unwrap_key_block toy_des protection_key block ≡ ok (normal_header pin_header, short_key))
unwrap-wrap_example =
    unwrap-wrap toy_des toy_des-IsDesLibrary protection_key (inl refl) pin_header short_key zeros
      refl refl (omega arith) (omega arith) (omega arith, (omega arith, (omega arith, tt)))
      zeros-Fills

unwrap_key_block-IsAuthentic_example : IsAuthentic toy_des protection_key wrapped.0 short_key
unwrap_key_block-IsAuthentic_example =
    unwrap_key_block-IsAuthentic toy_des protection_key wrapped.0 wrapped.2

-- A usage of three characters is refused.
long_usage :
    marshal_header {C = ℕ} (record pin_header { key_usage = b'P' ∷ b'0' ∷ b'0' ∷ [] }) 48
    ≡ err bad_usage
unfolding marshal_header
long_usage = refl
