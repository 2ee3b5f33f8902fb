-- ===== src/Vault/PinBlock/Runs.antt =====
-- Tests, and the theorem at a concrete input.
use isopace.Common.{ℕ, zero, suc, ◌≡◌, refl, [], ◌∷◌, arith, some}
use isopace.Common.{Bytes, IsByte, All, length, replicate, length-replicate, ok, err}
use isopace.Vault.PinBlock.{
  iso0, iso3, Reader, encode_pin_block, decode_pin_block, pin_field, pan_field, digits_of,
  pad_nibbles, pack_nibbles, xored, clear_block, unpack_nibbles, decode_nibbles, read_pin,
  check_padding, all_nibbles, bad_padding,
}
use isopace.Vault.PinBlock.RoundTrip.{Fills, decode_pin_block-encode_pin_block}

abbrev pin : Bytes
pin = b'1' ∷ b'2' ∷ b'3' ∷ b'4' ∷ []

abbrev pan : Bytes
pan =
    b'4' ∷ b'3' ∷ b'2' ∷ b'1' ∷ b'9' ∷ b'8' ∷ b'7' ∷ b'6' ∷ b'5' ∷ b'4' ∷ b'3' ∷ b'2' ∷ b'1' ∷ b'0'
    ∷ b'9' ∷ b'8' ∷ b'7' ∷ []

abbrev sevens : Reader
sevens n = some (replicate n 7)

seven_bytes : (n : ℕ) → All IsByte (replicate n 7)
seven_bytes zero = tt
seven_bytes (suc n) = (omega arith, seven_bytes n)

sevens-Fills : Fills sevens
sevens-Fills n = (replicate n 7, (refl, (length-replicate n 7, seven_bytes n)))

encode_pin_block-iso0 :
    encode_pin_block iso0 pin pan sevens
    ≡ ok (0x04 ∷ 0x12 ∷ 0xAC ∷ 0x89 ∷ 0xAB ∷ 0xCD ∷ 0xEF ∷ 0x67 ∷ [])
unfolding encode_pin_block pin_field pan_field digits_of pad_nibbles pack_nibbles xored
encode_pin_block-iso0 = refl

decode_pin_block_tampered :
    decode_pin_block iso0 (0x04 ∷ 0x12 ∷ 0xAC ∷ 0x89 ∷ 0xAB ∷ 0xCD ∷ 0xEF ∷ 0x66 ∷ []) pan
    ≡ err bad_padding
unfolding decode_pin_block clear_block pan_field digits_of pack_nibbles xored unpack_nibbles
    decode_nibbles read_pin check_padding all_nibbles
decode_pin_block_tampered = refl

decode_pin_block-encode_pin_block_example :
    (block : Bytes) × ((encode_pin_block iso3 pin pan sevens ≡ ok block)
      × ((length block ≡ 8) × (decode_pin_block iso3 block pan ≡ ok pin)))
decode_pin_block-encode_pin_block_example =
    decode_pin_block-encode_pin_block iso3 pin pan sevens refl (omega arith) (omega arith)
      (omega arith) (omega arith) (omega arith) sevens-Fills
