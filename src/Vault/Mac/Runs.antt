-- ===== src/Vault/Mac/Runs.antt =====
-- Tests, and the theorems at concrete inputs, with the cipher of the tests.
use isopace.Common.{◌≡◌, ◌++◌, refl, [], ◌∷◌, Bytes, replicate, err}
use isopace.Vault.Cipher.Toy.{toy_des}
use isopace.Vault.Mac.{pad1, pad2, fill_zeros, apply_padding, generate_arpc, bad_arc_length}
use isopace.Vault.Mac.Padding.{Padded, apply_padding-Padded}

abbrev text : Bytes
text = 1 ∷ 2 ∷ 3 ∷ []

apply_padding-Padded_example : Padded pad2 text (apply_padding pad2 text 8)
apply_padding-Padded_example = apply_padding-Padded pad2 text

-- Padding method 1 is not one to one.
pad1_collides : apply_padding pad1 text 8 ≡ apply_padding pad1 (text ++ (0 ∷ [])) 8
unfolding apply_padding fill_zeros
pad1_collides = refl

short_response_code :
    generate_arpc toy_des (replicate 16 5) (replicate 8 1) (7 ∷ []) ≡ err (bad_arc_length 1)
unfolding generate_arpc
short_response_code = refl
