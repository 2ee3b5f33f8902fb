-- ===== src/Vault/Cipher/Toy.antt =====
-- A cipher of 8-byte blocks for the tests, which takes every byte as it is.
use isopace.Common.{
  ℕ, suc, ◌%◌, ◌≡◌, ◌∙◌, refl, ap, [], ◌∷◌, map, Bytes, IsByte, All, length, ok, arith,
}
use isopace.Vault.Cipher.{Block, Des, IsDes, IsDesLibrary}

abbrev to_bytes : Bytes → Bytes
to_bytes x = map (λ c. c % 256) x

length-to_bytes : (x : Bytes) → length (to_bytes x) ≡ length x
length-to_bytes [] = refl
length-to_bytes (c ∷ x) = ap suc (length-to_bytes x)

to_bytes-IsByte : (x : Bytes) → All IsByte (to_bytes x)
to_bytes-IsByte [] = tt
to_bytes-IsByte (c ∷ x) = (omega arith, to_bytes-IsByte x)

to_bytes_same : (x : Bytes) → All IsByte x → to_bytes x ≡ x
to_bytes_same [] h = refl
to_bytes_same (c ∷ x) (hc, h) =
    λ i. (let q : c % 256 ≡ c = omega arith in q i) ∷ to_bytes_same x h i

abbrev pub toy : Block
toy = record {
  size = 8;
  encrypt = to_bytes;
  decrypt = to_bytes;
  cbc_crypt = λ iv x. to_bytes x;
  cbc_uncrypt = λ iv x. x;
}

toy-IsDes : IsDes toy
toy-IsDes = record {
  size_eq = refl;
  length_encrypt = λ x e. length-to_bytes x ∙ e;
  length_decrypt = λ x e. length-to_bytes x ∙ e;
  encrypt_bytes = λ x e. to_bytes-IsByte x;
  length_cbc = λ iv x e m. length-to_bytes x;
  cbc_bytes = λ iv x e m. to_bytes-IsByte x;
  uncrypt_crypt = λ iv x e m h. to_bytes_same x h;
}

abbrev pub toy_des : Des ℕ
toy_des = record { new_cipher = λ _. ok toy; new_triple_cipher = λ _. ok toy }

pub toy_des-IsDesLibrary : IsDesLibrary toy_des
toy_des-IsDesLibrary = record {
  single = λ key e. (toy, refl, toy-IsDes);
  triple = λ key e. (toy, refl, toy-IsDes);
}
