-- ===== src/Tests/Secrets.antt =====
-- A run of the encryption, with a cipher that appends its key.
use lamdis_core.Prelude.{ℕ, ◌≡◌, refl, some, [], ◌∷◌, Result, ok, err, ◌>>=◌}
use lamdis_core.Text.{Text, codes}
use lamdis_core.Json.{no_fields, of_map}
use lamdis_core.Secrets.{Cipher, encrypt_json, decrypt_secrets, encrypt_json-decrypt_secrets}

abbrev pub cipher : Cipher ℕ
cipher = record {
  nonce_size = 2;
  seal = λ key nonce plain. 0 ∷ plain;
  unseal = λ key nonce sealed. tail sealed;
  sha256 = λ s. s;
  marshal = λ v. ok (codes "{}");
  unmarshal = λ s. ok (some no_fields);
}
  where
    tail : Text → Result Text
    tail [] = err
    tail (c ∷ s) = ok s

encrypt_json-decrypt_secrets_example :
    (encrypt_json cipher (codes "key") (ok (codes "no")) (of_map (some no_fields)) >>= λ blob.
    decrypt_secrets cipher blob (codes "key"))
    ≡ ok (some no_fields)
encrypt_json-decrypt_secrets_example =
    encrypt_json-decrypt_secrets cipher (codes "key") (codes "no") (codes "{}") (some no_fields)
      (λ h. cc) (λ h. cc) refl (λ k n p. refl) refl refl
