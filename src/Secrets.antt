-- ===== src/Secrets.antt =====
-- The encryption of connector secrets: `encryptJSON` of internal/adminapi/crypto.go and its reverse,
-- `decryptSecrets` of internal/connector/handler.go. AES-GCM, SHA-256 and the JSON functions are fields of
-- `Cipher`. Texts are bytes here.
use lamdis_core.Prelude.{
  ℕ, zero, suc, ◌≤◌, ◌≡◌, ◌≢◌, refl, false, Option, [], ◌∷◌, ◌++◌, Result, ok, err, ◌>>=◌, arith,
  if◌then◌else◌, ltb, ◌==◌, null, length,
}
use lamdis_core.Text.{Text, drop}
use lamdis_core.Json.{Value, Fields, of_map}

pub record Cipher (F : Type 0) : Type 0 where
  pub nonce_size : ℕ
  pub seal : Text → Text → Text → Text
  pub unseal : Text → Text → Text → Result Text
  pub sha256 : Text → Text
  pub marshal : Value F → Result Text
  pub unmarshal : Text → Result (Option (Fields F))

unfoldable pub take : ℕ → Text → Text
take zero s = []
take (suc n) [] = []
take (suc n) (c ∷ s) = c ∷ take n s

module _ {F : Type 0} (c : Cipher F) where
  -- `nonce` is what rand.Read gives.
  unfoldable pub encrypt_json : Text → Result Text → Value F → Result Text
  encrypt_json key nonce v =
      if null key
      then c.marshal v
      else c.marshal v >>= λ plain. nonce >>= λ n. ok (1 ∷ (n ++ c.seal (c.sha256 key) n plain))

  open_blob : Text → Text → Result (Option (Fields F))
  unfolding take drop
  open_blob key rest =
      if ltb (length rest) c.nonce_size
      then err
      else c.unseal (c.sha256 key) (take c.nonce_size rest) (drop c.nonce_size rest) >>= c.unmarshal

  unfoldable pub decrypt_secrets : Text → Text → Result (Option (Fields F))
  unfolding open_blob
  decrypt_secrets [] key = err
  decrypt_secrets (v ∷ []) key = err
  decrypt_secrets (v ∷ b ∷ rest) key = if v == 1 then open_blob key (b ∷ rest) else err

take-append : (s t : Text) → take (length s) (s ++ t) ≡ s
unfolding take
take-append [] t = refl
take-append (x ∷ s) t = rw (take-append s t) refl

drop-append : (s t : Text) → drop (length s) (s ++ t) ≡ t
unfolding drop
drop-append [] t = refl
drop-append (x ∷ s) t = drop-append s t

length-append : (s t : Text) → length s ≤ length (s ++ t)
length-append [] t = omega arith
length-append (x ∷ s) t = ground (arith, length-append s t)

module _ {F : Type 0} (c : Cipher F) where
  open_sealed :
      (key nonce plain : Text) (m : Option (Fields F))
      → length nonce ≡ c.nonce_size
      → c.unseal (c.sha256 key) nonce (c.seal (c.sha256 key) nonce plain) ≡ ok plain
      → c.unmarshal plain ≡ ok m
      → open_blob c key (nonce ++ c.seal (c.sha256 key) nonce plain) ≡ ok m
  unfolding open_blob
  open_sealed key nonce plain m size law read =
      let long : ltb (length (nonce ++ c.seal (c.sha256 key) nonce plain)) (length nonce) ≡ false =
        not_shorter _ _ (length-append nonce (c.seal (c.sha256 key) nonce plain)) in
      rw
        (
          ← size,
          long,
          take-append nonce (c.seal (c.sha256 key) nonce plain),
          drop-append nonce (c.seal (c.sha256 key) nonce plain),
          law,
          read,
        )
        refl
    where
      not_shorter : (a b : ℕ) → b ≤ a → ltb a b ≡ false
      not_shorter a b h = ground arith

  decrypt_sealed :
      (key nonce plain : Text) (m : Option (Fields F))
      → nonce ≢ []
      → open_blob c key (nonce ++ c.seal (c.sha256 key) nonce plain) ≡ ok m
      → decrypt_secrets c (1 ∷ (nonce ++ c.seal (c.sha256 key) nonce plain)) key ≡ ok m
  unfolding decrypt_secrets
  decrypt_sealed key [] plain m ne h = absurd (ne refl)
  decrypt_sealed key (b ∷ nonce) plain m ne h = h

  -- Under a key, what is encrypted with a nonce of the right size decrypts under the same key to the map
  -- that was encrypted. The cipher opens what it seals, and the JSON of the map is read back as it.
  pub encrypt_json-decrypt_secrets :
      (key nonce plain : Text) (m : Option (Fields F))
      → key ≢ []
      → nonce ≢ []
      → length nonce ≡ c.nonce_size
      → ((k n p : Text) → c.unseal k n (c.seal k n p) ≡ ok p)
      → c.marshal (of_map m) ≡ ok plain
      → c.unmarshal plain ≡ ok m
      → (encrypt_json c key (ok nonce) (of_map m) >>= λ blob. decrypt_secrets c blob key) ≡ ok m
  unfolding encrypt_json
  encrypt_json-decrypt_secrets key nonce plain m keyed present size law written read =
      rw (null_of key keyed, written)
        (decrypt_sealed key nonce plain m present
          (open_sealed key nonce plain m size (law (c.sha256 key) nonce plain) read))
    where
      null_of : (s : Text) → s ≢ [] → null s ≡ false
      null_of [] n = absurd (n refl)
      null_of (x ∷ s) n = refl
