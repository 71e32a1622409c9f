-- ===== src/Crypto.antt =====
-- internal/crypto/aes.go: the passwords of the data sources. The packages encoding/hex, crypto/aes and
-- crypto/cipher, and the random bytes of the nonce, are parameters.
pub mod RoundTrip
pub mod Examples
use data_flow_agent_hub.Base.{
  ℕ, Text, codes, take, drop, length, ltb, ◌==◌, [], ◌++◌, Option, none, some, if◌then◌else◌,
}
use data_flow_agent_hub.Sqlrun.Run.{Answer, ok, err}

-- hexadecimal texts, and AES-256-GCM by key and nonce
pub record Cipher : Type 0 where
  pub decode_hex : Text → Option Text
  pub encode_hex : Text → Text
  pub nonce_size : ℕ
  pub seal : Text → Text → Text → Text
  pub unseal : Text → Text → Text → Option Text

-- the key of 32 bytes
unfoldable pub check_key : Option Text → Answer Text
check_key none = err (codes "decode key")
check_key (some key) = if length key == 32 then ok key else err (codes "key must be 32 bytes")

-- `Encrypt`, behind the key, with a nonce if there is one
unfoldable pub encrypt_with : Cipher → Text → Answer Text → Option Text → Answer Text
encrypt_with cipher plaintext (err e) drawn = err e
encrypt_with cipher plaintext (ok key) none = err (codes "generate nonce")
encrypt_with cipher plaintext (ok key) (some nonce) =
    ok (cipher.encode_hex (nonce ++ cipher.seal key nonce plaintext))

unfoldable pub encrypt : Cipher → Option Text → Text → Text → Answer Text
encrypt cipher nonce plaintext key_hex =
    encrypt_with cipher plaintext (check_key (cipher.decode_hex key_hex)) nonce

-- `Decrypt`, behind the key and the text
unfoldable pub opened : Option Text → Answer Text
opened none = err (codes "decrypt")
opened (some plaintext) = ok plaintext

unfoldable pub decrypt_with : Cipher → Answer Text → Option Text → Answer Text
decrypt_with cipher (err e) text = err e
decrypt_with cipher (ok key) none = err (codes "decode ciphertext")
decrypt_with cipher (ok key) (some text) =
    if ltb (length text) cipher.nonce_size
    then err (codes "ciphertext too short")
    else opened (cipher.unseal key (take cipher.nonce_size text) (drop cipher.nonce_size text))

unfoldable pub decrypt : Cipher → Text → Text → Answer Text
decrypt cipher cipher_hex key_hex =
    decrypt_with cipher (check_key (cipher.decode_hex key_hex)) (cipher.decode_hex cipher_hex)
