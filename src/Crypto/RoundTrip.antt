-- ===== src/Crypto/RoundTrip.antt =====
-- internal/crypto/aes.go: what is encrypted can be decrypted.
use data_flow_agent_hub.Base.{
  Text, length, length-append, take-length-append, drop-length-append, ltb, ◌++◌, false, some, ◌≡◌,
  refl, ap, ◌∙◌, sym, arith,
}
use data_flow_agent_hub.Sqlrun.Run.{Answer, ok, err}
use data_flow_agent_hub.Crypto.{Cipher, encrypt_with, encrypt, opened, decrypt_with, decrypt}

-- what is relied on: hexadecimal texts and sealed texts are read back
pub record IsCipher (c : Cipher) : Type 0 where
  pub decodes : (t : Text) → c.decode_hex (c.encode_hex t) ≡ some t
  pub unseals : (key nonce t : Text) → c.unseal key nonce (c.seal key nonce t) ≡ some t

decrypt_with-sealed :
    (c : Cipher) (laws : IsCipher c) (key nonce t : Text)
    → length nonce ≡ c.nonce_size
    → decrypt_with c (ok key) (some (nonce ++ c.seal key nonce t)) ≡ ok t
unfolding decrypt_with opened
decrypt_with-sealed c laws key nonce t h =
    let long : ltb (length (nonce ++ c.seal key nonce t)) c.nonce_size ≡ false =
      ground (arith, length-append nonce (c.seal key nonce t)) in
    rw long (
      rw
        (
          ← h,
          take-length-append nonce (c.seal key nonce t),
          drop-length-append nonce (c.seal key nonce t),
          laws.unseals key nonce t,
        )
        refl)

encrypt_with-decrypt_with :
    (c : Cipher) (laws : IsCipher c) (key : Answer Text) (nonce t cipher_hex : Text)
    → length nonce ≡ c.nonce_size
    → encrypt_with c t key (some nonce) ≡ ok cipher_hex
    → decrypt_with c key (c.decode_hex cipher_hex) ≡ ok t
unfolding encrypt_with
encrypt_with-decrypt_with c laws (err e) nonce t cipher_hex h e' = cc
encrypt_with-decrypt_with c laws (ok key) nonce t cipher_hex h e' =
    let same : c.encode_hex (nonce ++ c.seal key nonce t) ≡ cipher_hex = cc in
    ap (decrypt_with c (ok key)) (ap c.decode_hex (sym same) ∙ laws.decodes _)
    ∙ decrypt_with-sealed c laws key nonce t h

-- Where Encrypt succeeds with a nonce of the size of the cipher, Decrypt with the same key gives the text
-- back.
pub decrypt-encrypt :
    (c : Cipher) (laws : IsCipher c) (nonce t key_hex cipher_hex : Text)
    → length nonce ≡ c.nonce_size
    → encrypt c (some nonce) t key_hex ≡ ok cipher_hex
    → decrypt c cipher_hex key_hex ≡ ok t
unfolding encrypt decrypt
decrypt-encrypt c laws nonce t key_hex cipher_hex h e =
    encrypt_with-decrypt_with c laws _ nonce t cipher_hex h e
