-- ===== src/Crypto/Examples.antt =====
-- A password under a cipher that puts the key in front of a text.
use data_flow_agent_hub.Base.{
  Text, codes, length, drop, drop-length-append, ◌++◌, some, ◌≡◌, refl, ap,
}
use data_flow_agent_hub.Sqlrun.Run.{ok}
use data_flow_agent_hub.Crypto.{Cipher, encrypt, encrypt_with, check_key, decrypt}
use data_flow_agent_hub.Crypto.RoundTrip.{IsCipher, decrypt-encrypt}

abbrev prefixing : Cipher
prefixing = record {
  decode_hex = λ t. some t;
  encode_hex = λ t. t;
  nonce_size = 2;
  seal = λ key nonce t. key ++ t;
  unseal = λ key nonce t. some (drop (length key) t);
}

prefixing-IsCipher : IsCipher prefixing
prefixing-IsCipher = record {
  decodes = λ t. refl;
  unseals = λ key nonce t. ap (λ x. some x) (drop-length-append key t);
}

abbrev key : Text
key = codes "0123456789abcdef0123456789abcdef"

encrypted :
    encrypt prefixing (some (codes "no")) (codes "secret") key
    ≡ ok (codes "no" ++ (key ++ codes "secret"))
unfolding encrypt encrypt_with check_key
encrypted = refl

decrypt-encrypt_example :
    decrypt prefixing (codes "no" ++ (key ++ codes "secret")) key ≡ ok (codes "secret")
decrypt-encrypt_example =
    decrypt-encrypt prefixing prefixing-IsCipher (codes "no") (codes "secret") key
      (codes "no" ++ (key ++ codes "secret")) refl encrypted
