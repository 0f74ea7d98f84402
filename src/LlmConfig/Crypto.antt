-- ===== src/LlmConfig/Crypto.antt =====
-- Keys at rest, backend/internal/llm/crypto.go. AES-GCM of the standard library under one master key is
-- a `Cipher`; a byte is a character, and the nonce that a call draws is `none` where the random source fails.
use Prim.Native.Char.{Char}
use anynote.Base.{
  ℕ, ◌≡◌, refl, ap, Bool, not, Option, none, some, List, [], ◌∷◌, ◌++◌, String, Result, ok, err,
  length, take, drop, length-append, arith, ltb, if◌then◌else◌,
}

abbrev pub Bytes : Type 0
Bytes = List Char

pub record Cipher : Type 0 where
  pub accepts_key : Bool
  pub nonce_size : ℕ
  pub seal : Bytes → String → Bytes
  pub open_sealed : Bytes → Bytes → Option String

-- What GCM promises: what a nonce sealed, it opens.
pub record IsCipher (c : Cipher) : Type 0 where
  pub opens : (nonce : Bytes) (text : String) → c.open_sealed nonce (c.seal nonce text) ≡ some text

pub data CryptoError : Type 0 where
  bad_key no_nonce too_short not_authentic : CryptoError

unfoldable pub encrypt_api_key : Cipher → Option (Bytes) → String → Result CryptoError (Bytes)
encrypt_api_key c nonce plaintext =
    if not c.accepts_key
    then err bad_key
    else elim nonce [ none ↦ err no_nonce | some n ↦ ok (n ++ c.seal n plaintext) ]

unfoldable pub decrypt_api_key : Cipher → Bytes → Result CryptoError String
decrypt_api_key c ciphertext =
    if not c.accepts_key
    then err bad_key
    else if ltb (length ciphertext) c.nonce_size
    then err too_short
    else elim (c.open_sealed (take c.nonce_size ciphertext) (drop c.nonce_size ciphertext)) [
      | none ↦ err not_authentic
      | some plaintext ↦ ok plaintext
    ]

take-append : {A : Type 0} (xs ys : List A) → take (length xs) (xs ++ ys) ≡ xs
take-append [] ys = refl
take-append (x ∷ xs) ys = ap (λ r. x ∷ r) (take-append xs ys)

drop-append : {A : Type 0} (xs ys : List A) → drop (length xs) (xs ++ ys) ≡ ys
drop-append [] ys = refl
drop-append (x ∷ xs) ys = drop-append xs ys

-- What is encrypted with a nonce of the cipher's size decrypts to itself.
pub decrypt-encrypt :
    (c : Cipher) (lawful : IsCipher c) (nonce ciphertext : Bytes) (plaintext : String)
    → length nonce ≡ c.nonce_size
    → encrypt_api_key c (some nonce) plaintext ≡ ok ciphertext
    → decrypt_api_key c ciphertext ≡ ok plaintext
unfolding encrypt_api_key decrypt_api_key
decrypt-encrypt c lawful nonce ciphertext plaintext size e = ground (
  arith,
  e,
  take-append nonce (c.seal nonce plaintext),
  drop-append nonce (c.seal nonce plaintext),
  length-append nonce (c.seal nonce plaintext),
  lawful.opens nonce plaintext,
)
