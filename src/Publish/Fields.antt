-- ===== src/Publish/Fields.antt =====
-- What is published can be read back by its owner only,
-- backend/internal/service/publish_service.go (encryptField, decryptField, Publish, GetByID).
use anynote.Base.{
  ℕ, ◌<◌, ◌≡◌, ◌≢◌, refl, inl, inr, true, false, ◌||◌, not, Option, some, [], ◌∷◌, String, str_eq,
  eq_iff, eq_refl, ok, err, is_ok, select_one, select_one-snoc, length, arith, Bool-cases,
  Result-cases,
}
use anynote.LlmConfig.Crypto.{Bytes, IsCipher, encrypt_api_key, decrypt-encrypt}
use anynote.Publish.{
  IsBase64, PublishService, PublishRequest, PublishState, PublishFaults, encrypt_field,
  decrypt_field, log_of, enqueue, publish, get_by_id, database,
}
use anynote.Publish.Tables.{has_id, create_log, get_log, scan}

-- What the service relies on.
pub record IsLawful (svc : PublishService) : Type 0 where
  pub cipher : IsCipher svc.cipher
  pub base64 : IsBase64 svc.base64
  pub sized : 0 < svc.cipher.nonce_size

encrypted_not_empty :
    (svc : PublishService) (lawful : IsLawful svc) (seed ciphertext : Bytes) (plaintext : String)
    → length seed ≡ svc.cipher.nonce_size
    → encrypt_api_key svc.cipher (some seed) plaintext ≡ ok ciphertext
    → ciphertext ≢ []
unfolding encrypt_api_key
encrypted_not_empty svc lawful [] ciphertext plaintext size e blank =
    let l = lawful.sized in ground (arith, size, l)
encrypted_not_empty svc lawful (x ∷ seed) ciphertext plaintext size e blank =
    ground (arith, e, blank)

-- A title or content that the service encrypts, with nonces of the cipher's size, is decrypted to
-- itself, with or without a master key.
pub decrypt_field-encrypt_field :
    (svc : PublishService) (lawful : IsLawful svc) (seed : Bytes) (plaintext encoded : String)
    → length seed ≡ svc.cipher.nonce_size
    → encrypt_field svc (some seed) plaintext ≡ ok encoded
    → decrypt_field svc encoded ≡ ok plaintext
unfolding encrypt_field decrypt_field
decrypt_field-encrypt_field svc lawful seed plaintext encoded size e =
    elim (Bool-cases (str_eq plaintext "" || not svc.has_master_key)) [
      | inl clear ↦ ground (arith, e, clear)
      | inr sealed ↦ elim (Result-cases (encrypt_api_key svc.cipher (some seed) plaintext)) [
        | inr (bad, x) ↦ ground (arith, e, sealed, x)
        | inl (ciphertext, x) ↦
            let full : str_eq (svc.base64.encode_to_string ciphertext) "" ≡ false =
              elim (Bool-cases (str_eq (svc.base64.encode_to_string ciphertext) "")) [
                | inr full ↦ full
                | inl blank ↦
                    elim (encrypted_not_empty svc lawful seed ciphertext plaintext size x (
                      lawful.base64.covers ciphertext
                        ((eq_iff (svc.base64.encode_to_string ciphertext) "").0 blank))) [ ]
              ] in
            let same : encoded ≡ svc.base64.encode_to_string ciphertext =
              ground (arith, e, sealed, x) in
            let key : svc.has_master_key ≡ true = ground (arith, sealed) in
            rw
              (
                decrypt_field,
                same,
                full,
                key,
                lawful.base64.decodes ciphertext,
                decrypt-encrypt svc.cipher lawful.cipher seed ciphertext plaintext size x,
              )
              refl
      ]
    ]

-- A successful publish leaves its log, with the two encrypted fields, in the table.
pub publish-row :
    (svc : PublishService) (f : PublishFaults) (now : ℕ) (id : String) (seed seed' : Option Bytes)
    (user : String) (req : PublishRequest) (s : PublishState)
    → is_ok (publish svc f now id seed seed' user req s).1 ≡ true
    → (title content : String) × (encrypt_field svc seed req.title ≡ ok title)
      × (encrypt_field svc seed' req.content ≡ ok content)
      × (select_one (has_id id) (publish svc f now id seed seed' user req s).0.logs
          ≡ some (log_of id user now req title content))
unfolding publish enqueue create_log
publish-row svc f now id seed seed' user req s h =
    elim (Result-cases (encrypt_field svc seed req.title)) [
      | inr (bad, e) ↦ ground (arith, e, h)
      | inl (title, e) ↦ elim (Result-cases (encrypt_field svc seed' req.content)) [
        | inr (bad, e') ↦ ground (arith, e, e', h)
        | inl (content, e') ↦
            let log = log_of id user now req title content in
            (
              title,
              content,
              e,
              e',
              ground (
                arith,
                e,
                e',
                h,
                select_one-snoc (has_id id) (log_of id user now req title content) s.logs,
                eq_refl id,
              ),
            )
      ]
    ]

-- A log whose publication succeeded, and that no task has touched, cannot be read, not by its user
-- either: its URL and its error message are NULL.
pub publish_unreadable :
    (svc : PublishService) (f : PublishFaults) (now : ℕ) (id : String) (seed seed' : Option Bytes)
    (user reader : String) (req : PublishRequest) (s : PublishState)
    → is_ok (publish svc f now id seed seed' user req s).1 ≡ true
    → get_by_id svc false reader id (publish svc f now id seed seed' user req s).0 ≡ err database
unfolding get_by_id get_log scan
publish_unreadable svc f now id seed seed' user reader req s h =
    let (title, content, e, e', found) = publish-row svc f now id seed seed' user req s h in
    rw (get_by_id, get_log, found) refl
