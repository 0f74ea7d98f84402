-- ===== src/LlmConfig/Updates.antt =====
-- What changing and resolving a configuration does,
-- backend/internal/service/llm_config_service.go and llm_config_resolver.go.
use anynote.Base.{
  ℕ, ◌≡◌, refl, ap, inl, inr, Bool, true, false, Option, some, List, [], ◌∷◌, ◌++◌, String, str_eq,
  eq_iff, eq_refl, ok, is_ok, select_one, select_one-snoc, update, exists, length, arith,
  Bool-cases, Result-cases,
}
use anynote.LlmConfig.{LlmConfigService, merged, change_config, create_config, check_url}
use anynote.LlmConfig.Tables.{
  LlmConfig, has_id, is_row, is_default_of, overwritten, get_by_id, get_default_by_user,
  update_config, create,
}
use anynote.LlmConfig.Resolver.{user_llm_config, gateway_config}
use anynote.LlmConfig.Crypto.{Bytes, IsCipher, encrypt_api_key, decrypt-encrypt}
use anynote.LlmConfig.Urls.{validate_base_url}

update-none :
    (p : LlmConfig → Bool) (f : LlmConfig → LlmConfig) (rows : List LlmConfig)
    → exists p rows ≡ false
    → update p f rows ≡ rows
update-none p f [] h = refl
update-none p f (r ∷ rows) h = ground (arith, update-none p f rows)

-- A change by the row's own user whose configuration names no user, or one that has no such row,
-- and gives no new key, is answered with success where the URL is good and no query fails, and
-- changes nothing.
pub change_lost :
    (svc : LlmConfigService) (seed : Option Bytes) (user : String) (cfg existing : LlmConfig)
    (rows : List LlmConfig)
    → select_one (has_id cfg.id) rows ≡ some existing
    → existing.user_id ≡ user
    → exists (is_row cfg.id cfg.user_id) rows ≡ false
    → cfg.decrypted_key ≡ ""
    → check_url svc (merged cfg existing) ≡ true
    → (r : LlmConfig) × (change_config svc false false seed user cfg rows ≡ (rows, ok r))
unfolding change_config update_config get_by_id
change_lost svc seed user cfg existing rows e own other key url =
    let cfg' : LlmConfig = record (merged cfg existing) {
      encrypted_key = existing.encrypted_key;
      decrypted_key = "";
    } in
    let mine : str_eq existing.user_id user ≡ true = rw own (eq_refl user) in
    (
      cfg',
      rw (change_config, get_by_id, e, mine, url, key, update_config)
          (ap (λ x. (x, ok cfg'))
            (update-none (is_row cfg.id cfg.user_id) (overwritten cfg') rows other)),
    )

row-update :
    (id user : String) (f : LlmConfig → LlmConfig) (rows : List LlmConfig) (r : LlmConfig)
    → ((x : LlmConfig) → (f x).id ≡ x.id)
    → select_one (has_id id) rows ≡ some r
    → r.user_id ≡ user
    → select_one (has_id id) (update (is_row id user) f rows) ≡ some (f r)
row-update id user f [] r same h own = cc
row-update id user f (x ∷ rows) r same h own =
    ground (
      arith,
      row-update id user f rows r same,
      same x,
      eq_iff x.user_id user,
      eq_iff r.user_id user,
    )

-- A request that is empty but for the default flag.
abbrev pub default_flag : String → String → Bool → LlmConfig
default_flag id user flag = record {
  id = id;
  user_id = user;
  name = "";
  provider = "";
  base_url = "";
  encrypted_key = [];
  decrypted_key = "";
  model = "";
  is_default = flag;
  max_tokens = 0;
  temperature = 0;
  created_at = 0;
}

-- A change of the default flag alone, by the row's user and with that user named, changes the flag in
-- the row and nothing else of it: the key and the other fields stay what they were.
pub change_default_flag :
    (svc : LlmConfigService) (seed : Option Bytes) (id user : String) (flag : Bool)
    (existing : LlmConfig) (rows : List LlmConfig)
    → select_one (has_id id) rows ≡ some existing
    → existing.user_id ≡ user
    → check_url svc (merged (default_flag id user flag) existing) ≡ true
    → select_one
        (has_id id)
        (change_config svc false false seed user (default_flag id user flag) rows).0
      ≡ some (record existing { is_default = flag })
unfolding change_config update_config get_by_id
change_default_flag svc seed id user flag existing rows e own url =
    let mine : str_eq existing.user_id user ≡ true = rw own (eq_refl user) in
    let cfg' : LlmConfig = record (merged (default_flag id user flag) existing) {
      encrypted_key = existing.encrypted_key;
    } in
    rw (change_config, get_by_id, e, mine, url, update_config)
      (row-update id user (overwritten cfg') rows existing (λ x. refl) e own)

-- With a lawful cipher: a default configuration that a user without one creates, with a nonce of
-- the cipher's size and with success, is the one that the user's next request uses, with the key
-- that was given, where the query for it works.
pub create_then_use :
    (svc : LlmConfigService) (lawful : IsCipher svc.cipher) (now : ℕ) (id user : String)
    (seed : Bytes) (list_fails : Bool) (cfg : LlmConfig) (rows : List LlmConfig)
    → length seed ≡ svc.cipher.nonce_size
    → cfg.is_default ≡ true
    → exists (is_default_of user) rows ≡ false
    → is_ok (create_config svc false now id (some seed) user cfg rows).1 ≡ true
    → user_llm_config svc.cipher false list_fails user
        (create_config svc false now id (some seed) user cfg rows).0
      ≡ some (gateway_config cfg cfg.decrypted_key)
unfolding create_config create user_llm_config get_default_by_user
create_then_use svc lawful now id user seed list_fails cfg rows size default_ fresh h =
    elim (Result-cases (validate_base_url svc.lookup_ip cfg.base_url)) [
      | inr (bad, e) ↦ ground (arith, e, h)
      | inl (good, e) ↦
          elim (Result-cases (encrypt_api_key svc.cipher (some seed) cfg.decrypted_key)) [
            | inr (bad, e') ↦ ground (arith, e, e', h)
            | inl (sealed, e') ↦ elim (Bool-cases (exists (has_id id) rows)) [
              | inl taken ↦ ground (arith, e, e', taken, h)
              | inr free ↦
                  let plain =
                    decrypt-encrypt svc.cipher lawful seed sealed cfg.decrypted_key size e' in
                  let row : LlmConfig = record cfg {
                    id = id;
                    user_id = user;
                    encrypted_key = sealed;
                    decrypted_key = "";
                    created_at = now;
                  } in
                  let found : select_one (is_default_of user) (rows ++ row ∷ []) ≡ some row =
                    select_one-snoc (is_default_of user) row rows fresh
                      (rw (eq_refl user) default_) in
                  rw
                    (
                      create_config, e, e', create, free, user_llm_config, get_default_by_user,
                      found, plain,
                    )
                    refl
            ]
          ]
    ]
