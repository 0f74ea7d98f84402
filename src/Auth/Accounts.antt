-- ===== src/Auth/Accounts.antt =====
-- Accounts under registrations and other requests, backend/internal/service/auth_service.go over
-- backend/internal/repository/user_repository.go (Create): an account that is there stays what it is.
use anynote.Base.{
  ℕ, ◌≡◌, refl, inl, inr, Bool, true, false, ◌||◌, Option, ◌∙◌, ◌⊎◌, some, List, [], ◌∷◌, ◌++◌,
  String, eq_refl, select_one, select_one-append, select_one-snoc, exists, arith, Bool-cases,
  Option-cases, Result-cases,
}
use anynote.Auth.{
  AuthService, register, login, refresh, check_refresh, rotate, generate_auth_response,
  revoked_store,
}
use anynote.Auth.Tables.{
  Account, AuthStore, TokenFaults, has_email, has_username, has_account_id, get_by_email,
  get_by_username, create_account,
}
use anynote.Auth.Calls.{
  AuthCall, registering, logging_in, refreshing, purging, run_call, run, keep_token-accounts,
  respond-accounts,
}

module _ (hash : String → Option String) (recovery : String → String) (fails : Bool) (new : Account)
    (accounts : List Account) where
  abbrev hashed : String → String → Account
  hashed key rec = record new { auth_key_hash = key; recovery_key = rec }

  abbrev made : List Account × Bool
  made = create_account hash recovery fails new accounts

  -- An account is created with its hashed key where its email is not taken, or none is.
  create_account-cases :
      ((made.0 ≡ accounts) × (made.1 ≡ false))
      ⊎ (key rec : String) × (hash new.auth_key_hash ≡ some key)
        × (exists (has_email new.email) accounts ≡ false)
        × (made.0 ≡ accounts ++ hashed key rec ∷ [])
  unfolding create_account
  create_account-cases = elim (Option-cases (hash new.auth_key_hash)) [
    | inl e ↦ inl (ground (arith, e), ground (arith, e))
    | inr (key, e) ↦ elim (Option-cases (hash (recovery new.recovery_key))) [
      | inl e' ↦ inl (ground (arith, e, e'), ground (arith, e, e'))
      | inr (rec, e') ↦
          elim (Bool-cases (
            fails
            || exists (has_email new.email) accounts
            || exists (has_username new.username) accounts
            || exists (has_account_id new.id) accounts)) [
              | inl bad ↦ inl (ground (arith, e, e', bad), ground (arith, e, e', bad))
              | inr good ↦
                  inr (key, rec, e, ground (arith, good), rw (create_account, e, e', good) refl)
            ]
    ]
  ]

  create_account-keeps :
      (p : Account → Bool) (u : Account)
      → select_one p accounts ≡ some u
      → select_one p made.0 ≡ some u
  create_account-keeps p u h = elim create_account-cases [
    | inl (e, _) ↦ rw e h
    | inr (key, rec, _, _, e) ↦ rw e (select_one-append p (hashed key rec) u accounts h)
  ]

  pub create_account-row :
      made.1 ≡ true
      → (u : Account) × (select_one (has_email new.email) made.0 ≡ some u)
        × (hash new.auth_key_hash ≡ some u.auth_key_hash)
        × (u.id ≡ new.id)
  create_account-row h = elim create_account-cases [
    | inl (_, e) ↦ ground (arith, e, h)
    | inr (key, rec, k, free, e) ↦ (
      hashed key rec,
      rw e (
          select_one-snoc (has_email new.email) (hashed key rec) accounts free (eq_refl new.email)),
      k,
      refl,
    )
  ]

-- An account stays what it is for every query.
module _ (svc : AuthService) (f : TokenFaults) (now later : ℕ) (p : Account → Bool)
    (u : Account) where
  register-keeps :
      (new : Account) (id : String) (s : AuthStore)
      → select_one p s.accounts ≡ some u
      → select_one p (register svc f now later new id s).0.accounts ≡ some u
  unfolding register
  register-keeps new id s h =
      elim (Option-cases (get_by_email f.email_fails new.email s.accounts)) [
        | inr (_, e) ↦ rw (register, e) h
        | inl e ↦
            rw (register, e)
              elim (Option-cases (get_by_username f.username_fails new.username s.accounts)) [
                | inr (_, e') ↦ rw e' h
                | inl e' ↦
                    rw e'
                      let user : Account = record new { plan = "free" } in
                        let fields =
                          create_account svc.crypto.hash svc.crypto.hash_recovery f.create_fails
                            user s.accounts in
                        let keeps =
                          create_account-keeps svc.crypto.hash svc.crypto.hash_recovery
                            f.create_fails user s.accounts p u h in
                        elim (Bool-cases fields.1) [
                          | inl done ↦
                              rw
                                (
                                  done,
                                  respond-accounts svc f now later user id
                                      (record s { accounts = fields.0 }),
                                )
                                keeps
                          | inr failed ↦ rw failed h
                        ]
              ]
      ]

  login-accounts :
      (email key id : String) (s : AuthStore)
      → (login svc f now later email key id s).0.accounts ≡ s.accounts
  unfolding login
  login-accounts email key id s =
      elim (Option-cases (get_by_email f.email_fails email s.accounts)) [
        | inl e ↦ rw (login, e) refl
        | inr (user, e) ↦
            rw (login, e)
              elim (Bool-cases (svc.crypto.compare_hash user.auth_key_hash key)) [
                | inl good ↦ rw good (respond-accounts svc f now later user id s)
                | inr bad ↦ rw bad refl
              ]
      ]

  refresh-accounts :
      (token id : String) (s : AuthStore)
      → (refresh svc f now later token id s).0.accounts ≡ s.accounts
  unfolding refresh rotate
  refresh-accounts token id s = elim (Result-cases (check_refresh svc f now later token s)) [
    | inl ((c, user), e) ↦
        rw (refresh, e)
          elim (Result-cases (generate_auth_response svc f now later user id)) [
            | inl (resp, e') ↦
                rw (rotate, e')
                  (keep_token-accounts svc f now later user.id resp
                      (revoked_store svc f now later c s)
                    ∙ revoked_store-accounts c s)
            | inr (fault, e') ↦ rw (rotate, e') refl
          ]
    | inr (fault, e) ↦ rw (refresh, e) refl
  ]
    where
      revoked_store-accounts :
          (c : _) (s : AuthStore) → (revoked_store svc f now later c s).accounts ≡ s.accounts
      revoked_store-accounts c s = ground arith

pub run-keeps :
    (svc : AuthService) (p : Account → Bool) (u : Account) (calls : List AuthCall) (s : AuthStore)
    → select_one p s.accounts ≡ some u
    → select_one p (run svc calls s).accounts ≡ some u
unfolding run run_call
run-keeps svc p u [] s h = h
run-keeps svc p u (registering f now later new id ∷ calls) s h =
    run-keeps svc p u calls _ (register-keeps svc f now later p u new id s h)
run-keeps svc p u (logging_in f now later email key id ∷ calls) s h =
    run-keeps svc p u calls _ (rw (login-accounts svc f now later p u email key id s) h)
run-keeps svc p u (refreshing f now later token id ∷ calls) s h =
    run-keeps svc p u calls _ (rw (refresh-accounts svc f now later p u token id s) h)
run-keeps svc p u (purging now ∷ calls) s h = run-keeps svc p u calls _ h
