-- ===== src/Platform/Auth.antt =====
-- The data of a connection: what a sign-in stores, and what publishing then uses;
-- backend/internal/service/platform_service.go.
use anynote.Base.{
  ℕ, ◌≡◌, refl, true, false, some, [], ◌∷◌, ◌++◌, String, eq_refl, select_one, select_one-snoc,
  update, exists, inl, inr, arith, Bool-cases, Option-cases,
}
use anynote.LlmConfig.Crypto.{Bytes}
use anynote.Platform.Adapters.{Registry, Adapter, get_adapter}
use anynote.Platform.Connections.{
  PlatformConnection, has_id, is_connection, is_own, overwritten, inserted, create,
  update_connection, get_by_platform,
}
use anynote.Platform.Service.{
  Connections, Faults, publish, publish_with, connection_of, status_active, PlatformPublishRequest,
}
use anynote.Platform.Sessions.{save_auth}
use anynote.Platform.Unique.{absent}

abbrev pub no_faults : Faults
no_faults = record { get_fails = false; write_fails = false }

module _ (u p : String) where
  -- The row that a lookup finds, after it was overwritten.
  pub update-found :
      (now : ℕ) (c d : PlatformConnection) (rows : Connections)
      → c.id ≡ d.id
      → c.user_id ≡ d.user_id
      → select_one (is_connection u p) rows ≡ some d
      → select_one (is_connection u p) (update (is_own c) (overwritten now c) rows)
        ≡ some (overwritten now c d)
  update-found now c d [] same same' h = cc
  update-found now c d (r ∷ rows) same same' h = elim (Bool-cases (is_connection u p r)) [
    | inl e ↦
        let here : r ≡ d = ground (arith, e, h) in
        let own : is_own c r ≡ true =
          rw (here, same, same', eq_refl d.id, eq_refl d.user_id) refl in
        rw (own, e, here) refl
    | inr e ↦ ground (arith, e, h, update-found now c d rows same same' (ground (arith, e, h)))
  ]

  -- What a lookup then finds: the data of the sign-in, in an active connection.
  abbrev pub HasAuth : Bytes → Connections → Type 0
  HasAuth auth rows =
      (c : PlatformConnection) × (get_by_platform false u p rows ≡ some c)
      × (c.encrypted_auth ≡ auth)
      × (c.status ≡ "active")

  pub save_auth_lem :
      (now : ℕ) (id : String) (auth : Bytes) (rows : Connections)
      → exists (has_id id) rows ≡ false
      → (rows' : Connections) × (save_auth no_faults now id u p auth rows ≡ some rows')
        × HasAuth auth rows'
  unfolding save_auth create update_connection get_by_platform
  save_auth_lem now id auth rows fresh = elim (Option-cases (get_by_platform false u p rows)) [
    | inl e ↦
        let c = connection_of id u p auth status_active in
        let free = absent u p rows e in
        let pair : is_connection u p (inserted now c) ≡ true = rw (eq_refl u, eq_refl p) refl in
        (
          rows ++ inserted now c ∷ [],
          ground (arith, e, fresh, free),
          (
            inserted now c,
            select_one-snoc (is_connection u p) (inserted now c) rows free pair,
            refl,
            refl,
          ),
        )
    | inr (d, e) ↦
        let c = record d { encrypted_auth = auth; status = status_active } in
        (
          update (is_own c) (overwritten now c) rows,
          ground (arith, e),
          (overwritten now c d, update-found now c d rows refl refl e, refl, refl),
        )
  ]

  module _ (registry : Registry) (adapter : Adapter)
      (found : get_adapter p registry ≡ some adapter) where
    pub publish-HasAuth :
        (auth key : Bytes) (id : String) (req : PlatformPublishRequest) (rows : Connections)
        → HasAuth auth rows
        → publish registry false id u p req key rows ≡ publish_with adapter id u p req key auth
    unfolding publish
    publish-HasAuth auth key id req rows (c, e, same, active) = rw (publish, found, e, same) refl
