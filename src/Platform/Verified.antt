-- ===== src/Platform/Verified.antt =====
-- A connection that is verified and cannot publish, backend/internal/service/platform_service.go.
use anynote.Base.{
  ℕ, ◌≡◌, refl, true, false, none, some, [], ◌∷◌, ◌++◌, String, eq_refl, err, select_one,
  select_one-snoc, exists, arith,
}
use anynote.LlmConfig.Crypto.{Bytes}
use anynote.Platform.Adapters.{Registry, Adapter, get_adapter}
use anynote.Platform.Connections.{
  PlatformConnection, has_id, is_connection, overwritten, inserted, create, update_connection,
  get_by_platform,
}
use anynote.Platform.Service.{
  Connections, auth_expired, connect, verify, publish, publish_with, connection_of, status_active,
  PlatformPublishRequest,
}
use anynote.Platform.Auth.{no_faults, HasAuth, update-found, publish-HasAuth}

connect-new :
    (u p id : String) (now : ℕ) (rows : Connections)
    → exists (is_connection u p) rows ≡ false
    → exists (has_id id) rows ≡ false
    → (connect no_faults now id u p rows).0
      ≡ rows ++ inserted now (connection_of id u p [] "pending") ∷ []
unfolding connect create get_by_platform
connect-new u p id now rows free fresh = ground (arith, free, fresh, unfound_of rows)
  where
    unfound_of :
        (rows : Connections)
        → exists (is_connection u p) rows ≡ false
        → select_one (is_connection u p) rows ≡ none
    unfound_of [] h = refl
    unfound_of (r ∷ rows) h = ground (arith, h, unfound_of rows)

-- Verify leaves the data that a connection has.
verify-HasAuth :
    (u p : String) (now : ℕ) (d : PlatformConnection) (rows : Connections)
    → get_by_platform false u p rows ≡ some d
    → HasAuth u p d.encrypted_auth (verify no_faults now u p rows).0
unfolding verify update_connection get_by_platform
verify-HasAuth u p now d rows found =
    let c = record d { status = status_active } in
    let over = update-found u p now c d rows refl refl found in
    rw (verify, found) (overwritten now c d, over, refl, refl)

connect-found :
    (u p id : String) (now : ℕ) (rows : Connections)
    → exists (is_connection u p) rows ≡ false
    → get_by_platform false u p (rows ++ inserted now (connection_of id u p [] "pending") ∷ [])
      ≡ some (inserted now (connection_of id u p [] "pending"))
unfolding get_by_platform
connect-found u p id now rows free =
    let d = inserted now (connection_of id u p [] "pending") in
    let pair : is_connection u p d ≡ true = rw (eq_refl u, eq_refl p) refl in
    select_one-snoc (is_connection u p) d rows free pair

-- For a user and platform without a connection, under an id that is free: after Connect and then
-- Verify, no query of which fails, the connection is active with no data, whatever the platform
-- would say, and publishing with it is refused as expired.
pub verify_unusable :
    (u p id log : String) (registry : Registry) (adapter : Adapter) (now later : ℕ) (key : Bytes)
    (req : PlatformPublishRequest) (rows : Connections)
    → get_adapter p registry ≡ some adapter
    → exists (is_connection u p) rows ≡ false
    → exists (has_id id) rows ≡ false
    → let rows' = (verify no_faults later u p (connect no_faults now id u p rows).0).0 in
      HasAuth u p [] rows' × (publish registry false log u p req key rows' ≡ err auth_expired)
unfolding publish_with
verify_unusable u p id log registry adapter now later key req rows ea free fresh =
    let d = inserted now (connection_of id u p [] "pending") in
    let rows1 = rows ++ d ∷ [] in
    let has = verify-HasAuth u p later d rows1 (connect-found u p id now rows free) in
    rw (connect-new u p id now rows free fresh) (
      has,
      publish-HasAuth u p registry adapter ea [] key log req (verify no_faults later u p rows1).0
          has,
    )
