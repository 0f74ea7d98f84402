-- ===== src/Platform/Rows.antt =====
-- The rows of one user under the calls of another, backend/internal/service/platform_service.go.
use anynote.Base.{
  ℕ, ◌≡◌, refl, Bool, true, false, some, [], ◌∷◌, ◌++◌, String, str_eq, eq_iff, eq_refl, select,
  select_one, select_one-true, update, delete, exists, inl, inr, arith, Bool-cases, Option-cases,
}
use anynote.LlmConfig.Crypto.{Bytes}
use anynote.Platform.Adapters.{Registry}
use anynote.Platform.Connections.{
  PlatformConnection, has_id, is_connection, is_own, overwritten, inserted, create, delete_by_id,
  update_connection, get_by_platform,
}
use anynote.Platform.Service.{
  Connections, Faults, connect, disconnect, verify, connection_of, status_active,
}
use anynote.Platform.Sessions.{save_auth}
use anynote.Platform.Unique.{IsUnique}

abbrev pub rows_of : String → Connections → Connections
rows_of v rows = select (λ c. str_eq c.user_id v) rows

select_one-has_id :
    (p : PlatformConnection → Bool) (c : PlatformConnection) (rows : Connections)
    → select_one p rows ≡ some c
    → exists (has_id c.id) rows ≡ true
select_one-has_id p c [] h = cc
select_one-has_id p c (r ∷ rows) h = elim (Bool-cases (p r)) [
  | inl e ↦ let same : r ≡ c = ground (arith, e, h) in rw (← same, eq_refl r.id) refl
  | inr e ↦ ground (arith, select_one-has_id p c rows (ground (arith, e, h)))
]

delete-absent :
    (id : String) (rows : Connections)
    → exists (has_id id) rows ≡ false
    → delete (has_id id) rows ≡ rows
delete-absent id [] h = refl
delete-absent id (r ∷ rows) h = ground (arith, h, delete-absent id rows)

module _ (v u p : String) (differs : str_eq u v ≡ false) where
  rows-create :
      (fails : Bool) (now : ℕ) (c : PlatformConnection) (rows rows' : Connections)
      → c.user_id ≡ u
      → create fails now c rows ≡ some rows'
      → rows_of v rows' ≡ rows_of v rows
  unfolding create
  rows-create fails now c rows rows' mine h =
      let added : rows' ≡ rows ++ inserted now c ∷ [] = ground (arith, h) in rw added (snoc rows)
    where
      snoc : (rows : Connections) → rows_of v (rows ++ inserted now c ∷ []) ≡ rows_of v rows
      snoc [] = rw (mine, differs) refl
      snoc (r ∷ rows) = ground (arith, snoc rows)

  rows-update :
      (fails : Bool) (now : ℕ) (c : PlatformConnection) (rows rows' : Connections)
      → c.user_id ≡ u
      → update_connection fails now c rows ≡ some rows'
      → rows_of v rows' ≡ rows_of v rows
  unfolding update_connection
  rows-update fails now c rows rows' mine h =
      let changed : rows' ≡ update (is_own c) (overwritten now c) rows = ground (arith, h) in
      rw changed (over rows)
    where
      over :
          (rows : Connections)
          → rows_of v (update (is_own c) (overwritten now c) rows) ≡ rows_of v rows
      over [] = refl
      over (r ∷ rows) = ground (
        arith,
        mine,
        differs,
        over rows,
        eq_iff r.user_id c.user_id,
        eq_iff r.user_id v,
        eq_iff u v,
      )

  rows-delete :
      (c : PlatformConnection) (rows : Connections)
      → IsUnique rows
      → select_one (is_connection u p) rows ≡ some c
      → rows_of v (delete (has_id c.id) rows) ≡ rows_of v rows
  rows-delete c [] d h = refl
  rows-delete c (r ∷ rows) d h = elim (Bool-cases (is_connection u p r)) [
    | inl e ↦
        let same : r ≡ c = ground (arith, e, h) in
        let other : str_eq r.user_id v ≡ false =
          ground (arith, e, differs, eq_iff r.user_id u, eq_iff r.user_id v, eq_iff u v) in
        let gone : exists (has_id c.id) rows ≡ false = rw (← same) d.0 in
        let self : has_id c.id r ≡ true = rw (← same) (eq_refl r.id) in
        rw (self, other, delete-absent c.id rows gone) refl
    | inr e ↦
        let found : select_one (is_connection u p) rows ≡ some c = ground (arith, e, h) in
        let here = select_one-has_id (is_connection u p) c rows found in
        let rest = rows-delete c rows d.2 found in
        let differ : str_eq r.id c.id ≡ false = ground (arith, d.0, here, eq_iff r.id c.id) in
        rw differ (ground (arith, rest))
  ]

  found-user :
      (fails : Bool) (c : PlatformConnection) (rows : Connections)
      → get_by_platform fails u p rows ≡ some c
      → (select_one (is_connection u p) rows ≡ some c) × (c.user_id ≡ u)
  unfolding get_by_platform
  found-user fails c rows h =
      let one : select_one (is_connection u p) rows ≡ some c = ground (arith, h) in
      let mine = select_one-true (is_connection u p) c rows one in
      (one, ground (arith, mine, eq_iff c.user_id u))

  module _ (f : Faults) (now : ℕ) where
    pub connect-rows :
        (id : String) (rows : Connections)
        → rows_of v (connect f now id u p rows).0 ≡ rows_of v rows
    unfolding connect
    connect-rows id rows = elim (Option-cases (get_by_platform f.get_fails u p rows)) [
      | inr (c, e) ↦ rw (connect, e) refl
      | inl e ↦
          let c = connection_of id u p [] "pending" in
          elim (Option-cases (create f.write_fails now c rows)) [
            | inl e' ↦ rw (connect, e, e') refl
            | inr (rows', e') ↦
                rw (connect, e, e') (rows-create f.write_fails now c rows rows' refl e')
          ]
    ]

    pub disconnect-rows :
        (registry : Registry) (rows : Connections)
        → IsUnique rows
        → rows_of v (disconnect f now registry u p rows).0 ≡ rows_of v rows
    unfolding disconnect delete_by_id
    disconnect-rows registry rows d = elim (Option-cases (get_by_platform f.get_fails u p rows)) [
      | inl e ↦ rw (disconnect, e) refl
      | inr (c, e) ↦
          let gone = rows-delete c rows d (found-user f.get_fails c rows e).0 in
          elim (Bool-cases f.write_fails) [
            | inl e' ↦ rw (disconnect, e, delete_by_id, e') refl
            | inr e' ↦ rw (disconnect, e, delete_by_id, e') gone
          ]
    ]

    pub verify-rows : (rows : Connections) → rows_of v (verify f now u p rows).0 ≡ rows_of v rows
    unfolding verify
    verify-rows rows = elim (Option-cases (get_by_platform f.get_fails u p rows)) [
      | inl e ↦ rw (verify, e) refl
      | inr (c, e) ↦
          let c' = record c { status = status_active } in
          elim (Option-cases (update_connection f.write_fails now c' rows)) [
            | inl e' ↦ rw (verify, e, e') refl
            | inr (rows', e') ↦
                rw (verify, e, e')
                  (rows-update f.write_fails now c' rows rows' (found-user f.get_fails c rows e).1
                    e')
          ]
    ]

    pub save_auth-rows :
        (id : String) (auth : Bytes) (rows rows' : Connections)
        → save_auth f now id u p auth rows ≡ some rows'
        → rows_of v rows' ≡ rows_of v rows
    unfolding save_auth
    save_auth-rows id auth rows rows' h =
        elim (Option-cases (get_by_platform f.get_fails u p rows)) [
          | inl e ↦
              rows-create f.write_fails now (connection_of id u p auth status_active) rows rows'
                refl (ground (arith, e, h))
          | inr (c, e) ↦
              rows-update f.write_fails now
                (record c { encrypted_auth = auth; status = status_active }) rows rows'
                (found-user f.get_fails c rows e).1 (ground (arith, e, h))
        ]
