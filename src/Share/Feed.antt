-- ===== src/Share/Feed.antt =====
-- The discovery feed, backend/internal/service/share_service.go (DiscoverFeed).
use anynote.Base.{
  ℕ, ◌≤◌, ◌≡◌, refl, true, false, List, [], ◌∷◌, ok, map, select, length, length-take, All,
  All-take, All-drop, take, drop, order_desc, IsDescending, order_desc-All, order_desc-IsDescending,
  take-IsDescending, drop-IsDescending, arith,
}
use anynote.Base.Int.{ℤ, pos, negsuc}
use anynote.Share.{
  SharedNote, ShareStore, is_listed, item_of, feed_limit, feed_offset, discover_feed,
}

-- An item of a note that may be listed.
pub record IsPublic (now : ℕ) (n : SharedNote) : Type 0 where
  pub public : n.is_public ≡ true
  pub listed : is_listed now n ≡ true

select-IsPublic :
    (now : ℕ) (notes : List SharedNote) → All (IsPublic now) (select (is_listed now) notes)
select-IsPublic now [] = tt
select-IsPublic now (n ∷ notes) = ground (arith, select-IsPublic now notes)

feed_limit_le : (limit : ℤ) → feed_limit limit ≤ 100
feed_limit_le (pos n) = ground arith
feed_limit_le (negsuc n) = ground arith

-- The feed, for any limit and offset that a client sends, shows at most 100 notes, each of them
-- public and not expired, the newest first.
pub discover_feed_lem :
    (now : ℕ) (limit offset : ℤ) (s : ShareStore)
    → (notes : List SharedNote) × (discover_feed false now limit offset s ≡ ok (map item_of notes))
      × (length notes ≤ 100)
      × All (IsPublic now) notes
      × IsDescending (λ n. n.created_at) notes
unfolding discover_feed
discover_feed_lem now limit offset s =
    let listed = order_desc (λ n. n.created_at) (select (is_listed now) s.notes) in
    let rest = drop (feed_offset offset) listed in
    (
      take (feed_limit limit) rest,
      refl,
      omega (arith, length-take (feed_limit limit) rest, feed_limit_le limit),
      All-take (IsPublic now) (feed_limit limit) rest (
          All-drop (IsPublic now) (feed_offset offset) listed (
            order_desc-All (IsPublic now) (λ n. n.created_at) (select (is_listed now) s.notes)
              (select-IsPublic now s.notes))),
      take-IsDescending (λ n. n.created_at) (feed_limit limit) rest
          (drop-IsDescending (λ n. n.created_at) (feed_offset offset) listed
            (order_desc-IsDescending (λ n. n.created_at) (select (is_listed now) s.notes))),
    )
