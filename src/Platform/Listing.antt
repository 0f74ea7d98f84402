-- ===== src/Platform/Listing.antt =====
-- The catalog of platforms, backend/internal/service/platform_service.go.
use anynote.Base.{
  exists-order_desc, ◌≡◌, refl, ◌∙◌, ap, Bool, true, false, ◌||◌, none, some, List, [], ◌∷◌, String,
  str_eq, ok, select, exists, order_desc, map, All, arith,
}
use anynote.Platform.Adapters.{Registry, get_adapter, list_names}
use anynote.Platform.Connections.{is_connection, list_by_user}
use anynote.Platform.Sorting.{IsSorted, sort_strings-IsSorted}
use anynote.Platform.Service.{
  Connections, PlatformCatalogEntry, catalog, entry_of, insert_name, sort_strings,
}

exists-mine :
    (user name : String) (rows : Connections)
    → exists (λ c. str_eq c.platform name) (select (λ c. str_eq c.user_id user) rows)
      ≡ exists (is_connection user name) rows
exists-mine user name [] = refl
exists-mine user name (r ∷ rows) = ground (arith, exists-mine user name rows)

-- A name in a list of names.
abbrev pub is_listed : String → List String → Bool
is_listed name [] = false
is_listed name (n ∷ names) = str_eq n name || is_listed name names

insert_name-is_listed :
    (name n : String) (names : List String)
    → is_listed name (insert_name n names) ≡ (str_eq n name || is_listed name names)
unfolding insert_name
insert_name-is_listed name n [] = refl
insert_name-is_listed name n (m ∷ names) = ground (arith, insert_name-is_listed name n names)

sort_strings-is_listed :
    (name : String) (names : List String)
    → is_listed name (sort_strings names) ≡ is_listed name names
unfolding sort_strings
sort_strings-is_listed name [] = refl
sort_strings-is_listed name (n ∷ names) =
    insert_name-is_listed name n (sort_strings names)
    ∙ ap (λ b. str_eq n name || b) (sort_strings-is_listed name names)

abbrev pub has_adapter : String → Registry → Bool
has_adapter name registry = elim (get_adapter name registry) [ none ↦ false | some _ ↦ true ]

list_names-is_listed :
    (name : String) (registry : Registry)
    → is_listed name (list_names registry) ≡ has_adapter name registry
unfolding list_names get_adapter
list_names-is_listed name [] = refl
list_names-is_listed name ((n, a) ∷ registry) = ground (arith, list_names-is_listed name registry)

abbrev pub entry_names : List PlatformCatalogEntry → List String
entry_names = map (λ e. e.platform)

names-entries :
    (mine : Connections) (names : List String) → entry_names (map (entry_of mine) names) ≡ names
names-entries mine [] = refl
names-entries mine (n ∷ names) = ap (λ l. n ∷ l) (names-entries mine names)

abbrev pub TellsConnected : String → Connections → PlatformCatalogEntry → Type 0
TellsConnected user rows e = e.connected ≡ exists (is_connection user e.platform) rows

told :
    (user : String) (rows : Connections) (names : List String)
    → All (TellsConnected user rows) (
        map
          (entry_of (order_desc (λ c. c.created_at) (select (λ c. str_eq c.user_id user) rows)))
          names)
told user rows [] = tt
told user rows (n ∷ names) = (
  exists-order_desc (λ c. str_eq c.platform n) (λ c. c.created_at)
        (select (λ c. str_eq c.user_id user) rows)
      ∙ exists-mine user n rows,
  told user rows names,
)

-- Where the query works, the catalog has an entry for exactly the platforms that have an adapter, in
-- the order of their names, and each says whether the user, and no other, has a connection to it.
pub catalog_lem :
    (registry : Registry) (user name : String) (rows : Connections)
    → (entries : List PlatformCatalogEntry) × (catalog registry false user rows ≡ ok entries)
      × (is_listed name (entry_names entries) ≡ has_adapter name registry)
      × IsSorted (entry_names entries)
      × All (TellsConnected user rows) entries
unfolding catalog list_by_user
catalog_lem registry user name rows =
    let mine = order_desc (λ c. c.created_at) (select (λ c. str_eq c.user_id user) rows) in
    let names = sort_strings (list_names registry) in
    (
      map (entry_of mine) names,
      refl,
      rw (names-entries mine names)
          (sort_strings-is_listed name (list_names registry) ∙ list_names-is_listed name registry),
      rw (names-entries mine names) (sort_strings-IsSorted (list_names registry)),
      told user rows names,
    )
