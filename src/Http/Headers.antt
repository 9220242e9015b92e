-- ===== src/Http/Headers.antt =====
-- headers_, a `std::unordered_map` of strings (http/HttpRequest.h), as an association list.
use my_file_server.Common.{
  ◌≡◌, refl, List, [], ◌∷◌, Option, none, some, Bytes, if◌then◌else◌, equal, equal_iff, arith,
}

abbrev pub Headers : Type 0
Headers = List (Bytes × Bytes)

unfoldable pub lookup : Bytes → Headers → Option Bytes
lookup field [] = none
lookup field ((key, value) ∷ rest) =
    let later = lookup field rest in if equal key field then some value else later

-- `headers_[field] = value`
unfoldable pub insert : Bytes → Bytes → Headers → Headers
insert field value [] = (field, value) ∷ []
insert field value ((key, old) ∷ rest) =
    let later = insert field value rest in
    if equal key field then (key, value) ∷ rest else (key, old) ∷ later

-- The last value set for a key is the one found, and no other key is touched.
pub lookup-insert :
    (set asked value : Bytes) (m : Headers)
    → lookup asked (insert set value m) ≡ (if equal set asked then some value else lookup asked m)
unfolding lookup insert
lookup-insert set asked value [] = refl
lookup-insert set asked value ((key, old) ∷ rest) = ground (
  arith,
  equal_iff set asked,
  equal_iff key set,
  equal_iff key asked,
  lookup-insert set asked value rest,
)
