-- ===== src/Http/Headers.antt =====
-- `std::map<std::string, std::string>`: an association list in the order of its keys.
use lute.Prelude.{◌≡◌, refl, List, [], ◌∷◌, Option, none, some, arith, if◌then◌else◌}
use lute.Http.Bytes.{Bytes, equal, equal_iff, less}

abbrev pub HeaderMap : Type 0
HeaderMap = List (Bytes × Bytes)

-- `headers_[key] = value`
unfoldable pub set : Bytes → Bytes → HeaderMap → HeaderMap
unfolding equal less
set key value [] = (key, value) ∷ []
set key value ((k, v) ∷ rest) =
    if equal k key
    then (k, value) ∷ rest
    else let later = (k, v) ∷ set key value rest in
      if less key k then (key, value) ∷ (k, v) ∷ rest else later

unfoldable pub find : Bytes → HeaderMap → Option Bytes
unfolding equal
find key [] = none
find key ((k, v) ∷ rest) = if equal k key then some v else find key rest

-- A lookup sees the last value that was set for its key, and every other key as before.
pub find-set :
    (key value other : Bytes) (m : HeaderMap)
    → find other (set key value m) ≡ (if equal key other then some value else find other m)
unfolding find set
find-set key value other [] = refl
find-set key value other ((k, v) ∷ rest) =
    ground (
      arith,
      equal_iff k key,
      equal_iff k other,
      equal_iff key other,
      find-set key value other rest,
    )
