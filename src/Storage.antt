-- ===== src/Storage.antt =====
-- The browser's localStorage, as the program uses it: getItem, setItem and removeItem on texts.
-- The order of the entries is never observed.
use tkd_chb.Base.{
  ◌≡◌, refl, String, ◌==◌, eq_iff, Option, none, some, List, [], ◌∷◌, arith, if◌then◌else◌, Bool,
  any,
}

abbrev pub Storage : Type 0
Storage = List (String × String)

unfoldable pub get_item : Storage → String → Option String
get_item [] k = none
get_item ((j, v) ∷ s) k = if j == k then some v else get_item s k

unfoldable pub remove_item : String → Storage → Storage
remove_item k [] = []
remove_item k ((j, v) ∷ s) = let rest = remove_item k s in if j == k then rest else (j, v) ∷ rest

unfoldable pub set_item : String → String → Storage → Storage
set_item k v s = (k, v) ∷ remove_item k s

unfoldable pub remove_items : List String → Storage → Storage
remove_items [] s = s
remove_items (k ∷ ks) s = remove_items ks (remove_item k s)

pub get_item-remove_item :
    (k j : String) (s : Storage)
    → get_item (remove_item k s) j ≡ (if k == j then none else get_item s j)
unfolding get_item remove_item
get_item-remove_item k j [] = ground arith
get_item-remove_item k j ((i, v) ∷ s) =
    ground (arith, get_item-remove_item k j s, eq_iff i k, eq_iff i j, eq_iff k j)

pub get_item-set_item :
    (k v j : String) (s : Storage)
    → get_item (set_item k v s) j ≡ (if k == j then some v else get_item s j)
unfolding get_item set_item
get_item-set_item k v j s = ground (arith, get_item-remove_item k j s)

abbrev pub listed : List String → String → Bool
listed ks k = any (λ j. j == k) ks

pub get_item-remove_items :
    (ks : List String) (k : String) (s : Storage)
    → get_item (remove_items ks s) k ≡ (if listed ks k then none else get_item s k)
unfolding remove_items
get_item-remove_items [] k s = refl
get_item-remove_items (j ∷ ks) k s =
    ground (arith, get_item-remove_items ks k (remove_item j s), get_item-remove_item j k s)

pub ruleset storage_laws = (get_item-remove_item, get_item-set_item)
