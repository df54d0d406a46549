-- ===== src/Listing/Pages.antt =====
-- PaginatedList.jsx: the pages of a list.
pub mod Laws
use tkd_chb.Base.{
  ℕ, zero, suc, ◌+◌, ◌-◌, ◌*◌, ◌/◌, Bool, true, false, ◌&&◌, List, [], ◌∷◌, length, leb,
  if◌then◌else◌,
}

module _ {ℓ} {A : Type ℓ} where
  unfoldable pub drop : ℕ → List A → List A
  drop zero xs = xs
  drop (suc n) [] = []
  drop (suc n) (x ∷ xs) = drop n xs

  unfoldable pub take : ℕ → List A → List A
  take zero xs = []
  take (suc n) [] = []
  take (suc n) (x ∷ xs) = x ∷ take n xs

  -- items.slice(from, to)
  unfoldable pub slice : ℕ → ℕ → List A → List A
  slice from to xs = take (to - from) (drop from xs)

  -- Math.ceil(items.length / itemsPerPage)
  unfoldable pub total_pages : ℕ → List A → ℕ
  total_pages per items = (length items + (per - 1)) / per

  -- currentItems of a page
  unfoldable pub current_items : ℕ → List A → ℕ → List A
  current_items per items page = slice ((page - 1) * per) (page * per) items

  -- handlePageClick(newPage): the page afterwards
  unfoldable pub handle_page_click : ℕ → List A → ℕ → ℕ → ℕ
  handle_page_click per items page new_page =
      if leb 1 new_page && leb new_page (total_pages per items) then new_page else page
