-- ===== src/Listing/Pages/Laws.antt =====
-- The pages hold every item once, in order.
use tkd_chb.Base.{
  ◌≡◌, refl, sym, ap, ◌∙◌, ℕ, zero, suc, ◌+◌, ◌-◌, ◌*◌, ◌≤◌, ◌<◌, List, [], ◌∷◌, ◌++◌, length,
  arith,
}
use mathlib.Core.List.{append-nil, append_assoc}
use native.Mathlib.Nat.{suc-mul, mod-lt, mod-add-div'}
use tkd_chb.Listing.Pages.{drop, take, slice, total_pages, current_items}

module _ {ℓ} {A : Type ℓ} where
  drop_zero : (xs : List A) → drop 0 xs ≡ xs
  unfolding drop
  drop_zero xs = refl

  drop-drop : (m n k : ℕ) (xs : List A) → k ≡ n + m → drop m (drop n xs) ≡ drop k xs
  unfolding drop
  drop-drop m zero k xs e = ap (λ i. drop i xs) (omega arith)
  drop-drop zero (suc n) zero [] e = refl
  drop-drop zero (suc n) (suc k) [] e = refl
  drop-drop (suc m) (suc n) zero [] e = refl
  drop-drop (suc m) (suc n) (suc k) [] e = refl
  drop-drop m (suc n) zero (x ∷ xs) e = absurd (omega arith)
  drop-drop m (suc n) (suc k) (x ∷ xs) e = drop-drop m n k xs (omega arith)

  take-drop : (n : ℕ) (xs : List A) → take n xs ++ drop n xs ≡ xs
  unfolding take drop
  take-drop zero xs = refl
  take-drop (suc n) [] = refl
  take-drop (suc n) (x ∷ xs) = rw (take-drop n xs)

  drop_all : (n : ℕ) (xs : List A) → length xs ≤ n → drop n xs ≡ []
  unfolding drop
  drop_all zero [] h = refl
  drop_all zero (x ∷ xs) h = absurd (omega arith)
  drop_all (suc n) [] h = refl
  drop_all (suc n) (x ∷ xs) h = drop_all n xs (omega arith)

  -- the pages from `page` on, `n` of them, one after the other
  abbrev pub pages_from : ℕ → List A → ℕ → ℕ → List A
  pages_from per items page zero = []
  pages_from per items page (suc n) =
      current_items per items page ++ pages_from per items (page + 1) n

  page_items :
      (per : ℕ) (items : List A) (k : ℕ)
      → current_items per items (suc k) ≡ take per (drop (k * per) items)
  unfolding current_items slice
  page_items per items k =
      let at : suc k - 1 ≡ k = omega arith in
      let wide : suc k * per - k * per ≡ per = omega (arith, suc-mul k per) in rw (at, wide)

  pages_from-rest :
      (per : ℕ) (items : List A) (k n : ℕ)
      → pages_from per items (suc k) n ++ drop ((k + n) * per) items ≡ drop (k * per) items
  pages_from-rest per items k zero = ap (λ i. drop (i * per) items) (omega arith)
  pages_from-rest per items k (suc n) =
      let next : suc k + 1 ≡ suc (suc k) = omega arith in
      let far : k + suc n ≡ suc k + n = omega arith in
      let after = drop-drop per (k * per) (suc k * per) items (omega (arith, suc-mul k per)) in
      rw (next, far, page_items per items k)
        (append_assoc (take per (drop (k * per) items)) (pages_from per items (suc (suc k)) n)
            (drop ((suc k + n) * per) items)
          ∙ ap (λ t. take per (drop (k * per) items) ++ t)
              (pages_from-rest per items (suc k) n ∙ sym after)
          ∙ take-drop per (drop (k * per) items))

  total_pages-bound :
      (per : ℕ) (items : List A) → 0 < per → length items ≤ total_pages per items * per
  unfolding total_pages
  total_pages-bound per items h =
      omega
        (arith, mod-add-div' (length items + (per - 1)) per, mod-lt (length items + (per - 1)) h)

  -- The pages from the first to the last, one after the other, are the items: each item is shown on
  -- exactly one page, in order.
  pub pages_from-items :
      (per : ℕ) (items : List A) → 0 < per → pages_from per items 1 (total_pages per items) ≡ items
  pages_from-items per items h =
      let n = total_pages per items in
      let none_left =
        drop_all ((0 + n) * per) items (omega (arith, total_pages-bound per items h)) in
      sym (append-nil (pages_from per items 1 n))
      ∙ ap (λ t. pages_from per items 1 n ++ t) (sym none_left)
      ∙ pages_from-rest per items 0 n
      ∙ ap (λ i. drop i items) (omega arith)
      ∙ drop_zero items
