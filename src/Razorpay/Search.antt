-- ===== src/Razorpay/Search.antt =====
-- The search for a receipt (`_find_orders_by_receipt` of api/routes/razorpay.py) against a provider
-- that lists its orders page by page.
use trust_gate_merchant_copi.Base.{
  ◌≡◌, refl, sym, ap, ◌∙◌, inl, inr, ℕ, zero, suc, ◌+◌, ◌-◌, ◌*◌, ◌≤◌, ◌<◌, true, false, none, some,
  List, [], ◌∷◌, ◌++◌, ltb, if◌then◌else◌, length, same_id, arith, Bool-cases,
}
use trust_gate_merchant_copi.Models.{Uuid, Text, http_error, razorpay_receipt_search_incomplete}
use trust_gate_merchant_copi.Session.{Result, ok, err}
use trust_gate_merchant_copi.Razorpay.{
  page_size, max_pages, Item, not_an_object, order_item, PageAnswer, page_items, matching,
  search_pages, find_orders_by_receipt,
}

module _ {ℓ} {A : Type ℓ} where
  abbrev pub take : ℕ → List A → List A
  take zero xs = []
  take (suc n) [] = []
  take (suc n) (x ∷ xs) = x ∷ take n xs

  abbrev pub drop : ℕ → List A → List A
  drop zero xs = xs
  drop (suc n) [] = []
  drop (suc n) (x ∷ xs) = drop n xs

  take-all : (n : ℕ) (xs : List A) → length xs ≤ n → take n xs ≡ xs
  take-all zero [] h = refl
  take-all zero (x ∷ xs) h = absurd (omega (arith, h))
  take-all (suc n) [] h = refl
  take-all (suc n) (x ∷ xs) h = ap (λ ys. x ∷ ys) (take-all n xs (omega (arith, h)))

  length-take : (n : ℕ) (xs : List A) → n ≤ length xs → length (take n xs) ≡ n
  length-take zero xs h = refl
  length-take (suc n) [] h = absurd (omega (arith, h))
  length-take (suc n) (x ∷ xs) h = ap suc (length-take n xs (omega (arith, h)))

  length-drop : (n : ℕ) (xs : List A) → length (drop n xs) ≡ length xs - n
  length-drop zero xs = omega arith
  length-drop (suc n) [] = omega arith
  length-drop (suc n) (x ∷ xs) = length-drop n xs ∙ omega arith

  drop-nil : (n : ℕ) → drop n [] ≡ []
  drop-nil zero = refl
  drop-nil (suc n) = refl

  drop-add : (n m : ℕ) (xs : List A) → drop (n + m) xs ≡ drop m (drop n xs)
  drop-add zero m xs = ap (λ k. drop k xs) (omega arith)
  drop-add (suc n) m [] = drop-nil (suc n + m) ∙ sym (drop-nil m)
  drop-add (suc n) m (x ∷ xs) =
      let e : suc n + m ≡ suc (n + m) = omega arith in ap (λ k. drop k (x ∷ xs)) e ∙ drop-add n m xs

  take-drop : (n : ℕ) (xs : List A) → take n xs ++ drop n xs ≡ xs
  take-drop zero xs = refl
  take-drop (suc n) [] = refl
  take-drop (suc n) (x ∷ xs) = ap (λ ys. x ∷ ys) (take-drop n xs)

  append_assoc : (xs ys zs : List A) → (xs ++ ys) ++ zs ≡ xs ++ (ys ++ zs)
  append_assoc [] ys zs = refl
  append_assoc (x ∷ xs) ys zs = ap (λ l. x ∷ l) (append_assoc xs ys zs)

matching-append :
    (r : Uuid) (xs ys : List Item) → matching r (xs ++ ys) ≡ matching r xs ++ matching r ys
unfolding matching
matching-append r [] ys = refl
matching-append r (not_an_object ∷ xs) ys = matching-append r xs ys
matching-append r (order_item q none ∷ xs) ys = matching-append r xs ys
matching-append r (order_item q (some i) ∷ xs) ys = elim (Bool-cases (same_id q (some r))) [
  | inl e ↦ rw e (ap (λ l. i ∷ l) (matching-append r xs ys))
  | inr e ↦ rw e (matching-append r xs ys)
]

shift_lem :
    (n left : ℕ)
    → page_size ≤ n
    → ltb (n - page_size) (left * page_size) ≡ ltb n (suc left * page_size)
shift_lem n left h = ground (arith, h)

module _ (page : ℕ → PageAnswer) (r : Uuid) (left skip : ℕ) (matches : List Text)
    (items : List Item) where
  last_page :
      page skip ≡ page_items items
      → ltb (length items) page_size ≡ true
      → search_pages page r (suc left) skip matches ≡ ok (matches ++ matching r items)
  unfolding search_pages
  last_page h last = rw (search_pages, h, last) refl

  full_page :
      page skip ≡ page_items items
      → ltb (length items) page_size ≡ false
      → search_pages page r (suc left) skip matches
        ≡ search_pages page r left (skip + page_size) (matches ++ matching r items)
  unfolding search_pages
  full_page h full = rw (search_pages, h, full) refl

-- A provider whose pages are the orders in order, a full page at a time.
abbrev pub pages_of : List Item → ℕ → PageAnswer
pages_of orders skip = page_items (take page_size (drop skip orders))

below : (a b : ℕ) → a < b → ltb a b ≡ true
below a b h = ground (arith, h)

not_below : (a b : ℕ) → b ≤ a → ltb a b ≡ false
not_below a b h = ground (arith, h)

module _ (orders : List Item) (r : Uuid) where
  -- What the search comes to when `left` pages may be read of the rest.
  abbrev found_in : ℕ → List Text → List Item → Result (List Text)
  found_in left matches rest =
      if ltb (length rest) (left * page_size)
      then ok (matches ++ matching r rest)
      else err (http_error razorpay_receipt_search_incomplete)

  -- The matches of a full page are counted before those of what follows it.
  found_after :
      (left : ℕ) (matches : List Text) (rest : List Item)
      → page_size ≤ length rest
      → found_in left (matches ++ matching r (take page_size rest)) (drop page_size rest)
        ≡ found_in (suc left) matches rest
  found_after left matches rest long =
      let same : (matches ++ matching r (take page_size rest)) ++ matching r (drop page_size rest)
          ≡ matches ++ matching r rest =
        append_assoc matches _ _
        ∙ ap (λ l. matches ++ l)
            (sym (matching-append r (take page_size rest) (drop page_size rest))
              ∙ ap (matching r) (take-drop page_size rest)) in
      (λ j.
        if ltb (length-drop page_size rest j) (left * page_size)
        then ok (same j)
        else err (http_error razorpay_receipt_search_incomplete))
      ∙ ap
          (λ b.
            if b
            then ok (matches ++ matching r rest)
            else err (http_error razorpay_receipt_search_incomplete))
          (shift_lem (length rest) left long)

  search_pages-found :
      (left skip : ℕ) (matches : List Text)
      → search_pages (pages_of orders) r left skip matches
        ≡ found_in left matches (drop skip orders)
  unfolding search_pages
  search_pages-found zero skip matches =
      rw (not_below (length (drop skip orders)) (0 * page_size) (omega arith)) refl
  search_pages-found (suc left) skip matches =
      let rest = drop skip orders in
      let page = take page_size rest in
      elim (Bool-cases (ltb (length rest) page_size)) [
        | inl last ↦
            let short : length rest < page_size = ground arith in
            last_page (pages_of orders) r left skip matches rest
              (ap page_items (take-all page_size rest (omega (arith, short)))) last
            ∙ rw (below (length rest) (suc left * page_size) (omega (arith, short))) refl
        | inr full ↦
            let long : page_size ≤ length rest = ground arith in
            full_page (pages_of orders) r left skip matches page refl
              (ap (λ n. ltb n page_size) (length-take page_size rest long))
            ∙ search_pages-found left (skip + page_size) (matches ++ matching r page)
            ∙ ap (found_in left (matches ++ matching r page)) (drop-add skip page_size orders)
            ∙ found_after left matches rest long
      ]

  -- Against a provider that lists its orders in order, the search answers exactly the identifiers of
  -- all its orders with the receipt when it has fewer than twenty full pages of orders, and fails
  -- when it has more.
  pub find_orders_complete : find_orders_by_receipt (pages_of orders) r ≡ (
      if ltb (length orders) (max_pages * page_size)
      then ok (matching r orders)
      else err (http_error razorpay_receipt_search_incomplete))
  unfolding find_orders_by_receipt
  find_orders_complete = search_pages-found max_pages 0 []
