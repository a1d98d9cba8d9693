-- ===== src/Realtime/Paging/Crawl.antt =====
-- A client that follows the cursors of a global layer.
use respondent_community.Common.{
  ℕ, zero, suc, ◌+◌, ◌≤◌, ◌<◌, ◌≡◌, refl, ap, sym, ◌∙◌, Option, none, some, List, [], ◌∷◌, ◌++◌,
  ltb, leb, length, take, drop, arith, Bool-cases, inl, inr, take-append-drop, length-take,
  take_all, append-nil,
}
use respondent_community.Common.Int.{ℤ}
use respondent_community.Realtime.Paging.{LayerStore, first_cursor, next_cursor, page_limit}
use respondent_community.Realtime.Subscribe.{global_limit}

module _ {E : Type 0} (store : LayerStore E) where
  -- The entities of the pages that a client gets by following the cursors with one `limit`.
  unfoldable pub crawl : ℕ → ℕ → Option ℕ → List E
  crawl zero limit cursor = []
  crawl (suc n) limit none = []
  crawl (suc n) limit (some offset) =
      let page = store.page limit offset in
      page ++ crawl n limit (next_cursor limit offset (length page))

  -- The first page of a subscription, and the pages that follow it.
  unfoldable pub crawl_layer : ℕ → ℕ → ℕ → List E
  unfolding crawl
  crawl_layer fuel first limit =
      let page = store.page first 0 in
      page ++ crawl fuel limit (first_cursor (length page) store.count)

  drop_nil : (n : ℕ) → drop {A = E} n [] ≡ []
  drop_nil zero = refl
  drop_nil (suc n) = refl

  drop-drop : (m n : ℕ) (xs : List E) → drop n (drop m xs) ≡ drop (m + n) xs
  drop-drop zero n xs = ap (λ k. drop k xs) (omega arith)
  drop-drop (suc m) n [] = drop_nil n ∙ sym (drop_nil (suc m + n))
  drop-drop (suc m) n (x ∷ xs) =
      let e : suc (m + n) ≡ suc m + n = omega arith in
      drop-drop m n xs ∙ ap (λ k. drop k (x ∷ xs)) e

  drop_all : (n : ℕ) (xs : List E) → length xs ≤ n → drop n xs ≡ []
  drop_all zero [] h = refl
  drop_all zero (x ∷ xs) h = absurd (omega arith)
  drop_all (suc n) [] h = refl
  drop_all (suc n) (x ∷ xs) h = drop_all n xs (omega arith)

  crawl-none : (n limit : ℕ) → crawl n limit none ≡ []
  unfolding crawl
  crawl-none zero limit = refl
  crawl-none (suc n) limit = refl

  crawl_rest :
      (n limit offset : ℕ)
      → 0 < limit
      → length store.rows < offset + n
      → crawl n limit (some offset) ≡ drop offset store.rows
  unfolding crawl
  crawl_rest zero limit offset h f = sym (drop_all offset store.rows (omega (arith, f)))
  crawl_rest (suc n) limit offset h f =
      let rest = drop offset store.rows in
      let sizes = length-take limit rest in
      elim (Bool-cases (leb limit (length (take limit rest)))) [
        | inl full ↦
            let exact : length (take limit rest) ≡ limit = ground (arith, sizes, full) in
            rw (store.page_lem, full)
              (ap (λ l. take limit rest ++ l)
                  (crawl_rest n limit (offset + length (take limit rest)) h
                      (omega (arith, f, exact))
                    ∙ (ap (λ k. drop (offset + k) store.rows) exact
                        ∙ sym (drop-drop offset limit store.rows)))
                ∙ take-append-drop limit rest)
        | inr short ↦
            rw (store.page_lem, short)
              (ap (λ l. take limit rest ++ l) (crawl-none n limit)
                ∙ (append-nil (take limit rest)
                    ∙ take_all limit rest (ground (arith, sizes, short))))
      ]

  page_limit_pos : (limit : ℤ) → 0 < page_limit limit
  unfolding page_limit
  page_limit_pos limit = ground arith

  first_page :
      (fuel first limit : ℕ)
      → 0 < limit
      → length store.rows < fuel
      → crawl_layer fuel first limit ≡ store.rows
  unfolding crawl_layer
  first_page fuel first limit h f =
      let all = store.rows in
      let sizes = length-take first all in
      elim (Bool-cases (ltb (length (take first all)) (length all))) [
        | inl more ↦
            let exact : length (take first all) ≡ first = ground (arith, sizes, more) in
            rw (store.page_lem, store.count_lem, more)
              (ap (λ l. take first all ++ l)
                  (crawl_rest fuel limit (length (take first all)) h (omega (arith, f))
                    ∙ ap (λ k. drop k all) exact)
                ∙ take-append-drop first all)
        | inr whole ↦
            rw (store.page_lem, store.count_lem, whole)
              (ap (λ l. take first all ++ l) (crawl-none fuel limit)
                ∙ (append-nil (take first all) ∙ take_all first all (ground (arith, sizes, whole))))
      ]

  -- A client that takes the first page of a global layer and follows the cursors gets every row of
  -- the layer exactly once and in order, whatever limits it asks for, within one page request more
  -- than the layer has rows.
  pub crawl_layer_complete :
      (fuel : ℕ) (first limit : ℤ)
      → length store.rows < fuel
      → crawl_layer fuel (global_limit first) (page_limit limit) ≡ store.rows
  crawl_layer_complete fuel first limit f =
      first_page fuel (global_limit first) (page_limit limit) (page_limit_pos limit) f
