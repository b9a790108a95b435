-- ===== src/Query/Joining.antt =====
-- The rows of a page joined with those of the pages behind its next cursor.
use mathlib.Core.List.{append-nil, append_assoc}
use shopping_cart.Prelude.{
  ℕ, suc, ◌<◌, ◌≡◌, refl, sym, ap, ◌∙◌, true, false, Option, none, some, List, [], ◌∷◌, ◌++◌,
  Result, ok, err, length, length-append, take, take-all, ltb, Bool-cases, inl, inr, arith,
}
use shopping_cart.Shared.Text.{Text}
use shopping_cart.Query.Types.{SortParams}
use shopping_cart.Query.Cursor.{Json, encode_cursor}
use shopping_cart.Query.Seek.{CursorPaginatedResult, last_of, cursor_of, page_from}
use shopping_cart.Query.Following.{params_of, split_last}

-- The rows of a page, and of those behind its next cursor.
abbrev pub pages_rest : (Text → List Json) → Result CursorPaginatedResult → List Json
pages_rest f (err e) = []
pages_rest f (ok page) = page.items ++ elim page.next_cursor [ none ↦ [] | some next ↦ f next ]

module _ (pack : Json → Text) (unpack : Text → Option Json) (sorts : List SortParams) where
  cursor_of-false : (o : Option Json) → cursor_of pack unpack false sorts o ≡ none
  unfolding cursor_of
  cursor_of-false none = refl
  cursor_of-false (some c) = refl

  pages_rest_end :
      (f : Text → List Json) (l : ℕ) (next : Option Text) (rows : List Json)
      → pages_rest f (ok (page_from pack unpack false (params_of l next none) sorts rows)) ≡ rows
  unfolding page_from cursor_of
  pages_rest_end f l next rows =
      ap (λ o. rows ++ elim o [ none ↦ [] | some c ↦ f c ]) (cursor_of-false (last_of rows))
      ∙ append-nil rows

  pages_rest_more :
      (f : Text → List Json) (l : ℕ) (next : Option Text) (rows : List Json) (c : Json)
      → last_of rows ≡ some c
      → pages_rest f (ok (page_from pack unpack true (params_of l next none) sorts rows))
        ≡ rows ++ f (encode_cursor pack unpack c sorts)
  unfolding page_from cursor_of
  pages_rest_more f l next rows c last =
      ap (λ o. rows ++ elim (cursor_of pack unpack true sorts o) [ none ↦ [] | some c' ↦ f c' ])
        last

  -- A page and the pages behind its last row.
  pub page_then :
      (f : Text → List Json) (l : ℕ) (next : Option Text) (ys : List Json)
      → ((front : List Json)
          → (c : Json) → (back : List Json) → ys ≡ front ++ c ∷ back
          → length back < length ys
          → f (encode_cursor pack unpack c sorts) ≡ back)
      → pages_rest f (
          ok (
            page_from pack unpack
              (ltb (suc l) (length ys))
              (params_of (suc l) next none)
              sorts
              (take (suc l) ys)))
        ≡ ys
  page_then f l next ys behind = elim (Bool-cases (ltb (suc l) (length ys))) [
    | inr all ↦
        ap
          (λ b.
            pages_rest f
              (ok (page_from pack unpack b (params_of (suc l) next none) sorts (take (suc l) ys))))
          all
        ∙ pages_rest_end f (suc l) next (take (suc l) ys)
        ∙ take-all (suc l) ys (ground arith)
    | inl more ↦
        let (front, c, back, whole, begins, last) = split_last l ys (ground arith) in
        ap
          (λ b.
            pages_rest f
              (ok (page_from pack unpack b (params_of (suc l) next none) sorts (take (suc l) ys))))
          more
        ∙ pages_rest_more f (suc l) next (take (suc l) ys) c last
        ∙ ap (λ xs. xs ++ f (encode_cursor pack unpack c sorts)) begins
        ∙ ap (λ xs. (front ++ c ∷ []) ++ xs)
            (behind front c back whole
              (omega (arith, ap length whole, length-append front (c ∷ back))))
        ∙ append_assoc front (c ∷ []) back
        ∙ sym whole
  ]
