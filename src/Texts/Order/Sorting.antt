-- ===== src/Texts/Order/Sorting.antt =====
-- The sort of Texts/Order gives an ascending list of the same elements.
use go_patroni.Base.{◌≡◌, refl, inl, inr, false, List, [], ◌∷◌, arith, All, Bool-cases}
use go_patroni.Texts.{Text}
use go_patroni.Texts.Order.{text_lt, text_lt_asymm, insert_by, sort_by}
use mathlib.Core.List.{Permᴰ}
use mathlib.Core.List.Permᴰ

not_lt_trans : (s t u : Text) → text_lt t s ≡ false → text_lt u t ≡ false → text_lt u s ≡ false
unfolding text_lt
not_lt_trans [] [] u h k = ground arith
not_lt_trans [] (b ∷ t) [] h k = refl
not_lt_trans [] (b ∷ t) (c ∷ u) h k = refl
not_lt_trans (a ∷ s) [] u h k = ground arith
not_lt_trans (a ∷ s) (b ∷ t) [] h k = ground arith
not_lt_trans (a ∷ s) (b ∷ t) (c ∷ u) h k = ground (arith, not_lt_trans s t u)

module _ {ℓ} {A : Type ℓ} (key : A → Text) where
  abbrev pub NotBefore : A → A → Type 0
  NotBefore b y = text_lt (key y) (key b) ≡ false

  -- No element is greater than a later one.
  abbrev pub IsAscending : List A → Type 0
  IsAscending [] = Unit
  IsAscending (x ∷ xs) = All (NotBefore x) xs × IsAscending xs

  All-insert_by :
      (b x : A) (xs : List A)
      → NotBefore b x
      → All (NotBefore b) xs
      → All (NotBefore b) (insert_by key x xs)
  unfolding insert_by
  All-insert_by b x [] h _ = (h, tt)
  All-insert_by b x (y ∷ ys) h (k, ks) = elim (Bool-cases (text_lt (key y) (key x))) [
    | inl e ↦ rw (e, insert_by) (k, All-insert_by b x ys h ks)
    | inr e ↦ rw (e, insert_by) (h, (k, ks))
  ]

  All-trans : (b x : A) (xs : List A) → NotBefore b x → All (NotBefore x) xs → All (NotBefore b) xs
  All-trans b x [] h _ = tt
  All-trans b x (y ∷ ys) h (k, ks) =
      (not_lt_trans (key b) (key x) (key y) h k, All-trans b x ys h ks)

  insert_by-IsAscending : (x : A) (xs : List A) → IsAscending xs → IsAscending (insert_by key x xs)
  unfolding insert_by
  insert_by-IsAscending x [] _ = (tt, tt)
  insert_by-IsAscending x (y ∷ ys) (h, hs) = elim (Bool-cases (text_lt (key y) (key x))) [
    | inl e ↦
        rw (e, insert_by)
          (All-insert_by y x ys (text_lt_asymm (key y) (key x) e) h, insert_by-IsAscending x ys hs)
    | inr e ↦ rw (e, insert_by) ((e, All-trans x y ys e h), (h, hs))
  ]

  pub sort_by-IsAscending : (xs : List A) → IsAscending (sort_by key xs)
  unfolding sort_by
  sort_by-IsAscending [] = tt
  sort_by-IsAscending (x ∷ xs) = insert_by-IsAscending x (sort_by key xs) (sort_by-IsAscending xs)

  insert_by-Permᴰ : (x : A) (xs : List A) → Permᴰ (insert_by key x xs) (x ∷ xs)
  unfolding insert_by
  insert_by-Permᴰ x [] = Permᴰ.refl (x ∷ [])
  insert_by-Permᴰ x (y ∷ ys) = elim (Bool-cases (text_lt (key y) (key x))) [
    | inl e ↦
        rw (e, insert_by)
          (Permᴰ.trans (Permᴰ.cons refl (insert_by-Permᴰ x ys)) (Permᴰ.swap refl refl))
    | inr e ↦ rw (e, insert_by) (Permᴰ.refl (x ∷ y ∷ ys))
  ]

  pub sort_by-Permᴰ : (xs : List A) → Permᴰ (sort_by key xs) xs
  unfolding sort_by
  sort_by-Permᴰ [] = Permᴰ.nil
  sort_by-Permᴰ (x ∷ xs) =
      Permᴰ.trans (insert_by-Permᴰ x (sort_by key xs)) (Permᴰ.cons refl (sort_by-Permᴰ xs))
