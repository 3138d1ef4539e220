-- ===== src/Texts/Space.antt =====
-- `strings.TrimSpace`: white space is Unicode's, read on the bytes of its UTF-8 encodings. No
-- encoding is a proper part of another, so a text begins (ends) with a space rune exactly when its
-- bytes begin (end) with one of these encodings, whatever the other bytes are.
use mathlib.Core.List.{reverse, reverse-append, reverse-reverse}
use go_patroni.Base.{
  ℕ, ◌≡◌, refl, sym, ap, ◌∙◌, Bool, true, false, ◌&&◌, ◌||◌, [], ◌∷◌, ◌++◌, arith, leb, ◌==◌,
  if◌then◌else◌,
}
use go_patroni.Texts.{Text}

unfoldable pub space_one : ℕ → Bool
space_one a = leb 9 a && leb a 13 || a == 32

-- U+0085, U+00A0
unfoldable pub space_two : ℕ → ℕ → Bool
space_two a b = a == 0xc2 && (b == 0x85 || b == 0xa0)

-- U+1680, U+2000 to U+200A, U+2028, U+2029, U+202F, U+205F, U+3000
unfoldable pub space_three : ℕ → ℕ → ℕ → Bool
space_three a b c =
    a == 0xe1 && (b == 0x9a && c == 0x80)
    || a == 0xe2
      && (b == 0x80 && (leb 0x80 c && leb c 0x8a || (c == 0xa8 || (c == 0xa9 || c == 0xaf)))
          || b == 0x81 && c == 0x9f)
    || a == 0xe3 && (b == 0x80 && c == 0x80)

module _ (two : ℕ → ℕ → Bool) (three : ℕ → ℕ → ℕ → Bool) where
  unfoldable pub starts_space : Text → Bool
  starts_space [] = false
  starts_space (a ∷ []) = space_one a
  starts_space (a ∷ b ∷ []) = space_one a || two a b
  starts_space (a ∷ b ∷ c ∷ s) = space_one a || (two a b || three a b c)

  drop_spaces : Text → Text
  drop_spaces [] = []
  drop_spaces (a ∷ []) = if space_one a then [] else a ∷ []
  drop_spaces (a ∷ b ∷ []) = elim (space_one a) [
    | true ↦ drop_spaces (b ∷ [])
    | false ↦ if two a b then [] else a ∷ b ∷ []
  ]
  drop_spaces (a ∷ b ∷ c ∷ s) = elim (space_one a) [
    | true ↦ drop_spaces (b ∷ c ∷ s)
    | false ↦ elim (two a b) [
      | true ↦ drop_spaces (c ∷ s)
      | false ↦ elim (three a b c) [ true ↦ drop_spaces s | false ↦ a ∷ b ∷ c ∷ s ]
    ]
  ]

  starts_space-drop_spaces : (s : Text) → starts_space (drop_spaces s) ≡ false
  unfolding starts_space drop_spaces
  starts_space-drop_spaces [] = refl
  starts_space-drop_spaces (a ∷ []) = ground arith
  starts_space-drop_spaces (a ∷ b ∷ []) = ground (arith, starts_space-drop_spaces (b ∷ []))
  starts_space-drop_spaces (a ∷ b ∷ c ∷ s) = ground (
    arith,
    starts_space-drop_spaces (b ∷ c ∷ s),
    starts_space-drop_spaces (c ∷ s),
    starts_space-drop_spaces s,
  )

  drop_spaces_eq : (s : Text) → starts_space s ≡ false → drop_spaces s ≡ s
  unfolding starts_space drop_spaces
  drop_spaces_eq [] h = refl
  drop_spaces_eq (a ∷ []) h = ground arith
  drop_spaces_eq (a ∷ b ∷ []) h = ground arith
  drop_spaces_eq (a ∷ b ∷ c ∷ s) h = ground arith

  starts_space-prefix : (s t : Text) → starts_space (s ++ t) ≡ false → starts_space s ≡ false
  unfolding starts_space
  starts_space-prefix [] t h = refl
  starts_space-prefix (a ∷ []) [] h = h
  starts_space-prefix (a ∷ []) (b ∷ []) h = ground arith
  starts_space-prefix (a ∷ []) (b ∷ c ∷ t) h = ground arith
  starts_space-prefix (a ∷ b ∷ []) [] h = h
  starts_space-prefix (a ∷ b ∷ []) (c ∷ t) h = ground arith
  starts_space-prefix (a ∷ b ∷ c ∷ s) t h = h

  -- What `drop_spaces` drops.
  dropped : Text → Text
  dropped [] = []
  dropped (a ∷ []) = if space_one a then a ∷ [] else []
  dropped (a ∷ b ∷ []) = elim (space_one a) [
    | true ↦ a ∷ dropped (b ∷ [])
    | false ↦ if two a b then a ∷ b ∷ [] else []
  ]
  dropped (a ∷ b ∷ c ∷ s) = elim (space_one a) [
    | true ↦ a ∷ dropped (b ∷ c ∷ s)
    | false ↦ elim (two a b) [
      | true ↦ a ∷ b ∷ dropped (c ∷ s)
      | false ↦ elim (three a b c) [ true ↦ a ∷ b ∷ c ∷ dropped s | false ↦ [] ]
    ]
  ]

  dropped-append : (s : Text) → s ≡ dropped s ++ drop_spaces s
  unfolding dropped drop_spaces
  dropped-append [] = refl
  dropped-append (a ∷ []) = ground arith
  dropped-append (a ∷ b ∷ []) = ground (arith, dropped-append (b ∷ []))
  dropped-append (a ∷ b ∷ c ∷ s) =
      ground (arith, dropped-append (b ∷ c ∷ s), dropped-append (c ∷ s), dropped-append s)

unfoldable pub flip_two : ℕ → ℕ → Bool
unfolding space_two
flip_two b a = space_two a b

unfoldable pub flip_three : ℕ → ℕ → ℕ → Bool
unfolding space_three
flip_three c b a = space_three a b c

trim_left : Text → Text
unfolding drop_spaces space_one space_two space_three
trim_left = drop_spaces space_two space_three

trim_right : Text → Text
unfolding drop_spaces flip_two flip_three space_one
trim_right s = reverse (drop_spaces flip_two flip_three (reverse s))

unfoldable pub trim_space : Text → Text
unfolding trim_left trim_right
trim_space s = trim_right (trim_left s)

-- Neither end is white space.
pub record IsTrimmed (s : Text) : Type 0 where
  pub front : starts_space space_two space_three s ≡ false
  pub back : starts_space flip_two flip_three (reverse s) ≡ false

trim_right-append : (s : Text) → (w : Text) × (s ≡ trim_right s ++ w)
unfolding trim_right
trim_right-append s = (
  reverse (dropped flip_two flip_three (reverse s)),
  sym (reverse-reverse s)
      ∙ (ap reverse (dropped-append flip_two flip_three (reverse s))
          ∙ reverse-append (dropped flip_two flip_three (reverse s))
              (drop_spaces flip_two flip_three (reverse s))),
)

front-trim_right :
    (s : Text)
    → starts_space space_two space_three s ≡ false
    → starts_space space_two space_three (trim_right s) ≡ false
front-trim_right s h =
    let (w, e) = trim_right-append s in
    starts_space-prefix space_two space_three (trim_right s) w (rw (← e) h)

back-trim_right : (s : Text) → starts_space flip_two flip_three (reverse (trim_right s)) ≡ false
unfolding trim_right
back-trim_right s =
    rw (reverse-reverse (drop_spaces flip_two flip_three (reverse s)))
      (starts_space-drop_spaces flip_two flip_three (reverse s))

pub trim_space-IsTrimmed : (s : Text) → IsTrimmed (trim_space s)
unfolding trim_space
trim_space-IsTrimmed s = record {
  front =
      front-trim_right (trim_left s)
        (unfold trim_left in starts_space-drop_spaces space_two space_three s);
  back = back-trim_right (trim_left s);
}

trim_left_eq : (s : Text) → starts_space space_two space_three s ≡ false → trim_left s ≡ s
unfolding trim_left
trim_left_eq s h = drop_spaces_eq space_two space_three s h

trim_right_eq : (s : Text) → starts_space flip_two flip_three (reverse s) ≡ false → trim_right s ≡ s
unfolding trim_right
trim_right_eq s h =
    ap reverse (drop_spaces_eq flip_two flip_three (reverse s) h) ∙ reverse-reverse s

pub trim_space_eq : {s : Text} → IsTrimmed s → trim_space s ≡ s
unfolding trim_space
trim_space_eq {s} t = ap trim_right (trim_left_eq s t.front) ∙ trim_right_eq s t.back

-- Trimming a second time changes nothing.
pub trim_space_idem : (s : Text) → trim_space (trim_space s) ≡ trim_space s
trim_space_idem s = trim_space_eq (trim_space-IsTrimmed s)

-- A trimmed text is a piece of the text.
pub trim_space-piece : (s : Text) → (l : Text) × (r : Text) × (s ≡ l ++ (trim_space s ++ r))
unfolding trim_space trim_left
trim_space-piece s =
    let (w, e) = trim_right-append (trim_left s) in
    (
      dropped space_two space_three s,
      w,
      dropped-append space_two space_three s ∙ ap (λ t. dropped space_two space_three s ++ t) e,
    )
