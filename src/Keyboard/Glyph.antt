-- ===== src/Keyboard/Glyph.antt =====
-- The characters that `keyboard_feed` shows.
use my_sbuos.Base.{
  ℕ, ◌≡◌, refl, inl, inr, ◌||◌, Option, none, some, List, ◌==◌, if◌then◌else◌, Bool-cases,
  Option-cases, length, subst,
}
use my_sbuos.Keyboard.{get_elem?, capitals, smalls, Keys, print_glyph}

abbrev Four : Option (List ℕ) → Type 0
Four none = Unit {0}
Four (some g) = length g ≡ 4

print_glyph-Four : (s : Keys) → Four (print_glyph s)
unfolding print_glyph
print_glyph-Four s = elim (Bool-cases (s.pressed_key == 1)) [
  | inl e ↦ rw e refl
  | inr a ↦ elim (Bool-cases (s.pressed_key == 14)) [
    | inl e ↦ rw (a, e) refl
    | inr b ↦ elim (Bool-cases (s.pressed_key == 15)) [
      | inl e ↦ rw (a, b, e) refl
      | inr c ↦ elim (Bool-cases (s.pressed_key == 28)) [
        | inl e ↦ rw (a, b, c, e) refl
        | inr d ↦
            elim (Option-cases
              (get_elem? (if s.shift || s.ctrl then capitals else smalls) s.pressed_key)) [
                | inl e ↦ rw (a, b, c, d, e) tt
                | inr e ↦ rw (a, b, c, d, e.1) refl
              ]
      ]
    ]
  ]
]

-- `print_glyph` fills the whole buffer.
pub print_glyph-length : (s : Keys) (g : List ℕ) → print_glyph s ≡ some g → length g ≡ 4
print_glyph-length s g h = subst Four h (print_glyph-Four s)
