-- ===== src/Keyboard/Feed.antt =====
-- `_stdin_keyboard_feed` on whole strokes: the bytes of the key and the modifier, down and up.
use my_sbuos.Base.{
  ℕ, ◌≡◌, refl, ◌∙◌, ◌≢◌, true, false, Option, none, some, List, [], ◌∷◌, ◌++◌, map, ◌==◌,
  if◌then◌else◌, ◌>>=◌, ne→==, All,
}
use my_sbuos.Keyboard.{
  s_finished, Keys, initial, k_shiftdown, k_ctrldown, press, fill_single_elem_buffer,
  stdin_keyboard_feed,
}

-- The bytes fed one after the other: the characters delivered and the state behind them.
abbrev pub feed_all : List ℕ → Keys → ℕ → Option (List ℕ × Keys)
feed_all [] s e = some ([], s)
feed_all (b ∷ bs) s e = stdin_keyboard_feed b s e >>= λ r.
    feed_all bs r.1 r.2 >>= λ q. some (if r.0 == 0 then q.0 else r.2 ∷ q.0, q.1)

pub data Modifier : Type 0 where
  plain shifted controlled : Modifier

-- A stroke: its key, the two bytes of the releases and the character that it stands for.
pub record Stroke : Type 0 where
  pub modifier : Modifier
  pub key : ℕ
  pub up_1 : ℕ
  pub up_2 : ℕ
  pub char : ℕ

-- the driver's state when the last byte has come
abbrev pub held : Stroke → Keys
held k = elim k.modifier [
  | plain ↦ record initial { state = s_finished; pressed_key = k.key }
  | shifted ↦ record initial { state = s_finished; pressed_key = k.key; shift = true }
  | controlled ↦ record initial { state = s_finished; pressed_key = k.key; ctrl = true }
]

abbrev pub bytes : Stroke → List ℕ
bytes k = elim k.modifier [
  | plain ↦ k.key ∷ k.up_1 ∷ []
  | shifted ↦ k_shiftdown ∷ k.key ∷ k.up_1 ∷ k.up_2 ∷ []
  | controlled ↦ k_ctrldown ∷ k.key ∷ k.up_1 ∷ k.up_2 ∷ []
]

-- The key is no modifier and has a character.
abbrev pub Typeable : Stroke → Type 0
Typeable k =
    (k.key ≢ k_shiftdown) × (k.key ≢ k_ctrldown) × (fill_single_elem_buffer (held k) ≡ some k.char)

abbrev pub all_bytes : List Stroke → List ℕ
all_bytes [] = []
all_bytes (k ∷ ks) = bytes k ++ all_bytes ks

abbrev in_front : ℕ → List ℕ × Keys → Option (List ℕ × Keys)
in_front c q = some (c ∷ q.0, q.1)

-- a byte that delivers nothing
pass_on : (o : Option (List ℕ × Keys)) → (o >>= λ q. some q) ≡ o
pass_on none = refl
pass_on (some q) = refl

feed_all-stroke :
    (md : Modifier) (key up_1 up_2 char e : ℕ) (rest : List ℕ)
    → let k : Stroke = record { modifier = md; key = key; up_1 = up_1; up_2 = up_2; char = char } in
      Typeable k
      → feed_all (bytes k ++ rest) initial e ≡ (feed_all rest initial char >>= in_front char)
unfolding stdin_keyboard_feed press
feed_all-stroke plain key up_1 up_2 char e rest t =
    let no_ctrl : (key == k_ctrldown) ≡ false = ne→== _ _ t.1 in
    let no_shift : (key == k_shiftdown) ≡ false = ne→== _ _ t.0 in
    rw (no_ctrl, no_shift, t.2) (pass_on (feed_all rest initial char >>= in_front char))
feed_all-stroke shifted key up_1 up_2 char e rest t =
    let no_ctrl : (key == k_ctrldown) ≡ false = ne→== _ _ t.1 in
    let no_shift : (key == k_shiftdown) ≡ false = ne→== _ _ t.0 in
    rw (no_ctrl, no_shift, t.2)
      (pass_on _ ∙ pass_on _ ∙ pass_on (feed_all rest initial char >>= in_front char))
feed_all-stroke controlled key up_1 up_2 char e rest t =
    let no_ctrl : (key == k_ctrldown) ≡ false = ne→== _ _ t.1 in
    let no_shift : (key == k_shiftdown) ≡ false = ne→== _ _ t.0 in
    rw (no_ctrl, no_shift, t.2)
      (pass_on _ ∙ pass_on _ ∙ pass_on (feed_all rest initial char >>= in_front char))

-- Whole strokes one after the other, each with at most one modifier, deliver their characters in
-- order and leave the driver in its initial state.
pub feed_all-strokes :
    (ks : List Stroke) (e : ℕ)
    → All Typeable ks
    → feed_all (all_bytes ks) initial e ≡ some (map (λ k. k.char) ks, initial)
feed_all-strokes [] e t = refl
feed_all-strokes (k ∷ ks) e t =
    feed_all-stroke k.modifier k.key k.up_1 k.up_2 k.char e (all_bytes ks) t.0
    ∙ rw (feed_all-strokes ks k.char t.1)
