-- ===== src/Core/Utf8.antt =====
-- `String::from_utf8` of Rust's standard library, as the automaton of the Unicode standard's table
-- of well-formed byte sequences.
use ketebe_oss.Base.{ℕ, Bool, true, false, ◌&&◌, List, [], ◌∷◌, leb, ◌==◌, if◌then◌else◌, ◌≡◌, refl}

pub data Utf8State : Type 0 where
  start one two three after_e0 after_ed after_f0 after_f4 reject : Utf8State

abbrev within : ℕ → ℕ → ℕ → Bool
within lo hi b = leb lo b && leb b hi

-- The lead byte of a character.
lead : ℕ → Utf8State
lead b =
    if leb b 0x7f
    then start
    else if within 0xc2 0xdf b
    then one
    else if b == 0xe0
    then after_e0
    else if b == 0xed
    then after_ed
    else if within 0xe1 0xef b
    then two
    else if b == 0xf0
    then after_f0
    else if within 0xf1 0xf3 b
    then three
    else if b == 0xf4
    then after_f4
    else reject

step : Utf8State → ℕ → Utf8State
unfolding lead
step start b = lead b
step one b = if within 0x80 0xbf b then start else reject
step two b = if within 0x80 0xbf b then one else reject
step three b = if within 0x80 0xbf b then two else reject
step after_e0 b = if within 0xa0 0xbf b then one else reject
step after_ed b = if within 0x80 0x9f b then one else reject
step after_f0 b = if within 0x90 0xbf b then two else reject
step after_f4 b = if within 0x80 0x8f b then two else reject
step reject b = reject

accepts : Utf8State → List ℕ → Bool
unfolding step
accepts start [] = true
accepts _ [] = false
accepts s (b ∷ bs) = accepts (step s b) bs

unfoldable pub is_utf8 : List ℕ → Bool
unfolding accepts
is_utf8 = accepts start

surrogate_rejected : is_utf8 (0xed ∷ 0xa0 ∷ 0x80 ∷ []) ≡ false
unfolding is_utf8
surrogate_rejected = refl

euro_accepted : is_utf8 (b'a' ∷ 0xe2 ∷ 0x82 ∷ 0xac ∷ []) ≡ true
unfolding is_utf8
euro_accepted = refl
