-- ===== src/Bopomofo/Layout.antt =====
-- class Bopomofo (frontend/src/core/bopomofo.hpp): the standard Zhuyin keyboard and the four
-- classes of symbols. Keys are Windows virtual key codes, symbols UTF-16 code units.
use ime_windows.Prelude.{ℕ, Bool, Option, none, some, List, [], ◌∷◌, contains, ◌==◌, if◌then◌else◌}

-- `vkToBopomofo`: letters and digits by their codes 0x30 to 0x5a, VK_OEM_MINUS 0xbd, VK_OEM_1 0xba,
-- VK_OEM_COMMA 0xbc, VK_OEM_PERIOD 0xbe, VK_OEM_2 0xbf and VK_SPACE 0x20.
unfoldable pub vk_to_bopomofo : List (ℕ × ℕ)
vk_to_bopomofo =
    (0x31, 0x3105)
    ∷  -- VK_1 ㄅ
        (0x32, 0x3109)
    ∷  -- VK_2 ㄉ
        (0x35, 0x3113)
    ∷  -- VK_5 ㄓ
        (0x38, 0x311a)
    ∷  -- VK_8 ㄚ
        (0x39, 0x311e)
    ∷  -- VK_9 ㄞ
        (0x30, 0x3122)
    ∷  -- VK_0 ㄢ
        (0xbd, 0x3126)
    ∷  -- VK_OEM_MINUS ㄦ
        (0x51, 0x3106)
    ∷  -- VK_Q ㄆ
        (0x57, 0x310a)
    ∷  -- VK_W ㄊ
        (0x45, 0x310d)
    ∷  -- VK_E ㄍ
        (0x52, 0x3110)
    ∷  -- VK_R ㄐ
        (0x54, 0x3114)
    ∷  -- VK_T ㄔ
        (0x59, 0x3117)
    ∷  -- VK_Y ㄗ
        (0x55, 0x3127)
    ∷  -- VK_U ㄧ
        (0x49, 0x311b)
    ∷  -- VK_I ㄛ
        (0x4f, 0x311f)
    ∷  -- VK_O ㄟ
        (0x50, 0x3123)
    ∷  -- VK_P ㄣ
        (0x41, 0x3107)
    ∷  -- VK_A ㄇ
        (0x53, 0x310b)
    ∷  -- VK_S ㄋ
        (0x44, 0x310e)
    ∷  -- VK_D ㄎ
        (0x46, 0x3111)
    ∷  -- VK_F ㄑ
        (0x47, 0x3115)
    ∷  -- VK_G ㄕ
        (0x48, 0x3118)
    ∷  -- VK_H ㄘ
        (0x4a, 0x3128)
    ∷  -- VK_J ㄨ
        (0x4b, 0x311c)
    ∷  -- VK_K ㄜ
        (0x4c, 0x3120)
    ∷  -- VK_L ㄠ
        (0xba, 0x3124)
    ∷  -- VK_OEM_1 ㄤ
        (0x5a, 0x3108)
    ∷  -- VK_Z ㄈ
        (0x58, 0x310c)
    ∷  -- VK_X ㄌ
        (0x43, 0x310f)
    ∷  -- VK_C ㄏ
        (0x56, 0x3112)
    ∷  -- VK_V ㄒ
        (0x42, 0x3116)
    ∷  -- VK_B ㄖ
        (0x4e, 0x3119)
    ∷  -- VK_N ㄙ
        (0x4d, 0x3129)
    ∷  -- VK_M ㄩ
        (0xbc, 0x311d)
    ∷  -- VK_OEM_COMMA ㄝ
        (0xbe, 0x3121)
    ∷  -- VK_OEM_PERIOD ㄡ
        (0xbf, 0x3125)
    ∷  -- VK_OEM_2 ㄥ
        (0x20, 0x0020)
    ∷  -- VK_SPACE
        (0x36, 0x02ca)
    ∷  -- VK_6 ˊ
        (0x33, 0x02c7)
    ∷  -- VK_3 ˇ
        (0x34, 0x02cb)
    ∷  -- VK_4 ˋ
        (0x37, 0x02d9)
    ∷  -- VK_7 ˙
        []

unfoldable pub initials : List ℕ
initials =
    0x3105 ∷ 0x3106 ∷ 0x3107 ∷ 0x3108 ∷ 0x3109 ∷ 0x310a ∷ 0x310b ∷ 0x310c ∷ 0x310d ∷ 0x310e ∷ 0x310f
    ∷ 0x3110 ∷ 0x3111 ∷ 0x3112 ∷ 0x3113 ∷ 0x3114 ∷ 0x3115 ∷ 0x3116 ∷ 0x3117 ∷ 0x3118 ∷ 0x3119 ∷ []

unfoldable pub medials : List ℕ
medials = 0x3127 ∷ 0x3128 ∷ 0x3129 ∷ []

unfoldable pub finals : List ℕ
finals =
    0x311a ∷ 0x311b ∷ 0x311c ∷ 0x311d ∷ 0x311e ∷ 0x311f ∷ 0x3120 ∷ 0x3121 ∷ 0x3122 ∷ 0x3123 ∷ 0x3124
    ∷ 0x3125 ∷ 0x3126 ∷ []

unfoldable pub tones : List ℕ
tones = 0x0020 ∷ 0x02ca ∷ 0x02c7 ∷ 0x02cb ∷ 0x02d9 ∷ []

-- The first tone has no mark: it is typed and stored as a space.
abbrev pub space : ℕ
space = 0x20

-- `find` on the map, whose keys are distinct.
unfoldable pub find_key : List (ℕ × ℕ) → ℕ → Option ℕ
find_key [] vk = none
find_key ((k, c) ∷ rest) vk = if k == vk then some c else find_key rest vk

unfoldable pub lookup : ℕ → Option ℕ
unfolding vk_to_bopomofo find_key
lookup vk = find_key vk_to_bopomofo vk

unfoldable pub is_initial : ℕ → Bool
unfolding initials
is_initial c = contains initials c

unfoldable pub is_medial : ℕ → Bool
unfolding medials
is_medial c = contains medials c

unfoldable pub is_final : ℕ → Bool
unfolding finals
is_final c = contains finals c

unfoldable pub is_tone : ℕ → Bool
unfolding tones
is_tone c = contains tones c
