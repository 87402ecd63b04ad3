-- ===== src/Tests/EntryTests.antt =====
-- The theorems on entries at concrete inputs.
use ime_windows.Prelude.{ℕ, ◌≡◌, refl, true}
use ime_windows.Bopomofo.Layout.{is_initial, is_medial, is_final, is_tone}
use ime_windows.Bopomofo.Hanzi.{lookup_all, find_reading}
use ime_windows.Bopomofo.Entry.{
  accept, accept_tone, pop_last_bopomofo, single_reading_literal, to_toneless_bopomofo_string,
  to_bopomofo_string,
}
use ime_windows.Bopomofo.Typing.{pop-accept, slots, IsNext}
use ime_windows.Tests.Samples.{ni_reading, ni_engine}

-- VK_S types ㄋ.
abbrev vk_s : ℕ
vk_s = 0x53

-- The tone is the next symbol of ㄋㄧ.
tone-IsNext : IsNext 0x02c7 ni_reading
unfolding is_initial is_medial is_final is_tone
tone-IsNext = record {
  after_initial = λ e. cc;
  after_medial = λ e. cc;
  after_final = λ e. cc;
  untoned = refl;
  symbol = λ e. cc;
  classified = refl;
}

pop-accept_example :
    ((accept ni_engine 0x02c7 ni_reading).1 ≡ true)
    × (slots (pop_last_bopomofo (accept ni_engine 0x02c7 ni_reading).0).0 ≡ slots ni_reading)
unfolding accept accept_tone single_reading_literal to_toneless_bopomofo_string to_bopomofo_string
    lookup_all find_reading is_initial is_medial is_final is_tone
pop-accept_example = pop-accept ni_engine 0x02c7 ni_reading refl refl tone-IsNext refl
