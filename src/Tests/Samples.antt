-- ===== src/Tests/Samples.antt =====
-- A small table, an encoder and some entries and buffers.
use ime_windows.Prelude.{
  ℕ, ◌+◌, ◌/◌, ◌%◌, refl, inl, inr, true, false, none, List, [], ◌∷◌, ltb, if◌then◌else◌, arith,
}
use ime_windows.Bopomofo.Layout.{is_initial, is_medial, is_final, is_tone}
use ime_windows.Bopomofo.Hanzi.{HanziMapEngine, find_reading, lookup_all}
use ime_windows.Bopomofo.Entry.{BopomofoPos}
use ime_windows.Bopomofo.Validity as Entry
use ime_windows.Bopomofo.Symbols.{EncodesUnits}
use ime_windows.Buffer.State.{CompositionBuffer}
use ime_windows.Buffer.Validity.{IsValid}

-- ㄋㄧˇ reads 你 or 妳.
abbrev pub ni_engine : HanziMapEngine
ni_engine = record {
  mapping = ((0x310b ∷ 0x3127 ∷ 0x02c7 ∷ []), (0x4f60 ∷ 0x59b3 ∷ [])) ∷ [];
  hanzi_set = 0x59b3 ∷ 0x4f60 ∷ [];
}

pub ni_engine-HasNoEmptyRow : Entry.HasNoEmptyRow ni_engine
unfolding lookup_all find_reading
ni_engine-HasNoEmptyRow key cs h = ground arith

-- UTF-16: one unit below 2^16, and a surrogate pair above.
abbrev pub utf16 : ℕ → List ℕ
utf16 c = if ltb c 0x10000 then c ∷ [] else (0xd7c0 + c / 1024) ∷ (0xdc00 + c % 1024) ∷ []

pub utf16-EncodesUnits : EncodesUnits utf16
utf16-EncodesUnits c h = ground arith

-- ㄋㄧˇ, settled by the local table and waiting for the model.
abbrev pub ni : BopomofoPos
ni = record {
  initial = 0x310b;
  medial = 0x3127;
  final = 0;
  tone = 0x02c7;
  choose_index = 0;
  chosen = false;
  predicted = false;
  conversion_pending = true;
  manually_selected = false;
  compositable = true;
  invalid = false;
  model_converted = false;
  id = 1;
  version = 3;
  converted_by = 0;
  candidates = 0x4f60 ∷ 0x59b3 ∷ [];
  predicted_candidate = none;
}

-- ㄋㄧ, without its tone.
abbrev pub ni_reading : BopomofoPos
ni_reading = record {
  initial = 0x310b;
  medial = 0x3127;
  final = 0;
  tone = 0;
  choose_index = 0;
  chosen = false;
  predicted = false;
  conversion_pending = false;
  manually_selected = false;
  compositable = false;
  invalid = false;
  model_converted = false;
  id = 2;
  version = 2;
  converted_by = 0;
  candidates = [];
  predicted_candidate = none;
}

-- ㄋ with the first tone, which is also a text of its own.
abbrev pub literal_n : BopomofoPos
literal_n = record ni { medial = 0; tone = 0x20; candidates = 0x55ef ∷ []; id = 4 }

pub ni-IsValid : Entry.IsValid ni
unfolding is_initial is_medial is_final is_tone
ni-IsValid = record {
  initial_class = inr refl;
  medial_class = inr refl;
  final_class = inl refl;
  tone_class = inr refl;
  index_in_range = λ _. omega arith;
  toned_is_settled = λ e _. cc;
  chosen_is_compositable = λ _. refl;
  pending_is_compositable = λ _. refl;
  unset_index = λ _. refl;
  chosen_is_settled = λ e. cc;
  invalid_is_reading = λ e. cc;
}

pub ni_reading-IsValid : Entry.IsValid ni_reading
unfolding is_initial is_medial is_final is_tone
ni_reading-IsValid = record {
  initial_class = inr refl;
  medial_class = inr refl;
  final_class = inl refl;
  tone_class = inl refl;
  index_in_range = λ e. cc;
  toned_is_settled = λ _ _. refl;
  chosen_is_compositable = λ e. cc;
  pending_is_compositable = λ e. cc;
  unset_index = λ _. refl;
  chosen_is_settled = λ _. refl;
  invalid_is_reading = λ _. refl;
}

-- 你 waiting for the model, and a reading after it.
abbrev pub typing : CompositionBuffer
typing = record {
  buffer = ni ∷ ni_reading ∷ [];
  caret = 2;
  immediate_conversion_enabled = false;
  revision = 5;
  next_id = 3;
}

pub typing-IsValid : IsValid typing
typing-IsValid = record {
  within = omega arith;
  entries = (ni-IsValid, (ni_reading-IsValid, tt));
  distinct = (refl, (refl, tt));
  below = (omega arith, (omega arith, tt));
}

-- 你 waiting for the model.
abbrev pub waiting : CompositionBuffer
waiting = record typing { buffer = ni ∷ []; caret = 1 }

-- What the model answers for it.
abbrev pub ni_converted : BopomofoPos
ni_converted = record ni { predicted = true; chosen = true; choose_index = 1 }

-- 妳, as the model chose it.
abbrev pub converted : CompositionBuffer
converted = record waiting {
  buffer = record ni_converted { conversion_pending = false; model_converted = true } ∷ [];
}

pub waiting-IsValid : IsValid waiting
waiting-IsValid = record {
  within = omega arith;
  entries = (ni-IsValid, tt);
  distinct = (refl, tt);
  below = (omega arith, tt);
}
