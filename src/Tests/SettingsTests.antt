-- ===== src/Tests/SettingsTests.antt =====
-- The theorems on the settings at concrete inputs.
use ime_windows.Prelude.{◌≡◌, refl, true, false, none, some, [], ◌∷◌, list_eq, if◌then◌else◌, arith}
use ime_windows.Settings.Codec.{
  InferenceBackend, TaskbarIconColor, UserSettings, SettingsDocument, Libraries, backend_name,
  taskbar_icon_color_name, is_gpu, written_document, encode_readings, encode_name, encode_names,
  encode_document, encode_settings, decode,
}
use ime_windows.Settings.Store.{
  Files, Io, load_settings, load_settings_unlocked, save_changed, save_settings_unlocked,
  replace_settings, reported,
}
use ime_windows.Settings.RoundTrip.{Converts, ReadsBack, kept_settings, decode-encode_settings}
use ime_windows.Settings.Saving.{Outcome, save_changed-Outcome, load_settings-save_changed}

-- The settings of a user, with one name.
abbrev named : UserSettings
named = record {
  inference = record { backend = InferenceBackend.cuda; device_id = 48 ∷ [] };
  model_path = 109 ∷ [];
  custom_names = record { name = 110 ∷ []; readings = (97 ∷ []) ∷ [] } ∷ [];
  shift_space_width_toggle_enabled = false;
  immediate_conversion_enabled = true;
  gpu_boost_enabled = true;
  major_update_notifications_enabled = true;
  taskbar_icon_color = TaskbarIconColor.black;
}

abbrev document : SettingsDocument
document = record {
  schema = 1;
  backend = 99 ∷ 117 ∷ 100 ∷ 97 ∷ [];
  device_id = 48 ∷ [];
  model_path = 109 ∷ [];
  custom_names = record { name = 110 ∷ []; readings = (97 ∷ []) ∷ [] } ∷ [];
  shift_space_width_toggle_enabled = false;
  immediate_conversion_enabled = true;
  gpu_boost_enabled = true;
  major_update_notifications_enabled = true;
  taskbar_icon_color = 98 ∷ 108 ∷ 97 ∷ 99 ∷ 107 ∷ [];
}

-- Libraries that know one document, and texts of ASCII only.
abbrev ascii : Libraries
ascii = record {
  read = λ json. if list_eq json (123 ∷ []) then some document else none;
  write = λ d. 123 ∷ [];
  utf8to32 = some;
  utf8to16 = some;
  utf32to8 = some;
  utf16to8 = some;
}

ascii-Converts : Converts ascii
ascii-Converts = record {
  to32 = λ text bytes h. ground (arith, h);
  to16 = λ text bytes h. ground (arith, h);
  empty32 = refl;
  empty16 = refl;
}

named-ReadsBack : ReadsBack ascii named
unfolding encode_document encode_names encode_name encode_readings written_document backend_name
    taskbar_icon_color_name is_gpu
named-ReadsBack d h = h

decode-encode_settings_example : decode ascii (123 ∷ []) ≡ some (kept_settings named)
unfolding encode_settings encode_document encode_names encode_name encode_readings
decode-encode_settings_example =
    decode-encode_settings ascii ascii-Converts named (123 ∷ []) named-ReadsBack refl

abbrev no_files : Files
no_files = record { settings = none; temporary = none }

abbrev good : Io
good = record {
  finds_path = true;
  reads = true;
  creates_directories = true;
  opens = true;
  writes = true;
  partial = [];
  moves = true;
  deletes = true;
}

-- The disk is full.
save_changed-Outcome_example :
    Outcome ascii named no_files
      (save_changed ascii (λ s. named) (record good { writes = false }) no_files)
save_changed-Outcome_example =
    save_changed-Outcome ascii (λ s. named) (record good { writes = false }) no_files

load_settings-save_changed_example :
    load_settings ascii good (save_changed ascii (λ s. named) good no_files).0 ≡ kept_settings named
unfolding save_changed load_settings_unlocked reported save_settings_unlocked replace_settings
    encode_settings encode_document encode_names encode_name encode_readings
load_settings-save_changed_example =
    load_settings-save_changed ascii (λ s. named) good good no_files ascii-Converts named-ReadsBack
      refl refl refl
