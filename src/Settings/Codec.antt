-- ===== src/Settings/Codec.antt =====
-- service/src/service/user_settings.hpp and user_settings_codec.cpp. JSON (rfl) and UTF-8 (utf8) are
-- parameters. `none` from `encode` is an exception. Texts are the numbers of their code units.
use ime_windows.Prelude.{
  ℕ, Bool, true, false, not, ◌&&◌, Option, none, some, List, [], ◌∷◌, length, ◌==◌, list_eq,
  if◌then◌else◌, is_empty, ◌>>=◌, ◌>>◌, guard,
}

pub data InferenceBackend : Type 0 where
  automatic cpu cuda vulkan : InferenceBackend

pub record InferenceDeviceSelection : Type 0 where
  pub backend : InferenceBackend
  pub device_id : List ℕ

pub record CustomNameSetting : Type 0 where
  pub name : List ℕ
  pub readings : List (List ℕ)

pub data TaskbarIconColor : Type 0 where
  system black white : TaskbarIconColor

pub record UserSettings : Type 0 where
  pub inference : InferenceDeviceSelection
  pub model_path : List ℕ
  pub custom_names : List CustomNameSetting
  pub shift_space_width_toggle_enabled : Bool
  pub immediate_conversion_enabled : Bool
  pub gpu_boost_enabled : Bool
  pub major_update_notifications_enabled : Bool
  pub taskbar_icon_color : TaskbarIconColor

-- `UserSettings{}`.
unfoldable pub default_settings : UserSettings
default_settings = record {
  inference = record { backend = InferenceBackend.automatic; device_id = [] };
  model_path = [];
  custom_names = [];
  shift_space_width_toggle_enabled = false;
  immediate_conversion_enabled = false;
  gpu_boost_enabled = true;
  major_update_notifications_enabled = true;
  taskbar_icon_color = TaskbarIconColor.system;
}

pub record CustomNameDocument : Type 0 where
  pub name : List ℕ
  pub readings : List (List ℕ)

pub record SettingsDocument : Type 0 where
  pub schema : ℕ
  pub backend : List ℕ
  pub device_id : List ℕ
  pub model_path : List ℕ
  pub custom_names : List CustomNameDocument
  pub shift_space_width_toggle_enabled : Bool
  pub immediate_conversion_enabled : Bool
  pub gpu_boost_enabled : Bool
  pub major_update_notifications_enabled : Bool
  pub taskbar_icon_color : List ℕ

-- "auto", "cpu", "cuda", "vulkan".
unfoldable pub backend_name : InferenceBackend → List ℕ
backend_name InferenceBackend.automatic = 97 ∷ 117 ∷ 116 ∷ 111 ∷ []
backend_name InferenceBackend.cpu = 99 ∷ 112 ∷ 117 ∷ []
backend_name InferenceBackend.cuda = 99 ∷ 117 ∷ 100 ∷ 97 ∷ []
backend_name InferenceBackend.vulkan = 118 ∷ 117 ∷ 108 ∷ 107 ∷ 97 ∷ 110 ∷ []

unfoldable pub parse_backend : List ℕ → Option InferenceBackend
unfolding backend_name
parse_backend text =
    if list_eq text (backend_name InferenceBackend.automatic)
    then some InferenceBackend.automatic
    else if list_eq text (backend_name InferenceBackend.cpu)
    then some InferenceBackend.cpu
    else if list_eq text (backend_name InferenceBackend.cuda)
    then some InferenceBackend.cuda
    else if list_eq text (backend_name InferenceBackend.vulkan)
    then some InferenceBackend.vulkan
    else none

-- "system", "black", "white".
unfoldable pub taskbar_icon_color_name : TaskbarIconColor → List ℕ
taskbar_icon_color_name TaskbarIconColor.system = 115 ∷ 121 ∷ 115 ∷ 116 ∷ 101 ∷ 109 ∷ []
taskbar_icon_color_name TaskbarIconColor.black = 98 ∷ 108 ∷ 97 ∷ 99 ∷ 107 ∷ []
taskbar_icon_color_name TaskbarIconColor.white = 119 ∷ 104 ∷ 105 ∷ 116 ∷ 101 ∷ []

unfoldable pub parse_taskbar_icon_color : List ℕ → TaskbarIconColor
unfolding taskbar_icon_color_name
parse_taskbar_icon_color text =
    if list_eq text (taskbar_icon_color_name TaskbarIconColor.black)
    then TaskbarIconColor.black
    else if list_eq text (taskbar_icon_color_name TaskbarIconColor.white)
    then TaskbarIconColor.white
    else TaskbarIconColor.system

-- The device matters for a GPU.
unfoldable pub is_gpu : InferenceBackend → Bool
is_gpu InferenceBackend.cuda = true
is_gpu InferenceBackend.vulkan = true
is_gpu _ = false

-- `selection`, with the device cleared where it does not matter.
unfoldable pub selected : InferenceBackend → List ℕ → InferenceDeviceSelection
selected backend device_id = record {
  backend = backend;
  device_id = if is_gpu backend then device_id else [];
}

-- The document that `encode` writes.
unfoldable pub written_document : List CustomNameDocument → UserSettings → SettingsDocument
written_document custom_names settings = record {
  schema = 1;
  backend = backend_name settings.inference.backend;
  device_id = if is_gpu settings.inference.backend then settings.inference.device_id else [];
  model_path = settings.model_path;
  custom_names = custom_names;
  shift_space_width_toggle_enabled = settings.shift_space_width_toggle_enabled;
  immediate_conversion_enabled = settings.immediate_conversion_enabled;
  gpu_boost_enabled = settings.gpu_boost_enabled;
  major_update_notifications_enabled = settings.major_update_notifications_enabled;
  taskbar_icon_color = taskbar_icon_color_name settings.taskbar_icon_color;
}

-- rfl::json::read and write, and the converters of utf8, which may throw.
pub record Libraries : Type 0 where
  pub read : List ℕ → Option SettingsDocument
  pub write : SettingsDocument → List ℕ
  pub utf8to32 : List ℕ → Option (List ℕ)
  pub utf8to16 : List ℕ → Option (List ℕ)
  pub utf32to8 : List ℕ → Option (List ℕ)
  pub utf16to8 : List ℕ → Option (List ℕ)

module _ (lib : Libraries) where
  unfoldable pub decode_readings : List (List ℕ) → Option (List (List ℕ))
  decode_readings [] = some []
  decode_readings (reading ∷ readings) = do
    guard (not (is_empty reading))
    first ← lib.utf8to16 reading
    rest ← decode_readings readings
    some (first ∷ rest)

  unfoldable pub decode_name : CustomNameDocument → Option CustomNameSetting
  decode_name entry = do
    guard (not (is_empty entry.name) && not (is_empty entry.readings))
    name ← lib.utf8to32 entry.name
    readings ← decode_readings entry.readings
    guard (length name == length readings)
    some (record { name = name; readings = readings })

  unfoldable pub decode_names : List CustomNameDocument → Option (List CustomNameSetting)
  decode_names [] = some []
  decode_names (entry ∷ entries) = do
    first ← decode_name entry
    rest ← decode_names entries
    some (first ∷ rest)

  unfoldable pub decode_document : SettingsDocument → Option UserSettings
  decode_document document = do
    guard (document.schema == 1)
    backend ← parse_backend document.backend
    custom_names ← decode_names document.custom_names
    some (record {
      inference = selected backend document.device_id;
      model_path = document.model_path;
      custom_names = custom_names;
      shift_space_width_toggle_enabled = document.shift_space_width_toggle_enabled;
      immediate_conversion_enabled = document.immediate_conversion_enabled;
      gpu_boost_enabled = document.gpu_boost_enabled;
      major_update_notifications_enabled = document.major_update_notifications_enabled;
      taskbar_icon_color = parse_taskbar_icon_color document.taskbar_icon_color;
    })

  unfoldable pub decode : List ℕ → Option UserSettings
  decode json = do document ← lib.read json; decode_document document

  unfoldable pub encode_readings : List (List ℕ) → Option (List (List ℕ))
  encode_readings [] = some []
  encode_readings (reading ∷ readings) = do
    guard (not (is_empty reading))
    first ← lib.utf16to8 reading
    rest ← encode_readings readings
    some (first ∷ rest)

  unfoldable pub encode_name : CustomNameSetting → Option CustomNameDocument
  encode_name entry = do
    guard (not (is_empty entry.name) && (length entry.name == length entry.readings))
    readings ← encode_readings entry.readings
    name ← lib.utf32to8 entry.name
    some (record { name = name; readings = readings })

  unfoldable pub encode_names : List CustomNameSetting → Option (List CustomNameDocument)
  encode_names [] = some []
  encode_names (entry ∷ entries) = do
    first ← encode_name entry
    rest ← encode_names entries
    some (first ∷ rest)

  unfoldable pub encode_document : UserSettings → Option SettingsDocument
  encode_document settings = do
    custom_names ← encode_names settings.custom_names
    some (written_document custom_names settings)

  unfoldable pub encode_settings : UserSettings → Option (List ℕ)
  encode_settings settings = do document ← encode_document settings; some (lib.write document)
