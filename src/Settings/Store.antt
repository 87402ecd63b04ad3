-- ===== src/Settings/Store.antt =====
-- service/src/service/user_settings.cpp: the settings in a file, written through a temporary file. What
-- the file system answers is an input; `none` as a result is an exception.
use ime_windows.Prelude.{
  ℕ, Bool, true, false, not, ◌&&◌, Option, none, some, List, [], if◌then◌else◌,
}
use ime_windows.Settings.Codec.{
  InferenceDeviceSelection, CustomNameSetting, TaskbarIconColor, UserSettings, default_settings,
  Libraries, decode, encode_settings,
}

-- The contents of settings.json and of settings.json.tmp.
pub record Files : Type 0 where
  pub settings : Option (List ℕ)
  pub temporary : Option (List ℕ)

-- Which calls succeed. When a write fails, the temporary file holds what was written of it.
pub record Io : Type 0 where
  pub finds_path : Bool
  pub reads : Bool
  pub creates_directories : Bool
  pub opens : Bool
  pub writes : Bool
  pub partial : List ℕ
  pub moves : Bool
  pub deletes : Bool

-- `DeleteFileW(temporary)`.
unfoldable pub delete_temporary : Io → Files → Files
delete_temporary io files = record files {
  temporary = if io.deletes then none else files.temporary;
}

-- Every exception becomes `false`.
unfoldable pub reported : Files × Option Bool → Files × Bool
reported (files, none) = (files, false)
reported (files, some done) = (files, done)

module _ (lib : Libraries) where
  -- The settings in the file, or the default for a file that cannot be read as settings.
  unfoldable pub stored_settings : Bool → Files → UserSettings
  stored_settings reads files = elim files.settings [
    | none ↦ default_settings
    | some body ↦
        if not reads
        then default_settings
        else elim (decode lib body) [ none ↦ default_settings | some settings ↦ settings ]
  ]

  unfoldable pub load_settings_unlocked : Io → Files → Option UserSettings
  load_settings_unlocked io files =
      if io.finds_path then some (stored_settings io.reads files) else none

  -- The move of the temporary file, after it was written.
  unfoldable pub replace_settings : Io → List ℕ → Files → Files × Option Bool
  replace_settings io body files =
      let written : Files = record files { temporary = some body } in
      let moved : Files = record { settings = some body; temporary = none } in
      let kept : Files = record files { temporary = some io.partial } in
      if not io.writes
      then (delete_temporary io kept, some false)
      else if not io.moves
      then (delete_temporary io written, some false)
      else (moved, some true)

  unfoldable pub save_settings_unlocked : Io → UserSettings → Files → Files × Option Bool
  save_settings_unlocked io settings files =
      let truncated : Files = record files { temporary = some [] } in
      if not (io.finds_path && io.creates_directories)
      then (files, none)
      else if not io.opens
      then (delete_temporary io files, some false)
      else elim (encode_settings lib settings) [
        | none ↦ (delete_temporary io truncated, none)
        | some body ↦ replace_settings io body files
      ]

  -- Every exception becomes the default settings.
  unfoldable pub load_settings : Io → Files → UserSettings
  load_settings io files = elim (load_settings_unlocked io files) [
    | none ↦ default_settings
    | some settings ↦ settings
  ]

  -- What all the functions that save one setting do.
  unfoldable pub save_changed : (UserSettings → UserSettings) → Io → Files → Files × Bool
  save_changed change io files = elim (load_settings_unlocked io files) [
    | none ↦ (files, false)
    | some settings ↦ reported (save_settings_unlocked io (change settings) files)
  ]

  unfoldable pub save_inference_settings : InferenceDeviceSelection → Io → Files → Files × Bool
  save_inference_settings selection = save_changed (λ s. record s { inference = selection })

  unfoldable pub save_model_path : List ℕ → Io → Files → Files × Bool
  save_model_path path = save_changed (λ s. record s { model_path = path })

  unfoldable pub save_custom_names : List CustomNameSetting → Io → Files → Files × Bool
  save_custom_names names = save_changed (λ s. record s { custom_names = names })

  unfoldable pub save_shift_space_width_toggle_setting : Bool → Io → Files → Files × Bool
  save_shift_space_width_toggle_setting enabled =
      save_changed (λ s. record s { shift_space_width_toggle_enabled = enabled })

  unfoldable pub save_immediate_conversion_setting : Bool → Io → Files → Files × Bool
  save_immediate_conversion_setting enabled =
      save_changed (λ s. record s { immediate_conversion_enabled = enabled })

  unfoldable pub save_gpu_boost_setting : Bool → Io → Files → Files × Bool
  save_gpu_boost_setting enabled = save_changed (λ s. record s { gpu_boost_enabled = enabled })

  unfoldable pub save_major_update_notifications_setting : Bool → Io → Files → Files × Bool
  save_major_update_notifications_setting enabled =
      save_changed (λ s. record s { major_update_notifications_enabled = enabled })

  unfoldable pub save_taskbar_icon_color_setting : TaskbarIconColor → Io → Files → Files × Bool
  save_taskbar_icon_color_setting color =
      save_changed (λ s. record s { taskbar_icon_color = color })
