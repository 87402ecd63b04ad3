-- ===== src/Settings/Saving.antt =====
-- What a save leaves in the file, and what is loaded after it (service/src/service/user_settings.cpp).
use ime_windows.Prelude.{
  ℕ, ◌≡◌, ◌⊎◌, refl, inl, inr, Bool, true, false, not, ◌&&◌, Option, none, some, List, arith,
  if-elim, Bool-cases, Option-cases,
}
use ime_windows.Settings.Codec.{UserSettings, Libraries, encode_settings}
use ime_windows.Settings.Store.{
  Files, Io, delete_temporary, stored_settings, load_settings_unlocked, replace_settings,
  save_settings_unlocked, load_settings, save_changed, reported,
}
use ime_windows.Settings.RoundTrip.{Converts, ReadsBack, kept_settings, decode-encode_settings}

module _ (lib : Libraries) where
  -- The file holds the settings, and nothing is left of the temporary file.
  pub record IsSaved (settings : UserSettings) (files : Files) : Type 0 where
    pub body : List ℕ
    pub encoded : encode_settings lib settings ≡ some body
    pub stored : files.settings ≡ some body
    pub cleaned : files.temporary ≡ none

  -- The settings were saved, or the file is what it was.
  abbrev pub Outcome : UserSettings → Files → Files × Bool → Type 0
  Outcome settings files result =
      ((result.1 ≡ true) × IsSaved settings result.0)
      ⊎ ((result.1 ≡ false) × (result.0.settings ≡ files.settings))

  replace_settings-Outcome :
      (io : Io) (settings : UserSettings) (body : List ℕ) (files : Files)
      → encode_settings lib settings ≡ some body
      → Outcome settings files (reported (replace_settings lib io body files))
  unfolding replace_settings delete_temporary reported
  replace_settings-Outcome io settings body files e = elim (Bool-cases io.writes) [
    | inl w ↦ elim (Bool-cases io.moves) [
      | inl m ↦
          rw (w, m) (inl (refl, record { body = body; encoded = e; stored = refl; cleaned = refl }))
      | inr m ↦ rw (w, m) (inr (refl, refl))
    ]
    | inr w ↦ rw w (inr (refl, refl))
  ]

  save_settings_unlocked-Outcome :
      (io : Io) (settings : UserSettings) (files : Files)
      → Outcome settings files (reported (save_settings_unlocked lib io settings files))
  unfolding save_settings_unlocked delete_temporary reported
  save_settings_unlocked-Outcome io settings files =
      let P : Files × Option Bool → Type 0 = λ r. Outcome settings files (reported r) in
      if-elim P (not (io.finds_path && io.creates_directories)) (λ _. inr (refl, refl))
        (λ _.
          if-elim P (not io.opens) (λ _. inr (refl, refl))
            (λ _. elim (Option-cases (encode_settings lib settings)) [
              | inl e ↦ rw e (inr (refl, refl))
              | inr (body, e) ↦ rw e (replace_settings-Outcome io settings body files e)
            ]))

  -- Whatever the file system does, a change of one setting either reports success, and the file
  -- holds exactly the encoding of the settings that were loaded, with that change, and no temporary
  -- file is left; or it reports a failure, and the file holds what it held.
  pub save_changed-Outcome :
      (change : UserSettings → UserSettings) (io : Io) (files : Files)
      → Outcome
          (change (stored_settings lib io.reads files))
          files
          (save_changed lib change io files)
  unfolding save_changed load_settings_unlocked
  save_changed-Outcome change io files = elim (Bool-cases io.finds_path) [
    | inl found ↦
        rw (found, save_changed)
          (save_settings_unlocked-Outcome io (change (stored_settings lib io.reads files)) files)
    | inr lost ↦ rw (lost, save_changed) (inr (refl, refl))
  ]

  -- After a save that succeeded, if the converters and JSON read back what they write and the file
  -- can be opened, what is loaded are the settings as they were before with that change, the
  -- identifier of a device left out unless the backend is that of a GPU.
  pub load_settings-save_changed :
      (change : UserSettings → UserSettings) (io later : Io) (files : Files)
      → Converts lib
      → ReadsBack lib (change (stored_settings lib io.reads files))
      → (save_changed lib change io files).1 ≡ true
      → later.finds_path ≡ true
      → later.reads ≡ true
      → load_settings lib later (save_changed lib change io files).0
        ≡ kept_settings (change (stored_settings lib io.reads files))
  unfolding load_settings load_settings_unlocked stored_settings
  load_settings-save_changed change io later files converts reads done finds can =
      elim (save_changed-Outcome change io files) [
        | inl (_, saved) ↦
            let back =
              decode-encode_settings lib converts (change (stored_settings lib io.reads files))
                saved.body reads saved.encoded in
            ground (arith, finds, can, saved.stored, back)
        | inr (failed, _) ↦ absurd (ground (arith, failed, done))
      ]
