-- ===== src/Settings/RoundTrip.antt =====
-- Settings that are encoded and decoded again (service/src/service/user_settings_codec.cpp).
use ime_windows.Prelude.{
  ℕ, ◌≡◌, ◌∙◌, refl, inl, inr, true, false, Option, some, List, [], ◌∷◌, length, ◌==◌, is_empty,
  arith, Bool-cases, Option-cases,
}
use ime_windows.Settings.Codec.{
  InferenceBackend, CustomNameSetting, TaskbarIconColor, UserSettings, CustomNameDocument,
  SettingsDocument, Libraries, backend_name, parse_backend, taskbar_icon_color_name,
  parse_taskbar_icon_color, is_gpu, selected, decode_readings, decode_name, decode_names,
  decode_document, decode, encode_readings, encode_name, encode_names, encode_document,
  written_document, encode_settings,
}

parse_backend-backend_name : (b : InferenceBackend) → parse_backend (backend_name b) ≡ some b
unfolding parse_backend backend_name
parse_backend-backend_name InferenceBackend.automatic = refl
parse_backend-backend_name InferenceBackend.cpu = refl
parse_backend-backend_name InferenceBackend.cuda = refl
parse_backend-backend_name InferenceBackend.vulkan = refl

parse_color-color_name :
    (c : TaskbarIconColor) → parse_taskbar_icon_color (taskbar_icon_color_name c) ≡ c
unfolding parse_taskbar_icon_color taskbar_icon_color_name
parse_color-color_name TaskbarIconColor.system = refl
parse_color-color_name TaskbarIconColor.black = refl
parse_color-color_name TaskbarIconColor.white = refl

-- The converters of utf8: what one direction writes, the other reads.
pub record Converts (lib : Libraries) : Type 0 where
  pub to32 : (text bytes : List ℕ) → lib.utf32to8 text ≡ some bytes → lib.utf8to32 bytes ≡ some text
  pub to16 : (text bytes : List ℕ) → lib.utf16to8 text ≡ some bytes → lib.utf8to16 bytes ≡ some text
  pub empty32 : lib.utf8to32 [] ≡ some []
  pub empty16 : lib.utf8to16 [] ≡ some []

-- JSON reads back the document that it writes for these settings.
abbrev pub ReadsBack : Libraries → UserSettings → Type 0
ReadsBack lib s =
    (document : SettingsDocument)
    → encode_document lib s ≡ some document
    → lib.read (lib.write document) ≡ some document

-- What is left of the settings: the device of a GPU only.
unfoldable pub kept_settings : UserSettings → UserSettings
kept_settings s = record s { inference = selected s.inference.backend s.inference.device_id }

full-text :
    (text bytes : List ℕ) (back : List ℕ → Option (List ℕ))
    → back [] ≡ some []
    → back bytes ≡ some text
    → is_empty text ≡ false
    → is_empty bytes ≡ false
full-text [] bytes back e h f = cc
full-text (c ∷ text) [] back e h f = ground (arith, e, h)
full-text (c ∷ text) (b ∷ bytes) back e h f = refl

full-same :
    (name : List ℕ) (readings : List (List ℕ))
    → is_empty name ≡ false
    → (length name == length readings) ≡ true
    → is_empty readings ≡ false
full-same [] readings f h = cc
full-same (c ∷ name) [] f h = ground (arith, h)
full-same (c ∷ name) (r ∷ readings) f h = refl

module _ (lib : Libraries) (converts : Converts lib) where
  -- What an encoded list of readings comes from.
  encode_readings-inv :
      (r : List ℕ) (readings encoded : List (List ℕ))
      → encode_readings lib (r ∷ readings) ≡ some encoded
      → (first : List ℕ) × (rest : List (List ℕ)) × (is_empty r ≡ false)
        × (lib.utf16to8 r ≡ some first)
        × (encode_readings lib readings ≡ some rest)
        × (encoded ≡ first ∷ rest)
  unfolding encode_readings
  encode_readings-inv r readings encoded h = elim (Option-cases (lib.utf16to8 r)) [
    | inl e ↦ absurd (ground (arith, h, e))
    | inr (first, e) ↦ elim (Option-cases (encode_readings lib readings)) [
      | inl f ↦ absurd (ground (arith, h, e, f))
      | inr (rest, f) ↦ (first, rest, ground (arith, h), e, f, ground (arith, h, e, f))
    ]
  ]

  decode-encode_readings :
      (readings encoded : List (List ℕ))
      → encode_readings lib readings ≡ some encoded
      → (decode_readings lib encoded ≡ some readings) × (is_empty encoded ≡ is_empty readings)
  unfolding encode_readings decode_readings
  decode-encode_readings [] [] h = (refl, refl)
  decode-encode_readings [] (e ∷ encoded) h = cc
  decode-encode_readings (r ∷ readings) encoded h =
      let (first, rest, full, at, more, eq) = encode_readings-inv r readings encoded h in
      let (back, _) = decode-encode_readings readings rest more in
      let some_text =
        full-text r first lib.utf8to16 converts.empty16 (converts.to16 r first at) full in
      rw eq (rw (some_text, converts.to16 r first at, back), refl)

  encode_name-inv :
      (entry : CustomNameSetting) (d : CustomNameDocument)
      → encode_name lib entry ≡ some d
      → (is_empty entry.name ≡ false)
        × ((length entry.name == length entry.readings) ≡ true)
        × (encode_readings lib entry.readings ≡ some d.readings)
        × (lib.utf32to8 entry.name ≡ some d.name)
  unfolding encode_name
  encode_name-inv entry d h = elim (Option-cases (encode_readings lib entry.readings)) [
    | inl e ↦ absurd (ground (arith, h, e))
    | inr (readings, e) ↦ elim (Option-cases (lib.utf32to8 entry.name)) [
      | inl f ↦ absurd (ground (arith, h, e, f))
      | inr (name, f) ↦ ground (arith, h, e, f)
    ]
  ]

  decode-encode_name :
      (entry : CustomNameSetting) (d : CustomNameDocument)
      → encode_name lib entry ≡ some d
      → decode_name lib d ≡ some entry
  unfolding decode_name
  decode-encode_name entry d h =
      let (full, same, readings, name) = encode_name-inv entry d h in
      let (back, some_readings) = decode-encode_readings entry.readings d.readings readings in
      let some_text =
        full-text entry.name d.name lib.utf8to32 converts.empty32
          (converts.to32 entry.name d.name name) full in
      let some_entry : is_empty d.readings ≡ false =
        some_readings ∙ full-same entry.name entry.readings full same in
      rw (some_text, some_entry, converts.to32 entry.name d.name name, back, same)

  encode_names-inv :
      (n : CustomNameSetting) (names : List CustomNameSetting) (encoded : List CustomNameDocument)
      → encode_names lib (n ∷ names) ≡ some encoded
      → (first : CustomNameDocument) × (rest : List CustomNameDocument) × (encode_name lib n
          ≡ some first)
        × (encode_names lib names ≡ some rest)
        × (encoded ≡ first ∷ rest)
  unfolding encode_names
  encode_names-inv n names encoded h = elim (Option-cases (encode_name lib n)) [
    | inl e ↦ absurd (ground (arith, h, e))
    | inr (first, e) ↦ elim (Option-cases (encode_names lib names)) [
      | inl f ↦ absurd (ground (arith, h, e, f))
      | inr (rest, f) ↦ (first, rest, e, f, ground (arith, h, e, f))
    ]
  ]

  decode-encode_names :
      (names : List CustomNameSetting) (encoded : List CustomNameDocument)
      → encode_names lib names ≡ some encoded
      → decode_names lib encoded ≡ some names
  unfolding encode_names decode_names
  decode-encode_names [] [] h = refl
  decode-encode_names [] (e ∷ encoded) h = cc
  decode-encode_names (n ∷ names) encoded h =
      let (first, rest, at, more, eq) = encode_names-inv n names encoded h in
      rw eq (rw (decode-encode_name n first at, decode-encode_names names rest more))

  decode-encode_document :
      (s : UserSettings) (d : SettingsDocument)
      → encode_document lib s ≡ some d
      → decode_document lib d ≡ some (kept_settings s)
  unfolding encode_document decode_document kept_settings selected written_document
  decode-encode_document s d h = elim (Option-cases (encode_names lib s.custom_names)) [
    | inl e ↦ absurd (ground (arith, h, e))
    | inr (names, e) ↦
        let back = decode-encode_names s.custom_names names e in
        let known = parse_backend-backend_name s.inference.backend in
        let color = parse_color-color_name s.taskbar_icon_color in
        let eq : d ≡ written_document names s = ground (arith, h, e) in
        rw eq (elim (Bool-cases (is_gpu s.inference.backend)) [
          | inl gpu ↦ rw (known, back, color, gpu)
          | inr other ↦ rw (known, back, color, other)
        ])
  ]

  -- If the converters and JSON read back what they write, settings that can be encoded are decoded
  -- as they were, the identifier of a device left out unless the backend is that of a GPU.
  pub decode-encode_settings :
      (s : UserSettings) (json : List ℕ)
      → ReadsBack lib s
      → encode_settings lib s ≡ some json
      → decode lib json ≡ some (kept_settings s)
  unfolding encode_settings decode
  decode-encode_settings s json reads h = elim (Option-cases (encode_document lib s)) [
    | inl e ↦ absurd (ground (arith, h, e))
    | inr (d, e) ↦
        let written : json ≡ lib.write d = ground (arith, h, e) in
        rw (written, reads d e) (decode-encode_document s d e)
  ]
