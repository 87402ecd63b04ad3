-- ===== src/Updates/Releases.antt =====
-- What is read of a manifest (service/src/settings/update_checker.cpp).
use ime_windows.Prelude.{
  ℕ, ◌≤◌, ◌<◌, ◌≡◌, ◌⊎◌, inl, inr, refl, Bool, true, false, not, ◌||◌, some, Option-cases, List, [],
  ◌==◌, is_some, if-elim, arith,
}
use ime_windows.Updates.Version.{parse_calver, is_commit_id, is_sha256, is_release_setup_url}
use ime_windows.Updates.Manifest.{
  ReleaseChannel, UpdateCheckStatus, Message, Fallible, threw, returned, ◌>>=◌, ◌>>◌, throw_if,
  Exception, parse_manifest, is_incomplete, ChannelCheckResult, channel_result, Field, Json,
  json_unsigned, read_identity, is_invalid_major, read_major_update, read_setup,
}

-- What is returned, if anything is, has the property.
unfoldable pub Returns {ℓ κ} : {A : Type ℓ} → (A → Type κ) → Fallible A → Type κ
Returns P (threw e) = Unit
Returns P (returned a) = P a

pub bind-Returns {ℓ κ} :
    {A : Type 0} {B : Type κ} (P : A → Type ℓ) (Q : B → Type ℓ) (m : Fallible A)
    (f : A → Fallible B)
    → Returns P m
    → ((a : A) → P a → Returns Q (f a))
    → Returns Q (m >>= f)
unfolding Returns
bind-Returns P Q (threw e) f h k = tt
bind-Returns P Q (returned a) f h k = k a h

-- What a call returns, if it returns.
pub any-Returns {ℓ κ} :
    {A : Type 0} {B : Type κ} (Q : B → Type ℓ) (m : Fallible A) (f : A → Fallible B)
    → ((a : A) → m ≡ returned a → Returns Q (f a))
    → Returns Q (m >>= f)
unfolding Returns
any-Returns Q (threw e) f k = tt
any-Returns Q (returned a) f k = k a refl

pub throw_if-Returns {κ} :
    {B : Type κ} (Q : B → Type 0) (test : Bool) (text : Message) (result : B)
    → (test ≡ false → Q result)
    → Returns Q (throw_if test text >> returned result)
unfolding Returns
throw_if-Returns Q true text result k = tt
throw_if-Returns Q false text result k = k refl

Fallible-cases :
    {A : Type 0} (m : Fallible A) → ((e : Exception) × (m ≡ threw e)) ⊎ ((a : A) × (m ≡ returned a))
Fallible-cases (threw e) = inl (e, refl)
Fallible-cases (returned a) = inr (a, refl)

-- A release: its commit, version and build are well formed, a major update in it is not newer than it,
-- and its setup program, if it names one, lies with the release and has a hash and a size.
pub record IsRelease (r : ChannelCheckResult) : Type 0 where
  pub commit : is_commit_id r.latest_commit ≡ true
  pub version : is_some (parse_calver r.latest_version) ≡ true
  pub build : 0 < r.latest_build
  pub major : r.major_update_build ≤ r.latest_build
  pub major_text :
      (r.major_update_build ≡ 0)
      ⊎ (is_invalid_major r.major_update_build r.major_update_message r.latest_build ≡ false)
  pub setup :
      (r.setup_url ≡ [])
      ⊎ ((is_release_setup_url r.setup_url r.latest_version ≡ true)
          × (is_sha256 r.setup_sha256 ≡ true)
          × 0 < r.setup_size)

module _ (json : Json) where
  -- The object has the number, a whole one, in the field.
  abbrev pub HasNumber : json.Object → Field → ℕ → Type 0
  HasNumber object name n =
      (value : json.Number) × (json.named_number object name ≡ returned value)
      × (json.exact value ≡ some n)

  -- The build, the commit and the version are those of the manifest.
  abbrev pub IsIdentified : json.Object → ReleaseChannel → ChannelCheckResult → Type 0
  IsIdentified manifest channel r =
      (r.channel ≡ channel)
      × HasNumber manifest Field.build r.latest_build
      × (json.named_string manifest Field.commit ≡ returned r.latest_commit)
      × (json.named_string manifest Field.version ≡ returned r.latest_version)

  -- The major update is the one in the manifest, if it has one.
  abbrev pub SaysMajor : json.Object → ChannelCheckResult → Type 0
  SaysMajor manifest r =
      ((json.has_key manifest Field.major_update ≡ false) × (r.major_update_build ≡ 0))
      ⊎ ((object : json.Object) × (json.named_object manifest Field.major_update ≡ returned object)
          × HasNumber object Field.build r.major_update_build
          × (json.named_string object Field.message ≡ returned r.major_update_message))

  -- The setup program is the one in the manifest, if it has one.
  abbrev pub SaysSetup : json.Object → ChannelCheckResult → Type 0
  SaysSetup manifest r =
      ((json.has_key manifest Field.setup ≡ false) × (r.setup_url ≡ []))
      ⊎ ((object : json.Object) × (json.named_object manifest Field.setup ≡ returned object)
          × (json.named_string object Field.url ≡ returned r.setup_url)
          × (json.named_string object Field.sha256 ≡ returned r.setup_sha256)
          × HasNumber object Field.size r.setup_size)

  -- What has been read after each step.
  abbrev pub AfterIdentity : json.Object → ReleaseChannel → ChannelCheckResult → Type 0
  AfterIdentity manifest channel r =
      IsRelease r
      × IsIdentified manifest channel r
      × (r.major_update_build ≡ 0)
      × (r.setup_url ≡ [])

  abbrev pub AfterMajor : json.Object → ReleaseChannel → ChannelCheckResult → Type 0
  AfterMajor manifest channel r =
      IsRelease r × IsIdentified manifest channel r × SaysMajor manifest r × (r.setup_url ≡ [])

  abbrev pub AfterSetup : json.Object → ReleaseChannel → ChannelCheckResult → Type 0
  AfterSetup manifest channel r =
      IsRelease r × IsIdentified manifest channel r × SaysMajor manifest r × SaysSetup manifest r

  json_unsigned-HasNumber :
      (object : json.Object) (name : Field) (n : ℕ)
      → json_unsigned json object name ≡ returned n
      → HasNumber object name n
  unfolding json_unsigned
  json_unsigned-HasNumber object name n h = elim (Fallible-cases (json.named_number object name)) [
    | inl (e, f) ↦ absurd (ground (arith, h, f))
    | inr (value, f) ↦ elim (Option-cases (json.exact value)) [
      | inl none_exact ↦ absurd (ground (arith, h, f, none_exact))
      | inr (m, g) ↦ (value, f, ground (arith, h, f, g))
    ]
  ]

  -- The manifest is what the body says, in schema 1.
  abbrev pub IsManifest : List ℕ → json.Object → Type 0
  IsManifest body manifest =
      (json.try_parse body ≡ some manifest) × HasNumber manifest Field.schema 1

  pub parse_manifest-IsManifest :
      (body : List ℕ) → Returns (IsManifest body) (parse_manifest json body)
  unfolding parse_manifest Returns
  parse_manifest-IsManifest body = elim (Option-cases (json.try_parse body)) [
    | inl e ↦ rw (e, parse_manifest) tt
    | inr (manifest, e) ↦
        rw (e, parse_manifest)
          (any-Returns (IsManifest body)
            (throw_if (is_incomplete json manifest) Message.missing_fields) _
            (λ _ _.
              any-Returns (IsManifest body) (json_unsigned json manifest Field.schema) _
                (λ n at_schema.
                  throw_if-Returns (IsManifest body) (not (n == 1)) Message.unsupported_schema
                    manifest
                    (λ ok.
                      let one : n ≡ 1 = ground (arith, ok) in
                      (e, rw one at (json_unsigned-HasNumber manifest Field.schema n at_schema))))))
  ]

  pub read_identity-IsRelease :
      (release_page : ReleaseChannel → List ℕ) (manifest : json.Object) (channel : ReleaseChannel)
      → Returns (AfterIdentity manifest channel) (
          read_identity json release_page manifest
            (channel_result channel UpdateCheckStatus.failed))
  unfolding read_identity Returns
  read_identity-IsRelease release_page manifest channel =
      any-Returns (AfterIdentity manifest channel) (json_unsigned json manifest Field.build) _
        (λ n at_build.
          any-Returns (AfterIdentity manifest channel) (json.named_string manifest Field.commit) _
            (λ c at_commit.
              any-Returns (AfterIdentity manifest channel)
                (json.named_string manifest Field.version) _
                (λ v at_version.
                  throw_if-Returns (AfterIdentity manifest channel)
                    (not (is_commit_id c) || n == 0 || not (is_some (parse_calver v)))
                    Message.invalid_identity
                    (record (channel_result channel UpdateCheckStatus.failed) {
                      latest_build = n;
                      latest_commit = c;
                      latest_version = v;
                      release_url = release_page channel;
                    })
                    (λ ok. (
                      record {
                        commit = ground (arith, ok);
                        version = ground (arith, ok);
                        build = ground (arith, ok);
                        major = ground arith;
                        major_text = inl refl;
                        setup = inl refl;
                      },
                      (
                        refl,
                        json_unsigned-HasNumber manifest Field.build n at_build,
                        at_commit,
                        at_version,
                      ),
                      refl,
                      refl,
                    )))))

  pub read_major_update-IsRelease :
      (manifest : json.Object) (channel : ReleaseChannel) (r : ChannelCheckResult)
      → AfterIdentity manifest channel r
      → Returns (AfterMajor manifest channel) (read_major_update json manifest r)
  unfolding read_major_update Returns
  read_major_update-IsRelease manifest channel r (v, identified, no_major, no_setup) =
      if-elim (Returns (AfterMajor manifest channel)) (json.has_key manifest Field.major_update)
        (λ _.
          any-Returns (AfterMajor manifest channel) (json.named_object manifest Field.major_update)
            _
            (λ object at_object.
              any-Returns (AfterMajor manifest channel) (json_unsigned json object Field.build) _
                (λ n at_build.
                  any-Returns (AfterMajor manifest channel) (json.named_string object Field.message)
                    _
                    (λ m at_message.
                      throw_if-Returns (AfterMajor manifest channel)
                        (is_invalid_major n m r.latest_build) Message.invalid_major_update
                        (record r { major_update_build = n; major_update_message = m })
                        (λ ok. (
                          record {
                            commit = v.commit;
                            version = v.version;
                            build = v.build;
                            major = ground (arith, ok);
                            major_text = inr ok;
                            setup = v.setup;
                          },
                          identified,
                          inr (
                            object,
                            at_object,
                            json_unsigned-HasNumber object Field.build n at_build,
                            at_message,
                          ),
                          no_setup,
                        ))))))
        (λ absent. (v, identified, inl (absent, no_major), no_setup))

  pub read_setup-IsRelease :
      (manifest : json.Object) (channel : ReleaseChannel) (r : ChannelCheckResult)
      → AfterMajor manifest channel r
      → Returns (AfterSetup manifest channel) (read_setup json manifest r)
  unfolding read_setup Returns
  read_setup-IsRelease manifest channel r (v, identified, major, no_setup) =
      if-elim (Returns (AfterSetup manifest channel)) (json.has_key manifest Field.setup)
        (λ _.
          any-Returns (AfterSetup manifest channel) (json.named_object manifest Field.setup) _
            (λ object at_object.
              any-Returns (AfterSetup manifest channel) (json.named_string object Field.url) _
                (λ url at_url.
                  any-Returns (AfterSetup manifest channel) (json.named_string object Field.sha256)
                    _
                    (λ hash at_hash.
                      any-Returns (AfterSetup manifest channel)
                        (json_unsigned json object Field.size) _
                        (λ n at_size.
                          throw_if-Returns (AfterSetup manifest channel)
                            (not (is_release_setup_url url r.latest_version)
                              || not (is_sha256 hash)
                              || n == 0)
                            Message.invalid_setup
                            (record r { setup_url = url; setup_sha256 = hash; setup_size = n })
                            (λ ok. (
                              record {
                                commit = v.commit;
                                version = v.version;
                                build = v.build;
                                major = v.major;
                                major_text = v.major_text;
                                setup =
                                    inr
                                      (ground (arith, ok), ground (arith, ok), ground (arith, ok));
                              },
                              identified,
                              major,
                              inr (
                                object,
                                at_object,
                                at_url,
                                at_hash,
                                json_unsigned-HasNumber object Field.size n at_size,
                              ),
                            )))))))
        (λ absent. (v, identified, major, inl (absent, no_setup)))
