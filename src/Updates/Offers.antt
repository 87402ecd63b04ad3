-- ===== src/Updates/Offers.antt =====
-- When an update is offered (service/src/settings/update_checker.cpp).
use ime_windows.Prelude.{ℕ, ◌<◌, ◌≡◌, refl, not, List, list_eq, ◌==◌, ltb, if-elim, arith}
use ime_windows.Updates.Version.{is_commit_id}
use ime_windows.Updates.Manifest.{
  ReleaseChannel, UpdateCheckStatus, Message, Fallible, threw, returned, throw_if,
  ChannelCheckResult, channel_result, failed_channel, UpdateCheckResult, Json, parse_manifest,
  read_identity, read_major_update, read_setup, compare_builds, evaluate_manifest,
}
use ime_windows.Updates.Checking.{
  Download, is_not_found, caught, resolve_channel, base_result, perform_check, fail_all,
  or_fail_all, check_now,
}
use ime_windows.Updates.Releases.{
  Returns, bind-Returns, any-Returns, IsRelease, IsIdentified, SaysMajor, SaysSetup, IsManifest,
  AfterIdentity, AfterMajor, AfterSetup, parse_manifest-IsManifest, read_identity-IsRelease,
  read_major_update-IsRelease, read_setup-IsRelease,
}

-- The download has brought a manifest of schema 1, and the result says what it says.
abbrev pub ComesFrom : (json : Json) → ReleaseChannel → Download → ChannelCheckResult → Type 0
ComesFrom json channel download r =
    (body : List ℕ) × (manifest : json.Object) × (download ≡ Download.finished (returned body))
    × IsManifest json body manifest
    × IsIdentified json manifest channel r
    × SaysMajor json manifest r
    × SaysSetup json manifest r

-- An installed build, not one of development, that is older than the release in the download.
pub record IsOffered (json : Json) (channel : ReleaseChannel) (download : Download)
    (current_build : ℕ) (r : ChannelCheckResult) : Type 0 where
  pub release : IsRelease r
  pub origin : ComesFrom json channel download r
  pub installed : 0 < current_build
  pub newer : current_build < r.latest_build

-- The status speaks of an update only for an older build.
abbrev Newer : ℕ → ChannelCheckResult → UpdateCheckStatus → Type 0
Newer current_build r status =
    status ≡ UpdateCheckStatus.update_available
    → (0 < current_build) × current_build < r.latest_build

compare_builds-Newer :
    (current_build : ℕ) (current_commit : List ℕ) (r : ChannelCheckResult)
    → Returns (Newer current_build r) (compare_builds current_build current_commit r)
unfolding compare_builds Returns
compare_builds-Newer n c r =
    if-elim (Returns (Newer n r)) (n == 0)
      (λ _. if-elim (Newer n r) (list_eq c r.latest_commit) (λ _ h. cc) (λ _ h. cc))
      (λ some_build.
        if-elim (Returns (Newer n r)) (ltb n r.latest_build)
          (λ older h. (ground arith, ground arith))
          (λ _.
            if-elim (Returns (Newer n r)) (ltb r.latest_build n) (λ _ h. cc)
              (λ _.
                if-elim (Returns (Newer n r)) (list_eq c r.latest_commit) (λ _ h. cc) (λ _. tt))))

-- Where the status says that there is an update, it is one.
unfoldable pub IsTruthful : Json → ReleaseChannel → Download → ℕ → ChannelCheckResult → Type 0
IsTruthful json channel download current_build r =
    r.status ≡ UpdateCheckStatus.update_available → IsOffered json channel download current_build r

-- Both channels of a result are truthful.
unfoldable pub AreTruthful : Json → Download → Download → ℕ → UpdateCheckResult → Type 0
AreTruthful json stable rolling current_build result =
    IsTruthful json ReleaseChannel.stable stable current_build result.stable
    × IsTruthful json ReleaseChannel.rolling rolling current_build result.rolling

module _ (json : Json) (release_page : ReleaseChannel → List ℕ) (current_build : ℕ)
    (current_commit : List ℕ) where
  evaluate_manifest-IsTruthful :
      (channel : ReleaseChannel) (body : List ℕ)
      → Returns
          (IsTruthful json channel (Download.finished (returned body)) current_build)
          (evaluate_manifest json release_page channel body current_build current_commit)
  unfolding evaluate_manifest IsTruthful Returns
  evaluate_manifest-IsTruthful channel body =
      let Q : ChannelCheckResult → Type 0 =
        IsTruthful json channel (Download.finished (returned body)) current_build in
      bind-Returns (IsManifest json body) Q (parse_manifest json body) _
        (parse_manifest-IsManifest json body)
        (λ manifest is_manifest.
          bind-Returns (AfterIdentity json manifest channel) Q
            (read_identity json release_page manifest
              (channel_result channel UpdateCheckStatus.failed))
            _ (read_identity-IsRelease json release_page manifest channel)
            (λ identified v.
              bind-Returns (AfterMajor json manifest channel) Q
                (read_major_update json manifest identified) _
                (read_major_update-IsRelease json manifest channel identified v)
                (λ with_major w.
                  bind-Returns (AfterSetup json manifest channel) Q
                    (read_setup json manifest with_major) _
                    (read_setup-IsRelease json manifest channel with_major w)
                    (λ result (u, identity, major_update, setup_program).
                      bind-Returns (Newer current_build result) Q
                        (compare_builds current_build current_commit result) _
                        (compare_builds-Newer current_build current_commit result)
                        (λ status newer available. record {
                          release = record {
                            commit = u.commit;
                            version = u.version;
                            build = u.build;
                            major = u.major;
                            major_text = u.major_text;
                            setup = u.setup;
                          };
                          origin = (
                            body, manifest, refl, is_manifest, identity, major_update,
                            setup_program,
                          );
                          installed = (newer available).0;
                          newer = (newer available).1;
                        })))))

  caught-IsTruthful :
      (channel : ReleaseChannel) (download : Download) (attempt : Fallible ChannelCheckResult)
      → Returns (IsTruthful json channel download current_build) attempt
      → IsTruthful json channel download current_build (caught channel attempt)
  unfolding caught failed_channel Returns IsTruthful
  caught-IsTruthful channel download (returned result) h = h
  caught-IsTruthful channel download (threw e) h =
      if-elim (IsTruthful json channel download current_build) (is_not_found e) (λ _ impossible. cc)
        (λ _ impossible. cc)

  resolve_channel-IsTruthful :
      (channel : ReleaseChannel) (download : Download)
      → IsTruthful json channel download current_build
          (resolve_channel json release_page current_build current_commit channel download)
  unfolding resolve_channel Returns
  resolve_channel-IsTruthful channel Download.still_running =
      caught-IsTruthful channel Download.still_running _ tt
  resolve_channel-IsTruthful channel (Download.finished (threw e)) =
      caught-IsTruthful channel (Download.finished (threw e)) _ tt
  resolve_channel-IsTruthful channel (Download.finished (returned body)) =
      caught-IsTruthful channel (Download.finished (returned body)) _
        (evaluate_manifest-IsTruthful channel body)

  perform_check-AreTruthful :
      (requests : Fallible (Unit {0})) (stable rolling : Download)
      → Returns
          (AreTruthful json stable rolling current_build)
          (perform_check json release_page current_build current_commit requests stable rolling)
  unfolding perform_check base_result AreTruthful Returns
  perform_check-AreTruthful requests stable rolling =
      let Q : UpdateCheckResult → Type 0 = AreTruthful json stable rolling current_build in
      any-Returns Q (throw_if (not (is_commit_id current_commit)) Message.no_commit) _ (λ _ _.
        any-Returns Q requests _ (λ _ _. (
          resolve_channel-IsTruthful ReleaseChannel.stable stable,
          resolve_channel-IsTruthful ReleaseChannel.rolling rolling,
        )))

  or_fail_all-AreTruthful :
      (stable rolling : Download) (attempt : Fallible UpdateCheckResult)
      → Returns (AreTruthful json stable rolling current_build) attempt
      → AreTruthful json stable rolling current_build
          (or_fail_all json release_page current_build current_commit attempt)
  unfolding or_fail_all fail_all failed_channel base_result AreTruthful IsTruthful Returns
  or_fail_all-AreTruthful stable rolling (returned result) h = h
  or_fail_all-AreTruthful stable rolling (threw e) h = ((λ impossible. cc), (λ impossible. cc))

  -- Whatever the downloads bring, a check says of a channel that there is an update only where the
  -- download of that channel brought a manifest of schema 1; the result has the build, the commit id and
  -- the version of that manifest, and its major update and setup program, or none where it has none; a
  -- build is installed that is older than the manifest's; the commit id and the version are well formed;
  -- the major update is not newer than the build; and the setup program lies with the release of that
  -- version and has a SHA-256 and a size.
  pub check_now-AreTruthful :
      (requests : Fallible (Unit {0})) (stable rolling : Download)
      → AreTruthful json stable rolling current_build
          (check_now json release_page current_build current_commit requests stable rolling)
  unfolding check_now
  check_now-AreTruthful requests stable rolling =
      or_fail_all-AreTruthful stable rolling _ (perform_check-AreTruthful requests stable rolling)
