-- ===== src/Tests/UpdateTests.antt =====
-- The theorems on the check for updates at concrete inputs.
use ime_windows.Prelude.{
  ℕ, ◌≡◌, refl, Bool, true, false, not, ◌&&◌, Option, none, some, List, [], ◌∷◌, ◌++◌, all,
  is_empty, ltb, u64_mod, if◌then◌else◌,
}
use ime_windows.Updates.Version.{
  is_digit, parse_digits, parse_calver_component, cut_at, is_date, parse_components, parse_calver,
  is_commit_id, is_sha256, strip_prefix, ends_with, download_page, is_release_setup_url,
}
use ime_windows.Updates.Numbers.{decimal, parse_calver_component-number}
use ime_windows.Updates.Manifest.{
  ReleaseChannel, UpdateCheckStatus, Message, Fallible, returned, Field, Json, json_unsigned,
  parse_manifest, read_identity, read_major_update, read_setup, compare_builds, evaluate_manifest,
  failed_channel,
}
use ime_windows.Updates.Checking.{
  Download, resolve_channel, base_result, perform_check, or_fail_all, check_now, is_not_found,
  caught,
}
use ime_windows.Updates.Notifying.{
  Outside, run_notifier, is_quiet, is_no_news, is_turned_off, Announces, run_notifier-check_now,
}
use ime_windows.Settings.Codec.{default_settings}
use ime_windows.Updates.Offers.{AreTruthful, check_now-AreTruthful}

-- "2026.11.25.3".
abbrev version : List ℕ
version = 50 ∷ 48 ∷ 50 ∷ 54 ∷ 46 ∷ 49 ∷ 49 ∷ 46 ∷ 50 ∷ 53 ∷ 46 ∷ 51 ∷ []

-- "2f00a1c".
abbrev commit_id : List ℕ
commit_id = 50 ∷ 102 ∷ 48 ∷ 48 ∷ 97 ∷ 49 ∷ 99 ∷ []

abbrev hash : List ℕ
hash =
    48 ∷ 49 ∷ 50 ∷ 51 ∷ 52 ∷ 53 ∷ 54 ∷ 55 ∷ 56 ∷ 57 ∷ 97 ∷ 98 ∷ 99 ∷ 100 ∷ 101 ∷ 102 ∷ 48 ∷ 49 ∷ 50
    ∷ 51 ∷ 52 ∷ 53 ∷ 54 ∷ 55 ∷ 56 ∷ 57 ∷ 97 ∷ 98 ∷ 99 ∷ 100 ∷ 101 ∷ 102 ∷ 48 ∷ 49 ∷ 50 ∷ 51 ∷ 52
    ∷ 53 ∷ 54 ∷ 55 ∷ 56 ∷ 57 ∷ 97 ∷ 98 ∷ 99 ∷ 100 ∷ 101 ∷ 102 ∷ 48 ∷ 49 ∷ 50 ∷ 51 ∷ 52 ∷ 53 ∷ 54
    ∷ 55 ∷ 56 ∷ 57 ∷ 97 ∷ 98 ∷ 99 ∷ 100 ∷ 101 ∷ 102 ∷ []

abbrev setup_url : List ℕ
setup_url = download_page ++ version ++ (47 ∷ 97 ∷ 46 ∷ 101 ∷ 120 ∷ 101 ∷ [])

-- An object is a part of one manifest, of build 12, a major update with a setup program of 500 bytes.
data Part : Type 0 where
  manifest_part setup_part : Part

abbrev has_field : Part → Field → Bool
has_field setup_part Field.major_update = false
has_field _ _ = true

abbrev number_of : Part → Field → Fallible ℕ
number_of _ Field.schema = returned 1
number_of _ Field.build = returned 12
number_of _ _ = returned 500

abbrev string_of : Part → Field → Fallible (List ℕ)
string_of _ Field.commit = returned commit_id
string_of _ Field.version = returned version
string_of _ Field.message = returned (33 ∷ [])
string_of _ Field.url = returned setup_url
string_of _ _ = returned hash

-- A body is a manifest if it is not empty.
abbrev parsed : List ℕ → Option Part
parsed [] = none
parsed (c ∷ cs) = some manifest_part

abbrev json : Json
json = record {
  Object = Part;
  Number = ℕ;
  try_parse = parsed;
  has_key = has_field;
  named_number = number_of;
  named_string = string_of;
  named_object = λ _ _. returned setup_part;
  exact = λ n. some n;
}

abbrev release_page : ReleaseChannel → List ℕ
release_page _ = []

-- The stable manifest came, the other is still on its way.
abbrev stable : Download
stable = Download.finished (returned (123 ∷ 125 ∷ []))

abbrev rolling : Download
rolling = Download.still_running

-- An older build is told of the update, the same one is not, and a slow download is a failure.
check_now_older :
    (check_now json release_page 11 commit_id (returned tt) stable rolling).stable.status
    ≡ UpdateCheckStatus.update_available
unfolding check_now or_fail_all perform_check base_result resolve_channel caught evaluate_manifest
    parse_manifest json_unsigned read_identity read_major_update read_setup compare_builds
    parse_calver parse_components parse_calver_component parse_digits cut_at is_date is_commit_id
    is_sha256 is_release_setup_url strip_prefix ends_with
check_now_older = refl

check_now_same :
    (check_now json release_page 12 commit_id (returned tt) stable rolling).stable.status
    ≡ UpdateCheckStatus.up_to_date
unfolding check_now or_fail_all perform_check base_result resolve_channel caught evaluate_manifest
    parse_manifest json_unsigned read_identity read_major_update read_setup compare_builds
    parse_calver parse_components parse_calver_component parse_digits cut_at is_date is_commit_id
    is_sha256 is_release_setup_url strip_prefix ends_with
check_now_same = refl

check_now_slow :
    (check_now json release_page 11 commit_id (returned tt) stable rolling).rolling
    ≡ failed_channel ReleaseChannel.rolling Message.timed_out
unfolding check_now or_fail_all perform_check base_result resolve_channel caught is_not_found
    failed_channel is_commit_id
check_now_slow = refl

-- The 30th of February is no date.
parse_calver_february :
    parse_calver (50 ∷ 48 ∷ 50 ∷ 54 ∷ 46 ∷ 48 ∷ 50 ∷ 46 ∷ 51 ∷ 48 ∷ 46 ∷ 49 ∷ []) ≡ none
unfolding parse_calver parse_components parse_calver_component parse_digits cut_at is_date
parse_calver_february = refl

check_now-AreTruthful_example :
    AreTruthful json stable rolling 11
      (check_now json release_page 11 commit_id (returned tt) stable rolling)
check_now-AreTruthful_example =
    check_now-AreTruthful json release_page 11 commit_id (returned tt) stable rolling

-- "18446744073709551616".
abbrev two_to_64 : List ℕ
two_to_64 =
    49 ∷ 56 ∷ 52 ∷ 52 ∷ 54 ∷ 55 ∷ 52 ∷ 52 ∷ 48 ∷ 55 ∷ 51 ∷ 55 ∷ 48 ∷ 57 ∷ 53 ∷ 53 ∷ 49 ∷ 54 ∷ 49
    ∷ 54 ∷ []

parse_calver_component-number_example : parse_calver_component two_to_64 ≡ (
    if not (is_empty two_to_64) && all is_digit two_to_64 && ltb (decimal 0 two_to_64) u64_mod
    then some (decimal 0 two_to_64)
    else none)
parse_calver_component-number_example = parse_calver_component-number two_to_64

-- The user has the notifications on, and nothing is stopped.
abbrev outside : Outside
outside = record {
  stopped_while_waiting = false;
  first_settings = default_settings;
  stopped_while_checking = false;
  toast_is_made = true;
  stopped_at_last = false;
  last_settings = default_settings;
}

run_notifier-check_now_example :
    Announces json stable outside 11
      (check_now json release_page 11 commit_id (returned tt) stable rolling).stable
      (33 ∷ [])
unfolding run_notifier is_quiet is_no_news is_turned_off check_now or_fail_all perform_check
    base_result resolve_channel caught evaluate_manifest parse_manifest json_unsigned read_identity
    read_major_update read_setup compare_builds parse_calver parse_components parse_calver_component
    parse_digits cut_at is_date is_commit_id is_sha256 is_release_setup_url strip_prefix ends_with
    default_settings
run_notifier-check_now_example =
    run_notifier-check_now json release_page 11 commit_id (returned tt) stable rolling outside
      (33 ∷ []) refl
