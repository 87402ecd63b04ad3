-- ===== src/Updates/Notifying.antt =====
-- service/src/service/major_update_notifier.cpp: `run`, up to the toast that it shows. Whether a stop is
-- requested, the settings and whether the toast can be made are inputs.
use ime_windows.Prelude.{
  ℕ, ◌≤◌, ◌<◌, ◌≡◌, refl, Bool, true, false, not, ◌||◌, Option, none, some, List, length, is_empty,
  any, ◌==◌, leb, if◌then◌else◌, if-elim, inl, inr, arith, Bool-cases,
}
use ime_windows.Settings.Codec.{UserSettings}
use ime_windows.Updates.Version.{is_commit_id}
use ime_windows.Updates.Manifest.{
  ReleaseChannel, UpdateCheckStatus, Fallible, threw, returned, ChannelCheckResult,
  UpdateCheckResult, Json, is_break,
}
use ime_windows.Updates.Checking.{
  Download, base_result, perform_check, fail_all, or_fail_all, check_now,
}
use ime_windows.Updates.Releases.{IsRelease}
use ime_windows.Updates.Offers.{IsOffered, IsTruthful, AreTruthful, check_now-AreTruthful}

-- What the run finds outside, in the order of the tests.
pub record Outside : Type 0 where
  pub stopped_while_waiting : Bool
  pub first_settings : UserSettings
  pub stopped_while_checking : Bool
  pub toast_is_made : Bool
  pub stopped_at_last : Bool
  pub last_settings : UserSettings

abbrev pub is_available : UpdateCheckStatus → Bool
is_available UpdateCheckStatus.update_available = true
is_available _ = false

unfoldable pub is_quiet : Outside → ℕ → Bool
is_quiet outside installed_build =
    outside.stopped_while_waiting
    || not outside.first_settings.major_update_notifications_enabled
    || installed_build == 0

unfoldable pub is_no_news : Outside → UpdateCheckResult → Bool
is_no_news outside result =
    outside.stopped_while_checking
    || not (is_available result.stable.status)
    || result.stable.major_update_build == 0
    || leb result.stable.major_update_build result.current_build

unfoldable pub is_turned_off : Outside → Bool
is_turned_off outside =
    not outside.toast_is_made
    || outside.stopped_at_last
    || not outside.last_settings.major_update_notifications_enabled

-- The text of the toast, if one is shown.
unfoldable pub run_notifier : Outside → ℕ → UpdateCheckResult → Option (List ℕ)
run_notifier outside installed_build result =
    if is_quiet outside installed_build
    then none
    else if is_no_news outside result
    then none
    else if is_turned_off outside
    then none
    else some result.stable.major_update_message

-- One line of at most 200 characters.
abbrev IsLine : List ℕ → Type 0
IsLine text = (is_empty text ≡ false) × (any is_break text ≡ false) × length text ≤ 200

-- A toast with the text: the stable channel has a major update that the installed build is older than, the
-- text is its message, and the user had the notifications on, at the start and at the end.
pub record Announces (json : Json) (download : Download) (outside : Outside) (current_build : ℕ)
    (stable : ChannelCheckResult) (text : List ℕ) : Type 0 where
  pub offered : IsOffered json ReleaseChannel.stable download current_build stable
  pub older : current_build < stable.major_update_build
  pub message : stable.major_update_message ≡ text
  pub line : IsLine stable.major_update_message
  pub on_at_first : outside.first_settings.major_update_notifications_enabled ≡ true
  pub on_at_last : outside.last_settings.major_update_notifications_enabled ≡ true

is_available-eq :
    (status : UpdateCheckStatus)
    → is_available status ≡ true
    → status ≡ UpdateCheckStatus.update_available
is_available-eq UpdateCheckStatus.update_available h = refl
is_available-eq UpdateCheckStatus.up_to_date h = cc
is_available-eq UpdateCheckStatus.local_newer h = cc
is_available-eq UpdateCheckStatus.development_build h = cc
is_available-eq UpdateCheckStatus.not_published h = cc
is_available-eq UpdateCheckStatus.failed h = cc

IsLine-major :
    (r : ChannelCheckResult)
    → IsRelease r
    → (r.major_update_build == 0) ≡ false
    → IsLine r.major_update_message
IsLine-major r v some_build = elim v.major_text [
  | inl none_set ↦ absurd (ground (arith, none_set, some_build))
  | inr ok ↦ (ground (arith, ok), ground (arith, ok), ground (arith, ok))
]

run_notifier-Announces :
    (json : Json) (download : Download) (outside : Outside) (current_build : ℕ)
    (result : UpdateCheckResult) (text : List ℕ)
    → result.current_build ≡ current_build
    → IsTruthful json ReleaseChannel.stable download current_build result.stable
    → run_notifier outside current_build result ≡ some text
    → Announces json download outside current_build result.stable text
unfolding run_notifier is_quiet is_no_news is_turned_off IsTruthful
run_notifier-Announces json download outside n result text same truthful =
    let Shown : Option (List ℕ) → Type 0 =
      λ shown. shown ≡ some text → Announces json download outside n result.stable text in
    if-elim Shown (is_quiet outside n) (λ _ h. absurd cc)
      (λ loud.
        if-elim Shown (is_no_news outside result) (λ _ h. absurd cc)
          (λ news.
            if-elim Shown (is_turned_off outside) (λ _ h. absurd cc)
              (λ on h.
                let offered =
                  truthful (is_available-eq result.stable.status (ground (arith, news))) in
                record {
                  offered = offered;
                  older = ground (arith, news, same);
                  message = ground (arith, h);
                  line = IsLine-major result.stable offered.release (ground (arith, news));
                  on_at_first = ground (arith, loud);
                  on_at_last = ground (arith, on);
                })))

check_now-current_build :
    (json : Json) (release_page : ReleaseChannel → List ℕ) (current_build : ℕ)
    (current_commit : List ℕ) (requests : Fallible (Unit {0})) (stable rolling : Download)
    → (check_now json release_page current_build current_commit requests stable
        rolling).current_build
      ≡ current_build
unfolding check_now or_fail_all fail_all perform_check base_result
check_now-current_build json release_page n c (threw e) stable rolling =
    elim (Bool-cases (is_commit_id c)) [ inl ok ↦ rw (ok) refl | inr bad ↦ rw (bad) refl ]
check_now-current_build json release_page n c (returned u) stable rolling =
    elim (Bool-cases (is_commit_id c)) [ inl ok ↦ rw (ok) refl | inr bad ↦ rw (bad) refl ]

-- Where the notifier shows a toast after a check, an update of the stable channel is offered, as
-- `check_now-AreTruthful` says, with a major update that is newer than the installed build; the toast has
-- its message, which is one line of 1 to 200 characters; and the user had the notifications on, both
-- before the check and when the toast is shown.
pub run_notifier-check_now :
    (json : Json) (release_page : ReleaseChannel → List ℕ) (current_build : ℕ)
    (current_commit : List ℕ) (requests : Fallible (Unit {0})) (stable rolling : Download)
    (outside : Outside) (text : List ℕ)
    → run_notifier outside current_build
        (check_now json release_page current_build current_commit requests stable rolling)
      ≡ some text
    → Announces json stable outside current_build
        (check_now json release_page current_build current_commit requests stable rolling).stable
        text
unfolding AreTruthful
run_notifier-check_now json release_page n c requests stable rolling outside text h =
    run_notifier-Announces json stable outside n
      (check_now json release_page n c requests stable rolling) text
      (check_now-current_build json release_page n c requests stable rolling)
      (check_now-AreTruthful json release_page n c requests stable rolling).0 h
