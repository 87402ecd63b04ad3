-- ===== src/Updates/Manifest.antt =====
-- service/src/settings/update_checker.hpp and update_checker.cpp: what the manifest of a release says of
-- an installation. JSON is a parameter, as are the downloads and the build that is installed.
use ime_windows.Prelude.{
  ℕ, Bool, true, false, not, ◌||◌, Option, none, some, List, [], length, any, is_empty, ◌==◌, ltb,
  list_eq, if◌then◌else◌, is_some,
}
use ime_windows.Updates.Version.{parse_calver, is_commit_id, is_sha256, is_release_setup_url}

pub data ReleaseChannel : Type 0 where
  stable rolling : ReleaseChannel

pub data UpdateCheckStatus : Type 0 where
  update_available up_to_date local_newer development_build not_published failed : UpdateCheckStatus

-- The texts of the exceptions, by what they say; those of the system come with it.
pub data Message : Type 0 where
  without_text missing_fields unsupported_schema invalid_integer invalid_identity : Message
  invalid_major_update invalid_setup commit_differs timed_out no_commit unknown_error : Message
  of_system : List ℕ → Message

-- winrt::hresult_error, std::exception, and anything else.
pub data Exception : Type 0 where
  hresult_error : ℕ → Message → Exception
  runtime_error : Message → Exception
  other : Exception

pub data Fallible {ℓ} (A : Type ℓ) : Type ℓ where
  threw : Exception → Fallible A
  returned : A → Fallible A

infixl 5 ◌>>=◌ ◌>>◌
abbrev pub ◌>>=◌ {ℓ κ} : {A : Type ℓ} {B : Type κ} → Fallible A → (A → Fallible B) → Fallible B
threw e >>= f = threw e
returned a >>= f = f a

abbrev pub ◌>>◌ {ℓ} : {B : Type ℓ} → Fallible (Unit {0}) → Fallible B → Fallible B
m >> k = m >>= λ _. k

-- `if (test) throw std::runtime_error(message)`.
abbrev pub throw_if : Bool → Message → Fallible (Unit {0})
throw_if true text = threw (Exception.runtime_error text)
throw_if false text = returned tt

pub record ChannelCheckResult : Type 0 where
  pub channel : ReleaseChannel
  pub status : UpdateCheckStatus
  pub latest_build : ℕ
  pub major_update_build : ℕ
  pub major_update_message : List ℕ
  pub latest_commit : List ℕ
  pub latest_version : List ℕ
  pub release_url : List ℕ
  pub setup_url : List ℕ
  pub setup_sha256 : List ℕ
  pub setup_size : ℕ
  pub error_message : Message

-- `{.channel = channel, .status = status}`.
abbrev pub channel_result : ReleaseChannel → UpdateCheckStatus → ChannelCheckResult
channel_result channel status = record {
  channel = channel;
  status = status;
  latest_build = 0;
  major_update_build = 0;
  major_update_message = [];
  latest_commit = [];
  latest_version = [];
  release_url = [];
  setup_url = [];
  setup_sha256 = [];
  setup_size = 0;
  error_message = Message.without_text;
}

unfoldable pub failed_channel : ReleaseChannel → Message → ChannelCheckResult
failed_channel channel text = record (channel_result channel UpdateCheckStatus.failed) {
  error_message = text;
}

pub record UpdateCheckResult : Type 0 where
  pub current_build : ℕ
  pub current_commit : List ℕ
  pub stable : ChannelCheckResult
  pub rolling : ChannelCheckResult

-- The names that the manifest uses.
pub data Field : Type 0 where
  schema build commit version major_update message setup url sha256 size : Field

-- Windows.Data.Json. `exact` is a number that is finite, not negative and whole.
pub record Json : Type 1 where
  pub Object : Type 0
  pub Number : Type 0
  pub try_parse : List ℕ → Option Object
  pub has_key : Object → Field → Bool
  pub named_number : Object → Field → Fallible Number
  pub named_string : Object → Field → Fallible (List ℕ)
  pub named_object : Object → Field → Fallible Object
  pub exact : Number → Option ℕ

abbrev pub largest_exact_json_integer : ℕ
largest_exact_json_integer = 9007199254740991

-- '\r', '\n' or '\t'.
abbrev pub is_break : ℕ → Bool
is_break c = c == 13 || c == 10 || c == 9

abbrev pub is_invalid_major : ℕ → List ℕ → ℕ → Bool
is_invalid_major major_build major_message latest_build =
    major_build == 0
    || ltb latest_build major_build
    || is_empty major_message
    || ltb 200 (length major_message)
    || any is_break major_message

-- The builds are ordered by their numbers; 0 is a development build.
unfoldable pub compare_builds : ℕ → List ℕ → ChannelCheckResult → Fallible UpdateCheckStatus
compare_builds current_build current_commit result =
    if current_build == 0
    then returned (
        if list_eq current_commit result.latest_commit
        then UpdateCheckStatus.up_to_date
        else UpdateCheckStatus.development_build)
    else if ltb current_build result.latest_build
    then returned UpdateCheckStatus.update_available
    else if ltb result.latest_build current_build
    then returned UpdateCheckStatus.local_newer
    else if list_eq current_commit result.latest_commit
    then returned UpdateCheckStatus.up_to_date
    else threw (Exception.runtime_error Message.commit_differs)

module _ (json : Json) where
  unfoldable pub json_unsigned : json.Object → Field → Fallible ℕ
  json_unsigned object name = do
    value ← json.named_number object name
    elim (json.exact value) [
      | none ↦ threw (Exception.runtime_error Message.invalid_integer)
      | some n ↦
          if ltb largest_exact_json_integer n
          then threw (Exception.runtime_error Message.invalid_integer)
          else returned n
    ]

  abbrev pub is_incomplete : json.Object → Bool
  is_incomplete manifest =
      not (json.has_key manifest Field.schema)
      || not (json.has_key manifest Field.build)
      || not (json.has_key manifest Field.commit)
      || not (json.has_key manifest Field.version)

  unfoldable pub parse_manifest : List ℕ → Fallible json.Object
  parse_manifest body = elim (json.try_parse body) [
    | none ↦ threw (Exception.runtime_error Message.missing_fields)
    | some manifest ↦ do
      throw_if (is_incomplete manifest) Message.missing_fields
      schema_number ← json_unsigned manifest Field.schema
      throw_if (not (schema_number == 1)) Message.unsupported_schema
      returned manifest
  ]

  unfoldable pub read_identity :
      (ReleaseChannel → List ℕ) → json.Object → ChannelCheckResult → Fallible ChannelCheckResult
  read_identity release_page manifest result = do
    latest_build ← json_unsigned manifest Field.build
    latest_commit ← json.named_string manifest Field.commit
    latest_version ← json.named_string manifest Field.version
    throw_if
        (not (is_commit_id latest_commit)
          || latest_build == 0
          || not (is_some (parse_calver latest_version)))
        Message.invalid_identity
    returned (record result {
      latest_build = latest_build;
      latest_commit = latest_commit;
      latest_version = latest_version;
      release_url = release_page result.channel;
    })

  unfoldable pub read_major_update : json.Object → ChannelCheckResult → Fallible ChannelCheckResult
  read_major_update manifest result =
      if json.has_key manifest Field.major_update
      then (do
        major ← json.named_object manifest Field.major_update
        major_build ← json_unsigned major Field.build
        major_message ← json.named_string major Field.message
        throw_if (is_invalid_major major_build major_message result.latest_build)
            Message.invalid_major_update
        returned (record result {
          major_update_build = major_build;
          major_update_message = major_message;
        }))
      else returned result

  unfoldable pub read_setup : json.Object → ChannelCheckResult → Fallible ChannelCheckResult
  read_setup manifest result =
      if json.has_key manifest Field.setup
      then (do
        setup_object ← json.named_object manifest Field.setup
        setup_url ← json.named_string setup_object Field.url
        setup_sha256 ← json.named_string setup_object Field.sha256
        setup_size ← json_unsigned setup_object Field.size
        throw_if
            (not (is_release_setup_url setup_url result.latest_version)
              || not (is_sha256 setup_sha256)
              || setup_size == 0)
            Message.invalid_setup
        returned (record result {
          setup_url = setup_url;
          setup_sha256 = setup_sha256;
          setup_size = setup_size;
        }))
      else returned result

  unfoldable pub evaluate_manifest :
      (ReleaseChannel → List ℕ) → ReleaseChannel → List ℕ → ℕ → List ℕ → Fallible ChannelCheckResult
  evaluate_manifest release_page channel body current_build current_commit = do
    manifest ← parse_manifest body
    identified ←
        read_identity release_page manifest (channel_result channel UpdateCheckStatus.failed)
    with_major ← read_major_update manifest identified
    result ← read_setup manifest with_major
    status ← compare_builds current_build current_commit result
    returned (record result { status = status })
