-- ===== src/Prelude/Error.antt =====
-- Go's `error` values and `errors.Is`, which walks the chain of wrappers.
use Prim.Native.Nat.{ℕ}
use Prim.Native.String.{String, ◌++◌}
use mathlib.Core.Bool.{Bool, true, false}
use contentflow.Prelude.Tests.{◌==◌}

-- The package-level error variables that the modelled code returns or tests for.
pub data Sentinel : Type 0 where
  canceled record_not_found duplicated_key : Sentinel
  invalid_message outbox_event_not_found outbox_claim_lost : Sentinel
  job_execution_claim_lost dlq_item_not_found : Sentinel
  source_not_found source_not_accessible : Sentinel
  collector_not_found collection_failed collection_in_progress : Sentinel
  collection_run_not_found : Sentinel
  user_not_found email_already_exists invalid_credentials invalid_email weak_password : Sentinel
  invalid_refresh_token refresh_token_not_found source_url_duplicated : Sentinel
  invalid_source_name invalid_source_type invalid_source_url invalid_source_config : Sentinel
  source_already_exists unsafe_address : Sentinel
  article_not_found invalid_collected_item : Sentinel

-- `errors.New`: a variable is equal to itself alone.
abbrev rank : Sentinel → ℕ
rank Sentinel.canceled = 0
rank Sentinel.record_not_found = 1
rank Sentinel.duplicated_key = 2
rank Sentinel.invalid_message = 3
rank Sentinel.outbox_event_not_found = 4
rank Sentinel.outbox_claim_lost = 5
rank Sentinel.job_execution_claim_lost = 6
rank Sentinel.dlq_item_not_found = 7
rank Sentinel.source_not_found = 8
rank Sentinel.source_not_accessible = 9
rank Sentinel.collector_not_found = 10
rank Sentinel.collection_failed = 11
rank Sentinel.collection_in_progress = 12
rank Sentinel.collection_run_not_found = 13
rank Sentinel.user_not_found = 14
rank Sentinel.email_already_exists = 15
rank Sentinel.invalid_credentials = 16
rank Sentinel.invalid_email = 17
rank Sentinel.weak_password = 18
rank Sentinel.invalid_refresh_token = 19
rank Sentinel.refresh_token_not_found = 20
rank Sentinel.source_url_duplicated = 21
rank Sentinel.invalid_source_name = 22
rank Sentinel.invalid_source_type = 23
rank Sentinel.invalid_source_url = 24
rank Sentinel.invalid_source_config = 25
rank Sentinel.source_already_exists = 26
rank Sentinel.unsafe_address = 27
rank Sentinel.article_not_found = 28
rank Sentinel.invalid_collected_item = 29

abbrev pub sentinel_text : Sentinel → String
sentinel_text Sentinel.canceled = "context canceled"
sentinel_text Sentinel.record_not_found = "record not found"
sentinel_text Sentinel.duplicated_key = "duplicated key not allowed"
sentinel_text Sentinel.invalid_message = "invalid message"
sentinel_text Sentinel.outbox_event_not_found = "outbox event not found"
sentinel_text Sentinel.outbox_claim_lost = "outbox event claim lost"
sentinel_text Sentinel.job_execution_claim_lost = "job execution claim lost"
sentinel_text Sentinel.dlq_item_not_found = "dlq item not found"
sentinel_text Sentinel.source_not_found = "source not found"
sentinel_text Sentinel.source_not_accessible = "source not accessible"
sentinel_text Sentinel.collector_not_found = "collector not found"
sentinel_text Sentinel.collection_failed = "collection failed"
sentinel_text Sentinel.collection_in_progress = "collection in progress"
sentinel_text Sentinel.collection_run_not_found = "collection run not found"
sentinel_text Sentinel.user_not_found = "user not found"
sentinel_text Sentinel.email_already_exists = "email already exists"
sentinel_text Sentinel.invalid_credentials = "invalid credentials"
sentinel_text Sentinel.invalid_email = "invalid email"
sentinel_text Sentinel.weak_password = "weak password"
sentinel_text Sentinel.invalid_refresh_token = "invalid refresh token"
sentinel_text Sentinel.refresh_token_not_found = "refresh tokrn not found"
sentinel_text Sentinel.source_url_duplicated = "source URL duplicated"
sentinel_text Sentinel.invalid_source_name = "invalid source name"
sentinel_text Sentinel.invalid_source_type = "invalid source type"
sentinel_text Sentinel.invalid_source_url = "invalid source url"
sentinel_text Sentinel.invalid_source_config = "invalid source config"
sentinel_text Sentinel.source_already_exists = "source already exists"
sentinel_text Sentinel.unsafe_address = "unsafe outbound address"
sentinel_text Sentinel.article_not_found = "article not found"
sentinel_text Sentinel.invalid_collected_item = "invalid collected item"

-- `sentinel s` is the variable itself, `wrap t e` is `fmt.Errorf("t: %w", e)`, `detail s t` is
-- `fmt.Errorf("%w: t", s)`, `permanent e` is `permanentError{err: e}`, and `other t` is an error
-- with the text `t` that wraps nothing.
pub data Err : Type 0 where
  sentinel : Sentinel → Err
  wrap : String → Err → Err
  detail : Sentinel → String → Err
  permanent : Err → Err
  other : String → Err

-- `err.Error()`
pub message : Err → String
message (Err.sentinel s) = sentinel_text s
message (Err.wrap t e) = t ++ (": " ++ message e)
message (Err.detail s t) = sentinel_text s ++ (": " ++ t)
message (Err.permanent e) = message e
message (Err.other t) = t

-- `errors.Is(err, s)`
unfoldable pub is_error : Err → Sentinel → Bool
is_error (Err.sentinel s) t = rank s == rank t
is_error (Err.wrap m e) t = is_error e t
is_error (Err.detail s m) t = rank s == rank t
is_error (Err.permanent e) t = is_error e t
is_error (Err.other m) t = false

-- `errors.As(err, &permanent)`
unfoldable pub has_permanent : Err → Bool
has_permanent (Err.sentinel s) = false
has_permanent (Err.wrap m e) = has_permanent e
has_permanent (Err.detail s m) = false
has_permanent (Err.permanent e) = true
has_permanent (Err.other m) = false
