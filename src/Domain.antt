-- ===== src/Domain.antt =====
-- internal/domain/domain.go: statuses, failure categories, classified errors and resolved targets.
-- The empty string that stands for "no category" in the source is `none` of an Option.
use remote_command_orchestra.Common.{
  ◌==◌, Bool, true, false, ◌||◌, List, [], ◌∷◌, ◌++◌, Bytes, codes, decimal, Dict, Option, ℤ, pos,
  negsuc, if◌then◌else◌, suc, ◌≡◌, ◌↔◌, refl, arith,
}

pub data Status : Type 0 where
  success failed skipped cancelled : Status

pub data Category : Type 0 where
  connection_timeout connection_refused dns_failure auth_failed host_key_mismatch : Category
  host_key_unknown handshake_failed session_failed command_timeout command_failed : Category
  template_error cancelled internal_error : Category

abbrev pub same_status : Status → Status → Bool
same_status Status.success Status.success = true
same_status Status.failed Status.failed = true
same_status Status.skipped Status.skipped = true
same_status Status.cancelled Status.cancelled = true
same_status _ _ = false

-- `==` on categories, for the five that the runner compares with.
abbrev pub is_cancelled : Category → Bool
is_cancelled Category.cancelled = true
is_cancelled _ = false

pub is_cancelled_iff : (c : Category) → (is_cancelled c ≡ true) ↔ (c ≡ Category.cancelled)
is_cancelled_iff Category.connection_timeout = ((λ h. ground arith), λ h. ground arith)
is_cancelled_iff Category.connection_refused = ((λ h. ground arith), λ h. ground arith)
is_cancelled_iff Category.dns_failure = ((λ h. ground arith), λ h. ground arith)
is_cancelled_iff Category.auth_failed = ((λ h. ground arith), λ h. ground arith)
is_cancelled_iff Category.host_key_mismatch = ((λ h. ground arith), λ h. ground arith)
is_cancelled_iff Category.host_key_unknown = ((λ h. ground arith), λ h. ground arith)
is_cancelled_iff Category.handshake_failed = ((λ h. ground arith), λ h. ground arith)
is_cancelled_iff Category.session_failed = ((λ h. ground arith), λ h. ground arith)
is_cancelled_iff Category.command_timeout = ((λ h. ground arith), λ h. ground arith)
is_cancelled_iff Category.command_failed = ((λ h. ground arith), λ h. ground arith)
is_cancelled_iff Category.template_error = ((λ h. ground arith), λ h. ground arith)
is_cancelled_iff Category.cancelled = ((λ h. refl), λ h. refl)
is_cancelled_iff Category.internal_error = ((λ h. ground arith), λ h. ground arith)

abbrev pub is_session_failed : Category → Bool
is_session_failed Category.session_failed = true
is_session_failed _ = false

abbrev pub is_command_failed : Category → Bool
is_command_failed Category.command_failed = true
is_command_failed _ = false

abbrev pub is_command_timeout : Category → Bool
is_command_timeout Category.command_timeout = true
is_command_timeout _ = false

-- The connection failures that may be tried again.
unfoldable pub is_retryable : Category → Bool
is_retryable Category.connection_timeout = true
is_retryable Category.connection_refused = true
is_retryable Category.handshake_failed = true
is_retryable Category.session_failed = true
is_retryable _ = false

pub record Failure : Type 0 where
  pub category : Category
  pub reason : Bytes

abbrev pub category_text : Category → Bytes
category_text Category.connection_timeout = codes "CONNECTION_TIMEOUT"
category_text Category.connection_refused = codes "CONNECTION_REFUSED"
category_text Category.dns_failure = codes "DNS_FAILURE"
category_text Category.auth_failed = codes "AUTH_FAILED"
category_text Category.host_key_mismatch = codes "HOST_KEY_MISMATCH"
category_text Category.host_key_unknown = codes "HOST_KEY_UNKNOWN"
category_text Category.handshake_failed = codes "SSH_HANDSHAKE_FAILED"
category_text Category.session_failed = codes "SESSION_FAILED"
category_text Category.command_timeout = codes "COMMAND_TIMEOUT"
category_text Category.command_failed = codes "COMMAND_FAILED"
category_text Category.template_error = codes "TEMPLATE_ERROR"
category_text Category.cancelled = codes "CANCELLED"
category_text Category.internal_error = codes "INTERNAL_ERROR"

-- Failure.Error.
pub error_text : Failure → Bytes
error_text f = category_text f.category ++ (codes ": " ++ f.reason)

-- An error value: a classified failure, or any other with its text.
pub data Error : Type 0 where
  classified : Failure → Error
  other : Bytes → Error

unfoldable pub as_failure : Error → Failure
as_failure (classified f) = f
as_failure (other text) = record { category = Category.internal_error; reason = text }

pub record Credential : Type 0 where
  pub name : Bytes
  pub type : Bytes
  pub username : Bytes
  pub password_env : Bytes
  pub key_file : Bytes
  pub passphrase_env : Bytes
  pub sudo_password_env : Bytes

pub record Endpoint : Type 0 where
  pub name : Bytes
  pub address : Bytes
  pub port : ℤ
  pub username : Bytes
  pub credential : Credential

abbrev has_colon : Bytes → Bool
has_colon [] = false
has_colon (c ∷ s) = c == b':' || has_colon s

abbrev pub itoa : ℤ → Bytes
itoa (pos n) = decimal n
itoa (negsuc n) = b'-' ∷ decimal (suc n)

-- net.JoinHostPort: an address with a colon is bracketed.
unfoldable pub addr : Endpoint → Bytes
addr e =
    if has_colon e.address
    then codes "[" ++ (e.address ++ (codes "]:" ++ itoa e.port))
    else e.address ++ (codes ":" ++ itoa e.port)

pub record Target : Type 0 where
  pub endpoint : Endpoint
  pub open endpoint use *
  pub group : Bytes
  pub tags : List Bytes
  pub variables : Dict Bytes
  pub bastion : Option Endpoint

abbrev pub sensitive_mask : Bytes
sensitive_mask = codes "[SENSITIVE]"
