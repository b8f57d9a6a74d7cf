-- ===== src/Tasks/Fingerprint.antt =====
-- The texts that bind a task to its request: apps/longhub-cloud-api/src/task-fingerprint.ts, and
-- `normalizeCloudTaskRequestFingerprint` and the admission placeholder of
-- apps/longhub-cloud-api/src/store.ts.
use longhub_platform.Common.{
  ℕ, String, Bool, false, ◌&&◌, ◌||◌, Option, none, some, List, ◌∷◌, leb, ◌==◌, ◌=s◌, if◌then◌else◌,
  length, all, codes,
}

unfoldable pub is_hex : ℕ → Bool
is_hex c = (leb b'a' c && leb c b'f') || (leb b'0' c && leb c b'9')

-- /^[a-f0-9]{64}$/
unfoldable pub is_digest : List ℕ → Bool
unfolding is_hex
is_digest cs = length cs == 64 && all is_hex cs

-- /^v1:[a-f0-9]{64}$/
unfoldable pub is_fingerprint_codes : List ℕ → Bool
unfolding is_digest
is_fingerprint_codes (v ∷ one ∷ colon ∷ rest) =
    v == b'v' && (one == b'1' && (colon == b':' && is_digest rest))
is_fingerprint_codes _ = false

unfoldable pub is_request_fingerprint : String → Bool
unfolding is_fingerprint_codes
is_request_fingerprint s = is_fingerprint_codes (codes s)

abbrev pub legacy_unbound : String
legacy_unbound = "legacy-unbound"

abbrev pub placeholder_schema : String
placeholder_schema = "longhub/cloud-task-admission-placeholder/v1"

-- The `none` of the result is the conflict that the source throws.
unfoldable pub normalize_fingerprint : Option String → Option String
normalize_fingerprint none = some legacy_unbound
normalize_fingerprint (some v) =
    if (v =s legacy_unbound) || is_request_fingerprint v then some v else none

-- What `CloudTask.input` may hold: an object whose fields are just the three texts of a
-- placeholder, in any order, or anything else.
pub data Input : Type 0 where
  three : String → String → String → Input
  other : String → Input

pub record Placeholder : Type 0 where
  pub schema_version : String
  pub request_fingerprint : String
  pub input_digest : String

abbrev pub as_input : Placeholder → Input
as_input p = three p.schema_version p.request_fingerprint p.input_digest

unfoldable pub create_placeholder : String → String → Option Placeholder
create_placeholder fingerprint digest =
    if is_request_fingerprint fingerprint && is_digest (codes digest)
    then some (record {
      schema_version = placeholder_schema;
      request_fingerprint = fingerprint;
      input_digest = digest;
    })
    else none

-- `isCloudTaskAdmissionPlaceholder` with no expected value, and with one.
unfoldable pub is_placeholder : Input → Bool
is_placeholder (other v) = false
is_placeholder (three schema fingerprint digest) =
    (schema =s placeholder_schema)
    && (is_request_fingerprint fingerprint && is_digest (codes digest))

unfoldable pub is_expected : Input → Placeholder → Bool
unfolding is_placeholder
is_expected (other v) p = false
is_expected (three schema fingerprint digest) p =
    is_placeholder (three schema fingerprint digest)
    && ((fingerprint =s p.request_fingerprint) && (digest =s p.input_digest))
