-- ===== src/Mail/Auth.antt =====
-- auth.py of the mail service: the signature over a request's body, under the key of the group.
use th_layer_agent.Common.{
  String, str_append, Bool, false, ◌&&◌, not, Option, none, some, ◌==◌, if◌then◌else◌,
}
use th_layer_agent.Common.Splits.{starts_with, is_ascii}

abbrev pub signature_prefix : String
signature_prefix = "sha256="

-- `hmac.compare_digest` on texts; `none` is its TypeError on a text that is not ASCII.
unfoldable pub compare_digest : String → String → Option Bool
compare_digest a b = if is_ascii a && is_ascii b then some (a == b) else none

-- `hexdigest` is the HMAC-SHA256 of a body under a key, in hex.
module _ {Body : Type 0} (hexdigest : String → Body → String) where
  abbrev pub compute_signature : String → Body → String
  compute_signature key body = str_append signature_prefix (hexdigest key body)

  -- `resolver` is the key of a group, where it has one.
  unfoldable pub verify_hmac_signature :
      (String → Option String) → Body → Option String → String → Option Bool
  unfolding compare_digest
  verify_hmac_signature resolver body signature_header l2_id = elim signature_header [
    | none ↦ some false
    | some header ↦
        if not (starts_with signature_prefix header) then some false else elim (resolver l2_id) [
          | none ↦ some false
          | some key ↦ compare_digest (compute_signature key body) header
        ]
  ]
