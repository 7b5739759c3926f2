-- ===== src/Kernel/Provenance.antt =====
-- control/provenance.go: whether policy accepts the image that a proposal would run.
use a4s.Prelude.{
  Bool, true, false, ◌&&◌, ◌||◌, not, Option, some, none, List, [], ◌∷◌, String, ◌==◌, ℤ, pos, eq_ℤ,
  ltb, if◌then◌else◌, Result, ok, ◌>>=◌, ◌>>◌, require, refuse, or_fail,
}
use a4s.Prelude.Map
use a4s.Prelude.Map.{Map}
use a4s.Types.Goal.{Goal, SignedAttestation}
use a4s.Types.World.{Time, is_zero_time, before}
use a4s.Types.Action.{Action, ActionKind}
use a4s.Kernel.Policy.{Policy}
use a4s.Kernel.Rules.{is_empty}

pub record ImageStatement : Type 0 where
  pub version : ℤ
  pub image : String
  pub builder : String
  pub key_id : String
  pub built_at : Time
  pub expires_at : Time

-- What crypto/ed25519, encoding/base64, encoding/json and regexp answer. `decode_statement` is the
-- strict decoding: one value, no unknown field, nothing behind it.
pub record Signing : Type 0 where
  pub is_public_key : String → Bool
  pub verify : String → String → String → Bool
  pub decode_base64 : String → Option String
  pub decode_statement : String → Option ImageStatement
  pub is_pinned : String → Bool

unfoldable pub validate_statement : Signing → ImageStatement → Result (Unit {0})
validate_statement lib s = do
  require (eq_ℤ s.version (pos 1)) "unsupported image attestation version %d"
  require (lib.is_pinned s.image) "image attestation must name a digest-pinned image"
  refuse (s.builder == "") "image attestation must name a builder"
  refuse (is_zero_time s.built_at) "image attestation requires a build time"
  refuse (not (is_zero_time s.expires_at) && not (ltb s.built_at s.expires_at))
      "image attestation expiry must follow its build time"

unfoldable pub verify_image_attestation :
    Signing → SignedAttestation → String → Map String → Time → Result ImageStatement
unfolding validate_statement
verify_image_attestation lib signed image signers t = do
  refuse (is_empty signers.entries) "no image signers are configured"
  refuse (signed.statement_bytes == "") "image attestation carries no statement"
  public ← or_fail (Map.get signers signed.key_id) "image is not attested by a trusted signer"
  require (lib.is_public_key public) "image is not attested by a trusted signer"
  signature ←
      or_fail (lib.decode_base64 signed.signature) "image attestation signature is malformed"
  require (lib.verify public signed.statement_bytes signature)
      "image is not attested by a trusted signer"
  s ← or_fail (lib.decode_statement signed.statement_bytes) "image attestation is malformed"
  validate_statement lib s
  require (s.key_id == signed.key_id) "image attestation key id does not match its signature"
  require (s.image == image) "image attestation covers %q, not %q"
  refuse (not (is_zero_time s.expires_at) && not (before t s.expires_at))
      "image attestation expired at %s"
  ok s

-- The kinds that run an image.
abbrev pub runs_image : ActionKind → Bool
runs_image ActionKind.pull_image = true
runs_image ActionKind.create_allocation = true
runs_image ActionKind.start_allocation = true
runs_image _ = false

abbrev pub any_runs_image : List Action → Bool
any_runs_image [] = false
any_runs_image (a ∷ as') = runs_image a.kind || any_runs_image as'

unfoldable pub check_image_provenance :
    Signing → Policy → Goal → Time → List Action → Result (Unit {0})
unfolding verify_image_attestation
check_image_provenance lib p g t actions =
    if not (any_runs_image actions) then ok tt else elim g.workload.attestation [
      | none ↦
          refuse p.require_signed_images
            "image %q carries no provenance attestation and policy requires one"
      | some attestation ↦ do
        s ← verify_image_attestation lib attestation g.workload.image p.image_signers t
        ok tt
    ]
