-- ===== src/External/Oci.antt =====
-- `oci_client::Reference`: a parsed image reference. `try_from` and the accessors are the crate's.
use coco_guest_components.Common.{◌≡◌, Option, some}
use coco_guest_components.Text.{Text}

pub record OciClient : Type 1 where
  pub Reference : Type 0
  pub registry : Reference → Text
  pub repository : Reference → Text
  pub tag : Reference → Option Text
  pub digest : Reference → Option Text
  pub resolve_registry : Reference → Text
  -- `whole()`, the full textual form
  pub whole : Reference → Text
  -- `Reference::try_from(&str)`; `none` is its `ParseError`
  pub try_from : Text → Option Reference

-- The textual form of a reference parses back to the reference.
pub record OciLaws (oci : OciClient) : Type 0 where
  pub try_from-whole : (r : oci.Reference) → oci.try_from (oci.whole r) ≡ some r
