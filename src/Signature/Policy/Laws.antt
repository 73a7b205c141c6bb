-- ===== src/Signature/Policy/Laws.antt =====
-- Which requirements of a policy are in force for an image.
use coco_guest_components.Common.{
  ◌≡◌, refl, inl, inr, Option, none, some, List, [], ◌∷◌, ◌++◌, find_map, get_or, Option-cases,
  arith,
}
use coco_guest_components.Text.{Text}
use coco_guest_components.Text.Map.{lookup}
use coco_guest_components.External.Oci.{OciClient}
use coco_guest_components.Signature.Image.{Image, transport_name, docker, get_image_namespaces}
use coco_guest_components.Signature.Policy.{
  PolicyReqType, PolicyTransportScopes, Policy, scoped, requirements_for_image,
}

-- The scopes that are tried for an image, the first one that the policy has in force.
abbrev pub candidates : (oci : OciClient) → oci.Reference → List Text
candidates oci r = oci.whole r ∷ get_image_namespaces oci r ++ [] ∷ []

find_map-append :
    {A B : Type 0} (f : A → Option B) (xs ys : List A)
    → find_map f (xs ++ ys) ≡ elim (find_map f xs) [ none ↦ find_map f ys | some b ↦ some b ]
find_map-append f [] ys = refl
find_map-append f (x ∷ xs) ys = ground (arith, find_map-append f xs ys)

scoped-eq-find_map :
    (oci : OciClient) (scopes : PolicyTransportScopes) (image : Image oci)
    → scoped oci scopes image ≡ find_map (λ k. lookup k scopes) (candidates oci image.reference)
unfolding scoped
scoped-eq-find_map oci scopes image = ground (
  arith,
  find_map-append (λ k. lookup k scopes) (get_image_namespaces oci image.reference) ([] ∷ []),
)

find_map_nothing : (ks : List Text) → find_map (λ k. lookup {V = List PolicyReqType} k []) ks ≡ none
unfolding lookup
find_map_nothing [] = refl
find_map_nothing (k ∷ ks) = find_map_nothing ks

-- The requirements of an image are those of the first scope of the docker transport that the policy
-- has among the whole reference, its namespaces in their order, and the empty scope; and the default
-- ones if the policy has no such transport or no such scope.
pub requirements_for_image_lem :
    (oci : OciClient) (policy : Policy) (image : Image oci)
    → requirements_for_image oci policy image
      ≡ get_or policy.default (
          find_map
            (λ k. lookup k (get_or [] (lookup docker policy.transports)))
            (candidates oci image.reference))
unfolding requirements_for_image transport_name
requirements_for_image_lem oci policy image =
    elim (Option-cases (lookup docker policy.transports)) [
      | inl missing ↦ ground (arith, missing, find_map_nothing (candidates oci image.reference))
      | inr (scopes, found) ↦ ground (arith, found, scoped-eq-find_map oci scopes image)
    ]
