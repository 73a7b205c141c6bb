-- ===== src/ResourceUri/Laws.antt =====
-- Which URLs and paths name a resource, and what is read from them.
use coco_guest_components.Common.{
  ℕ, ◌≡◌, refl, sym, ap, ◌∙◌, ◌↔◌, true, not, Option, none, List, [], ◌∷◌, ◌++◌, drop, ok, ensure,
  >>=-eq-ok, ensure-eq-ok, ok-injective, arith,
}
use coco_guest_components.Text.{
  Text, IsFree, bytes, is_empty, split, join, starts_with, strip_prefix, ◌=ₜ◌,
}
use coco_guest_components.Text.Laws.{text_eq_iff, text_eq_refl}
use coco_guest_components.Text.Split.{split_iff, split-append, split_free}
use coco_guest_components.External.Url.{UrlCrate}
use coco_guest_components.ResourceUri.{
  UriError, scheme_must_be_kbs, resource_id_error, must_start_with_slash, bad_resource_path, kbs,
  ResourceUri, of_parts, of_slashed_parts, whole_uri, resource_path, address, try_from_url,
  new_address, new,
}

-- The three parts hold no slash.
abbrev pub IsPlain : ResourceUri → Type 0
IsPlain r = IsFree b'/' r.repository × IsFree b'/' r.type_name × IsFree b'/' r.tag

of_parts_sound :
    (addr : Text) (query : Option Text) (e : UriError) (parts : List Text) (r : ResourceUri)
    → of_parts addr query e parts ≡ ok r
    → (parts ≡ r.repository ∷ r.type_name ∷ r.tag ∷ []) × (r.kbs_addr ≡ addr) × (r.query ≡ query)
unfolding of_parts
of_parts_sound addr query e [] r h = cc
of_parts_sound addr query e (_ ∷ []) r h = cc
of_parts_sound addr query e (_ ∷ _ ∷ []) r h = cc
of_parts_sound addr query e (a ∷ b ∷ c ∷ []) r h =
    let same = sym (ok-injective h) in
    (
      sym (ap (λ (q : ResourceUri). q.repository ∷ q.type_name ∷ q.tag ∷ []) same),
      ap (λ (q : ResourceUri). q.kbs_addr) same,
      ap (λ (q : ResourceUri). q.query) same,
    )
of_parts_sound addr query e (_ ∷ _ ∷ _ ∷ _ ∷ _) r h = cc

-- The parts of a resource path.
split-resource_path :
    (r : ResourceUri)
    → IsPlain r
    → split b'/' (resource_path r) ≡ r.repository ∷ r.type_name ∷ r.tag ∷ []
unfolding resource_path
split-resource_path r (hr, hy, ht) =
    split-append b'/' r.repository (r.type_name ++ b'/' ∷ r.tag) hr
    ∙ ap (λ l. r.repository ∷ l)
        (split-append b'/' r.type_name r.tag hy
          ∙ ap (λ l. r.type_name ∷ l) (split_free b'/' r.tag ht))

-- A text with these three parts is the resource path.
resource_path_parts :
    (t : Text) (r : ResourceUri)
    → split b'/' t ≡ r.repository ∷ r.type_name ∷ r.tag ∷ []
    → (t ≡ resource_path r) × IsPlain r
unfolding resource_path join
resource_path_parts t r h =
    let (same, (hr, (hy, (ht, _)))) =
      (split_iff b'/' t r.repository (r.type_name ∷ r.tag ∷ [])).0 h in
    (same, (hr, hy, ht))

starts_slash : (p : Text) → starts_with (b'/' ∷ []) p ≡ true → (t : Text) × (p ≡ b'/' ∷ t)
unfolding starts_with strip_prefix
starts_slash [] h = cc
starts_slash (x ∷ p) h = (p, ground (arith, h))

split_slash : (t : Text) → split b'/' (b'/' ∷ t) ≡ [] ∷ split b'/' t
split_slash t = split-append b'/' [] t tt

starts_with_slash : (t : Text) → starts_with (b'/' ∷ []) (b'/' ∷ t) ≡ true
unfolding starts_with strip_prefix
starts_with_slash t = refl

slashed_parts :
    (addr t : Text)
    → of_slashed_parts addr ([] ∷ split b'/' t)
      ≡ of_parts addr none bad_resource_path (split b'/' t)
unfolding of_slashed_parts
slashed_parts addr t = refl

module _ (crate : UrlCrate) where
  open crate use {Url, parse, scheme, path, query}

  new_sound :
      (kbs_uri p : Text) (r : ResourceUri)
      → new crate kbs_uri p ≡ ok r
      → (new_address crate kbs_uri ≡ ok r.kbs_addr)
        × (p ≡ b'/' ∷ resource_path r)
        × IsPlain r
        × (r.query ≡ none)
  unfolding new
  new_sound kbs_uri p r h =
      let (addr, found, h1) = >>=-eq-ok (new_address crate kbs_uri) _ h in
      let (_, slash, h2) =
        >>=-eq-ok (ensure (starts_with (b'/' ∷ []) p) must_start_with_slash) _ h1 in
      let (t, cut) = starts_slash p (ensure-eq-ok _ must_start_with_slash slash) in
      let taken : of_parts addr none bad_resource_path (split b'/' t) ≡ ok r =
        sym (
          ap (λ v. of_slashed_parts addr (split b'/' v)) cut
          ∙ ap (of_slashed_parts addr) (split_slash t)
          ∙ slashed_parts addr t)
        ∙ h2 in
      let (parts, at, q) = of_parts_sound addr none bad_resource_path (split b'/' t) r taken in
      let (same, plain) = resource_path_parts t r parts in
      (found ∙ ap ok (sym at), cut ∙ ap (λ v. b'/' ∷ v) same, plain, q)

  new_complete :
      (kbs_uri p : Text) (r : ResourceUri)
      → new_address crate kbs_uri ≡ ok r.kbs_addr
      → p ≡ b'/' ∷ resource_path r
      → IsPlain r
      → r.query ≡ none
      → new crate kbs_uri p ≡ ok r
  unfolding new of_parts
  new_complete kbs_uri p r found same plain q =
      rw
        (
          found,
          same,
          starts_with_slash (resource_path r),
          split_slash (resource_path r),
          slashed_parts r.kbs_addr (resource_path r),
          split-resource_path r plain,
        )
        (ap (λ v. ok (record r { query = v })) (sym q))

  -- `ResourceUri::new` succeeds exactly for a resource path of a slash and three parts without one,
  -- joined by slashes, and an address that can be read from the first text; it gives these parts,
  -- that address and no query.
  pub new_iff :
      (kbs_uri p : Text) (r : ResourceUri)
      → (new crate kbs_uri p ≡ ok r) ↔ (
          (new_address crate kbs_uri ≡ ok r.kbs_addr)
          × (p ≡ b'/' ∷ resource_path r)
          × IsPlain r
          × (r.query ≡ none))
  new_iff kbs_uri p r = (
    new_sound kbs_uri p r,
    λ (found, same, plain, q). new_complete kbs_uri p r found same plain q,
  )

  whole_uri-none :
      (r : ResourceUri)
      → r.query ≡ none
      → whole_uri r ≡ bytes "kbs://" ++ (r.kbs_addr ++ b'/' ∷ resource_path r)
  unfolding whole_uri resource_path
  whole_uri-none r q = ground (arith, q)

  -- What `new` accepts is printed as the address followed by the path that it was given.
  pub whole_uri-new :
      (kbs_uri p : Text) (r : ResourceUri)
      → new crate kbs_uri p ≡ ok r
      → whole_uri r ≡ bytes "kbs://" ++ (r.kbs_addr ++ p)
  whole_uri-new kbs_uri p r h =
      let (_, same, _, q) = new_sound kbs_uri p r h in
      whole_uri-none r q ∙ ap (λ v. bytes "kbs://" ++ (r.kbs_addr ++ v)) (sym same)

  -- What makes a URL the name of the resource `r`.
  abbrev pub Names : Url → ResourceUri → Type 0
  Names url r =
      (scheme url ≡ kbs)
      × (address crate url ≡ r.kbs_addr)
      × ((c : ℕ) × (path url ≡ c ∷ resource_path r))
      × IsPlain r
      × (r.query ≡ query url)

  full_path : (p : Text) → not (is_empty p) ≡ true → (c : ℕ) × (p ≡ c ∷ drop 1 p)
  full_path [] h = cc
  full_path (c ∷ p) h = (c, refl)

  try_from_url_sound : (url : Url) (r : ResourceUri) → try_from_url crate url ≡ ok r → Names url r
  unfolding try_from_url
  try_from_url_sound url r h =
      let (_, named, h1) = >>=-eq-ok (ensure (scheme url =ₜ kbs) scheme_must_be_kbs) _ h in
      let (_, full, h2) = >>=-eq-ok (ensure (not (is_empty (path url))) resource_id_error) _ h1 in
      let (c, cut) = full_path (path url) (ensure-eq-ok _ resource_id_error full) in
      let (parts, at, q) =
        of_parts_sound (address crate url) (query url) resource_id_error
          (split b'/' (drop 1 (path url))) r h2 in
      let (same, plain) = resource_path_parts (drop 1 (path url)) r parts in
      (
        (text_eq_iff (scheme url) kbs).0 (ensure-eq-ok _ scheme_must_be_kbs named),
        sym at,
        (c, cut ∙ ap (λ t. c ∷ t) same),
        plain,
        q,
      )

  try_from_url_complete :
      (url : Url) (r : ResourceUri) → Names url r → try_from_url crate url ≡ ok r
  unfolding try_from_url of_parts
  try_from_url_complete url r (named, at, (c, cut), plain, q) =
      rw (named, text_eq_refl kbs, cut, split-resource_path r plain, at, ← q) refl

  -- A URL is read as a resource exactly if its scheme is `kbs` and its path is one character followed
  -- by three parts without a slash, joined by slashes; the resource has these parts, the URL's host
  -- and port, and its query.
  pub try_from_url_iff :
      (url : Url) (r : ResourceUri) → (try_from_url crate url ≡ ok r) ↔ Names url r
  try_from_url_iff url r = (try_from_url_sound url r, try_from_url_complete url r)
