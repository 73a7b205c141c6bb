-- ===== src/Signature/Image/Namespaces.antt =====
-- Which namespaces `get_image_namespaces` gives.
use coco_guest_components.Common.{
  ℕ, zero, suc, ◌<◌, ◌≡◌, sym, ap, ◌∙◌, ◌↔◌, ◌⊎◌, inl, inr, none, some, List, [], ◌∷◌, ◌++◌,
  append_assoc, Memᴰ, Memᴰ-snoc, length, arith, Option-cases,
}
use coco_guest_components.Text.{Text, bytes, IsFree, split_once, rsplit_once}
use coco_guest_components.Text.Laws.{
  split_once_iff, rsplit_once_iff, rsplit_once-eq-none, length-rsplit_once, length-split_once,
  split_once-eq-none, split_once_free, split_once-append,
}
use coco_guest_components.Text.Cut.{IsFree-middle, cut_before, cut_after}
use coco_guest_components.Signature.Image.{path_loop, without_port, domain_loop, namespaces_of}

-- `n` is the text, or what stands before one of its slashes.
abbrev pub IsPathPrefix : Text → Text → Type 0
IsPathPrefix n full = (n ≡ full) ⊎ ((r : Text) × (full ≡ n ++ b'/' ∷ r))

-- `n` is `*.` and what follows one of the host's dots.
abbrev pub IsWildcard : Text → Text → Type 0
IsWildcard n host = (p : Text) × (s : Text) × (host ≡ p ++ b'.' ∷ s) × (n ≡ bytes "*." ++ s)

-- The first path component.
pub host_of : Text → Text
host_of full = elim (split_once b'/' full) [ none ↦ full | some (a, _) ↦ a ]

pub prefix_step :
    (n name a b : Text)
    → rsplit_once b'/' name ≡ some (a, b)
    → IsPathPrefix n name ↔ ((n ≡ name) ⊎ IsPathPrefix n a)
prefix_step n name a b e =
    let (cut, free) = (rsplit_once_iff b'/' name a b).0 e in
    (
      elim [
        | inl same ↦ inl same
        | inr (r, before) ↦ inr (cut_before b'/' n r a b (sym before ∙ cut) free)
      ],
      elim [
        | inl same ↦ inl same
        | inr (inl same) ↦ inr (b, rw same cut)
        | inr (inr (s, before)) ↦
            inr (s ++ b'/' ∷ b, cut ∙ rw before (append_assoc n (b'/' ∷ s) (b'/' ∷ b)))
      ],
    )

pub prefix_last : (n name : Text) → rsplit_once b'/' name ≡ none → IsPathPrefix n name → n ≡ name
prefix_last n name e (inl same) = same
prefix_last n name e (inr (r, before)) =
    let free = rsplit_once-eq-none b'/' name e in
    absurd (IsFree-middle b'/' n r (rw before at free))

path_loop_sound :
    (f : ℕ) (res : List Text) (name n : Text)
    → Memᴰ n (path_loop f res name).0
    → Memᴰ n res ⊎ IsPathPrefix n name
unfolding path_loop
path_loop_sound zero res name n m = inl m
path_loop_sound (suc f) res name n m = elim (Option-cases (rsplit_once b'/' name)) [
  | inl last ↦ elim ((Memᴰ-snoc res).0 (rw (last, path_loop) at m)) [
    | inl old ↦ inl old
    | inr e ↦ inr (inl e)
  ]
  | inr ((a, b), cut) ↦
      let step = prefix_step n name a b cut in
      elim (path_loop_sound f (res ++ name ∷ []) a n (rw (cut, path_loop) at m)) [
        | inl old ↦ elim ((Memᴰ-snoc res).0 old) [ inl o ↦ inl o | inr e ↦ inr (inl e) ]
        | inr pre ↦ inr (step.1 (inr pre))
      ]
]

-- Fuel above the length of the name runs the loop to its end.
path_loop_complete :
    (f : ℕ) (res : List Text) (name n : Text)
    → length name < f
    → Memᴰ n res ⊎ IsPathPrefix n name
    → Memᴰ n (path_loop f res name).0
unfolding path_loop
path_loop_complete zero res name n h m = absurd (omega arith)
path_loop_complete (suc f) res name n h m = elim (Option-cases (rsplit_once b'/' name)) [
  | inl last ↦
      rw (last, path_loop)
        ((Memᴰ-snoc res).1
          (elim m [ inl old ↦ inl old | inr pre ↦ inr (prefix_last n name last pre) ]))
  | inr ((a, b), cut) ↦
      let shorter = length-rsplit_once b'/' name a b cut in
      let step = prefix_step n name a b cut in
      let kept : Memᴰ n (res ++ name ∷ []) ⊎ IsPathPrefix n a = elim m [
        | inl old ↦ inl ((Memᴰ-snoc res).1 (inl old))
        | inr pre ↦ elim (step.0 pre) [
          | inl same ↦ inl ((Memᴰ-snoc res).1 (inr same))
          | inr later ↦ inr later
        ]
      ] in
      rw (cut, path_loop) (path_loop_complete f (res ++ name ∷ []) a n (omega arith) kept)
]

host_of-cut : (a b : Text) → host_of (a ++ b'/' ∷ b) ≡ host_of a
unfolding host_of
host_of-cut a b = elim (Option-cases (split_once b'/' a)) [
  | inl whole ↦ rw (whole, split_once-append b'/' a b (split_once-eq-none b'/' a whole), host_of)
  | inr ((x, y), cut) ↦
      let (e, free) = (split_once_iff b'/' a x y).0 cut in
      let longer : a ++ b'/' ∷ b ≡ x ++ b'/' ∷ (y ++ b'/' ∷ b) =
        ap (λ t. t ++ b'/' ∷ b) e ∙ append_assoc x (b'/' ∷ y) (b'/' ∷ b) in
      rw (cut, (split_once_iff b'/' (a ++ b'/' ∷ b) x (y ++ b'/' ∷ b)).1 (longer, free), host_of)
]

host_of_free : (t : Text) → IsFree b'/' t → host_of t ≡ t
unfolding host_of
host_of_free t h = rw (split_once_free b'/' t h, host_of)

path_loop_host :
    (f : ℕ) (res : List Text) (name : Text)
    → length name < f
    → (path_loop f res name).1 ≡ host_of name
unfolding path_loop
path_loop_host zero res name h = absurd (omega arith)
path_loop_host (suc f) res name h = elim (Option-cases (rsplit_once b'/' name)) [
  | inl last ↦ rw (last, path_loop) (sym (host_of_free name (rsplit_once-eq-none b'/' name last)))
  | inr ((a, b), cut) ↦
      let shorter = length-rsplit_once b'/' name a b cut in
      rw (cut, path_loop)
        (path_loop_host f (res ++ name ∷ []) a (omega arith)
          ∙ sym (host_of-cut a b)
          ∙ ap host_of (sym (((rsplit_once_iff b'/' name a b).0 cut).0)))
]

domain_sound :
    (f : ℕ) (res : List Text) (name n : Text)
    → Memᴰ n (domain_loop f res name)
    → Memᴰ n res ⊎ IsWildcard n name
unfolding domain_loop
domain_sound zero res name n m = inl m
domain_sound (suc f) res name n m = elim (Option-cases (split_once b'.' name)) [
  | inl last ↦ inl (rw (last, domain_loop) at m)
  | inr ((a, b), cut) ↦
      let at_dot = ((split_once_iff b'.' name a b).0 cut).0 in
      elim (domain_sound f (res ++ (bytes "*." ++ b) ∷ []) b n (rw (cut, domain_loop) at m)) [
        | inl old ↦ elim ((Memᴰ-snoc res).0 old) [ inl o ↦ inl o | inr e ↦ inr (a, b, at_dot, e) ]
        | inr (p, s, e, w) ↦
            inr (a ++ b'.' ∷ p, s, at_dot ∙ rw e (sym (append_assoc a (b'.' ∷ p) (b'.' ∷ s))), w)
      ]
]

domain_complete :
    (f : ℕ) (res : List Text) (name n : Text)
    → length name < f
    → Memᴰ n res ⊎ IsWildcard n name
    → Memᴰ n (domain_loop f res name)
unfolding domain_loop
domain_complete zero res name n h m = absurd (omega arith)
domain_complete (suc f) res name n h m = elim (Option-cases (split_once b'.' name)) [
  | inl last ↦
      rw (last, domain_loop)
        (elim m [
          | inl old ↦ old
          | inr (p, s, e, w) ↦
              absurd (IsFree-middle b'.' p s (rw e at (split_once-eq-none b'.' name last)))
        ])
  | inr ((a, b), cut) ↦
      let shorter = length-split_once b'.' name a b cut in
      let (at_dot, free) = (split_once_iff b'.' name a b).0 cut in
      let kept : Memᴰ n (res ++ (bytes "*." ++ b) ∷ []) ⊎ IsWildcard n b = elim m [
        | inl old ↦ inl ((Memᴰ-snoc res).1 (inl old))
        | inr (p, s, e, w) ↦ elim (cut_after b'.' p s a b (sym e ∙ at_dot) free) [
          | inl same ↦ inl ((Memᴰ-snoc res).1 (inr (w ∙ ap (λ t. bytes "*." ++ t) same)))
          | inr (q, later) ↦ inr (q, s, later, w)
        ]
      ] in
      rw (cut, domain_loop)
        (domain_complete f (res ++ (bytes "*." ++ b) ∷ []) b n (omega arith) kept)
]

-- The namespaces of a name are the name, what stands before each of its slashes, and `*.` with what
-- follows each dot of the host without its port; and nothing else.
pub namespaces_of_iff :
    (full n : Text)
    → Memᴰ n (namespaces_of full)
      ↔ (IsPathPrefix n full ⊎ IsWildcard n (without_port (host_of full)))
unfolding namespaces_of
namespaces_of_iff full n =
    let name = (path_loop (suc (length full)) [] full).1 in
    let rest = without_port name in
    let host : (path_loop (suc (length full)) [] full).1 ≡ host_of full =
      path_loop_host (suc (length full)) [] full (omega arith) in
    (
      λ m. elim (domain_sound (suc (length rest)) _ rest n m) [
        | inl front ↦ elim (path_loop_sound (suc (length full)) [] full n front) [
          | inl none_yet ↦ elim none_yet [ ]
          | inr pre ↦ inl pre
        ]
        | inr wild ↦ inr (rw host at wild)
      ],
      λ m. domain_complete (suc (length rest)) _ rest n (omega arith) (elim m [
        | inl pre ↦ inl (path_loop_complete (suc (length full)) [] full n (omega arith) (inr pre))
        | inr wild ↦ inr (rw host wild)
      ]),
    )
