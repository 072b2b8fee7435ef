-- ===== src/Csp/Reading.antt =====
-- web/csp.ts: how a browser reads a policy, and what it reads back from one that is put together.
use logi_track.Base.{
  ℕ, ◌+◌, inl, inr, ◌≡◌, refl, ap, ◌∙◌, append_assoc, List, [], ◌∷◌, ◌++◌, arith, ◌==◌, nat_eq,
  list_eq, if◌then◌else◌, map, eq_refl, Bool-cases, All,
}
use logi_track.Js.Text.{JsString, js, join}

-- How often a unit occurs.
unfoldable pub count : ℕ → JsString → ℕ
count c [] = 0
count c (u ∷ s) = let rest = count c s in if u == c then 1 + rest else rest

pub count-append : (c : ℕ) (s t : JsString) → count c (s ++ t) ≡ count c s + count c t
unfolding count
count-append c [] t = ground arith
count-append c (u ∷ s) t = ground (arith, count-append c s t)

-- No text of a list has the unit.
abbrev pub None : ℕ → List JsString → Type 0
None c [] = Unit {0}
None c (s ∷ parts) = (count c s ≡ 0) × None c parts

-- How a browser reads a policy: it is cut at every `;`, and the spaces before a directive are dropped.
unfoldable pub split : ℕ → JsString → List JsString
split c [] = [] ∷ []
split c (u ∷ s) =
    let rest = split c s in
    if u == c
    then [] ∷ rest
    else elim rest [ [] ↦ (u ∷ []) ∷ [] | part ∷ parts ↦ (u ∷ part) ∷ parts ]

abbrev pub without_spaces : JsString → JsString
without_spaces [] = []
without_spaces (u ∷ s) = let rest = without_spaces s in if u == b' ' then rest else u ∷ s

unfoldable pub read_policy : JsString → List JsString
read_policy policy = map without_spaces (split b';' policy)

-- The name of a directive, up to the first space
abbrev pub name_of : JsString → JsString
name_of [] = []
name_of (u ∷ s) = let rest = name_of s in if u == b' ' then [] else u ∷ rest

split_append :
    (c : ℕ) (s rest : JsString) → count c s ≡ 0 → split c (s ++ c ∷ rest) ≡ s ∷ split c rest
unfolding split count
split_append c [] rest h = rw (eq_refl c) refl
split_append c (u ∷ s) rest h = elim (Bool-cases (u == c)) [
  | inl same ↦ absurd (ground arith)
  | inr other ↦ rw (other, split_append c s rest (ground arith)) refl
]

split_plain : (c : ℕ) (s : JsString) → count c s ≡ 0 → split c s ≡ s ∷ []
unfolding split count
split_plain c [] h = refl
split_plain c (u ∷ s) h = elim (Bool-cases (u == c)) [
  | inl same ↦ absurd (ground arith)
  | inr other ↦ rw (other, split_plain c s (ground arith)) refl
]

split_given :
    (c : ℕ) (s : JsString)
    → (part : JsString) × (parts : List JsString) × (split c s ≡ part ∷ parts)
unfolding split
split_given c [] = ([], [], refl)
split_given c (u ∷ s) =
    let (part, parts, e) = split_given c s in
    elim (Bool-cases (u == c)) [
      | inl same ↦ ([], split c s, rw same refl)
      | inr other ↦ (u ∷ part, parts, rw (other, e) refl)
    ]

read_space : (s : JsString) → read_policy (b' ' ∷ s) ≡ read_policy s
unfolding read_policy split
read_space s = let (part, parts, e) = split_given b';' s in rw e refl

read_append :
    (s rest : JsString)
    → count b';' s ≡ 0
    → read_policy (s ++ b';' ∷ rest) ≡ without_spaces s ∷ read_policy rest
unfolding read_policy
read_append s rest h = rw (split_append b';' s rest h) refl

read_last : (s : JsString) → count b';' s ≡ 0 → read_policy s ≡ without_spaces s ∷ []
unfolding read_policy
read_last s h = rw (split_plain b';' s h) refl

-- A text that does not begin with a space
abbrev pub IsStripped : JsString → Type 0
IsStripped s = without_spaces s ≡ s

pub read_policy-join :
    (s : JsString) (parts : List JsString)
    → None b';' (s ∷ parts)
    → All IsStripped (s ∷ parts)
    → read_policy (join (js "; ") (s ∷ parts)) ≡ s ∷ parts
unfolding join js
read_policy-join s [] h strip = read_last s h.0 ∙ ap (λ first. first ∷ []) strip.0
read_policy-join s (t ∷ parts) h strip =
    ap read_policy (append_assoc s (js "; ") (join (js "; ") (t ∷ parts)))
    ∙ read_append s (b' ' ∷ join (js "; ") (t ∷ parts)) h.0
    ∙ ap (λ rest. without_spaces s ∷ rest)
        (read_space (join (js "; ") (t ∷ parts)) ∙ read_policy-join t parts h.1 strip.1)
    ∙ ap (λ first. first ∷ t ∷ parts) strip.0
