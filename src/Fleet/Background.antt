-- ===== src/Fleet/Background.antt =====
-- web/app/components/FleetMap.tsx: what the enlarged map does to the page behind it. Elements are told
-- apart by numbers. The styles, the focus and the keys are left out.
pub mod Branch
pub mod Reach
use logi_track.Base.{
  ℕ, Bool, true, not, ◌&&◌, Option, some, List, [], ◌∷◌, ◌++◌, ◌==◌, nat_eq, keep_if, if◌then◌else◌,
}
use logi_track.Js.Text.{JsString, js}

pub record Attributes : Type 0 where
  pub inert : Bool
  pub aria_hidden : Option JsString

-- The tree of the page, which the effect only reads
pub record Tree : Type 0 where
  pub children : ℕ → List ℕ
  pub is_html_element : ℕ → Bool
  pub body : ℕ

-- `disabledBackground`, and the elements' attributes
pub record Background : Type 0 where
  pub disabled : List (ℕ × Attributes)
  pub page : ℕ → Attributes

abbrev pub out_of_reach : Attributes
out_of_reach = record { inert = true; aria_hidden = some (js "true") }

abbrev pub assign : ℕ → Attributes → (ℕ → Attributes) → ℕ → Attributes
assign element attributes page e = if e == element then attributes else page e

-- The body of the inner loop
unfoldable pub disable : ℕ → Background → Background
disable sibling s = record {
  disabled = s.disabled ++ (sibling, s.page sibling) ∷ [];
  page = assign sibling out_of_reach s.page;
}

unfoldable pub disable_all : List ℕ → Background → Background
disable_all [] s = s
disable_all (sibling ∷ rest) s = disable_all rest (disable sibling s)

-- What the inner loop does not pass over
abbrev pub siblings : Tree → (modal_branch parent : ℕ) → List ℕ
siblings tree modal_branch parent =
    keep_if (λ e. tree.is_html_element e && not (e == modal_branch)) (tree.children parent)

-- The outer loop, from the element at the head of the list to those that are around it
unfoldable pub climb : Tree → List ℕ → Background → Background
climb tree [] s = s
climb tree (modal_branch ∷ []) s = s
climb tree (modal_branch ∷ parent ∷ rest) s =
    let next = climb tree (parent ∷ rest) (disable_all (siblings tree modal_branch parent) s) in
    if modal_branch == tree.body then s else next

unfoldable pub enlarge : Tree → (ancestors : List ℕ) → (ℕ → Attributes) → Background
enlarge tree ancestors page = climb tree ancestors (record { disabled = []; page = page })

-- The loop of the effect's cleanup
unfoldable pub restore : List (ℕ × Attributes) → (ℕ → Attributes) → ℕ → Attributes
restore [] page = page
restore ((element, attributes) ∷ rest) page = restore rest (assign element attributes page)
