-- ===== src/Js/Json.antt =====
-- Parsed JSON values. Of a number the program reads the value only after `Number.isInteger`, and it
-- never reads the items of an array. A missing property reads as `undefined`.
use logi_track.Base.{◌≡◌, Bool, true, false, arith, ◌==◌, nat_eq, list_eq, eq_iff, if◌then◌else◌}
use logi_track.Base.Int.{ℤ}
use logi_track.Js.Text.{JsString}

pub data JsNumber : Type 0 where
  integer : ℤ → JsNumber
  fractional : JsNumber

mutual
  pub data Json : Type 0 where
    undefined : Json
    null : Json
    bool : Bool → Json
    number : JsNumber → Json
    text : JsString → Json
    array : Json
    object : Fields → Json

  pub data Fields : Type 0 where
    end : Fields
    field : JsString → Json → Fields → Fields

-- `value.name`
unfoldable pub property : Fields → JsString → Json
property end name = undefined
property (field key value fields) name = if key == name then value else property fields name

-- `value === s` for a string `s`
unfoldable pub is_text : Json → JsString → Bool
is_text (text t) s = t == s
is_text _ s = false

pub is_text-eq : (j : Json) (s : JsString) → is_text j s ≡ true → j ≡ text s
unfolding is_text
is_text-eq (text t) s h = ground (arith, eq_iff t s)
is_text-eq _ s h = cc
