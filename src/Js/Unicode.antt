-- ===== src/Js/Unicode.antt =====
-- Code points, UTF-8 and `encodeURIComponent`.
use logi_track.Base.{
  ℕ, ◌+◌, ◌-◌, ◌*◌, ◌/◌, ◌%◌, ◌≡◌, refl, Bool, true, false, ◌&&◌, ◌||◌, List, [], ◌∷◌, map, leb,
  ltb, ◌==◌, nat_eq, if◌then◌else◌, any, concat,
}
use logi_track.Js.Text.{JsString, js, is_digit}
use logi_track.Js.Result.{Result, ok, thrown}

-- A scalar value, or a surrogate that has no partner.
pub data Point : Type 0 where
  scalar : ℕ → Point
  lone : ℕ → Point

abbrev is_high : ℕ → Bool
is_high u = leb 0xd800 u && leb u 0xdbff

abbrev is_low : ℕ → Bool
is_low u = leb 0xdc00 u && leb u 0xdfff

point_of_unit : ℕ → Point
point_of_unit u = if is_high u || is_low u then lone u else scalar u

unfoldable pub points : JsString → List Point
unfolding point_of_unit
points [] = []
points (u ∷ []) = point_of_unit u ∷ []
points (u ∷ v ∷ s) =
    let pair = scalar (0x10000 + (u - 0xd800) * 0x400 + (v - 0xdc00)) ∷ points s in
    let single = point_of_unit u ∷ points (v ∷ s) in if is_high u && is_low v then pair else single

utf8_scalar : ℕ → List ℕ
utf8_scalar c =
    if ltb c 0x80
    then c ∷ []
    else if ltb c 0x800
    then (0xc0 + c / 0x40) ∷ (0x80 + c % 0x40) ∷ []
    else if ltb c 0x10000
    then (0xe0 + c / 0x1000) ∷ (0x80 + c / 0x40 % 0x40) ∷ (0x80 + c % 0x40) ∷ []
    else (0xf0 + c / 0x40000)
      ∷ (0x80 + c / 0x1000 % 0x40)
      ∷ (0x80 + c / 0x40 % 0x40)
      ∷ (0x80 + c % 0x40)
      ∷ []

-- A lone surrogate is replaced by U+FFFD.
utf8_point : Point → List ℕ
utf8_point (scalar c) = utf8_scalar c
utf8_point (lone u) = 0xef ∷ 0xbf ∷ 0xbd ∷ []

-- `Buffer.from(s)`
unfoldable pub utf8 : JsString → List ℕ
unfolding points utf8_point utf8_scalar
utf8 s = concat (map utf8_point (points s))

-- The characters that `encodeURIComponent` leaves alone: A-Z a-z 0-9 - _ . ! ~ * ' ( )
unfoldable pub is_unreserved : ℕ → Bool
is_unreserved u =
    (leb b'A' u && leb u b'Z')
    || (leb b'a' u && leb u b'z')
    || is_digit u
    || u == b'-'
    || u == b'_'
    || u == b'.'
    || u == b'!'
    || u == b'~'
    || (leb b'\'' u && leb u b'*')

hex_digit : ℕ → ℕ
hex_digit n = if ltb n 10 then b'0' + n else b'A' + (n - 10)

percent : ℕ → JsString
percent b = b'%' ∷ hex_digit (b / 16) ∷ hex_digit (b % 16) ∷ []

escape_point : Point → JsString
escape_point (scalar c) = if is_unreserved c then c ∷ [] else concat (map percent (utf8_scalar c))
escape_point (lone u) = []

is_lone : Point → Bool
is_lone (scalar c) = false
is_lone (lone u) = true

-- A lone surrogate is a `URIError`.
unfoldable pub encode_uri_component : JsString → Result JsString
unfolding points escape_point utf8_scalar percent hex_digit is_unreserved is_lone
encode_uri_component s =
    if any is_lone (points s)
    then thrown (js "URI malformed")
    else ok (concat (map escape_point (points s)))

encode_test : encode_uri_component (js "a/é 물") ≡ ok (js "a%2F%C3%A9%20%EB%AC%BC")
unfolding encode_uri_component js
encode_test = refl
