-- ===== src/Js/Text.antt =====
-- JavaScript strings as sequences of UTF-16 code units, with the methods that the program calls.
use Prim.Native.Char.{Char, code}
use Prim.Native.String.{String}
use mathlib.Core.List.{reverse}
use logi_track.Base.{
  ℕ, ◌+◌, ◌-◌, ◌*◌, ◌/◌, ◌%◌, ◌≡◌, refl, Bool, true, false, not, ◌&&◌, ◌||◌, List, [], ◌∷◌, ◌++◌,
  leb, ltb, ◌==◌, nat_eq, if◌then◌else◌, all, any,
}

abbrev pub JsString : Type 0
JsString = List ℕ

-- The code units of one character: two surrogates above the basic plane.
char_units : Char → JsString
char_units c =
    if ltb (code c) 0x10000
    then code c ∷ []
    else (0xd800 + (code c - 0x10000) / 0x400) ∷ (0xdc00 + (code c - 0x10000) % 0x400) ∷ []

-- A literal of the source.
unfoldable pub js : String → JsString
unfolding char_units
js String.[] = []
js (String.◌∷◌ c s) = char_units c ++ js s

-- `Boolean(s)` of a string
abbrev pub truthy : JsString → Bool
truthy [] = false
truthy (_ ∷ _) = true

-- The white space and line ends that `trim` removes.
unfoldable pub is_space : ℕ → Bool
is_space u =
    (leb 9 u && leb u 13)
    || u == 32
    || u == 160
    || u == 0x1680
    || (leb 0x2000 u && leb u 0x200a)
    || u == 0x2028
    || u == 0x2029
    || u == 0x202f
    || u == 0x205f
    || u == 0x3000
    || u == 0xfeff

unfoldable pub trim_start : JsString → JsString
unfolding is_space
trim_start [] = []
trim_start (u ∷ s) = if is_space u then trim_start s else u ∷ s

unfoldable pub trim : JsString → JsString
unfolding trim_start
trim s = reverse (trim_start (reverse (trim_start s)))

-- `toLowerCase` on the Latin-1 range, which is all that a header value may hold. A unit above it is
-- left as it is; none of those turns into an ASCII letter but the Kelvin sign, into `k`.
unfoldable pub lower_unit : ℕ → ℕ
lower_unit u =
    if (leb 65 u && leb u 90) || (leb 192 u && leb u 222 && not (u == 215)) then u + 32 else u

unfoldable pub to_lower_case : JsString → JsString
unfolding lower_unit
to_lower_case [] = []
to_lower_case (u ∷ s) = lower_unit u ∷ to_lower_case s

-- `s.split(sep, 1)[0]` for a separator of one unit
unfoldable pub before : ℕ → JsString → JsString
before sep [] = []
before sep (u ∷ s) = let rest = u ∷ before sep s in if u == sep then [] else rest

-- `s.includes(c)` for a text of one unit
unfoldable pub includes_unit : ℕ → JsString → Bool
includes_unit c s = any (λ u. u == c) s

unfoldable pub starts_with : JsString → JsString → Bool
starts_with s [] = true
starts_with [] (p ∷ prefix) = false
starts_with (u ∷ s) (p ∷ prefix) = u == p && starts_with s prefix

abbrev pub is_digit : ℕ → Bool
is_digit u = leb b'0' u && leb u b'9'

-- `/^\d+$/.test(s)`
unfoldable pub is_digits : JsString → Bool
is_digits s = truthy s && all is_digit s

-- `Number(s)` of such a text. A double rounds it above 2^53, and keeps its order to any bound below.
unfoldable pub decimal_from : ℕ → JsString → ℕ
decimal_from n [] = n
decimal_from n (u ∷ s) = decimal_from (n * 10 + (u - b'0')) s

unfoldable pub decimal : JsString → ℕ
unfolding decimal_from
decimal s = decimal_from 0 s

-- `parts.join(sep)`
unfoldable pub join : JsString → List JsString → JsString
join sep [] = []
join sep (p ∷ []) = p
join sep (p ∷ q ∷ parts) = p ++ sep ++ join sep (q ∷ parts)

media_type_test :
    to_lower_case (trim (before b';' (js " Text/Event-Stream ; charset=utf-8")))
    ≡ js "text/event-stream"
unfolding to_lower_case trim before js
media_type_test = refl

decimal_test : decimal (js "1048576") ≡ 1048576
unfolding decimal js
decimal_test = refl
