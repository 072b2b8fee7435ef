-- ===== src/Backend/Checks.antt =====
-- web/app/backend/[...path]/route.ts: what `forward` and `send` have checked when they send.
use logi_track.Base.{
  ℕ, ◌≤◌, ◌≡◌, refl, ◌∙◌, ◌≢◌, ◌⊎◌, inl, inr, false, Option, none, some, List, [], ◌∷◌, ◌++◌, arith,
  ◌==◌, nat_eq, list_eq, list_beq, eq_iff, Bool-cases, Option-cases, length, any, All,
  All-of-not-any,
}
use logi_track.Js.Text.{JsString, js, includes_unit}
use logi_track.Js.Result.{ok, ◌>>=◌, >>=-eq-ok}
use logi_track.Js.Dict.{Dict, get, get-set}
use logi_track.Js.Json.{Fields}
use logi_track.Bytes.{ByteStream, Buffered, buffered, too_large, unreadable}
use logi_track.Bytes.Assembly.{content, read_bounded_iff}
use logi_track.Http.{Url, Platform, Request, header}
use logi_track.Auth.Config.{parsed}
use logi_track.Headers.{exceeds}
use logi_track.Backend.Parts.{
  Forwarded, Upstream, Handled, copy_headers, is_bad_part, is_bad_path, read_bounded_body,
  encode_path, allowed_request_headers,
}
use logi_track.Backend.Handler.{target_url, forwarded_request, deliver, send, forward}

pub copy_headers-keeps :
    (names : List JsString) (from headers : Dict JsString JsString) (name : JsString)
    → any (λ n. n == name) names ≡ false
    → get (copy_headers names from headers) name ≡ get headers name
unfolding copy_headers
copy_headers-keeps [] from headers name h = refl
copy_headers-keeps (n ∷ names) from headers name h =
    copy_headers-keeps names from _ name (ground arith)
    ∙ ground (arith, get-set headers n name (header from n))

abbrev pub IsSafePart : JsString → Type 0
IsSafePart part =
    (part ≢ []) × (part ≢ js ".") × (part ≢ js "..") × (includes_unit b'/' part ≡ false)

IsSafePart-of-not-bad : (part : JsString) → is_bad_part part ≡ false → IsSafePart part
IsSafePart-of-not-bad [] h = absurd (ground arith)
IsSafePart-of-not-bad (u ∷ part) h = (
  λ e. cc,
  λ e. ground (arith, eq_iff (u ∷ part) (js ".")),
  λ e. ground (arith, eq_iff (u ∷ part) (js "..")),
  ground arith,
)

pub is_bad_path_sound :
    (path : List JsString)
    → is_bad_path path ≡ false
    → All IsSafePart path × ((parts : List JsString) × (path ≡ js "api" ∷ parts))
unfolding is_bad_path
is_bad_path_sound [] h = cc
is_bad_path_sound (first ∷ parts) h =
    let good : any is_bad_part (first ∷ parts) ≡ false = ground arith in
    let api : first ≡ js "api" = ground (arith, eq_iff first (js "api")) in
    (
      All-of-not-any IsSafePart is_bad_part IsSafePart-of-not-bad (first ∷ parts) good,
      (parts, rw api),
    )

-- The body that goes out is the request's, whole, and within a mebibyte; none goes out only for a GET
-- or where the request has none.
abbrev pub IsForwardedBody : Request → Option (List ℕ) → Type 0
IsForwardedBody request none = (request.method ≡ js "GET") ⊎ (request.body ≡ none)
IsForwardedBody request (some bytes) =
    (s : ByteStream) × (request.body ≡ some s)
    × (content s.reads ≡ some bytes)
    × (length bytes ≤ 1048576)

read_bounded_body-forwarded :
    (request : Request) (bytes : List ℕ)
    → read_bounded_body request ≡ some (buffered bytes)
    → IsForwardedBody request (some bytes)
unfolding read_bounded_body
read_bounded_body-forwarded request bytes h = elim (Option-cases request.body) [
  | inl absent ↦ absurd (ground arith)
  | inr (s, e) ↦
      let (ends, small) = (read_bounded_iff 1048576 s bytes).0 (ground arith) in (s, e, ends, small)
]

read_bounded_body-absent :
    (request : Request) → read_bounded_body request ≡ none → IsForwardedBody request none
unfolding read_bounded_body
read_bounded_body-absent request h = elim (Bool-cases (request.method == js "GET")) [
  | inl get_method ↦ inl ((eq_iff request.method (js "GET")).0 get_method)
  | inr other ↦ (elim (Option-cases request.body) [
    | inl absent ↦ inr absent
    | inr (s, e) ↦ absurd (ground arith)
  ])
]

-- The parts of a run of `send`.
pub record IsSent (p : Platform) (request : Request) (path : List JsString) (token : JsString)
    (body : Option (List ℕ)) (sent : Forwarded) : Type 0 where
  pub encoded : List JsString
  pub encoding : encode_path path ≡ ok encoded
  pub target : p.new_url (target_url p encoded) ≡ some sent.url
  pub bearer : get sent.headers (js "authorization") ≡ some (js "Bearer " ++ token)
  pub same_method : sent.method ≡ request.method
  pub same_body : sent.body ≡ body

parsed-eq-ok : (o : Option Url) (url : Url) → parsed o ≡ ok url → o ≡ some url
parsed-eq-ok none url h = cc
parsed-eq-ok (some u) url h = cc

authorization_kept :
    (from : Dict JsString JsString) (value : JsString)
    → get
        (copy_headers allowed_request_headers from ((js "authorization", value) ∷ []))
        (js "authorization")
      ≡ some value
unfolding get js list_beq
authorization_kept from value = copy_headers-keeps allowed_request_headers from _ _ refl

module _ (p : Platform) (fetch : Forwarded → Option Upstream) (request : Request)
    (path : List JsString) (current legacy token : JsString) (payload : Fields) (answered_ms : ℕ)
    (h : Handled) (sent : Forwarded) (was_sent : h.sent ≡ some sent) where
  send_sound :
      (body : Option (List ℕ))
      → send p fetch request path current legacy token payload answered_ms body ≡ ok h
      → IsSent p request path token body sent
  unfolding send deliver forwarded_request
  send_sound body e =
      let answer = λ (url : Url). ok (
        deliver p fetch current legacy payload answered_ms
          (forwarded_request p request token url body)) in
      let (encoded, encoding, e1) =
        >>=-eq-ok (encode_path path)
          (λ encoded. parsed (p.new_url (target_url p encoded)) >>= answer) e in
      let (url, target, e2) = >>=-eq-ok (parsed (p.new_url (target_url p encoded))) answer e1 in
      let same : sent ≡ forwarded_request p request token url body = ground arith in
      rw same (record {
        encoded = encoded;
        encoding = encoding;
        target = parsed-eq-ok _ url target;
        bearer = authorization_kept request.headers (js "Bearer " ++ token);
        same_method = refl;
        same_body = refl;
      })

  -- What `forward` has checked by the time that it sends.
  abbrev pub Forwards : Type 0
  Forwards =
      (body : Option (List ℕ)) × IsSent p request path token body sent
      × IsForwardedBody request body
      × (is_bad_path path ≡ false)

  forward_outcome :
      (outcome : Buffered)
      → is_bad_path path ≡ false
      → exceeds 1048576 (header request.headers (js "content-length")) ≡ false
      → read_bounded_body request ≡ some outcome
      → forward p fetch request path current legacy token payload answered_ms ≡ ok h
      → Forwards
  unfolding forward
  forward_outcome (buffered bytes) good small read e = (
    some bytes,
    send_sound (some bytes) (ground arith),
    read_bounded_body-forwarded request bytes read,
    good,
  )
  forward_outcome too_large good small read e = absurd (ground arith)
  forward_outcome unreadable good small read e = absurd (ground arith)

  pub forward_sound :
      forward p fetch request path current legacy token payload answered_ms ≡ ok h → Forwards
  unfolding forward
  forward_sound e = elim (Bool-cases (is_bad_path path)) [
    | inl bad ↦ absurd (ground arith)
    | inr good ↦
        elim (Bool-cases (exceeds 1048576 (header request.headers (js "content-length")))) [
          | inl large ↦ absurd (ground arith)
          | inr small ↦ elim (Option-cases (read_bounded_body request)) [
            | inl absent ↦ (
              none,
              send_sound none (ground arith),
              read_bounded_body-absent request absent,
              good,
            )
            | inr (outcome, read) ↦ forward_outcome outcome good small read e
          ]
        ]
  ]
