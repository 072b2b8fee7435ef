-- ===== src/Console/Retry/Keys.antt =====
-- `retryOutbox` (web/app/console/page.tsx): the keys of the requests for one event.
use logi_track.Base.{
  ◌≡◌, refl, ◌∙◌, sym, inl, inr, Bool, true, false, not, ◌||◌, some, List, [], ◌∷◌, arith, ◌==◌,
  nat_eq, list_eq, if◌then◌else◌, Bool-cases, eq_iff, eq_refl, All, ap,
}
use logi_track.Js.Text.{JsString, truthy}
use logi_track.Js.Dict.{Dict, get, delete, get-set}
use logi_track.Console.Retry.{
  Outbox, RetryEvent, retry_wanted, retried, has_id, request_key, retry_outbox, on_retried,
  on_retry, on_retries,
}

get-delete :
    (d : Dict JsString JsString) (k j : JsString) → (k == j) ≡ false → get (delete d k) j ≡ get d j
unfolding get delete
get-delete [] k j h = refl
get-delete ((i, v) ∷ d) k j h =
    ground (arith, get-delete d k j h, eq_iff i k, eq_iff i j, eq_iff k j)

-- No success for this event.
abbrev pub NoSuccess : JsString → RetryEvent → Type 0
NoSuccess id (retry_wanted online confirmed other fresh) = Unit {0}
NoSuccess id (retried true other) = (other == id) ≡ false
NoSuccess id (retried false other) = Unit {0}

module _ (id key : JsString) (given : truthy key ≡ true) where
  kept_key :
      (s : Outbox) (fresh : JsString)
      → get s.retry_keys id ≡ some key
      → request_key s id fresh ≡ key
  unfolding request_key
  kept_key s fresh h = rw (request_key, h, given) refl

  retry_outbox-keeps :
      (online confirmed : Bool) (other fresh : JsString) (s : Outbox)
      → get s.retry_keys id ≡ some key
      → get (retry_outbox online confirmed other fresh s).1.retry_keys id ≡ some key
  unfolding retry_outbox
  retry_outbox-keeps online confirmed other fresh s h =
      elim (Bool-cases (not online || has_id other s.busy_ids)) [
        | inl skipped ↦ rw (retry_outbox, skipped) h
        | inr goes ↦ elim (Bool-cases confirmed) [
          | inr refused ↦ rw (retry_outbox, goes, refused) h
          | inl sure ↦
              rw (retry_outbox, goes, sure)
                (get-set s.retry_keys other id (request_key s other fresh)
                  ∙ by_id (other == id) refl)
        ]
      ]
    where
      by_id :
          (b : Bool)
          → (other == id) ≡ b
          → (if b then some (request_key s other fresh) else get s.retry_keys id) ≡ some key
      by_id false e = h
      by_id true e = ap some (rw ((eq_iff other id).0 e) (kept_key s fresh h))

  on_retry-keeps :
      (e : RetryEvent) (s : Outbox)
      → NoSuccess id e
      → get s.retry_keys id ≡ some key
      → get (on_retry e s).retry_keys id ≡ some key
  unfolding on_retry on_retried
  on_retry-keeps (retried true other) s n h = get-delete s.retry_keys other id n ∙ h
  on_retry-keeps (retried false other) s n h = h
  on_retry-keeps (retry_wanted online confirmed other fresh) s n h =
      retry_outbox-keeps online confirmed other fresh s h

  on_retries-keeps :
      (es : List RetryEvent) (s : Outbox)
      → All (NoSuccess id) es
      → get s.retry_keys id ≡ some key
      → get (on_retries es s).retry_keys id ≡ some key
  unfolding on_retries
  on_retries-keeps [] s n h = h
  on_retries-keeps (e ∷ es) s n h =
      on_retries-keeps es (on_retry e s) n.1 (on_retry-keeps e s n.0 h)

retry_outbox-sent :
    (online confirmed : Bool) (id fresh key : JsString) (s : Outbox)
    → (retry_outbox online confirmed id fresh s).0 ≡ some key
    → (key ≡ request_key s id fresh)
      × (get (retry_outbox online confirmed id fresh s).1.retry_keys id ≡ some key)
unfolding retry_outbox
retry_outbox-sent online confirmed id fresh key s h =
    elim (Bool-cases (not online || has_id id s.busy_ids)) [
      | inl skipped ↦ cc (rw (retry_outbox, skipped) at h)
      | inr goes ↦ elim (Bool-cases confirmed) [
        | inr refused ↦ cc (rw (retry_outbox, goes, refused) at h)
        | inl sure ↦
            let same : some (request_key s id fresh) ≡ some key =
              rw (retry_outbox, goes, sure) at h in
            (
              cc (sym same),
              rw (retry_outbox, goes, sure)
                  (get-set s.retry_keys id id (request_key s id fresh) ∙ rw (eq_refl id) same),
            )
      ]
    ]

-- Once a request for an outbox event was sent with a key, every later request for it is sent with the
-- same key, whatever happens to other events and however often its own requests fail, as long as none
-- of them has succeeded. Keys are not empty.
pub retry_keeps_key :
    (online confirmed again_online again_confirmed : Bool)
    (id fresh again_fresh key again : JsString) (s : Outbox) (es : List RetryEvent)
    → truthy key ≡ true
    → (retry_outbox online confirmed id fresh s).0 ≡ some key
    → All (NoSuccess id) es
    → (retry_outbox again_online again_confirmed id again_fresh
        (on_retries es (retry_outbox online confirmed id fresh s).1)).0
      ≡ some again
    → again ≡ key
retry_keeps_key online confirmed again_online again_confirmed id fresh again_fresh key again s es
      given first quiet second =
    let (asked, kept) = retry_outbox-sent online confirmed id fresh key s first in
    let later = on_retries es (retry_outbox online confirmed id fresh s).1 in
    let still =
      on_retries-keeps id key given es (retry_outbox online confirmed id fresh s).1 quiet kept in
    let (same, last) =
      retry_outbox-sent again_online again_confirmed id again_fresh again later second in
    same ∙ kept_key id key given later again_fresh still
