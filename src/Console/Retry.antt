-- ===== src/Console/Retry.antt =====
-- web/app/console/page.tsx: `retryOutbox`, with the idempotency key that it keeps for an event until
-- a request for it succeeds. The messages and the loads beside it are left out.
pub mod Keys
use logi_track.Base.{
  Bool, true, not, ◌&&◌, ◌||◌, Option, none, some, List, [], ◌∷◌, ◌==◌, nat_eq, list_eq,
  if◌then◌else◌, any, keep_if,
}
use logi_track.Js.Text.{JsString, truthy}
use logi_track.Js.Dict.{Dict, set, delete, get}

-- `outboxBusyIdsRef`, `outboxRetryKeysRef` and `outboxFailureIdsRef`
pub record Outbox : Type 0 where
  pub busy_ids : List JsString
  pub retry_keys : Dict JsString JsString
  pub failure_ids : List JsString

abbrev pub has_id : JsString → List JsString → Bool
has_id id ids = any (λ i. i == id) ids

abbrev pub add_id : JsString → List JsString → List JsString
add_id id ids = if has_id id ids then ids else id ∷ ids

abbrev pub remove_id : JsString → List JsString → List JsString
remove_id id ids = keep_if (λ i. not (i == id)) ids

-- `outboxRetryKeysRef.current.get(id) || crypto.randomUUID()`
unfoldable pub request_key : Outbox → (id fresh : JsString) → JsString
request_key s id fresh = elim (get s.retry_keys id) [
  | none ↦ fresh
  | some kept ↦ if truthy kept then kept else fresh
]

-- Up to the request: the key that it is sent with, where it is sent. `confirmed` is the operator's
-- answer, given while the browser is still online.
unfoldable pub retry_outbox :
    (online confirmed : Bool) → (id fresh : JsString) → Outbox → Option JsString × Outbox
retry_outbox online confirmed id fresh s =
    if not online || has_id id s.busy_ids
    then (none, s)
    else if not confirmed
    then (none, record s { busy_ids = remove_id id (add_id id s.busy_ids) })
    else (
      some (request_key s id fresh),
      record s {
        busy_ids = add_id id s.busy_ids;
        retry_keys = set s.retry_keys id (request_key s id fresh);
      },
    )

-- The rest, for a request that was answered with success or not
unfoldable pub on_retried : (succeeded : Bool) → JsString → Outbox → Outbox
on_retried succeeded id s =
    if succeeded
    then record s {
      busy_ids = remove_id id s.busy_ids;
      retry_keys = delete s.retry_keys id;
      failure_ids = remove_id id s.failure_ids;
    }
    else record s { busy_ids = remove_id id s.busy_ids; failure_ids = add_id id s.failure_ids }

pub data RetryEvent : Type 0 where
  retry_wanted : (online confirmed : Bool) → (id fresh : JsString) → RetryEvent
  retried : (succeeded : Bool) → JsString → RetryEvent

unfoldable pub on_retry : RetryEvent → Outbox → Outbox
on_retry (retry_wanted online confirmed id fresh) s = (retry_outbox online confirmed id fresh s).1
on_retry (retried succeeded id) s = on_retried succeeded id s

unfoldable pub on_retries : List RetryEvent → Outbox → Outbox
on_retries [] s = s
on_retries (e ∷ es) s = on_retries es (on_retry e s)
