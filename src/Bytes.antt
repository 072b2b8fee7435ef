-- ===== src/Bytes.antt =====
-- Reading a body under a limit: the loop and the buffer of `readBoundedBody` (web/app/backend) and
-- of `readBoundedTokenResponse` (web/app/auth/callback), and the relay of `boundedResponseBody`.
-- A stream is the sequence of results that its reader will give; a byte is a number.
pub mod Assembly
pub mod Relay
use logi_track.Base.{
  ℕ, ◌+◌, Bool, List, [], ◌∷◌, ◌++◌, ltb, if◌then◌else◌, length, take, drop, replicate,
}
use logi_track.Js.Text.{js}
use logi_track.Js.Result.{Result, ok, thrown, ◌>>=◌}

pub data Reads : Type 0 where
  done : Reads
  failed : Reads
  chunk : List ℕ → Reads → Reads

-- `cancel_fails`: whether `reader.cancel()` rejects
pub record ByteStream : Type 0 where
  pub reads : Reads
  pub cancel_fails : Bool

-- How the loop over `reader.read()` ends.
pub data Collected : Type 0 where
  complete : List (List ℕ) → ℕ → Collected
  over_limit : Collected
  broken : Collected

unfoldable pub collect : ℕ → List (List ℕ) → ℕ → Reads → Collected
collect limit chunks total done = complete chunks total
collect limit chunks total failed = broken
collect limit chunks total (chunk value reads) =
    let rest = collect limit (chunks ++ value ∷ []) (total + length value) reads in
    if ltb limit (total + length value) then over_limit else rest

-- `body.set(chunk, offset)`
unfoldable pub write_at : List ℕ → ℕ → List ℕ → Result (List ℕ)
write_at body offset value =
    if ltb (length body) (offset + length value)
    then thrown (js "offset is out of bounds")
    else ok (take offset body ++ value ++ drop (offset + length value) body)

unfoldable pub assemble : List ℕ → ℕ → List (List ℕ) → Result (List ℕ)
assemble body offset [] = ok body
assemble body offset (value ∷ chunks) =
    write_at body offset value >>= λ body'. assemble body' (offset + length value) chunks

pub data Buffered : Type 0 where
  buffered : List ℕ → Buffered
  too_large : Buffered
  unreadable : Buffered

abbrev of_result : Result (List ℕ) → Buffered
of_result (ok bytes) = buffered bytes
of_result (thrown e) = unreadable

abbrev finish_read : ByteStream → Collected → Buffered
finish_read s (complete chunks total) = of_result (assemble (replicate total 0) 0 chunks)
finish_read s over_limit = if s.cancel_fails then unreadable else too_large
finish_read s broken = unreadable

unfoldable pub read_bounded : ℕ → ByteStream → Buffered
read_bounded limit s = finish_read s (collect limit [] 0 s.reads)
