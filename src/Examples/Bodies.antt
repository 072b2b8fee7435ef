-- ===== src/Examples/Bodies.antt =====
-- A body in two chunks.
use logi_track.Base.{List, ℕ, [], arith, length, refl, some, suc, ◌↔◌, ◌∷◌, ◌≡◌, ◌≤◌}
use logi_track.Bytes.{buffered, read_bounded}
use logi_track.Bytes.Assembly.{chunks_of, content, read_bounded_iff}
use logi_track.Bytes.Relay.{
  closed, handed_over, pull, pulls, pulls_bounded, pulls_complete, pulls_faithful, start,
}
use logi_track.Examples.Fixtures.{two_bytes}

abbrev bytes : List ℕ
bytes = 1 ∷ 2 ∷ []

read_bounded_iff_example :
    (read_bounded 4 two_bytes ≡ buffered bytes)
    ↔ ((content two_bytes.reads ≡ some bytes) × (length bytes ≤ 4))
read_bounded_iff_example = read_bounded_iff 4 two_bytes bytes

pulls_bounded_example : length (handed_over (pulls 4 3 (start two_bytes.reads))) ≤ 4
pulls_bounded_example = pulls_bounded 4 3 two_bytes.reads

closes : (pulls 4 3 (start two_bytes.reads)).phase ≡ closed
unfolding pulls pull start
closes = refl

pulls_faithful_example :
    content two_bytes.reads ≡ some (handed_over (pulls 4 3 (start two_bytes.reads)))
pulls_faithful_example = pulls_faithful 4 3 two_bytes.reads closes

two : content two_bytes.reads ≡ some bytes
two = refl

small : length bytes ≤ 4
small = ground arith

pulls_complete_example :
    let r = pulls 4 (suc (length (chunks_of two_bytes.reads))) (start two_bytes.reads) in
    (r.phase ≡ closed) × (handed_over r ≡ bytes)
pulls_complete_example = pulls_complete 4 two_bytes.reads bytes two small
