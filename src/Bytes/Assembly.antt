-- ===== src/Bytes/Assembly.antt =====
-- `readBoundedBody` (web/app/backend): the chunks of a stream and the buffer that they are written into.
use native.Mathlib.Nat.{zero-add}
use logi_track.Base.{
  ℕ, ◌+◌, ◌≤◌, ◌≡◌, refl, ap, ◌∙◌, ◌↔◌, inl, inr, Option, none, some, List, [], ◌∷◌, ◌++◌,
  append_assoc, append-nil, arith, ltb, Bool-cases, Option-cases, length, replicate, drop, concat,
  length-append, length-replicate, length-drop, take-length-append, drop-length-append,
}
use logi_track.Js.Result.{ok}
use logi_track.Bytes.{
  Reads, done, failed, chunk, ByteStream, Collected, complete, over_limit, broken, collect,
  write_at, assemble, buffered, of_result, finish_read, read_bounded,
}

abbrev pub prepend : List ℕ → Option (List ℕ) → Option (List ℕ)
prepend xs none = none
prepend xs (some rest) = some (xs ++ rest)

-- What the stream delivers, if it ends well.
abbrev pub content : Reads → Option (List ℕ)
content done = some []
content failed = none
content (chunk value reads) = prepend value (content reads)

write_at-append :
    (before room value : List ℕ)
    → length value ≤ length room
    → write_at (before ++ room) (length before) value
      ≡ ok (before ++ value ++ drop (length value) room)
unfolding write_at
write_at-append before room value h =
    elim (Bool-cases (ltb (length (before ++ room)) (length before + length value))) [
      | inl over ↦ absurd (ground (arith, length-append before room))
      | inr fits ↦
          rw (fits, take-length-append before room, drop-length-append before room (length value))
    ]

assemble-concat :
    (before room : List ℕ) (chunks : List (List ℕ))
    → length room ≡ length (concat chunks)
    → assemble (before ++ room) (length before) chunks ≡ ok (before ++ concat chunks)
unfolding assemble
assemble-concat before [] [] h = refl
assemble-concat before (x ∷ room) [] h = absurd (omega arith)
assemble-concat before room (value ∷ chunks) h =
    let fits : length value ≤ length room = omega (arith, length-append value (concat chunks)) in
    let next =
      assemble-concat (before ++ value) (drop (length value) room) chunks
        (omega (arith, length-append value (concat chunks), length-drop (length value) room)) in
    rw (write_at-append before room value fits)
      (rw (← length-append before value) (next ∙ ap ok (append_assoc before value (concat chunks))))

abbrev pub chunks_of : Reads → List (List ℕ)
chunks_of done = []
chunks_of failed = []
chunks_of (chunk value reads) = value ∷ chunks_of reads

pub concat-chunks_of :
    (reads : Reads) (bytes : List ℕ) → content reads ≡ some bytes → concat (chunks_of reads) ≡ bytes
concat-chunks_of done bytes h = ground arith
concat-chunks_of failed bytes h = cc
concat-chunks_of (chunk value reads) bytes h = elim (Option-cases (content reads)) [
  | inl none_left ↦ absurd (ground arith)
  | inr (rest, e) ↦ ground (arith, concat-chunks_of reads rest e)
]

collect_fits :
    (limit : ℕ) (chunks : List (List ℕ)) (total : ℕ) (reads : Reads) (bytes : List ℕ)
    → content reads ≡ some bytes
    → total + length bytes ≤ limit
    → collect limit chunks total reads ≡ complete (chunks ++ chunks_of reads) (total + length bytes)
unfolding collect
collect_fits limit chunks total done bytes h k = ground (arith, append-nil chunks)
collect_fits limit chunks total failed bytes h k = cc
collect_fits limit chunks total (chunk value reads) bytes h k =
    elim (Option-cases (content reads)) [
      | inl none_left ↦ absurd (ground arith)
      | inr (rest, e) ↦ ground (
        arith,
        collect_fits limit (chunks ++ value ∷ []) (total + length value) reads rest e,
        append_assoc chunks (value ∷ []) (chunks_of reads),
        length-append value rest,
      )
    ]

collect_sound :
    (limit : ℕ) (chunks : List (List ℕ)) (total : ℕ) (reads : Reads) (found : List (List ℕ)) (n : ℕ)
    → total ≤ limit
    → collect limit chunks total reads ≡ complete found n
    → (bytes : List ℕ) × (content reads ≡ some bytes)
      × (n ≡ total + length bytes)
      × (n ≤ limit)
      × (found ≡ chunks ++ chunks_of reads)
unfolding collect
collect_sound limit chunks total done found n k h =
    ([], refl, ground arith, ground arith, ground (arith, append-nil chunks))
collect_sound limit chunks total failed found n k h = cc
collect_sound limit chunks total (chunk value reads) found n k h =
    elim (Bool-cases (ltb limit (total + length value))) [
      | inl over ↦ absurd (ground arith)
      | inr fits ↦
          let (rest, e, size, small, same) =
            collect_sound limit (chunks ++ value ∷ []) (total + length value) reads found n
              (ground arith) (ground arith) in
          (
            value ++ rest,
            rw (e) refl,
            omega (arith, length-append value rest),
            small,
            same ∙ append_assoc chunks (value ∷ []) (chunks_of reads),
          )
    ]

assemble-new :
    (chunks : List (List ℕ))
    → assemble (replicate (length (concat chunks)) 0) 0 chunks ≡ ok (concat chunks)
assemble-new chunks =
    assemble-concat [] (replicate (length (concat chunks)) 0) chunks
      (length-replicate (length (concat chunks)) 0)

finish_read-chunks_of :
    (s : ByteStream) (bytes : List ℕ)
    → content s.reads ≡ some bytes
    → finish_read s (complete (chunks_of s.reads) (0 + length bytes)) ≡ buffered bytes
finish_read-chunks_of s bytes h =
    let e = concat-chunks_of s.reads bytes h in
    rw (zero-add, ← e) (ap of_result (assemble-new (chunks_of s.reads)))

finish_read-eq-buffered :
    (s : ByteStream) (c : Collected) {bytes : List ℕ}
    → finish_read s c ≡ buffered bytes
    → (chunks : List (List ℕ)) × (n : ℕ) × (c ≡ complete chunks n)
finish_read-eq-buffered s (complete chunks n) h = (chunks, n, refl)
finish_read-eq-buffered s over_limit h = absurd (ground arith)
finish_read-eq-buffered s broken h = cc

read_bounded_fits :
    (limit : ℕ) (s : ByteStream) (bytes : List ℕ)
    → content s.reads ≡ some bytes
    → length bytes ≤ limit
    → read_bounded limit s ≡ buffered bytes
unfolding read_bounded
read_bounded_fits limit s bytes e k =
    ap (finish_read s) (collect_fits limit [] 0 s.reads bytes e (omega arith))
    ∙ finish_read-chunks_of s bytes e

read_bounded_sound :
    (limit : ℕ) (s : ByteStream) (bytes : List ℕ)
    → read_bounded limit s ≡ buffered bytes
    → (content s.reads ≡ some bytes) × (length bytes ≤ limit)
unfolding read_bounded
read_bounded_sound limit s bytes h =
    let (chunks, n, c) = finish_read-eq-buffered s (collect limit [] 0 s.reads) h in
    let (found, e, size, small, same) = collect_sound limit [] 0 s.reads chunks n (omega arith) c in
    let fits : length found ≤ limit = omega arith in
    let same_bytes : found ≡ bytes = cc (read_bounded_fits limit s found e fits, h) in
    rw (← same_bytes) (e, fits)

-- A body is read exactly when its stream ends well within the limit, and the buffer then holds the
-- bytes that the stream delivered, in order: no write into it is out of bounds.
pub read_bounded_iff :
    (limit : ℕ) (s : ByteStream) (bytes : List ℕ)
    → (read_bounded limit s ≡ buffered bytes)
      ↔ ((content s.reads ≡ some bytes) × (length bytes ≤ limit))
read_bounded_iff limit s bytes =
    (read_bounded_sound limit s bytes, λ h. read_bounded_fits limit s bytes h.0 h.1)
