-- ===== src/Bytes/Relay.antt =====
-- `boundedResponseBody` (web/app/backend): the relay of an upstream body under a limit, one `pull` at
-- a time. The consumer pulls until the relay has closed or failed.
use mathlib.Core.Path.{ap₂}
use logi_track.Base.{
  ℕ, zero, suc, ◌+◌, ◌≤◌, ◌≡◌, refl, sym, ap, ◌∙◌, Option, none, some, List, [], ◌∷◌, ◌++◌,
  append_assoc, append-nil, arith, ltb, if◌then◌else◌, length, concat, concat-append, length-append,
  Option-cases, inl, inr, Bool-cases,
}
use logi_track.Bytes.{Reads, done, failed, chunk}
use logi_track.Bytes.Assembly.{content, prepend, chunks_of, concat-chunks_of}

pub data Phase : Type 0 where
  streaming closed errored : Phase

pub record Relay : Type 0 where
  pub total : ℕ
  pub reads : Reads
  pub delivered : List (List ℕ)
  pub phase : Phase

unfoldable pub start : Reads → Relay
start reads = record { total = 0; reads = reads; delivered = []; phase = streaming }

-- One `reader.read()`. Whether the cancel above the limit succeeds or rejects, the relay has failed.
unfoldable relay_next : ℕ → Relay → Reads → Relay
relay_next limit r done = record r { phase = closed }
relay_next limit r failed = record r { phase = errored }
relay_next limit r (chunk value rest) =
    if ltb limit (r.total + length value)
    then record r { total = r.total + length value; reads = rest; phase = errored }
    else record r {
      total = r.total + length value;
      reads = rest;
      delivered = r.delivered ++ value ∷ [];
    }

unfoldable pub pull : ℕ → Relay → Relay
unfolding relay_next
pull limit r = elim r.phase [ streaming ↦ relay_next limit r r.reads | closed ↦ r | errored ↦ r ]

unfoldable pub pulls : ℕ → ℕ → Relay → Relay
pulls limit zero r = r
pulls limit (suc n) r = pulls limit n (pull limit r)

-- What the relay has handed over
abbrev pub handed_over : Relay → List ℕ
handed_over r = concat r.delivered

-- All that the upstream sends
abbrev sent : Reads → List ℕ
sent reads = concat (chunks_of reads)

-- What holds of the bytes handed over, by the phase of the relay.
abbrev Accounts : ℕ → Reads → Relay → Phase → Type 0
Accounts limit source r streaming =
    (r.total ≡ length (handed_over r))
    × (sent source ≡ handed_over r ++ sent r.reads)
    × (content source ≡ prepend (handed_over r) (content r.reads))
Accounts limit source r closed =
    (sent source ≡ handed_over r ++ []) × (content source ≡ some (handed_over r))
Accounts limit source r errored = (rest : List ℕ) × (sent source ≡ handed_over r ++ rest)

record Inv (limit : ℕ) (source : Reads) (r : Relay) : Type 0 where
  bounded : length (handed_over r) ≤ limit
  accounts : Accounts limit source r r.phase

prepend-append :
    (xs ys : List ℕ) (o : Option (List ℕ)) → prepend (xs ++ ys) o ≡ prepend xs (prepend ys o)
prepend-append xs ys none = refl
prepend-append xs ys (some rest) = ap some (append_assoc xs ys rest)

prepend-nil : (o : Option (List ℕ)) → prepend [] o ≡ o
prepend-nil none = refl
prepend-nil (some rest) = refl

concat-snoc : (xss : List (List ℕ)) (xs : List ℕ) → concat (xss ++ xs ∷ []) ≡ concat xss ++ xs
concat-snoc xss xs = simp (concat-append, append-nil)

relay_next-Inv :
    (limit : ℕ) (source : Reads) (total : ℕ) (reads : Reads) (delivered : List (List ℕ))
    → let r : Relay = record {
      total = total;
      reads = reads;
      delivered = delivered;
      phase = streaming;
    } in
      Inv limit source r → Inv limit source (relay_next limit r reads)
unfolding relay_next
relay_next-Inv limit source total done delivered v = record {
  bounded = v.bounded;
  accounts = (v.accounts.1, v.accounts.2 ∙ ap some (append-nil (concat delivered)));
}
relay_next-Inv limit source total failed delivered v = record {
  bounded = v.bounded;
  accounts = (_, v.accounts.1);
}
relay_next-Inv limit source total (chunk value rest) delivered v =
    let more = concat-snoc delivered value in
    elim (Bool-cases (ltb limit (total + length value))) [
      | inl over ↦ rw over (record { bounded = v.bounded; accounts = (_, v.accounts.1) })
      | inr fits ↦ rw fits (record {
        bounded = rw more (ground (arith, length-append (concat delivered) value));
        accounts = (
          rw more (ground (arith, length-append (concat delivered) value)),
          rw more (v.accounts.1 ∙ sym (append_assoc (concat delivered) value (sent rest))),
          rw more (v.accounts.2 ∙ sym (prepend-append (concat delivered) value (content rest))),
        );
      })
    ]

abbrev relay : ℕ → Reads → List (List ℕ) → Phase → Relay
relay total reads delivered phase = record {
  total = total;
  reads = reads;
  delivered = delivered;
  phase = phase;
}

pull-Inv :
    (limit : ℕ) (source : Reads) (total : ℕ) (reads : Reads) (delivered : List (List ℕ)) (p : Phase)
    → Inv limit source (relay total reads delivered p)
    → Inv limit source (pull limit (relay total reads delivered p))
unfolding pull
pull-Inv limit source total reads delivered streaming v =
    relay_next-Inv limit source total reads delivered v
pull-Inv limit source total reads delivered closed v = v
pull-Inv limit source total reads delivered errored v = v

pulls-Inv :
    (limit : ℕ) (source : Reads) (n : ℕ) (r : Relay)
    → Inv limit source r
    → Inv limit source (pulls limit n r)
unfolding pulls
pulls-Inv limit source zero r v = v
pulls-Inv limit source (suc n) r v =
    pulls-Inv limit source n (pull limit r)
      (pull-Inv limit source r.total r.reads r.delivered r.phase v)

start-Inv : (limit : ℕ) (source : Reads) → Inv limit source (start source)
unfolding start
start-Inv limit source = record {
  bounded = omega arith;
  accounts = (refl, refl, sym (prepend-nil (content source)));
}

pull-chunk :
    (limit total : ℕ) (value : List ℕ) (reads : Reads) (delivered : List (List ℕ))
    → total + length value ≤ limit
    → pull limit (relay total (chunk value reads) delivered streaming)
      ≡ relay (total + length value) reads (delivered ++ value ∷ []) streaming
unfolding pull relay_next
pull-chunk limit total value reads delivered h = ground arith

pulls-streaming :
    (limit total : ℕ) (reads : Reads) (delivered : List (List ℕ)) (bytes : List ℕ)
    → content reads ≡ some bytes
    → total + length bytes ≤ limit
    → pulls limit (suc (length (chunks_of reads))) (relay total reads delivered streaming)
      ≡ relay (total + length bytes) done (delivered ++ chunks_of reads) closed
unfolding pulls pull relay_next
pulls-streaming limit total done delivered bytes h k = ground (arith, append-nil delivered)
pulls-streaming limit total failed delivered bytes h k = cc
pulls-streaming limit total (chunk value reads) delivered bytes h k =
    elim (Option-cases (content reads)) [
      | inl none_left ↦ absurd (ground arith)
      | inr (rest, e) ↦
          let size : length bytes ≡ length value + length rest =
            ground (arith, length-append value rest) in
          let ih =
            pulls-streaming limit (total + length value) reads (delivered ++ value ∷ []) rest e
              (omega arith) in
          ap (pulls limit (length (chunks_of (chunk value reads))))
            (pull-chunk limit total value reads delivered (omega arith))
          ∙ ih
          ∙ ap₂ (λ n chunks. relay n done chunks closed) (omega arith)
              (append_assoc delivered (value ∷ []) (chunks_of reads))
    ]

closed-content :
    (limit : ℕ) (source : Reads) (total : ℕ) (reads : Reads) (delivered : List (List ℕ)) (p : Phase)
    → Inv limit source (relay total reads delivered p)
    → p ≡ closed
    → content source ≡ some (concat delivered)
closed-content limit source total reads delivered closed v e = v.accounts.1
closed-content limit source total reads delivered _ v e = cc

-- However often the consumer pulls, it is never handed more than the limit.
pub pulls_bounded :
    (limit n : ℕ) (source : Reads) → length (handed_over (pulls limit n (start source))) ≤ limit
pulls_bounded limit n source =
    (pulls-Inv limit source n (start source) (start-Inv limit source)).bounded

-- Once the relay has closed, the consumer has been handed exactly what the upstream sent, to its
-- regular end: neither an upstream that fails nor one above the limit looks like a whole body.
pub pulls_faithful :
    (limit n : ℕ) (source : Reads)
    → (pulls limit n (start source)).phase ≡ closed
    → content source ≡ some (handed_over (pulls limit n (start source)))
pulls_faithful limit n source =
    let r = pulls limit n (start source) in
    let v = pulls-Inv limit source n (start source) (start-Inv limit source) in
    closed-content limit source r.total r.reads r.delivered r.phase v

-- A body within the limit is relayed whole: one pull for each chunk and one for the end close it.
pub pulls_complete :
    (limit : ℕ) (source : Reads) (bytes : List ℕ)
    → content source ≡ some bytes
    → length bytes ≤ limit
    → let r = pulls limit (suc (length (chunks_of source))) (start source) in
      (r.phase ≡ closed) × (handed_over r ≡ bytes)
unfolding start
pulls_complete limit source bytes e k =
    rw (pulls-streaming limit 0 source [] bytes e (omega arith))
      (refl, concat-chunks_of source bytes e)
