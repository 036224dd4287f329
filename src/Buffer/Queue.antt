-- ===== src/Buffer/Queue.antt =====
-- polaris/include/polaris/Buffer.h as a queue of bytes: what its callers can tell of it.
use mathlib.Core.Path.{ap₂}
use lute.Buffer.Contents.{
  IsValid, Holds, append-Holds, prepend-Holds, retrieve-Holds, retrieve_as_string_lem,
  retrieve_all-Holds, retrieve_all_as_string_lem, length-contents, unwrite-Holds,
  ensure_writable_bytes-Holds, shrink-Holds,
}
use lute.Buffer.{
  append, prepend, retrieve, shrink, unwrite, retrieve_all, retrieve_as_string, Buffer,
  retrieve_all_as_string, ensure_writable_bytes, contents, writable_bytes, readable_bytes,
  prependable_bytes,
}
use lute.Buffer.Contents.{Fits}
use lute.Prelude.{
  none, some, ◌>>=◌, [], ◌∷◌, List, Option, ℕ, ◌≡◌, ◌++◌, Returns, drop, refl, take, Returns-some,
  length, Returns_map, ◌-◌, ◌≤◌, ◌+◌, Returns->>=, ◌∙◌, ap, Whenever_at, Whenever,
}

-- The calls that take bytes in, give them out, or make room.
pub data Op : Type 0 where
  append_op : List ℕ → Op
  prepend_op : List ℕ → Op
  retrieve_op : ℕ → Op
  retrieve_as_string_op : ℕ → Op
  retrieve_all_op : Op
  retrieve_all_as_string_op : Op
  unwrite_op : ℕ → Op
  ensure_writable_op : ℕ → Op
  shrink_op : ℕ → Op

-- A call that answers with no bytes.
abbrev silent : Option Buffer → Option (List ℕ × Buffer)
silent none = none
silent (some b) = some ([], b)

unfoldable pub apply : Op → Buffer → Option (List ℕ × Buffer)
unfolding append retrieve retrieve_as_string retrieve_all retrieve_all_as_string unwrite shrink
apply (append_op bytes) b = silent (append bytes b)
apply (prepend_op bytes) b = silent (prepend bytes b)
apply (retrieve_op len) b = silent (retrieve len b)
apply (retrieve_as_string_op len) b = retrieve_as_string len b
apply retrieve_all_op b = silent (some (retrieve_all b))
apply retrieve_all_as_string_op b = retrieve_all_as_string b
apply (unwrite_op len) b = silent (unwrite len b)
apply (ensure_writable_op len) b = silent (ensure_writable_bytes len b)
apply (shrink_op reserve) b = silent (shrink reserve b)

-- The same call on a queue of bytes: its answer, and the queue after it.
unfoldable pub queue_apply : Op → List ℕ → List ℕ × List ℕ
queue_apply (append_op bytes) q = ([], q ++ bytes)
queue_apply (prepend_op bytes) q = ([], bytes ++ q)
queue_apply (retrieve_op len) q = ([], drop len q)
queue_apply (retrieve_as_string_op len) q = (take len q, drop len q)
queue_apply retrieve_all_op q = ([], [])
queue_apply retrieve_all_as_string_op q = (q, [])
queue_apply (unwrite_op len) q = ([], take (length q - len) q)
queue_apply (ensure_writable_op len) q = ([], q)
queue_apply (shrink_op reserve) q = ([], q)

-- What the caller has to see to: no more bytes are taken than there are, no more are prepended than
-- there is room for, and `size_t` can measure the storage.
abbrev pub Allowed : Op → Buffer → Type 0
Allowed (append_op bytes) b = Fits (length bytes) b
Allowed (prepend_op bytes) b = length bytes ≤ prependable_bytes b
Allowed (retrieve_op len) b = len ≤ readable_bytes b
Allowed (retrieve_as_string_op len) b = len ≤ readable_bytes b
Allowed retrieve_all_op b = Unit {0}
Allowed retrieve_all_as_string_op b = Unit {0}
Allowed (unwrite_op len) b = len ≤ readable_bytes b
Allowed (ensure_writable_op len) b = Fits len b
Allowed (shrink_op reserve) b = Fits (readable_bytes b + reserve) b

abbrev Refines : Op → Buffer → List ℕ × Buffer → Type 0
Refines op b r = (r.0 ≡ (queue_apply op (contents b)).0) × Holds (queue_apply op (contents b)).1 r.1

silent-Returns :
    (q : List ℕ) (m : Option Buffer)
    → Returns m (Holds q)
    → Returns {A = List ℕ × Buffer} (silent m) (λ r. (r.0 ≡ []) × Holds q r.1)
silent-Returns q none h = h
silent-Returns q (some b) h = (refl, h)

apply-Refines :
    (op : Op) (b : Buffer)
    → IsValid b
    → Allowed op b
    → Returns {A = List ℕ × Buffer} (apply op b) (Refines op b)
unfolding apply queue_apply
apply-Refines (append_op bytes) b v h =
    silent-Returns (contents b ++ bytes) (append bytes b) (append-Holds bytes b v h)
apply-Refines (prepend_op bytes) b v h =
    silent-Returns (bytes ++ contents b) (prepend bytes b) (prepend-Holds bytes b v h)
apply-Refines (retrieve_op len) b v h =
    silent-Returns (drop len (contents b)) (retrieve len b) (retrieve-Holds len b v h)
apply-Refines (retrieve_as_string_op len) b v h = retrieve_as_string_lem len b v h
apply-Refines retrieve_all_op b v h = (refl, retrieve_all-Holds b v)
apply-Refines retrieve_all_as_string_op b v h = retrieve_all_as_string_lem b v
apply-Refines (unwrite_op len) b v h =
    silent-Returns (take (length (contents b) - len) (contents b)) (unwrite len b)
      (rw (length-contents b v) (unwrite-Holds len b v h))
apply-Refines (ensure_writable_op len) b v h =
    silent-Returns (contents b) (ensure_writable_bytes len b) (
      Returns_map (λ b'. Holds (contents b) b' × (len ≤ writable_bytes b')) (Holds (contents b)) _
        (λ b' s. s.0) (ensure_writable_bytes-Holds len b v h))
apply-Refines (shrink_op reserve) b v h = silent-Returns (contents b) (shrink reserve b) (
    Returns_map (λ b'. Holds (contents b) b' × (readable_bytes b + reserve ≤ writable_bytes b'))
      (Holds (contents b)) _ (λ b' s. s.0) (shrink-Holds reserve b v h))

-- One call after the other, with their answers.
pub run : List Op → Buffer → Option (List (List ℕ) × Buffer)
unfolding apply
run [] b = some ([], b)
run (op ∷ ops) b = do
  (answer, b') ← apply op b
  (answers, b'') ← run ops b'
  some (answer ∷ answers, b'')

pub queue_run : List Op → List ℕ → List (List ℕ) × List ℕ
unfolding queue_apply
queue_run [] q = ([], q)
queue_run (op ∷ ops) q =
    let (answer, q') = queue_apply op q in
    let (answers, q'') = queue_run ops q' in (answer ∷ answers, q'')

-- Each call is allowed in the buffer that those before it leave.
abbrev pub AllowedRun : List Op → Buffer → Type 0
AllowedRun [] b = Unit {0}
AllowedRun (op ∷ ops) b = Allowed op b × Whenever (apply op b) (λ r. AllowedRun ops r.1)

-- No sequence of calls that are allowed tells a valid buffer from the queue of the bytes it holds:
-- no assert fails, every answer is the queue's, and at the end the buffer is valid and holds what
-- the queue holds, wherever its indices stand and however its storage was moved or grew.
pub run_refines :
    (ops : List Op) (b : Buffer)
    → IsValid b
    → AllowedRun ops b
    → Returns {A = List (List ℕ) × Buffer}
        (run ops b)
        (λ r. (r.0 ≡ (queue_run ops (contents b)).0) × Holds (queue_run ops (contents b)).1 r.1)
unfolding run queue_run
run_refines [] b v h = (refl, (v, refl))
run_refines (op ∷ ops) b v (allowed, later) =
    let ((answer, b'), e, (same, (v', holds))) =
      Returns-some (Refines op b) (apply op b) (apply-Refines op b v allowed) in
    rw e (
      Returns->>= {A = List (List ℕ) × Buffer}
        (λ r. (r.0 ≡ (queue_run ops (contents b')).0) × Holds (queue_run ops (contents b')).1 r.1) _
        (run ops b') _
        (run_refines ops b' v'
          (Whenever_at (λ (r : List ℕ × Buffer). AllowedRun ops r.1) _ (answer, b') e later))
        (λ r k. (
          ap₂ ◌∷◌ same (k.0 ∙ ap (λ q. (queue_run ops q).0) holds),
          (k.1.0, k.1.1 ∙ ap (λ q. (queue_run ops q).1) holds),
        )))
