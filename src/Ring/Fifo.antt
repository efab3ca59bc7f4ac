-- ===== src/Ring/Fifo.antt =====
-- A writer and a reader that take turns in any order: what is read is what was written.
use echo_protocol.Base.{ℕ, ◌≡◌, ◌<◌, refl, sym, ap, ◌∙◌, Option, none, some}
use echo_protocol.Base.{
  List, [], ◌∷◌, ◌++◌, append-nil, append_assoc, ◌⊎◌, inl, inr, if◌then◌else◌, ◌==◌,
}
use echo_protocol.Ring.{Buffer, put_bits, get_bits}
use echo_protocol.Ring.Inv.{IsValid, IsFull, put_bits-IsValid, get_bits-IsValid}
use echo_protocol.Ring.Refine.{contents, dequeue, put_bits_refines, get_bits_refines}

pub data Op : Type 0 where
  put : ℕ → Op
  get : Op

-- Every bit that is put is a bit.
abbrev pub AllOps : List Op → Type 0
AllOps [] = Unit
AllOps (put x ∷ ops) = (x < 2) × AllOps ops
AllOps (get ∷ ops) = AllOps ops

-- The ring in the end, the bits that were accepted and the bits that were read, in order.
pub record Trace : Type 0 where
  pub ring : Buffer
  pub accepted : List ℕ
  pub got : List ℕ

abbrev note : Option ℕ → List ℕ → List ℕ
note none l = l
note (some x) l = x ∷ l

abbrev keep : ℕ → ℕ → List ℕ → List ℕ
keep status x l = if status == 0 then l else x ∷ l

unfoldable pub run : Buffer → List Op → Trace
run b [] = record { ring = b; accepted = []; got = [] }
run b (put x ∷ ops) =
    let (b', status) = put_bits b x in
    let rest = run b' ops in record rest { accepted = keep status x rest.accepted }
run b (get ∷ ops) =
    let (b', r) = get_bits b in let rest = run b' ops in record rest { got = note r rest.got }

dequeue-note : (q q' : List ℕ) (r : Option ℕ) → (r, q') ≡ dequeue q → q ≡ note r q'
unfolding dequeue
dequeue-note [] q' none e = cc
dequeue-note [] q' (some x) e = cc
dequeue-note (y ∷ q) q' none e = cc
dequeue-note (y ∷ q) q' (some x) e = cc

note-append : (r : Option ℕ) (l l' : List ℕ) → note r (l ++ l') ≡ note r l ++ l'
note-append none l l' = refl
note-append (some x) l l' = refl

put_step :
    {b : Buffer} (x : ℕ) (l : List ℕ)
    → x < 2
    → IsValid b
    → contents b ++ keep (put_bits b x).1 x l ≡ contents (put_bits b x).0 ++ l
put_step {b} x l h v = go (put_bits_refines x h v)
  where
    go :
        ((((put_bits b x).1 ≡ 1) × (contents (put_bits b x).0 ≡ contents b ++ (x ∷ [])))
          ⊎ (((put_bits b x).1 ≡ 0) × ((put_bits b x).0 ≡ b) × IsFull b))
        → contents b ++ keep (put_bits b x).1 x l ≡ contents (put_bits b x).0 ++ l
    go (inl (s, c)) = rw (s, c) (sym (append_assoc (contents b) (x ∷ []) l))
    go (inr (s, e, _)) = rw (s, e) refl

get_step :
    {b : Buffer} (l : List ℕ)
    → IsValid b
    → contents b ++ l ≡ note (get_bits b).1 (contents (get_bits b).0 ++ l)
get_step {b} l v =
    ap (λ q. q ++ l)
      (dequeue-note (contents b) (contents (get_bits b).0) (get_bits b).1 (get_bits_refines v))
    ∙ sym (note-append (get_bits b).1 (contents (get_bits b).0) l)

-- From a valid ring, and whatever the order of calls of `put_bits` with bits and of `get_bits`: the
-- bits read are the first of the bits that were in the ring and of those accepted since, in order,
-- and the ring holds exactly the others.
pub run_fifo :
    (ops : List Op) {b : Buffer}
    → IsValid b
    → AllOps ops
    → let t = run b ops in contents b ++ t.accepted ≡ t.got ++ contents t.ring
unfolding run
run_fifo [] {b} v a = append-nil (contents b)
run_fifo (put x ∷ ops) {b} v a =
    put_step x (run (put_bits b x).0 ops).accepted a.0 v
    ∙ run_fifo ops (put_bits-IsValid x a.0 v) a.1
run_fifo (get ∷ ops) {b} v a =
    get_step (run (get_bits b).0 ops).accepted v
    ∙ ap (note (get_bits b).1) (run_fifo ops (get_bits-IsValid v) a)
    ∙ note-append (get_bits b).1 (run (get_bits b).0 ops).got _
