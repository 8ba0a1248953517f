-- ===== src/Ringbuffer/Refine.antt =====
-- Seen from outside, a ring is a queue of at most `capacity` bytes.
use cevent_sample.Prelude.{
  ℕ, ◌-◌, ◌^◌, ◌<◌, ◌≡◌, refl, min, List, [], ◌∷◌, ◌++◌, arith, Run, ret, ◌>>=◌, length, take, drop,
  pos, replicate, length-replicate, false,
}
use cevent_sample.Ringbuffer.{Rb, Out, ce_rb_new, can_write, read, write}
use cevent_sample.Ringbuffer.Valid.{IsValid}
use cevent_sample.Ringbuffer.Contents.{contents, length-contents}
use cevent_sample.Ringbuffer.Read.{out_of, read_lem}
use cevent_sample.Ringbuffer.Write.{write_lem}

-- A client's calls: a write of some bytes, a read of at most so many.
pub data Op : Type 0 where
  put : List ℕ → Op
  get : ℕ → Op

pub data Reply : Type 0 where
  wrote : ℕ → Reply
  got : ℕ → Out → Reply

-- the calls in order, with what each returns
unfoldable pub run : Rb → List Op → Run (List Reply)
run r [] = ret []
run r (put xs ∷ ops) = do
  (n, r') ← write r xs (length xs)
  replies ← run r' ops
  ret (wrote n ∷ replies)
run r (get k ∷ ops) = do (n, out, r') ← read r k; replies ← run r' ops; ret (got n out ∷ replies)

-- The specification: a queue of bytes with room for `cap`.
unfoldable pub queue_run : ℕ → List ℕ → List Op → List Reply
queue_run cap q [] = []
queue_run cap q (put xs ∷ ops) =
    let n = min (length xs) (cap - length q) in wrote n ∷ queue_run cap (q ++ take n xs) ops
queue_run cap q (get k ∷ ops) =
    let n = min k (length q) in got n (out_of n (take n q)) ∷ queue_run cap (drop n q) ops

-- No sequence of reads and writes tells a valid ring from the bounded queue of its bytes.
pub run_refines :
    (ops : List Op) {r : Rb} → IsValid r → run r ops ≡ ret (queue_run r.capacity (contents r) ops)
unfolding run queue_run can_write
run_refines [] v = refl
run_refines (put xs ∷ ops) {r} v =
    let (r', is, p) = write_lem xs (length xs) v (omega arith) in
    rw (is, run_refines ops p.valid, p.held, p.capacity, length-contents v)
run_refines (get k ∷ ops) {r} v =
    let (r', is, t) = read_lem k v in
    rw (is, run_refines ops t.valid, t.rest, t.capacity, length-contents v)

-- A ring that `ce_rb_new` makes for a positive size is valid, empty, and has that capacity.
pub ce_rb_new-IsValid :
    (n : ℕ)
    → 0 < n
    → n < 2 ^ 31
    → (r : Rb) × (ce_rb_new (pos n) ≡ ret r) × IsValid r × (contents r ≡ []) × (r.capacity ≡ n)
unfolding ce_rb_new contents
ce_rb_new-IsValid n any small = (
  fresh,
  refl,
  record {
    storage = length-replicate n 0;
    positive = any;
    small = small;
    head_in = any;
    tail_in = any;
    wrapped = λ w. cc;
    scratch = refl;
  },
  refl,
  refl,
)
  where
    fresh : Rb
    fresh = record {
      buffer = replicate n 0;
      head = 0;
      tail = 0;
      wrap = false;
      capacity = n;
      retval_buffer = [];
      retval_size = 0;
    }
