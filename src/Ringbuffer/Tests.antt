-- ===== src/Ringbuffer/Tests.antt =====
-- Runs of the ring on small inputs, and the theorems at them.
use cevent_sample.Prelude.{
  ◌≡◌, refl, arith, false, List, [], ◌∷◌, none, some, ret, pos, negsuc, min, take,
}
use cevent_sample.Prelude.Slices.{slice, blit}
use cevent_sample.Ringbuffer.{
  Rb, untouched, null, bytes, can_read, can_write, ce_rb_read, ce_rb_write, read, write,
  read_counted, read_wrapped, read_rest, grow_retval, write_counted, write_rest,
}
use cevent_sample.Ringbuffer.Valid.{IsValid}
use cevent_sample.Ringbuffer.Contents.{contents}
use cevent_sample.Ringbuffer.Read.{Taken, out_of, read_lem}
use cevent_sample.Ringbuffer.Write.{Put, write_lem}
use cevent_sample.Ringbuffer.Refine.{Op, put, get, wrote, got, run, queue_run, run_refines}

-- 8 and 9 lie round the end of the storage
abbrev round : Rb
round = record {
  buffer = 9 ∷ 0 ∷ 0 ∷ 8 ∷ [];
  head = 3;
  tail = 1;
  wrap = false;
  capacity = 4;
  retval_buffer = [];
  retval_size = 0;
}

round-IsValid : IsValid round
round-IsValid = record {
  storage = refl;
  positive = omega arith;
  small = omega arith;
  head_in = omega arith;
  tail_in = omega arith;
  wrapped = λ w. cc;
  scratch = refl;
}

abbrev script : List Op
script = put (1 ∷ 2 ∷ 3 ∷ []) ∷ get 3 ∷ get 7 ∷ get 1 ∷ put (4 ∷ []) ∷ []

run-round :
    run round script
    ≡ ret (
        wrote 2
        ∷ got 3 (bytes (8 ∷ 9 ∷ 1 ∷ []))
        ∷ got 1 (bytes (2 ∷ []))
        ∷ got 0 null
        ∷ wrote 1
        ∷ [])
unfolding run read write can_read can_write read_counted read_wrapped read_rest grow_retval
    write_counted write_rest slice blit
run-round = refl

guards :
    (ce_rb_read none (some tt) (pos 1) ≡ ret (0, untouched, none))
    × (ce_rb_read (some round) (some tt) (negsuc 0) ≡ ret (0, untouched, some round))
    × (ce_rb_write (some round) (some (1 ∷ [])) (pos 0) ≡ ret (0, some round))
unfolding ce_rb_read ce_rb_write
guards = (refl, refl, refl)

run_refines_example : run round script ≡ ret (queue_run 4 (8 ∷ 9 ∷ []) script)
unfolding contents
run_refines_example = run_refines script round-IsValid

read_lem_example :
    let n = min 5 (can_read round) in
    (r' : Rb) × (read round 5 ≡ ret (n, out_of n (take n (contents round)), r')) × Taken round n r'
read_lem_example = read_lem 5 round-IsValid

write_lem_example :
    let n = min 3 (can_write round) in
    (r' : Rb) × (write round (1 ∷ 2 ∷ 3 ∷ []) 3 ≡ ret (n, r'))
    × Put round (take n (1 ∷ 2 ∷ 3 ∷ [])) r'
write_lem_example = write_lem (1 ∷ 2 ∷ 3 ∷ []) 3 round-IsValid (omega arith)
