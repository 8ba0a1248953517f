-- ===== src/Ringbuffer.antt =====
-- The byte ring of src/cevent/cevent/ce_ringbuffer.c.
-- A `ce_rb_t *` is an `Option Rb`, `none` for NULL. A function that changes the ring returns the new
-- one beside its result. `*data` of a read is what the pointer shows when the call returns.
pub mod Valid
pub mod Contents
pub mod Read
pub mod Write
pub mod Refine
mod Tests
use cevent_sample.Prelude.{
  ℕ, ◌+◌, ◌-◌, ◌%◌, ◌^◌, ◌<◌, min, Bool, true, false, ◌||◌, Option, none, some, List, [], ◌++◌, ltb,
  ◌==◌, if◌then◌else◌, ℤ, pos, negsuc, is_neg, is_nonpos, pos_part, add_int, sub_int, Run, ret,
  fault, ◌>>=◌, ◌>>◌, length, take, replicate,
}
use cevent_sample.Prelude.Slices.{slice, blit}

-- `struct ce_rb`; `retval` is the scratch buffer of a read that comes to the end of the storage.
pub record Rb : Type 0 where
  pub buffer : List ℕ
  pub head : ℕ
  pub tail : ℕ
  pub wrap : Bool
  pub capacity : ℕ
  pub retval_buffer : List ℕ
  pub retval_size : ℕ

-- what a read leaves in `*data`
pub data Out : Type 0 where
  untouched : Out
  null : Out
  bytes : List ℕ → Out

-- A negative size makes `ce_malloc` return NULL, which `memset` then writes through.
unfoldable pub ce_rb_new : ℤ → Run Rb
ce_rb_new (pos n) = ret (record {
  buffer = replicate n 0;
  head = 0;
  tail = 0;
  wrap = false;
  capacity = n;
  retval_buffer = [];
  retval_size = 0;
})
ce_rb_new (negsuc _) = fault

-- `ce_rb_can_read` behind its NULL test. The sum of `int`s wraps; in C it is undefined from 2 ^ 31 on,
-- which rings of more than 2 ^ 30 bytes can reach.
unfoldable pub can_read : Rb → ℕ
can_read r =
    if r.tail == r.head
    then (if r.wrap then r.capacity else 0)
    else if ltb r.head r.tail
    then sub_int r.tail r.head
    else sub_int (add_int r.capacity r.tail) r.head

unfoldable pub ce_rb_can_read : Option Rb → ℕ
ce_rb_can_read none = 0
ce_rb_can_read (some r) = can_read r

unfoldable pub can_write : Rb → ℕ
can_write r = r.capacity - can_read r

-- `rb->capacity` is read with no NULL test
unfoldable pub ce_rb_can_write : Option Rb → Run ℕ
ce_rb_can_write none = fault
ce_rb_can_write (some r) = ret (can_write r)

-- A scratch buffer that is too small is freed and allocated anew; its bytes are not set.
unfoldable pub grow_retval : Rb → ℕ → Rb
grow_retval r n =
    if ltb r.retval_size n then record r { retval_size = n; retval_buffer = replicate n 0 } else r

-- The second `memcpy` of a read and of a write, made only if the first left something.
unfoldable pub read_rest : Rb → List ℕ → ℕ → ℕ → ℕ → Run (List ℕ × ℕ)
read_rest r scratch head chunk n =
    if ltb chunk n
    then (do
      ys ← slice r.buffer head (n - chunk)
      scratch' ← blit scratch chunk ys
      ret (scratch', (head + (n - chunk)) % r.capacity))
    else ret (scratch, head)

unfoldable pub read_wrapped : Rb → ℕ → Run (ℕ × Out × Rb)
read_wrapped r n =
    let chunk = min n (r.capacity - r.head) in
    let r' = grow_retval r n in
    do
      xs ← slice r'.buffer r'.head chunk
      scratch ← blit r'.retval_buffer 0 xs
      (scratch', head') ← read_rest r' scratch ((r'.head + chunk) % r'.capacity) chunk n
      ret (
        n,
        bytes (take n scratch'),
        record r' { head = head'; retval_buffer = scratch'; wrap = false },
      )

unfoldable pub read_counted : Rb → ℕ → Run (ℕ × Out × Rb)
read_counted r n =
    if n == 0
    then ret (0, null, r)
    else if ltb n (r.capacity - r.head)
    then (do
      xs ← slice r.buffer r.head n
      ret (n, bytes xs, record r { head = (r.head + n) % r.capacity }))
    else read_wrapped r n

-- `ce_rb_read` on a ring that is there, for a count that is not negative
unfoldable pub read : Rb → ℕ → Run (ℕ × Out × Rb)
read r count = read_counted r (min count (can_read r))

-- `none` for `data` stands for a NULL `void **`.
unfoldable pub ce_rb_read : Option Rb → Option (Unit {0}) → ℤ → Run (ℕ × Out × Option Rb)
ce_rb_read none data_ptr count = ret (0, untouched, none)
ce_rb_read (some r) none count = ret (0, untouched, some r)
ce_rb_read (some r) (some tt) (negsuc _) = ret (0, untouched, some r)
ce_rb_read (some r) (some tt) (pos count) = do (n, out, r') ← read r count; ret (n, out, some r')

unfoldable pub write_rest : Rb → List ℕ → List ℕ → ℕ → ℕ → ℕ → Run (List ℕ × ℕ)
write_rest r src buffer tail chunk n =
    if ltb chunk n
    then (do
      ys ← slice src chunk (n - chunk)
      buffer' ← blit buffer tail ys
      ret (buffer', (tail + (n - chunk)) % r.capacity))
    else ret (buffer, tail)

unfoldable pub write_counted : Rb → List ℕ → ℕ → Run (ℕ × Rb)
write_counted r src n =
    if n == 0
    then ret (0, r)
    else (let chunk = min n (r.capacity - r.tail) in
        do
          xs ← slice src 0 chunk
          buffer ← blit r.buffer r.tail xs
          (buffer', tail') ← write_rest r src buffer ((r.tail + chunk) % r.capacity) chunk n
          ret (
            n,
            record r {
              buffer = buffer';
              tail = tail';
              wrap = if r.head == tail' then true else r.wrap;
            },
          ))

-- `ce_rb_write` on a ring that is there, for a positive count
unfoldable pub write : Rb → List ℕ → ℕ → Run (ℕ × Rb)
write r src count = write_counted r src (min count (can_write r))

-- `none` for the source stands for a NULL `data`.
unfoldable pub ce_rb_write : Option Rb → Option (List ℕ) → ℤ → Run (ℕ × Option Rb)
ce_rb_write none src count = ret (0, none)
ce_rb_write (some r) none count = ret (0, some r)
ce_rb_write (some r) (some src) count =
    if is_nonpos count
    then ret (0, some r)
    else (do (n, r') ← write r src (pos_part count); ret (n, some r'))

-- How many blocks a call of `ce_rb_free` frees, and what is behind the pointer then. The scratch buffer
-- is NULL until a read has needed one.
unfoldable pub ce_rb_free : Option (Option Rb) → ℕ × Option (Option Rb)
ce_rb_free none = (0, none)
ce_rb_free (some none) = (0, some none)
ce_rb_free (some (some r)) = (if r.retval_size == 0 then 2 else 3, some none)
