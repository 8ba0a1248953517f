-- ===== src/Ringbuffer/Read/Result.antt =====
-- What a read leaves.
use cevent_sample.Prelude.{ℕ, ◌≡◌, drop}
use cevent_sample.Ringbuffer.{Rb}
use cevent_sample.Ringbuffer.Valid.{IsValid}
use cevent_sample.Ringbuffer.Contents.{contents}

-- What a read of `n` bytes, none of them missing, gives.
pub record Taken (r : Rb) (n : ℕ) (r' : Rb) : Type 0 where
  pub valid : IsValid r'
  pub rest : contents r' ≡ drop n (contents r)
  pub capacity : r'.capacity ≡ r.capacity
