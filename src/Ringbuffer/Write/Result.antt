-- ===== src/Ringbuffer/Write/Result.antt =====
-- What a write leaves.
use cevent_sample.Prelude.{ℕ, ◌≡◌, List, ◌++◌}
use cevent_sample.Ringbuffer.{Rb}
use cevent_sample.Ringbuffer.Valid.{IsValid}
use cevent_sample.Ringbuffer.Contents.{contents}

-- What a write of the bytes `xs`, for which there is room, gives.
pub record Put (r : Rb) (xs : List ℕ) (r' : Rb) : Type 0 where
  pub valid : IsValid r'
  pub held : contents r' ≡ contents r ++ xs
  pub capacity : r'.capacity ≡ r.capacity
