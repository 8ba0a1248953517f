-- ===== src/Io/Packets.antt =====
-- The packets that the loop of `_ce_io_enqueue_buffer_processor` takes from a connection's bytes.
use cevent_sample.Prelude.{
  ℕ, zero, suc, ◌+◌, ◌*◌, ◌≤◌, ◌<◌, ◌≡◌, refl, ap, ◌∙◌, true, false, List, [], ◌∷◌, ltb, leb, ◌==◌,
  if◌then◌else◌, leb_of_le, leb_of_lt, Run, ret, ◌>>=◌, arith, inl, inr, Bool-cases, length, take,
  drop,
}
use cevent_sample.Ringbuffer.{Rb, can_read, read}
use cevent_sample.Ringbuffer.Valid.{IsValid}
use cevent_sample.Ringbuffer.Contents.{contents, length-contents}
use cevent_sample.Ringbuffer.Read.{out_of, read_exact, read_all}
use cevent_sample.Shared.{received, excepted, packet_illegal}
use cevent_sample.Io.{Env, IoFd, Io, out_bytes, log, del, packet, packets}

-- What the loop makes of some bytes. Sizes are two bytes, the low one first.
pub data Verdict : Type 0 where
  wait : List ℕ → Verdict
  held : ℕ → List ℕ → Verdict
  illegal : List ℕ → Verdict
  delivered : List ℕ → Verdict

-- Sizes of 0 are passed over. Behind a size, all that is there is delivered if that is not more than
-- the size; if it is more, the size is dropped and the bytes stay.
unfoldable pub verdict : ℕ → List ℕ → Verdict
verdict max (a ∷ b ∷ c ∷ xs) =
    if a + b * 256 == 0
    then verdict max (c ∷ xs)
    else if ltb max (a + b * 256)
    then illegal (c ∷ xs)
    else if ltb (a + b * 256) (suc (length xs))
    then held (a + b * 256) (c ∷ xs)
    else delivered (c ∷ xs)
verdict max xs = wait xs

module _ {e : Env} where
  -- the state behind the loop, for each verdict
  abbrev pub Done : Io e → IoFd → Verdict → Io e × IoFd → Type 0
  Done io f (wait xs) (io', f') =
      (io' ≡ io)
      × (f'.enqueue_cache_body_size ≡ f.enqueue_cache_body_size)
      × (contents f'.enqueue_buffer ≡ xs)
  Done io f (held n xs) (io', f') =
      (io' ≡ io) × (f'.enqueue_cache_body_size ≡ n) × (contents f'.enqueue_buffer ≡ xs)
  Done io f (illegal xs) (io', f') =
      (io' ≡ (del (log io (excepted f.fd packet_illegal)) f.fd).1)
      × (f'.enqueue_cache_body_size ≡ f.enqueue_cache_body_size)
      × (contents f'.enqueue_buffer ≡ xs)
  Done io f (delivered xs) (io', f') =
      (io' ≡ log io (received f.fd xs))
      × (f'.enqueue_cache_body_size ≡ 0)
      × (contents f'.enqueue_buffer ≡ [])

  abbrev pub max_of : Io e → ℕ
  max_of io = io.param.conf.per_max_packet_body_size

  -- one run of the loop comes to an end, with its verdict
  abbrev pub Ends : Io e → IoFd → Verdict → Run (Io e × IoFd) → Type 0
  Ends io f v m =
      (out : Io e × IoFd) × (m ≡ ret out) × IsValid out.1.enqueue_buffer × Done io f v out

  few_bytes-ret :
      (k : ℕ) (io : Io e) (f : IoFd)
      → can_read f.enqueue_buffer ≤ 2
      → packets (suc k) io f ≡ ret (io, f)
  unfolding packets
  few_bytes-ret k io f h = rw (leb_of_le (can_read f.enqueue_buffer) 2 h)

  few_bytes :
      (k : ℕ) (io : Io e) (f : IoFd) (xs : List ℕ)
      → contents f.enqueue_buffer ≡ xs
      → IsValid f.enqueue_buffer
      → length xs ≤ 2
      → Ends io f (wait xs) (packets (suc k) io f)
  few_bytes k io f xs is v h = (
    (io, f),
    few_bytes-ret k io f (omega (arith, length-contents v, ap length is)),
    v,
    (refl, refl, is),
  )

  -- all that is left goes out as one packet, and the loop finds nothing more
  after_read :
      (k : ℕ) (io : Io e) (f : IoFd) (size c : ℕ) (xs : List ℕ) (r : Rb)
      → contents f.enqueue_buffer ≡ c ∷ xs
      → can_read f.enqueue_buffer ≡ suc (length xs)
      → read f.enqueue_buffer size
        ≡ ret (
          can_read f.enqueue_buffer,
          out_of (can_read f.enqueue_buffer) (contents f.enqueue_buffer),
          r,
        )
      → (read f.enqueue_buffer size >>= λ (n, out, ring).
          packets
            (suc k)
            (log io (received f.fd (out_bytes out)))
            (record f { enqueue_buffer = ring; enqueue_cache_body_size = 0 }))
        ≡ packets
            (suc k)
            (log io (received f.fd (c ∷ xs)))
            (record f { enqueue_buffer = r; enqueue_cache_body_size = 0 })
  after_read k io f size c xs r is n rd = rw rd (simp (n, is))

  whole_packet :
      (k : ℕ) (io : Io e) (f : IoFd) (size c : ℕ) (xs : List ℕ)
      → IsValid f.enqueue_buffer
      → contents f.enqueue_buffer ≡ c ∷ xs
      → can_read f.enqueue_buffer ≡ suc (length xs)
      → 0 < k
      → suc (length xs) ≤ size
      → Ends io f (delivered (c ∷ xs)) (
          read f.enqueue_buffer size >>= λ (n, out, ring).
          packets k
            (log io (received f.fd (out_bytes out)))
            (record f { enqueue_buffer = ring; enqueue_cache_body_size = 0 }))
  whole_packet zero io f size c xs v is n some_fuel h = absurd (omega arith)
  whole_packet (suc k) io f size c xs v is n some_fuel h =
      let (r, rd, v', empty) = read_all size v (omega arith) in
      let f' : IoFd = record f { enqueue_buffer = r; enqueue_cache_body_size = 0 } in
      let io' = log io (received f.fd (c ∷ xs)) in
      (
        (io', f'),
        after_read k io f size c xs r is n rd
            ∙ few_bytes-ret k io' f' (omega (arith, length-contents v', ap length empty)),
        v',
        (refl, refl, empty),
      )

  -- a turn, behind the read of a size, where `xs` is left and the rest of the loop is known to end
  packet-Ends :
      (k : ℕ) (io : Io e) (f : IoFd) (size c : ℕ) (xs : List ℕ)
      → IsValid f.enqueue_buffer
      → contents f.enqueue_buffer ≡ c ∷ xs
      → can_read f.enqueue_buffer ≡ suc (length xs)
      → 0 < k
      → ((size == 0) ≡ true → Ends io f (verdict (max_of io) (c ∷ xs)) (packets k io f))
      → Ends io f
          (if size == 0
            then verdict (max_of io) (c ∷ xs)
            else if ltb (max_of io) size
            then illegal (c ∷ xs)
            else if ltb size (suc (length xs))
            then held size (c ∷ xs)
            else delivered (c ∷ xs))
          (packet (packets k) io f size)
  unfolding packet
  packet-Ends k io f size c xs v is n some_fuel rest = elim (Bool-cases (size == 0)) [
    | inl none_there ↦ rw (none_there) (rest none_there)
    | inr there ↦ elim (Bool-cases (ltb (max_of io) size)) [
      | inl big ↦ rw (there, big) (_, refl, v, (refl, refl, is))
      | inr fits ↦ elim (Bool-cases (ltb size (suc (length xs)))) [
        | inl more ↦ rw (there, fits, n, more) (_, refl, v, (refl, refl, is))
        | inr whole ↦
            rw (there, fits, n, whole)
              (whole_packet k io f size c xs v is n some_fuel (ground arith))
      ]
    ]
  ]

  -- the read of a size leaves the bytes behind it
  size_read :
      (k : ℕ) (io : Io e) (f : IoFd) (a b : ℕ) (ys : List ℕ) (r : Rb) (v : Verdict)
      → (leb (can_read f.enqueue_buffer) 2 ≡ false)
      → contents f.enqueue_buffer ≡ a ∷ b ∷ ys
      → read f.enqueue_buffer 2 ≡ ret (2, out_of 2 (take 2 (contents f.enqueue_buffer)), r)
      → Ends io f v (packet (packets k) io (record f { enqueue_buffer = r }) (a + b * 256))
      → Ends io f v (packets (suc k) io f)
  unfolding packets
  size_read k io f a b ys r v many is rd h = rw (many, rd) (simp is h)

  -- With more fuel than bytes the loop comes to an end without a fault, with the verdict on the
  -- bytes that the connection holds.
  pub packets-Ends :
      (k : ℕ) (io : Io e) (f : IoFd) (xs : List ℕ)
      → contents f.enqueue_buffer ≡ xs
      → IsValid f.enqueue_buffer
      → can_read f.enqueue_buffer < k
      → Ends io f (verdict (max_of io) xs) (packets k io f)
  unfolding verdict
  packets-Ends zero io f xs is v h = absurd (omega arith)
  packets-Ends (suc k) io f [] is v h = few_bytes k io f [] is v (omega arith)
  packets-Ends (suc k) io f (a ∷ []) is v h = few_bytes k io f (a ∷ []) is v (omega arith)
  packets-Ends (suc k) io f (a ∷ b ∷ []) is v h = few_bytes k io f (a ∷ b ∷ []) is v (omega arith)
  packets-Ends (suc k) io f (a ∷ b ∷ c ∷ xs) is v h =
      let held_now : can_read f.enqueue_buffer ≡ suc (suc (suc (length xs))) =
        omega (arith, length-contents v, ap length is) in
      let (r, rd, t) = read_exact 2 v (omega arith) in
      let left : contents r ≡ c ∷ xs = t.rest ∙ ap (drop 2) is in
      let some_left = length-contents t.valid in
      let f' : IoFd = record f { enqueue_buffer = r } in
      size_read k io f a b (c ∷ xs) r _ (leb_of_lt (can_read f.enqueue_buffer) 2 (omega arith)) is
        rd
        (packet-Ends k io f' (a + b * 256) c xs t.valid left (omega (arith, ap length left))
          (omega arith)
          (λ zero_size. packets-Ends k io f' (c ∷ xs) left t.valid (omega (arith, ap length left))))
