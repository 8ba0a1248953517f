-- ===== src/Io/Sends.antt =====
-- The loop of `_ce_io_push_buffer_processor` that sends what the ring of a connection holds.
use cevent_sample.Prelude.{
  ℕ, zero, suc, ◌%◌, ◌^◌, ◌≤◌, ◌<◌, ◌≡◌, refl, ap, ap₂, ◌∙◌, min, Bool, true, false, Option, none,
  some, List, [], ◌∷◌, ◌==◌, if◌then◌else◌, ℤ, pos, negsuc, Run, ret, arith, inl, inr, Bool-cases,
  length, take, drop, length-drop,
}
use cevent_sample.Ringbuffer.{Rb, can_read, read}
use cevent_sample.Ringbuffer.Valid.{IsValid}
use cevent_sample.Ringbuffer.Contents.{contents, length-contents}
use cevent_sample.Ringbuffer.Read.{out_of, read_lem}
use cevent_sample.Shared.{excepted, packet_send_error}
use cevent_sample.Io.{Env, IoFd, Io, send_per_size, is_all, out_bytes, log, del, send_chunk, sends}

-- the size of the chunk that is read next
abbrev pub chunk : List ℕ → ℕ
chunk xs = min send_per_size (length xs)

-- whether the network, given a chunk with its size cut to 16 bits, answers with the whole size
abbrev pub takes : (ℤ → List ℕ → ℕ → ℤ) → ℤ → List ℕ → Bool
takes send fd xs = is_all (chunk xs) (send fd (take (chunk xs) xs) (chunk xs % 2 ^ 16))

-- What becomes of the bytes that wait: chunk after chunk goes out until there is no more, or until one
-- is not taken, behind which the rest stays.
pub data Sending (send : ℤ → List ℕ → ℕ → ℤ) (fd : ℤ) : List ℕ → Option (List ℕ) → Type 0 where
  finish : Sending send fd [] none
  taken :
      {c : ℕ} {xs : List ℕ} {left : Option (List ℕ)}
      → takes send fd (c ∷ xs) ≡ true
      → Sending send fd (drop (chunk (c ∷ xs)) (c ∷ xs)) left
      → Sending send fd (c ∷ xs) left
  refused :
      {c : ℕ} {xs : List ℕ}
      → takes send fd (c ∷ xs) ≡ false
      → Sending send fd (c ∷ xs) (some (drop (chunk (c ∷ xs)) (c ∷ xs)))

-- a network that takes no more than it is given
abbrev pub IsBounded : (ℤ → List ℕ → ℕ → ℤ) → Type 0
IsBounded send = (fd : ℤ) (xs : List ℕ) (n m : ℕ) → send fd xs n ≡ pos m → m ≤ n

out_bytes-out_of : (n : ℕ) (xs : List ℕ) → 0 < n → out_bytes (out_of n xs) ≡ xs
out_bytes-out_of zero xs h = absurd (omega arith)
out_bytes-out_of (suc n) xs h = refl

is_all-less : (n m : ℕ) (z : ℤ) → ((l : ℕ) → z ≡ pos l → l ≤ m) → m < n → is_all n z ≡ false
is_all-less n m (pos l) bound h = let few = bound l refl in ground arith
is_all-less n m (negsuc l) bound h = refl

is_all-cut :
    {send : ℤ → List ℕ → ℕ → ℤ} (fd : ℤ) (xs : List ℕ) (n : ℕ)
    → 2 ^ 16 ≤ n
    → n ≤ send_per_size
    → IsBounded send
    → is_all n (send fd xs (n % 2 ^ 16)) ≡ false
is_all-cut {send} fd xs n big small bounded =
    is_all-less n (n % 2 ^ 16) (send fd xs (n % 2 ^ 16)) (bounded fd xs (n % 2 ^ 16)) (omega arith)

read-chunk :
    {r : Rb} (xs : List ℕ)
    → IsValid r
    → contents r ≡ xs
    → (r' : Rb) × (read r send_per_size
        ≡ ret (chunk xs, out_of (chunk xs) (take (chunk xs) xs), r'))
      × IsValid r'
      × (contents r' ≡ drop (chunk xs) xs)
read-chunk {r} xs v is =
    let (r', rd, t) = read_lem send_per_size v in
    let n : min send_per_size (can_read r) ≡ chunk xs =
      omega (arith, length-contents v, ap length is) in
    (r', rd ∙ ap₂ (λ m ys. ret (m, out_of m (take m ys), r')) n is, t.valid, t.rest ∙ ap₂ drop n is)

module _ {e : Env} where
  -- the state behind the loop
  abbrev pub Sent : Io e → IoFd → Option (List ℕ) → Io e × IoFd → Type 0
  Sent io f none (io', f') = (io' ≡ io) × (contents f'.push_buffer ≡ [])
  Sent io f (some xs) (io', f') =
      (io' ≡ (del (log io (excepted f.fd packet_send_error)) f.fd).1)
      × (contents f'.push_buffer ≡ xs)

  abbrev pub Finishes : Io e → IoFd → List ℕ → Run (Io e × IoFd) → Type 0
  Finishes io f xs m =
      (left : Option (List ℕ)) × Sending io.param.send f.fd xs left
      × (out : Io e × IoFd) × (m ≡ ret out)
      × IsValid out.1.push_buffer
      × Sent io f left out

  send_chunk-nonempty :
      (again : Io e → IoFd → Run (Io e × IoFd)) (io : Io e) (f : IoFd) (n : ℕ) (xs : List ℕ)
      → 0 < n
      → send_chunk again io f n xs ≡ (
          if is_all n (io.param.send f.fd xs (n % 2 ^ 16))
          then again io f
          else ret ((del (log io (excepted f.fd packet_send_error)) f.fd).1, f))
  unfolding send_chunk
  send_chunk-nonempty again io f n xs some_there =
      let there : (n == 0) ≡ false = ground arith in rw there

  -- a turn that reads something
  turn :
      (k : ℕ) (io : Io e) (f : IoFd) (n : ℕ) (xs : List ℕ) (r : Rb)
      → 0 < n
      → read f.push_buffer send_per_size ≡ ret (n, out_of n xs, r)
      → sends (suc k) io f ≡ (
          if is_all n (io.param.send f.fd xs (n % 2 ^ 16))
          then sends k io (record f { push_buffer = r })
          else ret (
            (del (log io (excepted f.fd packet_send_error)) f.fd).1,
            record f { push_buffer = r },
          ))
  unfolding sends
  turn k io f zero xs r some_there rd = absurd (omega arith)
  turn k io f (suc n) xs r some_there rd =
      rw rd (send_chunk-nonempty (sends k) io (record f { push_buffer = r }) (suc n) xs some_there)

  -- a turn that finds nothing
  last_turn :
      (k : ℕ) (io : Io e) (f : IoFd) (xs : List ℕ) (r : Rb)
      → read f.push_buffer send_per_size ≡ ret (0, out_of 0 xs, r)
      → sends (suc k) io f ≡ ret (io, record f { push_buffer = r })
  unfolding sends send_chunk
  last_turn k io f xs r rd = rw rd

  onward :
      (io : Io e) (f : IoFd) (c : ℕ) (xs : List ℕ) (r : Rb) {m : Run (Io e × IoFd)}
      → takes io.param.send f.fd (c ∷ xs) ≡ true
      → Finishes io (record f { push_buffer = r }) (drop (chunk (c ∷ xs)) (c ∷ xs)) m
      → Finishes io f (c ∷ xs) m
  onward io f c xs r all (none, sending, out, ok, valid, done) =
      (none, taken all sending, out, ok, valid, done)
  onward io f c xs r all (some left, sending, out, ok, valid, done) =
      (some left, taken all sending, out, ok, valid, done)

  -- Sending comes to an end, with no fault, with more fuel than bytes that wait: the chunks go out in
  -- their order, each of at most 102,400 bytes, until either nothing waits and nothing else changed,
  -- or the network answers with less than a chunk, for which `on_exception` is called, the connection
  -- is deleted, and what is behind that chunk stays.
  pub sends-Finishes :
      (k : ℕ) (io : Io e) (f : IoFd) (xs : List ℕ)
      → contents f.push_buffer ≡ xs
      → IsValid f.push_buffer
      → length xs < k
      → Finishes io f xs (sends k io f)
  sends-Finishes zero io f xs is v h = absurd (omega arith)
  sends-Finishes (suc k) io f [] is v h =
      let (r, rd, v', left) = read-chunk [] v is in
      (none, finish, _, last_turn k io f [] r rd, v', (refl, left))
  sends-Finishes (suc k) io f (c ∷ xs) is v h =
      let (r, rd, v', left) = read-chunk (c ∷ xs) v is in
      let n = chunk (c ∷ xs) in
      let f' : IoFd = record f { push_buffer = r } in
      let step = turn k io f n (take n (c ∷ xs)) r (omega arith) rd in
      elim (Bool-cases (takes io.param.send f.fd (c ∷ xs))) [
        | inl all ↦
            rw (step, all)
              (onward io f c xs r all (
                sends-Finishes k io f' (drop n (c ∷ xs)) left v'
                  (omega (arith, length-drop n (c ∷ xs)))))
        | inr short ↦ rw (step, short) (some _, refused short, _, refl, v', (refl, left))
      ]

  -- When 65,536 bytes or more wait, the network is told to send less than the chunk that was read, so
  -- that one which takes no more than it is given never answers with its whole size: the loop reports
  -- the error, deletes the connection and keeps none of the chunk, however much of it went out.
  pub long_backlog_breaks :
      (k : ℕ) (io : Io e) (f : IoFd)
      → IsBounded io.param.send
      → IsValid f.push_buffer
      → 2 ^ 16 ≤ can_read f.push_buffer
      → let xs = contents f.push_buffer in
        (f' : IoFd) × (sends (suc k) io f
          ≡ ret ((del (log io (excepted f.fd packet_send_error)) f.fd).1, f'))
        × (contents f'.push_buffer ≡ drop (chunk xs) xs)
  long_backlog_breaks k io f bounded v h =
      let xs = contents f.push_buffer in
      let n = chunk xs in
      let many = length-contents v in
      let (r, rd, v', left) = read-chunk xs v refl in
      let short = is_all-cut f.fd (take n xs) n (omega (arith, many)) (omega arith) bounded in
      (
        record f { push_buffer = r },
        rw (turn k io f n (take n xs) r (omega (arith, many)) rd, short),
        left,
      )
