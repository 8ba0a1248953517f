-- ===== src/Io/Framing.antt =====
-- How the loop of `_ce_io_enqueue_buffer_processor` treats a packet that is complete, and one that
-- is not.
use cevent_sample.Prelude.{
  ℕ, suc, ◌+◌, ◌*◌, ◌/◌, ◌%◌, ◌≤◌, ◌<◌, ◌^◌, ◌≡◌, subst, List, [], ◌∷◌, ◌++◌, ret, arith, length,
}
use cevent_sample.Ringbuffer.{can_read}
use cevent_sample.Ringbuffer.Valid.{IsValid}
use cevent_sample.Ringbuffer.Contents.{contents}
use cevent_sample.Shared.{received}
use cevent_sample.Io.{Env, IoFd, Io, len_bytes, log, packets}
use cevent_sample.Io.Packets.{held, delivered, verdict, max_of, Ends, packets-Ends}

module _ (max n c : ℕ) (xs : List ℕ) (small : n < 2 ^ 16) (legal : n ≤ max) where
  len_back : n % 256 + n / 256 % 256 * 256 ≡ n
  len_back = omega arith

  short-delivered :
      0 < n → suc (length xs) ≤ n → verdict max (len_bytes n ++ (c ∷ xs)) ≡ delivered (c ∷ xs)
  unfolding verdict
  short-delivered some h = rw len_back (ground arith)

  full-held : 0 < n → n < suc (length xs) → verdict max (len_bytes n ++ (c ∷ xs)) ≡ held n (c ∷ xs)
  unfolding verdict
  full-held some h = rw len_back (ground arith)

module _ {e : Env} (k : ℕ) (io : Io e) (f : IoFd) (v : IsValid f.enqueue_buffer)
    (enough : can_read f.enqueue_buffer < k) (n c : ℕ) (xs : List ℕ) (small : n < 2 ^ 16)
    (legal : n ≤ max_of io) (some : 0 < n)
    (is : contents f.enqueue_buffer ≡ len_bytes n ++ (c ∷ xs)) where
  -- Behind a size that is legal and not 0, bytes that are no more than the size says, but at least
  -- one, are delivered as a packet: so is a part of a packet whose rest is yet to come.
  pub part_is_delivered :
      suc (length xs) ≤ n
      → (out : Io e × IoFd) × (packets k io f ≡ ret out)
        × (out.0 ≡ log io (received f.fd (c ∷ xs)))
        × (contents out.1.enqueue_buffer ≡ [])
  part_is_delivered h =
      let (out, ok, valid, done) =
        subst (λ x. Ends io f x (packets k io f))
          (short-delivered (max_of io) n c xs small legal some h)
          (packets-Ends k io f (len_bytes n ++ (c ∷ xs)) is v enough) in
      (out, ok, done.0, done.2)

  -- Behind a size that is legal and not 0, more bytes than the size says are not delivered, though
  -- the packet is complete: the size is dropped, and its packet stays with what follows it.
  pub complete_is_held :
      n < suc (length xs)
      → (out : Io e × IoFd) × (packets k io f ≡ ret out)
        × (out.0 ≡ io)
        × (contents out.1.enqueue_buffer ≡ c ∷ xs)
  complete_is_held h =
      let (out, ok, valid, done) =
        subst (λ x. Ends io f x (packets k io f)) (full-held (max_of io) n c xs small legal some h)
          (packets-Ends k io f (len_bytes n ++ (c ∷ xs)) is v enough) in
      (out, ok, done.0, done.2)
