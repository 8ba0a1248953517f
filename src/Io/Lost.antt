-- ===== src/Io/Lost.antt =====
-- What becomes of a connection that has been added: its object is looked for behind the key of its
-- entry, and the key is the address of a parameter.
use cevent_sample.Prelude.{
  ℕ, ◌≡◌, refl, ap, ◌∙◌, Bool, true, false, none, some, List, ◌==◌, ℤ, pos, negsuc, ◌⊎◌, is_nonpos,
  ret, fault, arith, inl, inr, Bool-cases, Option-cases, fault≢ret,
}
use cevent_sample.Ringbuffer.{Rb, ce_rb_new}
use cevent_sample.Shared.{io_fd, parameter, PushType}
use cevent_sample.Io.{
  Env, Io, deref, ce_io_add, add_new, ce_io_enqueue, enqueue_to, ce_io_push, push_to,
}

ce_rb_new-cases : (n : ℤ) → (ce_rb_new n ≡ fault) ⊎ ((r : Rb) × (ce_rb_new n ≡ ret r))
unfolding ce_rb_new
ce_rb_new-cases (pos n) = inr (_, refl)
ce_rb_new-cases (negsuc n) = inl refl

module _ {e : Env} where
  -- the entry that `ce_io_add` leaves for a descriptor
  pub record Added (io : Io e) (fd : ℤ) (io' : Io e) : Type 0 where
    pub entry : e.dict_find io'.io_dict fd ≡ some (parameter io.calls, io_fd io.calls)
    pub going : io'.stop ≡ false

  add_new-Added :
      (io : Io e) (fd : ℤ) {r : Bool} {io' : Io e}
      → e.dict_find io.io_dict fd ≡ none
      → io.stop ≡ false
      → add_new io fd ≡ ret (r, io')
      → (r ≡ true) × Added io fd io'
  unfolding add_new
  add_new-Added io fd {r} {io'} new going h =
      elim (ce_rb_new-cases (io.param.conf.per_cache_ringbuffer_size)) [
        | inl bad ↦ absurd (fault≢ret (simp bad at h))
        | inr (ring, ok) ↦
            let made = simp ok at h in
            (
              ground (arith, e.add-new io.io_dict fd (parameter io.calls) (io_fd io.calls) new),
              record {
                entry =
                    ap (λ t. e.dict_find t fd) (ground arith)
                    ∙ e.find-add_self io.io_dict fd (parameter io.calls) (io_fd io.calls) new;
                going = ground arith;
              },
            )
      ]

  enqueue-fault :
      (io : Io e) (n : ℕ) (src : List ℕ) (size : ℕ) → enqueue_to io (parameter n) src size ≡ fault
  unfolding enqueue_to deref
  enqueue-fault io n src size = refl

  push-fault :
      (io : Io e) (n : ℕ) (src : List ℕ) (size : ℕ) → push_to io (parameter n) src size ≡ fault
  unfolding push_to deref
  push-fault io n src size = refl

  pub ce_io_add-Added :
      (io : Io e) (fd : ℤ) {io' : Io e} → ce_io_add io fd ≡ ret (true, io') → Added io fd io'
  unfolding ce_io_add
  ce_io_add-Added io fd {io'} h = elim (Bool-cases io.stop) [
    | inl st ↦ let refused = simp st at h in absurd (ground arith)
    | inr going ↦ elim (Option-cases (e.dict_find io.io_dict fd)) [
      | inl new ↦ (add_new-Added io fd new going (simp (going, new) at h)).1
      | inr (entry, old) ↦ let refused = simp (going, old) at h in absurd (ground arith)
    ]
  ]

  -- what the entry does to the first bytes
  pub Added-enqueue :
      (io : Io e) (fd : ℤ) (io' : Io e)
      → Added io fd io'
      → is_nonpos fd ≡ false
      → (src : List ℕ) (size : ℕ) → (size == 0) ≡ false
      → ce_io_enqueue (some io') fd (some src) size ≡ fault
  unfolding ce_io_enqueue
  Added-enqueue io fd io' a positive src size any =
      simp (positive, any, a.going, a.entry, enqueue-fault io' io.calls src size)

  -- Once `ce_io_add` has accepted a positive descriptor, `ce_io_enqueue` and `ce_io_push` to it read
  -- memory that is no connection, for all data and every size but 0: a fault.
  pub added_fd_faults :
      (io : Io e) (fd : ℤ) {io' : Io e}
      → ce_io_add io fd ≡ ret (true, io')
      → is_nonpos fd ≡ false
      → (t : PushType) (src : List ℕ) (size : ℕ) → (size == 0) ≡ false
      → (ce_io_enqueue (some io') fd (some src) size ≡ fault)
        × (ce_io_push (some io') t fd (some src) size ≡ fault)
  unfolding ce_io_push
  added_fd_faults io fd {io'} h positive t src size any =
      let a = ce_io_add-Added io fd h in
      (
        Added-enqueue io fd io' a positive src size any,
        simp (positive, any, a.going, a.entry, push-fault io' io.calls src size),
      )
