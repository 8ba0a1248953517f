-- ===== src/Sock/Tests.antt =====
-- A table of descriptors that meets the assumptions on the system, and runs on it.
use cevent_sample.Prelude.{
  ℕ, ◌≡◌, ◌≢◌, ◌<◌, refl, arith, ltb, ltb_of_lt, Bool, true, false, Option, none, some, ◌==◌,
  if◌then◌else◌, ℤ, pos, negsuc, Bool-cases, inl, inr,
}
use cevent_sample.Sock.{Os, Flags, to_bool, flags_or_all, ce_sock_setblock}

abbrev Table : Type 0
Table = ℤ → Option Flags

abbrev eq_fd : ℤ → ℤ → Bool
eq_fd (pos a) (pos b) = a == b
eq_fd (pos a) (negsuc b) = false
eq_fd (negsuc a) (pos b) = false
eq_fd (negsuc a) (negsuc b) = a == b

eq_fd_sound : (a b : ℤ) → eq_fd a b ≡ true → a ≡ b
eq_fd_sound (pos a) (pos b) h = ground arith
eq_fd_sound (pos a) (negsuc b) h = absurd cc
eq_fd_sound (negsuc a) (pos b) h = absurd cc
eq_fd_sound (negsuc a) (negsuc b) h = ground arith

abbrev write : Option Flags → Table → ℤ → Flags → Bool × Table
write none t fd f = (false, t)
write (some _) t fd f = (true, λ x. if eq_fd fd x then some f else t x)

write-other :
    (o : Option Flags) (t : Table) (fd x : ℤ) (f : Flags) → fd ≢ x → (write o t fd f).1 x ≡ t x
write-other none t fd x f ne = refl
write-other (some _) t fd x f ne = elim (Bool-cases (eq_fd fd x)) [
  | inl at ↦ absurd (ne (eq_fd_sound fd x at))
  | inr off ↦ rw off
]

write-bad : (t : Table) (fd : ℤ) (f : Flags) → t fd ≡ none → write (t fd) t fd f ≡ (false, t)
write-bad t fd f bad = rw bad

set_option :
    (t : Table) (size : ℕ)
    → size < 4
    → ◌≡◌ {A = Bool × Table} (if ltb size 4 then false else true, t) (false, t)
set_option t size h = rw (ltb_of_lt size 4 h)

abbrev os : Os
os = record {
  State = Table;
  get_flags = λ t fd. t fd;
  set_flags = λ t fd f. write (t fd) t fd f;
  setsockopt = λ t fd o value size. (if ltb size 4 then false else true, t);
  close = λ t fd. (pos 0, t);
  getpeername = λ t fd. none;
  other_flags = λ t fd x f ne. write-other (t fd) t fd x f ne;
  bad_flags = write-bad;
  short_option = λ t fd o value size h. set_option t size h;
}

abbrev blocking : Flags
blocking = record { nonblock = false; others = 2 }

-- descriptor 5 is asked for, and descriptor 1 changed
five_is_kept :
    os.get_flags (ce_sock_setblock os (λ fd. some blocking) (to_bool (pos 5)) false).1 (pos 5)
    ≡ some blocking
unfolding ce_sock_setblock flags_or_all
five_is_kept = refl

one_is_changed :
    os.get_flags (ce_sock_setblock os (λ fd. some blocking) (to_bool (pos 5)) false).1 (pos 1)
    ≡ some (record blocking { nonblock = true })
unfolding ce_sock_setblock flags_or_all
one_is_changed = refl
