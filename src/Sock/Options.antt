-- ===== src/Sock/Options.antt =====
-- What the helpers do to the descriptor that they are given.
use cevent_sample.Prelude.{ℕ, ◌≡◌, ◌≢◌, arith, Bool, false, if◌then◌else◌, ℤ}
use cevent_sample.Sock.{
  Os, Build, to_bool, of_bool, so_keepalive, ce_sock_setblock, ce_sock_keepalive,
}

module _ (os : Os) where
  -- A descriptor that is passed to `ce_sock_setblock` is made 0 or 1 on the way; any other keeps its
  -- flags.
  pub ce_sock_setblock-misses :
      (s : os.State) (fd : ℤ) (lock : Bool)
      → of_bool (to_bool fd) ≢ fd
      → os.get_flags (ce_sock_setblock os s (to_bool fd) lock).1 fd ≡ os.get_flags s fd
  unfolding ce_sock_setblock
  ce_sock_setblock-misses s fd lock other = os.other_flags s (of_bool (to_bool fd)) fd _ other

  -- `ce_sock_keepalive` fails for every descriptor, delay and build, switching on or off, and changes
  -- nothing: it passes a `bool` of one byte where the system wants an `int`.
  pub ce_sock_keepalive-fails :
      (build : Build) (s : os.State) (fd : ℤ) (on : Bool) (delay : ℕ)
      → ce_sock_keepalive os build s fd on delay ≡ (false, s)
  unfolding ce_sock_keepalive
  ce_sock_keepalive-fails build s fd on delay =
      simp (os.short_option s fd so_keepalive (if on then 1 else 0) 1 (omega arith))
