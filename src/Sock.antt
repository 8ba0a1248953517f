-- ===== src/Sock.antt =====
-- The socket helpers of src/cevent/cevent/ce_sock.c, as built for a system that is not Windows. The
-- system's calls are the parameter `Os`, with what its manual pages say of them.
pub mod Options
mod Tests
use cevent_sample.Prelude.{
  ℕ, ◌≡◌, ◌≢◌, ◌<◌, List, [], ◌∷◌, ◌++◌, Bool, true, false, Option, none, some, ◌==◌, if◌then◌else◌,
  ℤ, pos, negsuc, take,
}

-- what `fcntl` shows of a descriptor: O_NONBLOCK, and the other flags
pub record Flags : Type 0 where
  pub nonblock : Bool
  pub others : ℕ

pub data SockOption : Type 0 where
  so_keepalive tcp_keepidle tcp_keepalive : SockOption

-- `get_flags` answers `none` for -1; `set_flags` says whether it did not answer -1. `setsockopt` is given
-- the value and its size in bytes, and says whether it answered 0. An option that is an `int` is refused
-- when the size is less than that of an `int`.
pub record Os : Type 1 where
  pub State : Type 0
  pub get_flags : State → ℤ → Option Flags
  pub set_flags : State → ℤ → Flags → Bool × State
  pub setsockopt : State → ℤ → SockOption → ℕ → ℕ → Bool × State
  pub close : State → ℤ → ℤ × State
  pub getpeername : State → ℤ → Option (List ℕ × ℕ)
  pub other_flags :
      (s : State) (fd fd' : ℤ) (f : Flags)
      → fd ≢ fd'
      → get_flags (set_flags s fd f).1 fd' ≡ get_flags s fd'
  pub bad_flags :
      (s : State) (fd : ℤ) (f : Flags) → get_flags s fd ≡ none → set_flags s fd f ≡ (false, s)
  pub short_option :
      (s : State) (fd : ℤ) (o : SockOption) (value size : ℕ)
      → size < 4
      → setsockopt s fd o value size ≡ (false, s)

-- which of the options the system's headers name
pub record Build : Type 0 where
  pub has_keepidle : Bool
  pub has_keepalive : Bool

unfoldable pub ce_sock_init : Bool → Bool
ce_sock_init init = true

-- `int` to `bool`, and `bool` to `int`
abbrev pub to_bool : ℤ → Bool
to_bool (pos n) = if n == 0 then false else true
to_bool (negsuc n) = true

abbrev pub of_bool : Bool → ℤ
of_bool true = pos 1
of_bool false = pos 0

abbrev pub is_zero : ℤ → Bool
is_zero (pos n) = n == 0
is_zero (negsuc n) = false

module _ (os : Os) where
  -- of -1, which `fcntl` answers for a bad descriptor, all flags are set
  unfoldable pub flags_or_all : Option Flags → Flags
  flags_or_all none = record { nonblock = true; others = 0xffffffff }
  flags_or_all (some f) = f

  -- The descriptor is declared a `bool`.
  unfoldable pub ce_sock_setblock : os.State → Bool → Bool → Bool × os.State
  ce_sock_setblock s fd lock =
      os.set_flags s (of_bool fd) (record (flags_or_all (os.get_flags s (of_bool fd))) {
        nonblock = if lock then false else true;
      })

  unfoldable pub ce_sock_close : os.State → ℤ → Bool × os.State
  ce_sock_close s fd = let (r, s') = os.close s fd in (is_zero r, s')

  -- one option of `ce_sock_keepalive`: the call goes on if it is not to be set, or was set
  unfoldable pub set_option : Bool → os.State → ℤ → SockOption → ℕ → ℕ → Bool × os.State
  set_option wanted s fd o value size =
      if wanted then os.setsockopt s fd o value size else (true, s)

  unfoldable pub keepalive_last : Build → os.State → ℤ → Bool → ℕ → Bool × os.State
  keepalive_last build s fd on delay =
      if build.has_keepalive then set_option on s fd tcp_keepalive delay 4 else (true, s)

  unfoldable pub keepalive_idle : Build → os.State → ℤ → Bool → ℕ → Bool × os.State
  keepalive_idle build s fd on delay =
      if build.has_keepidle
      then (let (r, s') = set_option on s fd tcp_keepidle delay 4 in
          if r then keepalive_last build s' fd on delay else (false, s'))
      else keepalive_last build s fd on delay

  -- `on` is a `bool`, of one byte.
  unfoldable pub ce_sock_keepalive : Build → os.State → ℤ → Bool → ℕ → Bool × os.State
  ce_sock_keepalive build s fd on delay =
      let (r, s') = os.setsockopt s fd so_keepalive (if on then 1 else 0) 1 in
      if r then keepalive_idle build s' fd on delay else (false, s')

  -- the result, the text in `ip` before its NUL, and `*port`
  unfoldable pub peer : Option (List ℕ × ℕ) → Bool × List ℕ × ℕ
  peer none = (false, [], 0)
  peer (some (text, port)) = (true, take 16 text, port)

  unfoldable pub ce_sock_ip : os.State → ℤ → Bool × List ℕ × ℕ
  ce_sock_ip s fd = peer (os.getpeername s fd)
