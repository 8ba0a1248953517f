-- ===== src/Io/Get.antt =====
-- `_ce_io_get` of src/cevent/cevent/ce_io.c, which the program does not call.
use cevent_sample.Prelude.{
  Bool, true, false, Option, none, some, ltb, if◌then◌else◌, Run, ret, ◌>>=◌,
}
use cevent_sample.Ringbuffer.{Rb, can_read, read}
use cevent_sample.Io.{ptr_size}

-- The address that is read goes to the parameter `one` itself; what `one` points to is not written.
unfoldable pub _ce_io_get : Option Rb → Option (Unit {0}) → Run (Bool × Option Rb)
_ce_io_get none one = ret (false, none)
_ce_io_get (some r) none = ret (false, some r)
_ce_io_get (some r) (some _) =
    if ltb (can_read r) ptr_size
    then ret (false, some r)
    else (read r ptr_size >>= λ (n, out, r'). ret (true, some r'))
