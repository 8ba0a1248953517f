-- ===== src/Io.antt =====
-- The connection layer of src/cevent/cevent/ce_io.c, one call at a time.
-- The dictionary of connections is a copy of another project's library, so its operations and the
-- bytes of an address are the parameter `Env`. A `ce_io_fd_t` lives on a heap, and a pointer to
-- anything else that is read as one is a fault. The locks are left out: calls do not overlap here.
pub mod State
pub mod Calls
pub mod Processors
pub mod Same
pub mod Quiet
pub mod Fresh
pub mod Get
pub mod Framing
pub mod Lost
pub mod Packets
pub mod Sends
pub mod Pending
pub mod Destory
pub mod Dictionary
pub mod Tests
mod SendTests
pub use cevent_sample.Io.State.{
  Env, Param, IoFd, Io, ptr_size, len_size, send_per_size, len_bytes, len_of, out_bytes, pointer_at,
  update, is_all, found, pool_or, new_pool, io_or,
}
unfoldable pub use cevent_sample.Io.State.{deref, store, log, register}
unfoldable pub use cevent_sample.Io.Calls.{
  ce_io_new, ce_io_param, add_new, ce_io_add, announce, enqueue_to, ce_io_enqueue, push_data,
  push_to, ce_io_push, del_entry, ce_io_del, del, del_all, make_io,
}
unfoldable pub use cevent_sample.Io.Processors.{
  packet, packets, enqueue_one, _ce_io_enqueue_buffer_processor, send_chunk, sends, push_one,
  _ce_io_push_buffer_processor, free_fd, _ce_io_delete_fd_processor, run_job, work_on, work,
  finish_jobs, ce_io_destory,
}
