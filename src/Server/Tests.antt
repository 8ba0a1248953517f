-- ===== src/Server/Tests.antt =====
-- A server at work on a network that answers, and the theorems on servers at it.
use cevent_sample.Prelude.{
  ◌≡◌, refl, true, false, none, some, List, [], ◌∷◌, pos, negsuc, ret, fault, After, ◌>>=◌,
}
use cevent_sample.Ringbuffer.{Rb, ce_rb_new}
use cevent_sample.Shared.{Conf, io_fd, parameter, accepted, closed, is_refused, has_bad_values}
use cevent_sample.Threadpool.{ce_tp_worker_register}
use cevent_sample.Io.{
  Io, update, ce_io_new, make_io, work, work_on, run_job, finish_jobs, _ce_io_delete_fd_processor,
  ce_io_add, add_new, log, run_job, ce_io_push, ce_io_destory, del_all, deref, del, del_entry,
  register,
}
use cevent_sample.Io.Dictionary.{env}
use cevent_sample.Io.Tests.{conf}
use cevent_sample.Server.{
  Net, Server, serve, start_loop, start_listening, ce_server_startup, _ae_accept_tcp_handler,
  _ae_read_from_client, _ae_heartbeat_time_proc, add_client, _ae_client_close, ce_server_stop,
}
use cevent_sample.Server.Inputs.{Input, connects, readable, timer_due, works, handle, handle_all}
use cevent_sample.Server.Stop.{stopping, stops_only_without_clients}
use cevent_sample.Server.Startup.{GivesBack, ce_server_startup-GivesBack, new_io, start_effects}
use cevent_sample.Threadpool.{load}

-- the listening socket is 3, the first client 5
abbrev net : Net
net = record {
  tcp_server = λ port. pos 3;
  keep_alive = λ fd delay. pos 0;
  event_loop = true;
  file_event = λ fd. pos 0;
  tcp_accept = λ fd. pos 5;
  send = λ fd xs n. pos n;
}

-- what an allocation may hold
abbrev memory : Conf
memory = record conf { heartbeat = pos 7; keepalive = pos 9 }

abbrev sixteen_bytes : Rb
sixteen_bytes = record {
  buffer = 0 ∷ 0 ∷ 0 ∷ 0 ∷ 0 ∷ 0 ∷ 0 ∷ 0 ∷ 0 ∷ 0 ∷ 0 ∷ 0 ∷ 0 ∷ 0 ∷ 0 ∷ 0 ∷ [];
  head = 0;
  tail = 0;
  wrap = false;
  capacity = 16;
  retval_buffer = [];
  retval_size = 0;
}

abbrev server : Server env
server = record { fd = pos 3; stop = false; conf = memory; io = new_io env net conf sixteen_bytes }

-- a network whose listening socket cannot be watched
abbrev unwatchable : Net
unwatchable = record net { file_event = λ fd. negsuc 0 }

ce_server_startup-GivesBack_example :
    After (GivesBack env 1) (ce_server_startup unwatchable memory (some conf) (some tt))
unfolding is_refused has_bad_values
ce_server_startup-GivesBack_example =
    ce_server_startup-GivesBack env unwatchable memory (some conf) (some tt)

abbrev added : Io env
added = record server.io {
  io_dict = (pos 5, parameter 0, io_fd 0) ∷ [];
  fds = update server.io.fds 0 (
      some (record {
        fd = pos 5;
        enqueue_buffer = sixteen_bytes;
        enqueue_cache_body_size = 0;
        push_buffer = sixteen_bytes;
      }));
  calls = 1;
}

server-added : ce_io_add server.io (pos 5) ≡ ret (true, added)
unfolding ce_io_add add_new ce_rb_new
server-added = refl

-- a client comes, a thread of the pool looks for work, the timer is due, the client goes
abbrev visit : List Input
visit = connects net ∷ works ∷ timer_due ∷ readable (pos 5) none ∷ []

stops_only_without_clients_example :
    After
      (λ s.
        ce_server_stop (some s)
        ≡ stopping s.fd (env.dict_entries s.io.io_dict) s.io.workers.worker_queue)
      (handle_all server visit)
unfolding ce_server_startup start_listening start_loop serve is_refused has_bad_values ce_io_new
    make_io ce_rb_new
stops_only_without_clients_example =
    stops_only_without_clients net memory conf {server = server}
      {es = start_effects env memory conf (pos 3)} refl visit

stop-connected : (handle_all server (connects net ∷ []) >>= λ s. ce_server_stop (some s)) ≡ fault
unfolding handle_all handle _ae_accept_tcp_handler add_client ce_io_add add_new ce_rb_new log
    ce_server_stop ce_io_destory del_all deref
stop-connected = refl

visit-returns :
    (handle_all server visit >>= λ s. ret s.io.events)
    ≡ ret (accepted (pos 5) ∷ closed (pos 5) ∷ [])
unfolding handle_all handle _ae_accept_tcp_handler add_client ce_io_add add_new ce_rb_new log work
    work_on _ae_heartbeat_time_proc ce_io_push _ae_read_from_client _ae_client_close del del_entry
    register ce_tp_worker_register
visit-returns = refl

-- the deletion of the client that has gone waits, and the stop has it run
visit-stop : (handle_all server visit >>= λ s. ce_server_stop (some s)) ≡ fault
unfolding handle_all handle _ae_accept_tcp_handler add_client ce_io_add add_new ce_rb_new log work
    work_on _ae_heartbeat_time_proc ce_io_push _ae_read_from_client _ae_client_close del del_entry
    register ce_tp_worker_register ce_server_stop ce_io_destory del_all finish_jobs load run_job
    _ce_io_delete_fd_processor deref
visit-stop = refl
