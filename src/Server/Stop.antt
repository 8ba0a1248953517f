-- ===== src/Server/Stop.antt =====
-- What `ce_server_stop` comes to, whatever happened to the server before.
use cevent_sample.Prelude.{
  ℕ, false, ◌≡◌, refl, some, List, [], ◌∷◌, ℤ, Run, ret, fault, After, After-map,
}
use cevent_sample.Shared.{Conf, Effect, unwatched, loop_deleted, sock_init, Ptr}
use cevent_sample.Io.{Env, Param}
use cevent_sample.Io.Same.{ce_io_new-IsKeyed}
use cevent_sample.Io.Destory.{ce_io_destory-empty, ce_io_destory-waiting, ce_io_destory-entry}
use cevent_sample.Io.Quiet.{ce_io_new-IsQuiet}
use cevent_sample.Server.{Net, Server, ce_server_startup, ce_server_stop, _ce_server_routine}
use cevent_sample.Server.Made.{started-IsMade}
use cevent_sample.Server.Inputs.{Input, handle_all}
use cevent_sample.Server.Pending.{IsIdle, handle_all-IsIdle}
use cevent_sample.Io.Pending.{ce_io_new-OnlyDeletes}

-- what a stop comes to, by the entries of the dictionary and the jobs that wait
abbrev pub stopping : ℤ → List (Ptr × Ptr) → List ℕ → Run (List Effect)
stopping fd [] [] = ret (unwatched fd ∷ loop_deleted ∷ sock_init false ∷ [])
stopping fd [] (w ∷ ws) = fault
stopping fd (entry ∷ entries) jobs = fault

module _ {e : Env} where
  stop_of :
      (server : Server e) (entries : List (Ptr × Ptr)) (jobs : List ℕ)
      → e.dict_entries server.io.io_dict ≡ entries
      → server.io.workers.worker_queue ≡ jobs
      → IsIdle server
      → ce_server_stop (some server) ≡ stopping server.fd entries jobs
  unfolding ce_server_stop _ce_server_routine
  stop_of server [] [] is waits v = rw (ce_io_destory-empty server.io is waits)
  stop_of server [] (w ∷ ws) is waits v = rw (ce_io_destory-waiting server.io w ws is waits v.pends)
  stop_of server (entry ∷ entries) jobs is waits v =
      rw (ce_io_destory-entry server.io entry entries is v.keyed)

  -- After whatever inputs a server that was started has taken without a fault, `ce_server_stop` ends,
  -- with its effects in their order, only if the dictionary is empty and no job waits. If a client has
  -- an entry, its key, the address of a parameter, is read as a connection: a fault. If a client has
  -- gone and its deletion waits, that is run on such an address: a fault as well.
  pub stops_only_without_clients :
      (net : Net) (memory conf : Conf) {server : Server e} {es : List Effect}
      → ce_server_startup net memory (some conf) (some tt) ≡ ret (some server, es)
      → (xs : List Input)
      → After
          (λ s.
            ce_server_stop (some s)
            ≡ stopping s.fd (e.dict_entries s.io.io_dict) s.io.workers.worker_queue)
          (handle_all server xs)
  stops_only_without_clients net memory conf {server} started xs =
      let param : Param = record { conf = conf; send = net.send } in
      let (made, own) = started-IsMade net memory conf started in
      After-map (handle_all server xs) (λ s v. stop_of s _ _ refl refl v)
        (handle_all-IsIdle xs server (record {
          quiet = (ce_io_new-IsQuiet param made).0;
          keyed = ce_io_new-IsKeyed param made;
          pends = ce_io_new-OnlyDeletes param made;
        }))
