-- ===== src/Server/Serve/Tests.antt =====
-- Examples of the server (crates/grpc-quic-server/src/server.rs): one connection is taken, has one
-- request, and is drained after the signal.
use grpc_quic_rs.Common.{inl, ◌+◌, ◌≤◌, [], ◌∷◌, All, some, ok, true, false, ◌≡◌, refl, arith}
use grpc_quic_rs.Metrics.{connection}
use grpc_quic_rs.Server.Serve.{
  Server, Conn, Reach, begin, later, incoming, signal, task, joined, here, built, accept, cancel,
  done, drained, resolved, serving, draining, ended, waiting, listening, stopped, start,
  stream_limit, total, IsEnded, on_done, on_signal, on_incoming, on_built, on_request, on_cancel,
  try_acquire,
}
use grpc_quic_rs.Server.Serve.Permits.{Reach-permits}
use grpc_quic_rs.Server.Serve.Shutdown.{stopped_is_clean}
use grpc_quic_rs.Server.Serve.Drain.{Steps, stay, then, work, drain_ends}
use grpc_quic_rs.Server.Serve.Service.{ServiceStep, up}
use grpc_quic_rs.Server.Serve.Service.Refinement.{view, server_refines, admits_realised}
use grpc_quic_rs.Server.Serve.Capacity.{one_connection_fills, limit_is_reached}

-- A server of 10 streams: 64 * 4 permits.
abbrev busy : Server
busy = record {
  permits = 255;
  conns = record { phase = serving; in_flight = 1 } ∷ [];
  mode = listening;
  cancelled = false;
  recorded = connection "server" ∷ [];
  rejecting = false;
  closed = false;
}

busy-Reach : Reach 10 busy
unfolding start on_incoming on_built on_request try_acquire
busy-Reach =
    later (later (later begin (incoming (some (ok tt)) refl)) (task tt (here [] (built true refl))))
      (task tt (here [] (accept resolved refl (omega arith))))

abbrev drained_conn : Conn
drained_conn = record { phase = draining; in_flight = 1 }

abbrev over : Server
over = record {
  permits = 256;
  conns = record { phase = ended; in_flight = 0 } ∷ [];
  mode = stopped;
  cancelled = true;
  recorded = connection "server" ∷ [];
  rejecting = true;
  closed = false;
}

over-Reach : Reach 10 over
unfolding on_signal on_cancel on_done
over-Reach =
    later
      (later
        (later (later (later busy-Reach (signal refl)) (task tt (here [] (cancel refl refl))))
          (task tt (here [] (done (omega arith)))))
        (task tt (here [] (drained refl refl))))
      (joined refl (refl, tt))

Reach-permits_example : busy.permits + total busy.conns ≡ 256
Reach-permits_example = Reach-permits busy-Reach

stopped_is_clean_example : All IsEnded over.conns × (total over.conns ≡ 0) × (over.permits ≡ 256)
stopped_is_clean_example = stopped_is_clean over-Reach refl

abbrev called_off : Server
called_off = record busy { mode = waiting; cancelled = true; rejecting = true }

one_connection_fills_example :
    (s : Server) × Reach 10 s
    × (s.conns ≡ record { phase = serving; in_flight = 100 } ∷ [])
    × (s.permits + 100 ≡ stream_limit 10)
one_connection_fills_example = one_connection_fills 10 100 (omega arith)

limit_is_reached_example : (s : Server) × Reach 10 s × (total s.conns ≡ 256) × (s.permits ≡ 0)
limit_is_reached_example = limit_is_reached 10

-- The same, with its connection drained.
abbrev settling : Server
settling = record called_off { conns = drained_conn ∷ [] }

ending-Steps : Steps settling 3 over
unfolding on_done
ending-Steps =
    then
      (then (then stay (task tt (here [] (done (omega arith)))))
        (task tt (here [] (drained refl refl))))
      (joined refl (refl, tt))

drain_ends_example : 3 ≤ work settling.conns + 1
drain_ends_example = drain_ends ending-Steps refl (inl refl, tt)

server_refines_example : ServiceStep 256 (view busy) (view called_off)
unfolding on_signal
server_refines_example = server_refines busy-Reach (signal refl)

admits_realised_example :
    (t : Server) × Steps busy 3 t × (view t ≡ record { status = up; running = 2 })
admits_realised_example = admits_realised busy busy-Reach refl (omega arith)
