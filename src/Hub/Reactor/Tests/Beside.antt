-- ===== src/Hub/Reactor/Tests/Beside.antt =====
-- A reactor beside a worker of the backend plane, at concrete values.
use hi_im_core.Im
use hi_im_core.Hub.Queue.Mpsc
use hi_im_core.Prelude.{List, [], false, refl, some, true, ◌∷◌}
use hi_im_core.Hub.Bridge.{Hub, context}
use hi_im_core.Hub.Context.{backend_downlink}
use hi_im_core.Hub.Context.Publish.{alone}
use hi_im_core.Hub.Interleaving.{IsHub, and_then, handles, none_yet, run-HasClosed_beside}
use hi_im_core.Hub.Messages.{InboundMessage, backend, forward}
use hi_im_core.Hub.Reactor.{Reactor}
use hi_im_core.Hub.Reactor.Laws.Sound.{Reaches}
use hi_im_core.Hub.Reactor.Loop.{Meanwhile, Round, run}
use hi_im_core.Hub.Reactor.Running.Ending.{HasClosed, RunReason}
use hi_im_core.Hub.Reactor.Tests.{ctx, kernel, new_reactor, new_reactor-Serves, quiet_workers}
use hi_im_core.Hub.Worker.{dispatch, with_recv_queue}
use hi_im_core.Wire.Bytes.{little}

abbrev downlink : InboundMessage
downlink = record {
  sid = 6;
  reactor_idx = some 0;
  gid = 1;
  nid = 30001;
  type = 769;
  flag = 1;
  payload = Im.pack_payload little 769 5 20001 9 (104 ∷ []);
}

-- The hub whose forward plane is that of the reactor.
abbrev hub_of : Reactor → Hub
hub_of r = record {
  forward_ctx = r.ctx;
  backend_ctx = record ctx { peer = some forward; handlers = (0, backend_downlink) ∷ [] };
}

-- Its backend worker sends a message on.
abbrev after_downlink : Meanwhile
after_downlink r =
    context forward
      (dispatch little alone backend downlink (with_recv_queue backend 0 (Mpsc.make 1) (hub_of r)))

downlink-IsHub : IsHub 3 after_downlink
downlink-IsHub r serves =
    and_then none_yet
      (handles little alone forward backend 0 (Mpsc.make 1) downlink (hub_of r) refl refl)

-- The wakeup, then bytes on the new connection.
abbrev busy_rounds : List Round
busy_rounds =
    record {
      events =
          record {
            meanwhile = after_downlink;
            fd = 8;
            readable = true;
            chunks = [];
            more_later = true;
            writable = false;
          }
          ∷ record {
            meanwhile = after_downlink;
            fd = 9;
            readable = true;
            chunks = (1 ∷ 2 ∷ []) ∷ [];
            more_later = true;
            writable = true;
          }
          ∷ [];
      before_sends = after_downlink;
    }
    ∷ []

run-HasClosed_beside_example :
    Reaches
      (RunReason little kernel quiet_workers 3 busy_rounds new_reactor)
      HasClosed
      (run little kernel quiet_workers 3 busy_rounds new_reactor)
run-HasClosed_beside_example =
    run-HasClosed_beside little kernel quiet_workers 3 busy_rounds new_reactor
      ((downlink-IsHub, (downlink-IsHub, tt)), downlink-IsHub, tt) new_reactor-Serves
