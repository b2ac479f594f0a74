-- ===== src/Hub/Router/Tests.antt =====
-- A short history of a router.
use hi_im_core.Hub.Router
use hi_im_core.Prelude.{List, [], some, ◌∷◌, ◌≡◌}
use hi_im_core.Hub.Router.{Router, Subscriber}
use hi_im_core.Hub.Router.Invariant.{Distinct, run-empty-Distinct}
use hi_im_core.Hub.Router.Refine.{run, run_promise, run_router_refines}
use hi_im_core.Hub.Router.View.{Op, binds, removes_session, subscribes, view}

abbrev sub : Subscriber
sub = record { gid = 1; sid = 4; nid = 20001; reactor_idx = some 0 }

abbrev history : List Op
history = subscribes 769 sub ∷ binds 20001 4 (some 0) ∷ removes_session 4 20001 ∷ []

run_router_refines_example :
    ((run history Router.empty).0, view (run history Router.empty).1)
    ≡ run_promise history (view Router.empty)
run_router_refines_example = run_router_refines history Router.empty

-- The session subscribes twice, and another one once.
abbrev repeated : List Op
repeated =
    subscribes 769 sub
    ∷ subscribes 769 sub
    ∷ subscribes 769 (record { gid = 1; sid = 5; nid = 20002; reactor_idx = some 0 })
    ∷ []

run-empty-Distinct_example : Distinct (Router.find_subscribers 769 (run repeated Router.empty).1)
run-empty-Distinct_example = run-empty-Distinct repeated 769
