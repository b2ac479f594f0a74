-- ===== src/Hub/Router/Refine.antt =====
-- The router keeps its contract: every call answers and changes the view as promised.
use hi_im_core.Prelude.{
  List, Option, [], ap, ap₂, arith, if◌then◌else◌, lookup-erase, lookup-insert, none, refl, some, ℕ,
  ◌&&◌, ◌==◌, ◌∙◌, ◌∷◌, ◌≡◌,
}
use hi_im_core.Hub.Router.{
  Router, Subscriber, bind_nid, find_nid_route, find_subscribers, is_route_of, remove_session,
  subscribe, unbind_nid, unsubscribe,
}
use hi_im_core.Hub.Router.View.{
  Op, View, binds, call, find_subscribers-remove_session, find_subscribers-unsubscribe, of_session,
  of_session-without, promise, removes_session, status-unsubscribe, subscribes,
  subscription-subscribe, unbinds, unsubscribes, view,
}
use hi_im_core.Hub.Status.{Status, ok}

pub route-unbind_nid :
    (nid sid : ℕ) (r : Router) (n : ℕ)
    → find_nid_route n (unbind_nid nid sid r)
      ≡ (if n == nid && is_route_of sid (find_nid_route nid r) then none else find_nid_route n r)
unfolding find_nid_route unbind_nid
route-unbind_nid nid sid r n = ground (arith, lookup-erase nid n r.nid_map)

pub route-remove_session :
    (sid nid : ℕ) (r : Router) (n : ℕ)
    → find_nid_route n (remove_session sid nid r)
      ≡ (if n == nid && is_route_of sid (find_nid_route nid r) then none else find_nid_route n r)
unfolding find_nid_route remove_session
route-remove_session sid nid r n = ground (arith, lookup-erase nid n r.nid_map)

pub route-bind_nid :
    (nid sid : ℕ) (idx : Option ℕ) (r : Router) (n : ℕ)
    → find_nid_route n (bind_nid nid sid idx r)
      ≡ (if n == nid then some (record { sid = sid; reactor_idx = idx }) else find_nid_route n r)
unfolding find_nid_route bind_nid
route-bind_nid nid sid idx r n =
    ground (arith, lookup-insert nid n (record { sid = sid; reactor_idx = idx }) r.nid_map)

pub route-subscribe :
    (cmd : ℕ) (sub : Subscriber) (r : Router) (n : ℕ)
    → find_nid_route n (subscribe cmd sub r).1 ≡ find_nid_route n r
unfolding find_nid_route subscribe
route-subscribe cmd sub r n = refl

pub route-unsubscribe :
    (cmd sid : ℕ) (r : Router) (n : ℕ)
    → find_nid_route n (unsubscribe cmd sid r).1 ≡ find_nid_route n r
unfolding find_nid_route unsubscribe
route-unsubscribe cmd sid r n = ground arith

pub subscriptions-bind_nid :
    (nid sid : ℕ) (idx : Option ℕ) (r : Router) (c : ℕ)
    → find_subscribers c (bind_nid nid sid idx r) ≡ find_subscribers c r
unfolding find_subscribers bind_nid
subscriptions-bind_nid nid sid idx r c = refl

pub subscriptions-unbind_nid :
    (nid sid : ℕ) (r : Router) (c : ℕ)
    → find_subscribers c (unbind_nid nid sid r) ≡ find_subscribers c r
unfolding find_subscribers unbind_nid
subscriptions-unbind_nid nid sid r c = ground arith

status-subscribe : (cmd : ℕ) (sub : Subscriber) (r : Router) → (subscribe cmd sub r).0 ≡ ok
unfolding subscribe
status-subscribe cmd sub r = refl

-- Two views with the same entries are equal.
View-ext :
    (v w : View)
    → ((c s : ℕ) → v.subscription c s ≡ w.subscription c s)
    → ((n : ℕ) → v.route n ≡ w.route n)
    → v ≡ w
View-ext v w p q = λ i. record { subscription = λ c s. p c s i; route = λ n. q n i }

-- Each call of the router returns the promised status and changes the view as promised.
pub call_refines :
    (op : Op) (r : Router) → ((call op r).0, view (call op r).1) ≡ promise op (view r)
call_refines (subscribes cmd sub) r =
    ap₂ (λ a b. (a, b)) (status-subscribe cmd sub r)
      (View-ext _ _ (subscription-subscribe cmd sub r) (route-subscribe cmd sub r))
call_refines (unsubscribes cmd sid) r =
    ap₂ (λ a b. (a, b)) (status-unsubscribe cmd sid r)
      (View-ext _ _
        (λ c s. ground (
          arith,
          find_subscribers-unsubscribe cmd sid r c,
          of_session-without s sid (find_subscribers cmd r),
        ))
        (route-unsubscribe cmd sid r))
call_refines (removes_session sid nid) r =
    ap₂ (λ a b. (a, b)) refl
      (View-ext _ _
        (λ c s. ground (
          arith,
          find_subscribers-remove_session sid nid r c,
          of_session-without s sid (find_subscribers c r),
        ))
        (route-remove_session sid nid r))
call_refines (unbinds nid sid) r =
    ap₂ (λ a b. (a, b)) refl
      (View-ext _ _ (λ c s. ap (of_session s) (subscriptions-unbind_nid nid sid r c))
        (route-unbind_nid nid sid r))
call_refines (binds nid sid idx) r =
    ap₂ (λ a b. (a, b)) refl
      (View-ext _ _ (λ c s. ap (of_session s) (subscriptions-bind_nid nid sid idx r c))
        (route-bind_nid nid sid idx r))

-- A history of calls: the statuses in order, and the state at the end.
abbrev pub run : List Op → Router → List Status × Router
run [] r = ([], r)
run (op ∷ ops) r = let (st, r') = call op r in let (sts, last) = run ops r' in (st ∷ sts, last)

abbrev pub run_promise : List Op → View → List Status × View
run_promise [] v = ([], v)
run_promise (op ∷ ops) v =
    let (st, v') = promise op v in let (sts, last) = run_promise ops v' in (st ∷ sts, last)

-- No history of calls tells the router from the two maps: it returns the promised statuses, and
-- its view at the end is the promised one.
pub run_router_refines :
    (ops : List Op) (r : Router) → ((run ops r).0, view (run ops r).1) ≡ run_promise ops (view r)
run_router_refines [] r = refl
run_router_refines (op ∷ ops) r =
    ap (λ (p : List Status × View). ((call op r).0 ∷ p.0, p.1))
      (run_router_refines ops (call op r).1)
    ∙ ap (λ (p : Status × View). (p.0 ∷ (run_promise ops p.1).0, (run_promise ops p.1).1))
        (call_refines op r)
