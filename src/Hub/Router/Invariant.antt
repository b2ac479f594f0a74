-- ===== src/Hub/Router/Invariant.antt =====
-- No command lists a session twice.
use hi_im_core.Prelude.{List, [], arith, lookup, none, refl, subst, sym, ℕ, ◌∷◌, ◌≡◌}
use hi_im_core.Hub.Router.{
  Router, Subscriber, empty, find_subscribers, put, subscribe, unsubscribe, without,
}
use hi_im_core.Hub.Router.Refine.{run, subscriptions-bind_nid, subscriptions-unbind_nid}
use hi_im_core.Hub.Router.View.{
  Op, binds, call, find_subscribers-remove_session, find_subscribers-subscribe,
  find_subscribers-unsubscribe, of_session, of_session-put, of_session-without, removes_session,
  subscribes, unbinds, unsubscribes,
}

-- The sessions of the entries differ.
abbrev pub Distinct : List Subscriber → Type 0
Distinct [] = Unit {0}
Distinct (s ∷ vec) = (of_session s.sid vec ≡ none) × Distinct vec

abbrev pub IsValid : Router → Type 0
IsValid r = (cmd : ℕ) → Distinct (find_subscribers cmd r)

pub put-Distinct :
    (sub : Subscriber) (vec : List Subscriber) → Distinct vec → Distinct (put sub vec)
unfolding put
put-Distinct sub [] d = (refl, tt)
put-Distinct sub (x ∷ vec) d =
    ground (arith, put-Distinct sub vec d.1, of_session-put x.sid sub vec)

pub without-Distinct : (sid : ℕ) (vec : List Subscriber) → Distinct vec → Distinct (without sid vec)
without-Distinct sid [] d = tt
without-Distinct sid (x ∷ vec) d =
    ground (arith, without-Distinct sid vec d.1, of_session-without x.sid sid vec)

subscribe-IsValid :
    (cmd : ℕ) (sub : Subscriber) (r : Router) → IsValid r → IsValid (subscribe cmd sub r).1
subscribe-IsValid cmd sub r v c = ground (
  arith,
  find_subscribers-subscribe cmd sub r c,
  put-Distinct sub (find_subscribers cmd r) (v cmd),
  v c,
)

unsubscribe-IsValid : (cmd sid : ℕ) (r : Router) → IsValid r → IsValid (unsubscribe cmd sid r).1
unsubscribe-IsValid cmd sid r v c = ground (
  arith,
  find_subscribers-unsubscribe cmd sid r c,
  without-Distinct sid (find_subscribers cmd r) (v cmd),
  v c,
)

-- Every call keeps the sessions of each command distinct.
pub call-IsValid : (op : Op) (r : Router) → IsValid r → IsValid (call op r).1
call-IsValid (subscribes cmd sub) r v = subscribe-IsValid cmd sub r v
call-IsValid (unsubscribes cmd sid) r v = unsubscribe-IsValid cmd sid r v
call-IsValid (removes_session sid nid) r v = λ c.
    subst Distinct (sym (find_subscribers-remove_session sid nid r c))
      (without-Distinct sid (find_subscribers c r) (v c))
call-IsValid (unbinds nid sid) r v =
    λ c. subst Distinct (sym (subscriptions-unbind_nid nid sid r c)) (v c)
call-IsValid (binds nid sid idx) r v =
    λ c. subst Distinct (sym (subscriptions-bind_nid nid sid idx r c)) (v c)

run-IsValid : (ops : List Op) (r : Router) → IsValid r → IsValid (run ops r).1
run-IsValid [] r v = v
run-IsValid (op ∷ ops) r v = run-IsValid ops (call op r).1 (call-IsValid op r v)

-- So after any history of calls on a fresh router, a command lists each session at most once.
pub run-empty-Distinct :
    (ops : List Op) (cmd : ℕ) → Distinct (find_subscribers cmd (run ops empty).1)
run-empty-Distinct ops = run-IsValid ops empty (unfold find_subscribers lookup in λ c. tt)
