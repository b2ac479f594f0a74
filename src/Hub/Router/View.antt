-- ===== src/Hub/Router/View.antt =====
-- The router's contract: two finite maps, from a command and a session to its subscription, and
-- from a node to its route. Tables, vectors and their orders are forgotten.
use hi_im_core.Prelude.{
  List, Option, Option-cases, [], ap, arith, find_first, if◌then◌else◌, inl, inr, is_empty, length,
  lookup, lookup-erase, lookup-insert, lookup-map_values, none, refl, some, true, ℕ, ◌&&◌, ◌==◌,
  ◌↔◌, ◌∙◌, ◌∷◌, ◌≡◌, ◌≤◌,
}
use hi_im_core.Hub.Router.{
  NidRoute, Router, Subscriber, bind_nid, entry, find_nid_route, find_subscribers, is_route_of, put,
  remove_session, subscribe, unbind_nid, unsubscribe, unsubscribe_at, without,
}
use hi_im_core.Hub.Status.{Status, not_found, ok}

pub record View : Type 0 where
  pub subscription : ℕ → ℕ → Option Subscriber
  pub route : ℕ → Option NidRoute

-- The entry of a session in a vector.
abbrev pub of_session : ℕ → List Subscriber → Option Subscriber
of_session sid = find_first (λ s. s.sid == sid)

abbrev pub view : Router → View
view r = record {
  subscription = λ cmd sid. of_session sid (find_subscribers cmd r);
  route = λ nid. find_nid_route nid r;
}

pub data Op : Type 0 where
  subscribes : ℕ → Subscriber → Op
  unsubscribes removes_session unbinds : ℕ → ℕ → Op
  binds : ℕ → ℕ → Option ℕ → Op

-- The update of the maps that a call promises, and its status.
abbrev pub promise : Op → View → Status × View
promise (subscribes cmd sub) v = (
  ok,
  record v {
    subscription = λ c s. if c == cmd && s == sub.sid then some sub else v.subscription c s;
  },
)
promise (unsubscribes cmd sid) v = (
  elim (v.subscription cmd sid) [ none ↦ not_found | some _ ↦ ok ],
  record v { subscription = λ c s. if c == cmd && s == sid then none else v.subscription c s },
)
promise (removes_session sid nid) v = (
  ok,
  record {
    subscription = λ c s. if s == sid then none else v.subscription c s;
    route = λ n. if n == nid && is_route_of sid (v.route nid) then none else v.route n;
  },
)
promise (unbinds nid sid) v = (
  ok,
  record v { route = λ n. if n == nid && is_route_of sid (v.route nid) then none else v.route n },
)
promise (binds nid sid idx) v = (
  ok,
  record v {
    route = λ n. if n == nid then some (record { sid = sid; reactor_idx = idx }) else v.route n;
  },
)

-- The call of the code. What returns nothing succeeds.
abbrev pub call : Op → Router → Status × Router
call (subscribes cmd sub) r = subscribe cmd sub r
call (unsubscribes cmd sid) r = unsubscribe cmd sid r
call (removes_session sid nid) r = (ok, remove_session sid nid r)
call (unbinds nid sid) r = (ok, unbind_nid nid sid r)
call (binds nid sid idx) r = (ok, bind_nid nid sid idx r)

pub of_session-put :
    (s : ℕ) (sub : Subscriber) (vec : List Subscriber)
    → of_session s (put sub vec) ≡ (if s == sub.sid then some sub else of_session s vec)
unfolding put
of_session-put s sub [] = ground arith
of_session-put s sub (x ∷ vec) = ground (arith, of_session-put s sub vec)

pub of_session-without :
    (s sid : ℕ) (vec : List Subscriber)
    → of_session s (without sid vec) ≡ (if s == sid then none else of_session s vec)
of_session-without s sid [] = ground arith
of_session-without s sid (x ∷ vec) = ground (arith, of_session-without s sid vec)

pub find_subscribers-subscribe :
    (cmd : ℕ) (sub : Subscriber) (r : Router) (c : ℕ)
    → find_subscribers c (subscribe cmd sub r).1
      ≡ (if c == cmd then put sub (find_subscribers cmd r) else find_subscribers c r)
unfolding find_subscribers subscribe
find_subscribers-subscribe cmd sub r c =
    ground (arith, lookup-insert cmd c (put sub (entry cmd r)) r.sub_table)

pub subscription-subscribe :
    (cmd : ℕ) (sub : Subscriber) (r : Router) (c s : ℕ)
    → of_session s (find_subscribers c (subscribe cmd sub r).1)
      ≡ (if c == cmd && s == sub.sid then some sub else of_session s (find_subscribers c r))
subscription-subscribe cmd sub r c s =
    ground
      (arith, find_subscribers-subscribe cmd sub r c, of_session-put s sub (find_subscribers cmd r))

pub find_subscribers-remove_session :
    (sid nid : ℕ) (r : Router) (c : ℕ)
    → find_subscribers c (remove_session sid nid r) ≡ without sid (find_subscribers c r)
unfolding find_subscribers remove_session
find_subscribers-remove_session sid nid r c =
    ground (arith, lookup-map_values (without sid) c r.sub_table)

length-without-le : (sid : ℕ) (vec : List Subscriber) → length (without sid vec) ≤ length vec
length-without-le sid [] = omega arith
length-without-le sid (x ∷ vec) = ground (arith, length-without-le sid vec)

-- remove_if moves nothing exactly when the session has no entry.
without_unchanged :
    (sid : ℕ) (vec : List Subscriber)
    → (length (without sid vec) ≡ length vec) ↔ (of_session sid vec ≡ none)
without_unchanged sid [] = (λ _. refl, λ _. refl)
without_unchanged sid (x ∷ vec) = (
  λ h. ground (arith, length-without-le sid vec, (without_unchanged sid vec).0),
  λ h. ground (arith, (without_unchanged sid vec).1),
)

without_same :
    (sid : ℕ) (vec : List Subscriber)
    → length (without sid vec) ≡ length vec
    → without sid vec ≡ vec
without_same sid [] h = refl
without_same sid (x ∷ vec) h = ground (arith, length-without-le sid vec, without_same sid vec)

is_empty-nil : (vec : List Subscriber) → is_empty vec ≡ true → vec ≡ []
is_empty-nil [] h = refl
is_empty-nil (x ∷ vec) h = cc

pub find_subscribers-unsubscribe_at :
    (cmd sid : ℕ) (vec : List Subscriber) (r : Router) (c : ℕ)
    → lookup cmd r.sub_table ≡ some vec
    → find_subscribers c (unsubscribe_at cmd sid vec r).1
      ≡ (if c == cmd then without sid vec else find_subscribers c r)
unfolding find_subscribers unsubscribe_at
find_subscribers-unsubscribe_at cmd sid vec r c h = ground (
  arith,
  lookup-erase cmd c r.sub_table,
  lookup-insert cmd c (without sid vec) r.sub_table,
  without_same sid vec,
  is_empty-nil (without sid vec),
)

pub find_subscribers-unsubscribe :
    (cmd sid : ℕ) (r : Router) (c : ℕ)
    → find_subscribers c (unsubscribe cmd sid r).1
      ≡ (if c == cmd then without sid (find_subscribers cmd r) else find_subscribers c r)
unfolding unsubscribe
find_subscribers-unsubscribe cmd sid r c = elim (Option-cases (lookup cmd r.sub_table)) [
  | inl e ↦ rw (e, unsubscribe) (unfold find_subscribers in ground arith)
  | inr (vec, e) ↦
      rw (e, unsubscribe)
        (find_subscribers-unsubscribe_at cmd sid vec r c e
          ∙ ap (λ v. if c == cmd then without sid v else find_subscribers c r)
              (unfold find_subscribers in rw e))
]

-- The status tells whether the session was subscribed.
pub status-unsubscribe :
    (cmd sid : ℕ) (r : Router)
    → (unsubscribe cmd sid r).0
      ≡ elim (of_session sid (find_subscribers cmd r)) [ none ↦ not_found | some _ ↦ ok ]
unfolding unsubscribe find_subscribers
status-unsubscribe cmd sid r = elim (Option-cases (lookup cmd r.sub_table)) [
  | inl e ↦ rw (e, unsubscribe)
  | inr (vec, e) ↦
      rw (e, unsubscribe) (unfold unsubscribe_at in ground (arith, without_unchanged sid vec))
]
