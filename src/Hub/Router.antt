-- ===== src/Hub/Router.antt =====
-- include/hiim/hub/router.hpp and src/hub/router.cpp: who subscribes to which command, and which
-- session serves a node. Each method holds the lock from its first line, so each is one step.
pub mod View
pub mod Invariant
pub mod Refine
mod Tests
use mathlib.Core.Option
use hi_im_core.Prelude.{
  Bool, List, Option, Table, [], erase, false, if◌then◌else◌, insert, is_empty, keep, length,
  lookup, map_values, none, not, some, ℕ, ◌==◌, ◌∷◌,
}
use hi_im_core.Hub.Status.{Status, not_found, ok}

-- reactor_idx is nonnegative wherever the hub sets it; the default -1 is `none` there.
pub record Subscriber : Type 0 where
  pub gid : ℕ
  pub sid : ℕ
  pub nid : ℕ
  pub reactor_idx : Option ℕ

pub record NidRoute : Type 0 where
  pub sid : ℕ
  pub reactor_idx : Option ℕ

pub record Router : Type 0 where
  pub sub_table : Table (List Subscriber)
  pub nid_map : Table NidRoute

abbrev pub empty : Router
empty = record { sub_table = []; nid_map = [] }

-- `*it = sub` at the first entry of the session, or `push_back`.
unfoldable pub put : Subscriber → List Subscriber → List Subscriber
put sub [] = sub ∷ []
put sub (s ∷ vec) = if s.sid == sub.sid then sub ∷ vec else s ∷ put sub vec

-- `sub_table_[cmd]`: a missing entry is an empty vector.
abbrev pub entry : ℕ → Router → List Subscriber
entry cmd r = Option.get_or (lookup cmd r.sub_table) []

unfoldable pub subscribe : ℕ → Subscriber → Router → Status × Router
unfolding put
subscribe cmd sub r = (ok, record r { sub_table = insert cmd (put sub (entry cmd r)) r.sub_table })

-- remove_if and erase
abbrev pub without : ℕ → List Subscriber → List Subscriber
without sid = keep (λ s. not (s.sid == sid))

-- The vector found, and what remove_if leaves of it.
unfoldable pub unsubscribe_at : ℕ → ℕ → List Subscriber → Router → Status × Router
unsubscribe_at cmd sid vec r =
    let rest = without sid vec in
    if length rest == length vec then (not_found, r) else (
      ok,
      record r {
        sub_table = if is_empty rest then erase cmd r.sub_table else insert cmd rest r.sub_table;
      },
    )

unfoldable pub unsubscribe : ℕ → ℕ → Router → Status × Router
unfolding unsubscribe_at
unsubscribe cmd sid r = elim (lookup cmd r.sub_table) [
  | none ↦ (not_found, r)
  | some vec ↦ unsubscribe_at cmd sid vec r
]

-- `it != nid_map_.end() && it->second.sid == sid`
abbrev pub is_route_of : ℕ → Option NidRoute → Bool
is_route_of sid none = false
is_route_of sid (some route) = route.sid == sid

unfoldable pub unbind_nid : ℕ → ℕ → Router → Router
unbind_nid nid sid r =
    if is_route_of sid (lookup nid r.nid_map) then record r { nid_map = erase nid r.nid_map } else r

unfoldable pub remove_session : ℕ → ℕ → Router → Router
unfolding unbind_nid
remove_session sid nid r =
    unbind_nid nid sid (record r { sub_table = map_values (without sid) r.sub_table })

unfoldable pub find_subscribers : ℕ → Router → List Subscriber
find_subscribers cmd r = Option.get_or (lookup cmd r.sub_table) []

unfoldable pub find_nid_route : ℕ → Router → Option NidRoute
find_nid_route nid r = lookup nid r.nid_map

unfoldable pub bind_nid : ℕ → ℕ → Option ℕ → Router → Router
bind_nid nid sid reactor_idx r = record r {
  nid_map = insert nid (record { sid = sid; reactor_idx = reactor_idx }) r.nid_map;
}

unfoldable pub subscription_count : ℕ → Router → ℕ
subscription_count cmd r = length (Option.get_or (lookup cmd r.sub_table) [])
