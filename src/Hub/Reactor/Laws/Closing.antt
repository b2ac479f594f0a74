-- ===== src/Hub/Reactor/Laws/Closing.antt =====
-- What CloseSession leaves behind in the router.
use hi_im_core.Hub.Router
use hi_im_core.Prelude.{
  ==_refl, Bool-cases, Option, ap, false, if◌then◌else◌, inl, inr, lookup, ne→not_==, none, some,
  true, ℕ, ◌&&◌, ◌==◌, ◌∙◌, ◌≡◌, ◌≢◌,
}
use hi_im_core.Hub.Reactor.{Reactor, Session, close_found, close_session}
use hi_im_core.Hub.Reactor.Laws.Sending.{close_session-gone}
use hi_im_core.Hub.Router.{NidRoute, Router, is_route_of}
use hi_im_core.Hub.Router.Refine.{route-remove_session}
use hi_im_core.Hub.Router.View.{find_subscribers-remove_session, of_session, of_session-without}

close_session-router :
    (k : ℕ) (s : Session) (r : Reactor)
    → lookup k r.sessions ≡ some s
    → s.authed ≡ true
    → (close_session k r).ctx.router ≡ Router.remove_session s.sid s.nid r.ctx.router
unfolding close_session close_found
close_session-router k s r found authenticated = rw (found, close_session) (rw authenticated)

-- After an authenticated session is closed it is gone, no command has it among its subscribers, and
-- the node it last authenticated as is not routed to it.
pub close_session_forgets :
    (k : ℕ) (s : Session) (r : Reactor) (cmd : ℕ)
    → lookup k r.sessions ≡ some s
    → s.sid ≡ k
    → s.authed ≡ true
    → (lookup k (close_session k r).sessions ≡ none)
      × (of_session k (Router.find_subscribers cmd (close_session k r).ctx.router) ≡ none)
      × (is_route_of k (Router.find_nid_route s.nid (close_session k r).ctx.router) ≡ false)
close_session_forgets k s r cmd found own authenticated = (
  close_session-gone k r,
  ap (λ router. of_session k (Router.find_subscribers cmd router)) left
      ∙ ap (of_session k) (find_subscribers-remove_session k s.nid r.ctx.router cmd)
      ∙ of_session-without k k (Router.find_subscribers cmd r.ctx.router)
      ∙ rw (==_refl k),
  ap (λ router. is_route_of k (Router.find_nid_route s.nid router)) left
      ∙ ap (is_route_of k) (route-remove_session k s.nid r.ctx.router s.nid)
      ∙ unrouted,
)
  where
    left : (close_session k r).ctx.router ≡ Router.remove_session k s.nid r.ctx.router
    left =
        close_session-router k s r found authenticated
        ∙ ap (λ j. Router.remove_session j s.nid r.ctx.router) own

    route : Option NidRoute
    route = Router.find_nid_route s.nid r.ctx.router

    unrouted : is_route_of k (if s.nid == s.nid && is_route_of k route then none else route) ≡ false
    unrouted = elim (Bool-cases (is_route_of k route)) [
      | inl routed ↦ rw (==_refl s.nid) (rw routed)
      | inr other ↦ rw (==_refl s.nid) (rw other other)
    ]

-- Closing a session leaves the routes of the nodes that it did not last authenticate as, also those
-- that lead to the closed session.
pub close_session_keeps :
    (k : ℕ) (s : Session) (r : Reactor) (nid : ℕ)
    → lookup k r.sessions ≡ some s
    → s.authed ≡ true
    → nid ≢ s.nid
    → Router.find_nid_route nid (close_session k r).ctx.router
      ≡ Router.find_nid_route nid r.ctx.router
close_session_keeps k s r nid found authenticated other =
    ap (Router.find_nid_route nid) (close_session-router k s r found authenticated)
    ∙ route-remove_session s.sid s.nid r.ctx.router nid
    ∙ rw (ne→not_== nid s.nid other)
