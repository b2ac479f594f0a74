-- ===== src/Hub/RouteLog/Told.antt =====
-- What the log is to say of a message on its way, written out.

use hi_im_core.Prelude.{List, Option, [], codes, refl, some, ℕ, ◌++◌, ◌∷◌, ◌≡◌}
use hi_im_core.Hub.Messages.{Plane, backend, forward}
use hi_im_core.Hub.RouteLog.{RouteLogMeta}
use hi_im_core.Hub.RouteLog.Handlers.{async_send_message}
use hi_im_core.Hub.RouteLog.Lines.{Line, hex, index, log_bridge_async_send, number, text}
use hi_im_core.Hub.Router.{NidRoute}
use hi_im_core.Hub.Status.{
  Status, already_exists, internal, invalid_argument, io_error, not_found, ok, permission_denied,
  queue_full, unauthenticated,
}

abbrev pub plane_word : Plane → List ℕ
plane_word forward = codes "forward"
plane_word backend = codes "backend"

-- What there is to say of a frame of AsyncSend, by the status that AsyncSend returns.
abbrev pub told : Plane → RouteLogMeta → Status → Option NidRoute → List Line
told plane meta ok (some route) =
    (text (codes "[hub] async_send enqueue plane=")
      ∷ text (plane_word plane)
      ∷ text (codes " dest_nid=")
      ∷ number meta.im_dest_nid
      ∷ text (codes " route_sid=")
      ∷ number route.sid
      ∷ text (codes " route_reactor=")
      ∷ index route.reactor_idx
      ∷ text (codes " wire_nid=")
      ∷ number meta.wire_nid
      ∷ text (codes " im_dest_nid=")
      ∷ number meta.im_dest_nid
      ∷ text (codes " seq=")
      ∷ number meta.im_seq
      ∷ text (codes " cmd=0x")
      ∷ hex meta.wire_cmd
      ∷ [])
    ∷ []
told plane meta queue_full _ =
    (text (codes "[hub] dist queue full plane=")
      ∷ text (plane_word plane)
      ∷ text (codes " op=")
      ∷ text (codes "async_send")
      ∷ text (codes " im_dest_nid=")
      ∷ number meta.im_dest_nid
      ∷ text (codes " seq=")
      ∷ number meta.im_seq
      ∷ text (codes " cmd=0x")
      ∷ hex meta.wire_cmd
      ∷ [])
    ∷ []
told _ _ _ _ = []

-- The receipt of a message.
abbrev pub told_receipt : RouteLogMeta → ℕ → Line
told_receipt meta sid =
    text (codes "[bridge] backend recv downlink dest_nid=")
    ∷ number meta.im_dest_nid
    ∷ text (codes " seq=")
    ∷ number meta.im_seq
    ∷ text (codes " cmd=0x")
    ∷ hex meta.wire_cmd
    ∷ text (codes " sid=")
    ∷ number sid
    ∷ []

-- The line ends behind the command if the frame is queued, and with an error otherwise.
abbrev pub told_status : RouteLogMeta → Status → Line
told_status meta st =
    let shown : Line =
      number meta.im_dest_nid
      ∷ text (codes " seq=")
      ∷ number meta.im_seq
      ∷ text (codes " cmd=0x")
      ∷ hex meta.wire_cmd
      ∷ [] in
    elim st [
      | ok ↦ text (codes "[bridge] backend async_send ok dest_nid=") ∷ shown
      | not_found ↦
          text (codes "[bridge] backend async_send fail dest_nid=")
          ∷ (shown ++ (text (codes " err=") ∷ text (codes "nid not connected") ∷ []))
      | _ ↦
          text (codes "[bridge] backend async_send fail dest_nid=")
          ∷ (shown ++ (text (codes " err=") ∷ text [] ∷ []))
    ]

pub told_status_lem :
    (meta : RouteLogMeta) (st : Status)
    → log_bridge_async_send meta.im_dest_nid meta.im_seq meta.wire_cmd st (async_send_message st)
      ≡ told_status meta st
unfolding log_bridge_async_send
told_status_lem meta ok = refl
told_status_lem meta invalid_argument = refl
told_status_lem meta not_found = refl
told_status_lem meta already_exists = refl
told_status_lem meta unauthenticated = refl
told_status_lem meta permission_denied = refl
told_status_lem meta queue_full = refl
told_status_lem meta io_error = refl
told_status_lem meta internal = refl
