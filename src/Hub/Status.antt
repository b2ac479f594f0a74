-- ===== src/Hub/Status.antt =====
-- include/hiim/status.hpp
use hi_im_core.Prelude.{Bool, false, true}

pub data StatusCode : Type 0 where
  ok invalid_argument not_found already_exists unauthenticated permission_denied : StatusCode
  queue_full io_error internal : StatusCode

-- The message goes to the log only: Hub.RouteLog has those of Publish and AsyncSend.
abbrev pub Status : Type 0
Status = StatusCode

abbrev pub is_ok : Status → Bool
is_ok ok = true
is_ok _ = false
