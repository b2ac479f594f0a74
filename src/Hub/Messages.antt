-- ===== src/Hub/Messages.antt =====
-- The data of include/hiim/hub/context.hpp.
use hi_im_core.Prelude.{List, Option, [], none, ℕ, ℤ}

pub data Plane : Type 0 where
  forward backend : Plane

-- Texts are the lists of their bytes.
pub record HubConfig : Type 0 where
  pub listen_addr : List ℕ
  pub reactor_threads : ℤ
  pub worker_threads : ℤ
  pub queue_capacity : ℕ
  pub auth_user : List ℕ
  pub auth_pass : List ℕ

-- In the frames and messages the default -1 of `reactor_idx` is `none`.
pub record OutboundFrame : Type 0 where
  pub sid : ℕ
  pub reactor_idx : Option ℕ
  pub bytes : List ℕ

pub record InboundMessage : Type 0 where
  pub sid : ℕ
  pub reactor_idx : Option ℕ
  pub gid : ℕ
  pub nid : ℕ
  pub type : ℕ
  pub flag : ℕ
  pub payload : List ℕ

pub record NewConnection : Type 0 where
  pub fd : Option ℕ
  pub sid : ℕ

-- The defaults of the members.
abbrev pub no_frame : OutboundFrame
no_frame = record { sid = 0; reactor_idx = none; bytes = [] }

abbrev pub no_connection : NewConnection
no_connection = record { fd = none; sid = 0 }

-- A moved-from struct: the numbers stay, and std::vector guarantees that it is empty.
abbrev pub moved_frame : OutboundFrame → OutboundFrame
moved_frame f = record f { bytes = [] }

abbrev pub moved_message : InboundMessage → InboundMessage
moved_message m = record m { payload = [] }
