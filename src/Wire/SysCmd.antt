-- ===== src/Wire/SysCmd.antt =====
-- include/hiim/wire/sys_cmd.hpp: the types of system frames.
use hi_im_core.Prelude.{ℕ}

pub data SysCmd : Type 0 where
  auth_req auth_ack kpalive_req kpalive_ack sub_req sub_ack unsub_req unsub_ack : SysCmd
  query_conf_req query_conf_ack : SysCmd

-- The value of the enumerator.
abbrev pub code : SysCmd → ℕ
code auth_req = 0x0001
code auth_ack = 0x0002
code kpalive_req = 0x0003
code kpalive_ack = 0x0004
code sub_req = 0x0005
code sub_ack = 0x0006
code unsub_req = 0x0007
code unsub_ack = 0x0008
code query_conf_req = 0x1001
code query_conf_ack = 0x1002
