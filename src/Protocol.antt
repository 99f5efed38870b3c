-- ===== src/Protocol.antt =====
-- pop3/pop3.go: the types that the server, the client and sessions share.
use go_pop.Prelude.{ℤ, List}
use go_pop.Text.{Bytes}

pub record MessageInfo : Type 0 where
  pub num : ℤ
  pub size : ℤ

pub record MessageUidl : Type 0 where
  pub num : ℤ
  pub unique_id : Bytes

pub record Capability : Type 0 where
  pub name : Bytes
  pub params : List Bytes
