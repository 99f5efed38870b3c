-- ===== src/Server/Session.antt =====
-- pop3server/session.go and body.go: the interface to a session, over the type of its state. A
-- method takes the state and returns the new one with its result; contexts are left to the state.
use go_pop.Prelude.{ℕ, ℤ, Bool, Option, List}
use go_pop.Text.{Bytes}
use go_pop.Protocol.{MessageInfo, MessageUidl}
use go_pop.Server.Errors.{Outcome}

-- The `io.ReadCloser` that `Retr` and `Top` return: the chunks that reads give, whether a read
-- error follows them, and the octet count of `SizedBody`.
pub record Body : Type 0 where
  pub chunks : List Bytes
  pub read_fails : Bool
  pub octets : Option ℤ

-- The result of `Login` and `AuthenticatePlain`, and whether the method called `Conn.Hijack`.
pub record Attempt : Type 0 where
  pub result : Outcome (Unit {0})
  pub calls_hijack : Bool

pub record LanguageInfo : Type 0 where
  pub tag : Bytes
  pub description : Bytes

pub record SessionSasl (S : Type 0) : Type 0 where
  pub authenticate_mechanisms : S → List Bytes
  pub authenticate_plain : Bytes → Bytes → Bytes → S → S × Attempt

pub record SessionLang (S : Type 0) : Type 0 where
  pub set_language : Bytes → S → S × Outcome Bytes
  pub list_languages : S → S × Outcome (List LanguageInfo)

-- `Session`, with the optional interfaces that the type assertions find.
pub record Session (S : Type 0) : Type 0 where
  pub close : S → S
  pub login : Bytes → Bytes → S → S × Attempt
  pub stat : S → S × Outcome (ℤ × ℤ)
  pub list : ℕ → S → S × Outcome (List MessageInfo)
  pub uidl : ℕ → S → S × Outcome (List MessageUidl)
  pub retr : ℕ → S → S × Outcome Body
  pub top : ℕ → ℕ → S → S × Outcome Body
  pub dele : ℕ → S → S × Outcome (Unit {0})
  pub rset : S → S × Outcome (Unit {0})
  pub noop : S → S × Outcome (Unit {0})
  pub quit : S → S × Outcome ℤ
  pub sasl : Option (SessionSasl S)
  pub lang : Option (SessionLang S)
  pub utf8 : Option (S → S × Outcome (Unit {0}))
