-- ===== src/Server/Dispatch/Offered.antt =====
-- Commands of pop3server/conn.go that rely on a row of the table behind CAPA which does not hold.
use go_pop.Prelude.{
  Bool, true, false, not, ◌&&◌, Bool-cases, inl, inr, Option, none, some, is_none, List, [], ◌∷◌,
  length, ltb, if◌then◌else◌, if-case, ◌≡◌, refl, ap, sym, ◌∙◌, arith,
}
use go_pop.Text.{Bytes, codes, equal, to_upper}
use go_pop.Server.Parse.{contains_ctl}
use go_pop.Server.Session.{Session, SessionSasl}
use go_pop.Server.Conn.{Conn, Options, auth_allowed, client_error}
use go_pop.Server.Extensions.{mechanisms, handle_lang, handle_utf8}
use go_pop.Server.Extensions.Capabilities.{offers, builtin}
use go_pop.Server.Login.{needs_tls, mechanism_advertised, auth_args, handle_auth, handle_stls}
use go_pop.Server.Login.Granted.{gate_closed}
use go_pop.Server.Dispatch.{
  Verb, capa, user, pass, auth, stls, quit, utf8, lang, stat, list, uidl, retr, top, dele, rset,
  noop, last, unknown, dispatch_auth,
}
use go_pop.Server.Dispatch.States.{IsRefused, refused}

-- The capability that a command with good arguments relies on; AUTH alone asks for the list of the
-- mechanisms.
abbrev pub relies_on : Verb → List Bytes → Option Bytes
relies_on user [] = none
relies_on user (name ∷ args) = if contains_ctl name then none else some (codes "USER")
relies_on pass args = some (codes "USER")
relies_on auth [] = none
relies_on auth (mech ∷ args) = some (codes "SASL")
relies_on stls args = some (codes "STLS")
relies_on lang args = some (codes "LANG")
relies_on utf8 args = some (codes "UTF8")
relies_on _ args = none

missing : {A : Type 0} (o : Option A) → not (is_none o) ≡ false → o ≡ none
missing none h = refl
missing (some a) h = absurd (ground arith)

if_then :
    {A : Type 0} (P : A → Type 0) (b : Bool) (x y : A) → b ≡ true → P x → P (if b then x else y)
if_then P true x y e p = p
if_then P false x y e p = absurd (ground arith)

on_none :
    {A B : Type 0} (P : B → Type 0) (o : Option A) (x : B) (f : A → B)
    → o ≡ none
    → P x
    → P (elim o [ none ↦ x | some a ↦ f a ])
on_none P none x f e p = p
on_none P (some a) x f e p = absurd (ground arith)

the_same : (a b : Bytes) → ◌≡◌ {A = Option Bytes} (some a) (some b) → a ≡ b
the_same a b h = cc

pub when_clean :
    (b : Bool) (wanted name : Bytes)
    → (if b then none else some wanted) ≡ some name
    → (b ≡ false) × ◌≡◌ {A = Option Bytes} (some wanted) (some name)
when_clean true wanted name h = absurd (ground arith)
when_clean false wanted name h = (refl, h)

module _ {S : Type 0} (iface : Session S) (opts : Options S) where
  pub offers_lem :
      (c : Conn S)
      → (offers (codes "USER") (builtin iface opts c) ≡ auth_allowed opts c)
        × (offers (codes "STLS") (builtin iface opts c)
            ≡ (not (is_none opts.tls_config) && not c.is_tls))
        × (offers (codes "SASL") (builtin iface opts c)
            ≡ (auth_allowed opts c && ltb 0 (length (mechanisms iface opts c))))
        × (offers (codes "LANG") (builtin iface opts c) ≡ not (is_none iface.lang))
        × (offers (codes "UTF8") (builtin iface opts c) ≡ not (is_none iface.utf8))
  unfolding offers equal
  offers_lem c = (ground arith, ground arith, ground arith, ground arith, ground arith)

  no_mechanisms :
      (sasl : SessionSasl S) (mech : Bytes) (args : List Bytes) (c : Conn S)
      → ltb 0 (length (sasl.authenticate_mechanisms c.session)) ≡ false
      → auth_args iface opts sasl (mech ∷ args) c
        ≡ client_error opts (codes "Unsupported SASL mechanism") c
  unfolding auth_args mechanism_advertised
  no_mechanisms sasl mech args c h = go (sasl.authenticate_mechanisms c.session) refl h
    where
      go :
          (ms : List Bytes)
          → sasl.authenticate_mechanisms c.session ≡ ms
          → ltb 0 (length ms) ≡ false
          → auth_args iface opts sasl (mech ∷ args) c
            ≡ client_error opts (codes "Unsupported SASL mechanism") c
      go [] e h = rw e (elim (Bool-cases (equal (to_upper mech) (codes "PLAIN"))) [
        | inl p ↦ rw p refl
        | inr p ↦ rw p refl
      ])
      go (m ∷ ms) e h = absurd (ground arith)

  auth-IsRefused :
      (mech : Bytes) (args : List Bytes) (c : Conn S)
      → (auth_allowed opts c && ltb 0 (length (mechanisms iface opts c))) ≡ false
      → IsRefused iface opts c (handle_auth iface opts (mech ∷ args) c, false)
  unfolding handle_auth
  auth-IsRefused mech args c h = elim (Bool-cases (auth_allowed opts c)) [
    | inr e ↦
        rw ((gate_closed iface opts (mech ∷ args) c e).2)
          (refused iface opts (needs_tls iface opts) c)
    | inl e ↦ go iface.sasl refl e
  ]
    where
      go :
          (o : Option (SessionSasl S))
          → iface.sasl ≡ o
          → auth_allowed opts c ≡ true
          → IsRefused iface opts c (handle_auth iface opts (mech ∷ args) c, false)
      go none f e = rw (e, f) (refused iface opts (codes "SASL not supported") c)
      go (some sasl) f e =
          rw (e, f, no_mechanisms sasl mech args c (rw (e, f) at h))
            (refused iface opts (codes "Unsupported SASL mechanism") c)

  stls-IsRefused :
      (c : Conn S)
      → (not (is_none opts.tls_config) && not c.is_tls) ≡ false
      → IsRefused iface opts c (handle_stls iface opts c, false)
  unfolding handle_stls
  stls-IsRefused c h = elim (Bool-cases c.is_tls) [
    | inl e ↦
        if_then (λ d. IsRefused iface opts c (d, false)) c.is_tls _ _ e
          (refused iface opts (codes "Already using TLS") c)
    | inr e ↦
        if-case (λ d. IsRefused iface opts c (d, false)) c.is_tls _ _
          (refused iface opts (codes "Already using TLS") c)
          (on_none (λ d. IsRefused iface opts c (d, false)) opts.tls_config _ _
            (missing opts.tls_config (ground arith))
            (refused iface opts (codes "TLS not available") c))
  ]

  lang-IsRefused :
      (args : List Bytes) (c : Conn S)
      → not (is_none iface.lang) ≡ false
      → IsRefused iface opts c (handle_lang iface opts args c, false)
  unfolding handle_lang
  lang-IsRefused args c h =
      rw (missing iface.lang h) (refused iface opts (codes "LANG not supported") c)

  utf8-IsRefused :
      (c : Conn S)
      → not (is_none iface.utf8) ≡ false
      → IsRefused iface opts c (handle_utf8 iface opts c, false)
  unfolding handle_utf8
  utf8-IsRefused c h = rw (missing iface.utf8 h) (refused iface opts (codes "UTF8 not supported") c)

  -- The condition of the row, if that is what the command relies on.
  pub condition :
      {v : Bool} (wanted name : Bytes) (c : Conn S) (b : Bool)
      → ◌≡◌ {A = Option Bytes} (some wanted) (some name)
      → offers name (builtin iface opts c) ≡ v
      → offers wanted (builtin iface opts c) ≡ b
      → b ≡ v
  condition wanted name c b h f e =
      sym e ∙ ap (λ n. offers n (builtin iface opts c)) (the_same wanted name h) ∙ f

  -- A command that relies on a row of the table which does not hold.
  pub unoffered-IsRefused :
      (v : Verb) (name cmd : Bytes) (args : List Bytes) (c : Conn S)
      → relies_on v args ≡ some name
      → offers name (builtin iface opts c) ≡ false
      → IsRefused iface opts c (dispatch_auth iface opts v cmd args c)
  unfolding dispatch_auth
  unoffered-IsRefused user name cmd [] c h f = absurd (ground arith)
  unoffered-IsRefused user name cmd (n ∷ args) c h f =
      let wanted = when_clean (contains_ctl n) (codes "USER") name h in
      let e = condition (codes "USER") name c (auth_allowed opts c) wanted.1 f (offers_lem c).0 in
      rw ((gate_closed iface opts (n ∷ args) c e).0) (refused iface opts (needs_tls iface opts) c)
  unoffered-IsRefused pass name cmd args c h f =
      let e = condition (codes "USER") name c (auth_allowed opts c) h f (offers_lem c).0 in
      rw ((gate_closed iface opts args c e).1) (refused iface opts (needs_tls iface opts) c)
  unoffered-IsRefused auth name cmd [] c h f = absurd (ground arith)
  unoffered-IsRefused auth name cmd (mech ∷ args) c h f =
      auth-IsRefused mech args c (condition (codes "SASL") name c _ h f (offers_lem c).2)
  unoffered-IsRefused stls name cmd args c h f =
      stls-IsRefused c (condition (codes "STLS") name c _ h f (offers_lem c).1)
  unoffered-IsRefused lang name cmd args c h f =
      lang-IsRefused args c (condition (codes "LANG") name c _ h f (offers_lem c).3)
  unoffered-IsRefused utf8 name cmd args c h f =
      utf8-IsRefused c (condition (codes "UTF8") name c _ h f (offers_lem c).4)
  unoffered-IsRefused capa name cmd args c h f = absurd (ground arith)
  unoffered-IsRefused quit name cmd args c h f = absurd (ground arith)
  unoffered-IsRefused stat name cmd args c h f = absurd (ground arith)
  unoffered-IsRefused list name cmd args c h f = absurd (ground arith)
  unoffered-IsRefused uidl name cmd args c h f = absurd (ground arith)
  unoffered-IsRefused retr name cmd args c h f = absurd (ground arith)
  unoffered-IsRefused top name cmd args c h f = absurd (ground arith)
  unoffered-IsRefused dele name cmd args c h f = absurd (ground arith)
  unoffered-IsRefused rset name cmd args c h f = absurd (ground arith)
  unoffered-IsRefused noop name cmd args c h f = absurd (ground arith)
  unoffered-IsRefused last name cmd args c h f = absurd (ground arith)
  unoffered-IsRefused unknown name cmd args c h f = absurd (ground arith)
