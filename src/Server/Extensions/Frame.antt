-- ===== src/Server/Extensions/Frame.antt =====
-- What the capability and extension handlers of pop3server/conn.go leave alone.
use go_pop.Prelude.{
  ◌&&◌, not, is_none, ltb, Bool, true, false, Bool-cases, inl, inr, List, [], ◌∷◌, length, refl,
  ◌∙◌,
}
use go_pop.Text.{Bytes, codes}
use go_pop.Protocol.{Capability}
use go_pop.Server.Session.{Session, SessionLang}
use go_pop.Server.Conn.{Conn, Options, write_string, send_ok, auth_allowed}
use go_pop.Server.Maildrop.Frame.{
  option-case, Calm, Quiet, write_lines-Quiet, client_error-Calm, with_result-Calm,
}
use go_pop.Server.Extensions.{
  write_cap, write_caps, cap_suppressed, write_cap_if, mechanisms, handle_capa, lang_line,
  lang_args, handle_lang, handle_utf8,
}

pub Quiet-refl : {S : Type 0} (c : Conn S) → Quiet c c
unfolding Quiet
Quiet-refl c = (refl, refl, refl)

pub write_string-Quiet : {S : Type 0} (s : Bytes) (c : Conn S) → Quiet c (write_string s c)
unfolding Quiet write_string
write_string-Quiet s c = (refl, refl, refl)

-- Replies one after the other.
pub Quiet-trans : {S : Type 0} (a b c : Conn S) → Quiet a b → Quiet b c → Quiet a c
unfolding Quiet
Quiet-trans a b c p q = (q.0 ∙ p.0, q.1 ∙ p.1, q.2 ∙ p.2)

module _ {S : Type 0} (iface : Session S) (opts : Options S) where
  write_cap-Quiet :
      (name : Bytes) (params : List Bytes) (c : Conn S)
      → Quiet c (write_cap iface opts name params c)
  unfolding write_cap write_string Quiet
  write_cap-Quiet name params c = elim (Bool-cases (cap_suppressed iface opts name)) [
    | inl e ↦ rw e (refl, refl, refl)
    | inr e ↦ rw e (refl, refl, refl)
  ]

  write_cap_if-Quiet :
      (b : Bool) (name : Bytes) (params : List Bytes) (c : Conn S)
      → Quiet c (write_cap_if iface opts b name params c)
  unfolding Quiet
  write_cap_if-Quiet true name params c = write_cap-Quiet name params c
  write_cap_if-Quiet false name params c = (refl, refl, refl)

  write_caps-Quiet : (ks : List Capability) (c : Conn S) → Quiet c (write_caps iface opts ks c)
  unfolding write_caps
  write_caps-Quiet [] c = Quiet-refl c
  write_caps-Quiet (k ∷ ks) c =
      Quiet-trans c (write_cap iface opts k.name k.params c) _ (write_cap-Quiet k.name k.params c)
        (write_caps-Quiet ks (write_cap iface opts k.name k.params c))

  -- CAPA only replies: the session is not even asked to change.
  pub handle_capa-Quiet : (c : Conn S) → Quiet c (handle_capa iface opts c)
  unfolding handle_capa
  handle_capa-Quiet c =
      let allowed = auth_allowed opts c in
      let mechs = mechanisms iface opts c in
      let c1 = write_string (codes "+OK Capability list follows\r\n") c in
      let d0 = write_cap iface opts (codes "TOP") [] c1 in
      let d1 = write_cap iface opts (codes "UIDL") [] d0 in
      let d2 = write_cap_if iface opts allowed (codes "USER") [] d1 in
      let d3 = write_cap iface opts (codes "RESP-CODES") [] d2 in
      let d4 = write_cap iface opts (codes "PIPELINING") [] d3 in
      let d5 =
        write_cap_if iface opts (not (is_none opts.tls_config) && not c.is_tls) (codes "STLS") []
          d4 in
      let d6 = write_cap_if iface opts (allowed && ltb 0 (length mechs)) (codes "SASL") mechs d5 in
      let d7 = write_cap_if iface opts (not (is_none iface.lang)) (codes "LANG") [] d6 in
      let d8 = write_cap_if iface opts (not (is_none iface.utf8)) (codes "UTF8") [] d7 in
      let d9 = write_caps iface opts opts.caps d8 in
      let q = write_string-Quiet (codes "+OK Capability list follows\r\n") c in
      let q = Quiet-trans c c1 d0 q (write_cap-Quiet (codes "TOP") [] c1) in
      let q = Quiet-trans c d0 d1 q (write_cap-Quiet (codes "UIDL") [] d0) in
      let q = Quiet-trans c d1 d2 q (write_cap_if-Quiet allowed (codes "USER") [] d1) in
      let q = Quiet-trans c d2 d3 q (write_cap-Quiet (codes "RESP-CODES") [] d2) in
      let q = Quiet-trans c d3 d4 q (write_cap-Quiet (codes "PIPELINING") [] d3) in
      let q =
        Quiet-trans c d4 d5 q (
          write_cap_if-Quiet (not (is_none opts.tls_config) && not c.is_tls) (codes "STLS") []
            d4) in
      let q =
        Quiet-trans c d5 d6 q
          (write_cap_if-Quiet (allowed && ltb 0 (length mechs)) (codes "SASL") mechs d5) in
      let q =
        Quiet-trans c d6 d7 q
          (write_cap_if-Quiet (not (is_none iface.lang)) (codes "LANG") [] d6) in
      let q =
        Quiet-trans c d7 d8 q
          (write_cap_if-Quiet (not (is_none iface.utf8)) (codes "UTF8") [] d7) in
      let q = Quiet-trans c d8 d9 q (write_caps-Quiet opts.caps d8) in
      Quiet-trans c d9 (write_string (codes ".\r\n") d9) q (write_string-Quiet (codes ".\r\n") d9)

  pub handle_utf8-Calm : (c : Conn S) → Calm c (handle_utf8 iface opts c)
  unfolding handle_utf8 send_ok write_string Quiet
  handle_utf8-Calm c =
      option-case (Calm c) iface.utf8 _ _ (client_error-Calm iface opts _ c)
        (λ enable. with_result-Calm iface opts c (enable c.session) _ (λ _ _. (refl, refl, refl)))

  lang_args-Calm :
      (lang : SessionLang S) (args : List Bytes) (c : Conn S)
      → Calm c (lang_args iface opts lang args c)
  unfolding lang_args write_string Quiet
  lang_args-Calm lang [] c =
      with_result-Calm iface opts c (lang.list_languages c.session) _ (λ langs d.
        write_lines-Quiet lang_line langs (write_string (codes "+OK Language list follows\r\n") d))
  lang_args-Calm lang (tag ∷ rest) c =
      with_result-Calm iface opts c (lang.set_language tag c.session) _ (λ _ _. (refl, refl, refl))

  pub handle_lang-Calm : (args : List Bytes) (c : Conn S) → Calm c (handle_lang iface opts args c)
  unfolding handle_lang
  handle_lang-Calm args c =
      option-case (Calm c) iface.lang _ _ (client_error-Calm iface opts _ c)
        (λ lang. lang_args-Calm lang args c)
