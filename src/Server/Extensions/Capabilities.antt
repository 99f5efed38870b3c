-- ===== src/Server/Extensions/Capabilities.antt =====
-- What CAPA of pop3server/conn.go puts on the wire, and the table of the capabilities it offers.
use go_pop.Prelude.{
  Bool, true, false, not, ◌&&◌, ◌||◌, Bool-cases, is_none, inl, inr, List, [], ◌∷◌, ◌++◌, length,
  ltb, ◌==◌, if◌then◌else◌, ◌≡◌, refl, ap, sym, ◌∙◌, arith, append_assoc, append-nil,
}
use go_pop.Text.{Bytes, codes, equal, join}
use go_pop.DotStuff.Spec.{terminator}
use go_pop.Protocol.{Capability}
use go_pop.Server.Session.{Session}
use go_pop.Server.Conn.{Conn, Options, write_string, auth_allowed}
use go_pop.Server.Wire.Writing.{contents, IsAlive, put-IsReliable}
use go_pop.Server.Maildrop.{crlf}
use go_pop.Server.Maildrop.Listing.{lines_of}
use go_pop.Server.Extensions.{
  cap_suppressed, cap_line, write_cap, write_caps, write_cap_if, mechanisms, handle_capa,
}

-- The text of a capability.
unfoldable pub cap_text : Capability → Bytes
cap_text k = elim k.params [ [] ↦ k.name | p ∷ ps ↦ k.name ++ (codes " " ++ join (p ∷ ps)) ]

abbrev pub cap : Bytes → List Bytes → Capability
cap name params = record { name = name; params = params }

-- The rows of a table whose condition holds.
unfoldable pub select : List (Bool × Capability) → List Capability
select [] = []
select ((b, k) ∷ t) = if b then k ∷ select t else select t

-- A row with this name holds.
unfoldable pub offers : Bytes → List (Bool × Capability) → Bool
unfolding equal
offers name [] = false
offers name ((b, k) ∷ t) = b && equal k.name name || offers name t

module _ {S : Type 0} (iface : Session S) (opts : Options S) where
  -- The capabilities of the protocol and the extensions, each with the condition it depends on.
  abbrev pub builtin : Conn S → List (Bool × Capability)
  builtin c =
      (true, cap (codes "TOP") [])
      ∷ (true, cap (codes "UIDL") [])
      ∷ (auth_allowed opts c, cap (codes "USER") [])
      ∷ (true, cap (codes "RESP-CODES") [])
      ∷ (true, cap (codes "PIPELINING") [])
      ∷ (not (is_none opts.tls_config) && not c.is_tls, cap (codes "STLS") [])
      ∷ (
        auth_allowed opts c && ltb 0 (length (mechanisms iface opts c)),
        cap (codes "SASL") (mechanisms iface opts c),
      )
      ∷ (not (is_none iface.lang), cap (codes "LANG") [])
      ∷ (not (is_none iface.utf8), cap (codes "UTF8") [])
      ∷ []

  -- Those that the options do not suppress.
  unfoldable pub visible : List Capability → List Capability
  visible [] = []
  visible (k ∷ ks) = if cap_suppressed iface opts k.name then visible ks else k ∷ visible ks

  -- What a connection advertises.
  abbrev pub advertised : Conn S → List Capability
  advertised c = visible (select (builtin c) ++ opts.caps)

  write_table : List (Bool × Capability) → Conn S → Conn S
  write_table [] c = c
  write_table ((b, k) ∷ t) c = write_table t (write_cap_if iface opts b k.name k.params c)

  write_caps-select :
      (t : List (Bool × Capability)) (ks : List Capability) (c : Conn S)
      → write_caps iface opts (select t ++ ks) c ≡ write_caps iface opts ks (write_table t c)
  unfolding select write_caps write_table
  write_caps-select [] ks c = refl
  write_caps-select ((true, k) ∷ t) ks c =
      write_caps-select t ks (write_cap iface opts k.name k.params c)
  write_caps-select ((false, k) ∷ t) ks c = write_caps-select t ks c

  handle_capa-write_caps :
      (c : Conn S)
      → handle_capa iface opts c
        ≡ write_string terminator (
            write_caps iface opts
              (select (builtin c) ++ opts.caps)
              (write_string (codes "+OK Capability list follows\r\n") c))
  unfolding handle_capa write_table
  handle_capa-write_caps c = ap (write_string terminator) (
      sym (
        write_caps-select (builtin c) opts.caps
          (write_string (codes "+OK Capability list follows\r\n") c)))

  cap_line_lem :
      (name : Bytes) (params : List Bytes)
      → cap_suppressed iface opts name ≡ false
      → cap_line iface opts name params ≡ cap_text (cap name params) ++ crlf
  unfolding cap_line cap_text
  cap_line_lem name [] h = rw h refl
  cap_line_lem name (p ∷ ps) h =
      let some' : (length (p ∷ ps) == 0) ≡ false = ground arith in
      rw (h, some') (sym (append_assoc name (codes " " ++ join (p ∷ ps)) crlf))

  -- On a network that takes every write: the line of a capability, unless it is suppressed.
  abbrev Writes : List Capability → Conn S → Conn S → Type 0
  Writes ks c d =
      IsAlive d.writer
      × (contents d.writer ≡ contents c.writer ++ lines_of (λ k. cap_text k ++ crlf) ks)

  write_cap-cases :
      (name : Bytes) (params : List Bytes) (c : Conn S)
      → ((cap_suppressed iface opts name ≡ true) → write_cap iface opts name params c ≡ c)
        × ((cap_suppressed iface opts name ≡ false)
            → write_cap iface opts name params c
              ≡ write_string (cap_text (cap name params) ++ crlf) c)
  unfolding write_cap
  write_cap-cases name params c = (
    λ h. rw h refl,
    λ h.
        ap (λ b. if b then c else write_string (cap_line iface opts name params) c) h
        ∙ ap (λ l. write_string l c) (cap_line_lem name params h),
  )

  write_cap-Writes :
      (k : Capability) (c : Conn S)
      → IsAlive c.writer
      → Writes (visible (k ∷ [])) c (write_cap iface opts k.name k.params c)
  unfolding visible
  write_cap-Writes k c alive =
      let (hidden, shown) = write_cap-cases k.name k.params c in
      elim (Bool-cases (cap_suppressed iface opts k.name)) [
        | inl e ↦ rw (e, hidden e) (alive, sym (append-nil (contents c.writer)))
        | inr e ↦
            let p = cap_text k ++ crlf in
            rw (e, shown e, append-nil p)
              (unfold write_string in
                (put-IsReliable.good p c.writer alive, put-IsReliable.appends p c.writer alive))
      ]

  lines_of-append :
      (item : Capability → Bytes) (ks ls : List Capability)
      → lines_of item (ks ++ ls) ≡ lines_of item ks ++ lines_of item ls
  lines_of-append item [] ls = refl
  lines_of-append item (k ∷ ks) ls =
      ap (λ p. item k ++ p) (lines_of-append item ks ls)
      ∙ sym (append_assoc (item k) (lines_of item ks) (lines_of item ls))

  visible-cons :
      (k : Capability) (ks : List Capability) → visible (k ∷ ks) ≡ visible (k ∷ []) ++ visible ks
  unfolding visible
  visible-cons k ks = elim (Bool-cases (cap_suppressed iface opts k.name)) [
    | inl e ↦ rw e refl
    | inr e ↦ rw e refl
  ]

  write_caps-Writes :
      (ks : List Capability) (c : Conn S)
      → IsAlive c.writer
      → Writes (visible ks) c (write_caps iface opts ks c)
  unfolding write_caps
  write_caps-Writes [] c alive = unfold visible in (alive, sym (append-nil (contents c.writer)))
  write_caps-Writes (k ∷ ks) c alive =
      let item = λ (k : Capability). cap_text k ++ crlf in
      let (alive1, one) = write_cap-Writes k c alive in
      let (alive2, all) = write_caps-Writes ks (write_cap iface opts k.name k.params c) alive1 in
      (
        alive2,
        all
            ∙ ap (λ p. p ++ lines_of item (visible ks)) one
            ∙ append_assoc (contents c.writer) (lines_of item (visible (k ∷ [])))
                (lines_of item (visible ks))
            ∙ ap (λ p. contents c.writer ++ p)
                (sym (lines_of-append item (visible (k ∷ [])) (visible ks))
                  ∙ ap (lines_of item) (sym (visible-cons k ks))),
      )

  -- What CAPA puts on the wire.
  pub capa-contents :
      (c : Conn S)
      → IsAlive c.writer
      → contents (handle_capa iface opts c).writer
        ≡ contents c.writer
          ++ (codes "+OK Capability list follows\r\n"
              ++ (lines_of (λ k. cap_text k ++ crlf) (advertised c) ++ terminator))
  unfolding write_string
  capa-contents c alive =
      let head = codes "+OK Capability list follows\r\n" in
      let c1 = write_string head c in
      let ks = select (builtin c) ++ opts.caps in
      let lines = lines_of (λ k. cap_text k ++ crlf) (advertised c) in
      let (alive2, body) = write_caps-Writes ks c1 (put-IsReliable.good head c.writer alive) in
      ap (λ (d : Conn S). contents d.writer) (handle_capa-write_caps c)
      ∙ put-IsReliable.appends terminator (write_caps iface opts ks c1).writer alive2
      ∙ ap (λ q. q ++ terminator)
          (body ∙ ap (λ q. q ++ lines) (put-IsReliable.appends head c.writer alive))
      ∙ append_assoc (contents c.writer ++ head) lines terminator
      ∙ append_assoc (contents c.writer) head (lines ++ terminator)
