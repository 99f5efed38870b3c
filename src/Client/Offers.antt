-- ===== src/Client/Offers.antt =====
-- What a client of pop3client reads in the response to CAPA, and what its commands then meet in
-- pop3server/conn.go.
use go_pop.Prelude.{
  ◌≤◌, Bool, true, false, ◌||◌, Bool-cases, inl, inr, some, List, [], ◌∷◌, ◌++◌, map, length, ◌==◌,
  if◌then◌else◌, ◌≡◌, refl, ap, sym, ◌∙◌, arith, All,
}
use go_pop.Text.{Bytes, codes, equal, equal_iff}
use go_pop.Protocol.{Capability}
use go_pop.Server.Parse.{is_crlf}
use go_pop.Server.Wire.Writing.{contents, IsAlive}
use go_pop.Server.Wire.Stream.{stream}
use go_pop.Server.Session.{Session}
use go_pop.Server.Conn.{Conn, authorization, Options, auth_allowed}
use go_pop.Server.Maildrop.Frame.{Quiet}
use go_pop.Server.Extensions.Frame.{handle_capa-Quiet}
use go_pop.Server.Extensions.{cap_suppressed, mechanisms, handle_capa}
use go_pop.Server.Extensions.Capabilities.{
  cap_text, cap, select, offers, builtin, visible, advertised,
}
use go_pop.Server.Extensions.CapLines.{IsCapLine}
use go_pop.Server.Dispatch.{Verb, dispatch_auth}
use go_pop.Server.Dispatch.States.{IsRefused}
use go_pop.Server.Dispatch.Offered.{relies_on, unoffered-IsRefused}
use go_pop.Server.Dispatch.Taken.{Taken, offered-Taken}
use go_pop.Client.{Client, Result, done, capa}
use go_pop.Client.Receiver.{fits}
use go_pop.Client.Capabilities.{capa-handle_capa}

-- The first word of a line, and whether some line starts with this word.
unfoldable pub first_word : Bytes → Bytes
first_word [] = []
first_word (c ∷ s) = let rest = first_word s in if c == b' ' then [] else c ∷ rest

unfoldable pub lists : Bytes → List Bytes → Bool
unfolding first_word equal
lists name [] = false
lists name (l ∷ ls) = equal (first_word l) name || lists name ls

-- A capability whose line starts with its name.
abbrev IsNamed : Capability → Type 0
IsNamed k = first_word (cap_text k) ≡ k.name

sasl-IsNamed : (mechs : List Bytes) → IsNamed (cap (codes "SASL") mechs)
unfolding first_word cap_text
sasl-IsNamed [] = refl
sasl-IsNamed (m ∷ mechs) = refl

done_inj : {A : Type 0} (a b : A) → ◌≡◌ {A = Result A} (done a) (done b) → a ≡ b
done_inj a b h = cc

module _ {S : Type 0} (iface : Session S) (opts : Options S) where
  builtin-IsNamed : (c : Conn S) → All (λ r. IsNamed r.1) (builtin iface opts c)
  unfolding first_word cap_text
  builtin-IsNamed c = (
    refl,
    (
      refl,
      (refl, (refl, (refl, (refl, (sasl-IsNamed (mechanisms iface opts c), (refl, (refl, tt))))))),
    ),
  )

  abbrev shown : Bytes → List Capability → Bool
  shown name ks = lists name (map cap_text (visible iface opts ks))

  shown-hidden :
      (name : Bytes) (k : Capability) (ks : List Capability)
      → cap_suppressed iface opts k.name ≡ true
      → shown name (k ∷ ks) ≡ shown name ks
  unfolding visible
  shown-hidden name k ks e = rw e refl

  shown-cons :
      (name : Bytes) (k : Capability) (ks : List Capability)
      → cap_suppressed iface opts k.name ≡ false
      → shown name (k ∷ ks) ≡ (equal (first_word (cap_text k)) name || shown name ks)
  unfolding visible lists
  shown-cons name k ks e = rw (visible, e, lists) refl

  -- A name that is not suppressed is shown exactly where its row holds, or behind the table.
  shown-select :
      (name : Bytes) (t : List (Bool × Capability)) (ks : List Capability)
      → cap_suppressed iface opts name ≡ false
      → All (λ r. IsNamed r.1) t
      → shown name (select t ++ ks) ≡ (offers name t || shown name ks)
  unfolding select offers
  shown-select name [] ks h named = refl
  shown-select name ((false, k) ∷ t) ks h (_, named) = shown-select name t ks h named
  shown-select name ((true, k) ∷ t) ks h (n, named) =
      let later = shown-select name t ks h named in
      elim (Bool-cases (cap_suppressed iface opts k.name)) [
        | inl e ↦ elim (Bool-cases (equal k.name name)) [
          | inl same ↦
              let k = ap (cap_suppressed iface opts) ((equal_iff k.name name).0 same) in
              absurd (let z = sym e ∙ k ∙ h in ground arith)
          | inr other ↦ shown-hidden name k (select t ++ ks) e ∙ later ∙ rw other refl
        ]
        | inr e ↦ shown-cons name k (select t ++ ks) e ∙ rw (n, later) (ground arith)
      ]

  shown-visible :
      (name : Bytes) (ks : List Capability)
      → lists name (map cap_text ks) ≡ false
      → shown name ks ≡ false
  unfolding visible lists
  shown-visible name [] h = refl
  shown-visible name (k ∷ ks) h =
      let later = shown-visible name ks (ground arith) in
      elim (Bool-cases (cap_suppressed iface opts k.name)) [
        | inl e ↦ shown-hidden name k ks e ∙ later
        | inr e ↦ shown-cons name k ks e ∙ rw later (ground arith)
      ]

  -- The table looks at TLS and the session only, which CAPA does not change.
  builtin-handle_capa :
      (c : Conn S) → builtin iface opts (handle_capa iface opts c) ≡ builtin iface opts c
  unfolding auth_allowed Quiet
  builtin-handle_capa c =
      let q = handle_capa-Quiet iface opts c in
      ap (λ t. builtin iface opts (record (handle_capa iface opts c) { is_tls = t }))
        (ap (λ f. f.2) q.0)
      ∙ ap (λ s. builtin iface opts (record c { session = s })) q.2

  capa-ready :
      (c : Conn S)
      → c.state ≡ authorization
      → c.reader.buffered ≡ []
      → ((handle_capa iface opts c).state ≡ authorization)
        × ((handle_capa iface opts c).reader.buffered ≡ [])
  unfolding Quiet
  capa-ready c state empty =
      let f = (handle_capa-Quiet iface opts c).0 in
      (ap (λ t. t.0) f ∙ state, ap (λ t. t.4.buffered) f ∙ empty)

  -- CAPA of the client and of the server, under the conditions of their round trip, and a command
  -- sent behind it, before authentication and with nothing pipelined, that relies on a capability (USER
  -- with a name that has no control character, and PASS, on USER; AUTH with a mechanism on SASL; STLS, LANG
  -- and UTF8 on themselves) which the options neither suppress nor add themselves. If no line that the
  -- client has got starts with the capability, then the command is refused as an error of the client,
  -- which counts once: the session is the same, and so are state, name, TLS and input. If some line does,
  -- then USER, STLS, LANG and UTF8 count as no error of the client.
  pub capa-IsHonest :
      (v : Verb) (name cmd : Bytes) (args : List Bytes) (sc : Conn S) (c : Client)
      (sent rest : Bytes) (ls : List Bytes)
      → IsAlive sc.writer
      → IsAlive c.writer
      → contents (handle_capa iface opts sc).writer ≡ contents sc.writer ++ sent
      → stream c.reader ≡ sent ++ rest
      → All (All (λ b. is_crlf b ≡ false)) (mechanisms iface opts sc)
      → All IsCapLine opts.caps
      → fits c.max_line 0 sent ≡ true
      → length (advertised iface opts sc) ≤ c.max_resp_lines
      → (capa c).0 ≡ done ls
      → sc.state ≡ authorization
      → sc.reader.buffered ≡ []
      → relies_on v args ≡ some name
      → cap_suppressed iface opts name ≡ false
      → lists name (map cap_text opts.caps) ≡ false
      → let d = dispatch_auth iface opts v cmd args (handle_capa iface opts sc) in
        if lists name ls
        then Taken iface opts v (handle_capa iface opts sc) d.0
        else IsRefused iface opts (handle_capa iface opts sc) d
  capa-IsHonest v name cmd args sc c sent rest ls alive alive' out e mechs custom small few given
        state empty relies free own =
      let t = builtin iface opts sc in
      let (whole, _, _) =
        capa-handle_capa iface opts sc c sent rest alive alive' out e mechs custom small few in
      let same : ls ≡ map cap_text (advertised iface opts sc) =
        done_inj ls (map cap_text (advertised iface opts sc)) (sym given ∙ whole) in
      let read' : lists name ls ≡ offers name t =
        ap (lists name) same
        ∙ shown-select name t opts.caps free (builtin-IsNamed sc)
        ∙ (let hidden = shown-visible name opts.caps own in ground arith) in
      let d = handle_capa iface opts sc in
      let kept = builtin-handle_capa sc in
      let (state', empty') = capa-ready sc state empty in
      elim (Bool-cases (lists name ls)) [
        | inl some' ↦ rw some' (
            offered-Taken iface opts v name cmd args d relies
              (ap (offers name) kept ∙ sym read' ∙ some') state' empty')
        | inr none' ↦ rw none' (
            unoffered-IsRefused iface opts v name cmd args d relies
              (ap (offers name) kept ∙ sym read' ∙ none'))
      ]
