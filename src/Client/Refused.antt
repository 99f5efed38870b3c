-- ===== src/Client/Refused.antt =====
-- What the commands of pop3client do with a status line that is no "+OK", and with one that is.
use go_pop.Prelude.{◌≤◌, ℤ, false, ◌∷◌, ◌++◌, length, ◌≡◌, refl, ap, ◌∙◌, All}
use go_pop.Text.{Bytes, codes}
use go_pop.Decimal.{format_int}
use go_pop.Server.Wire.{Writer, Reader}
use go_pop.Server.Wire.Writing.{IsAlive}
use go_pop.Server.Wire.Stream.{stream}
use go_pop.Server.Parse.{is_crlf}
use go_pop.Client.{
  Client, Result, err, protocol, Action, go_on, ◌>>◌, give, is_ok, expect_ok, write_cmd, read_line,
  read_multi_line, cmd, cmd_expect_ok, capa,
}
use go_pop.Client.Exchange.{Commanded, cmd_lem, after_cmd}
use go_pop.Client.Commands.{multi_items, list, uidl, one_item, list_one, uidl_one, dele, stat}
use go_pop.Client.Body.{retrieve, retr, top}

-- The command is on the wire, the result is this, and what is behind the status line is left.
abbrev pub Answered : {A : Type 0} → Bytes → Client → Bytes → Result A → Result A × Client → Type 0
Answered s c command result x =
    (w : Writer) × (r : Reader) × (x ≡ (result, record c { reader = r; writer = w }))
    × Commanded c command w
    × (stream r ≡ s)

abbrev pub Refused : {A : Type 0} → Bytes → Bytes → Client → Bytes → Result A × Client → Type 0
Refused status s c command x = Answered s c command (err (protocol status)) x

module _ (status s : Bytes) (c : Client) (alive : IsAlive c.writer)
    (clean : All (λ b. is_crlf b ≡ false) status) (small : length status ≤ c.max_line)
    (e : stream c.reader ≡ status ++ b'\r' ∷ b'\n' ∷ s) where
  -- A command that sends only its line, and reads only its status.
  pub cmd_expect_ok-Answered :
      (line : Bytes) → Answered s c line (expect_ok status) (cmd_expect_ok line c)
  unfolding cmd_expect_ok
  cmd_expect_ok-Answered line =
      let (w, r, given, on_wire, behind) = cmd_lem line status s c alive clean small e in
      (w, r, ap (λ x. go_on x (λ status. give (expect_ok status))) given, on_wire, behind)

  module _ (negative : is_ok status ≡ false) where
    -- A command that goes on only behind "+OK".
    stops :
        {A : Type 0} (line : Bytes) (k : Bytes → Action A)
        → Answered s c line (err (protocol status)) (
            go_on
              (write_cmd line c)
              (λ _ c1. go_on (read_line c1) (λ status. do give (expect_ok status); k status)))
    stops line k =
        let (w, r, given, on_wire, behind) = cmd_lem line status s c alive clean small e in
        (
          w,
          r,
          after_cmd line status c (record c { reader = r; writer = w }) _ given ∙ rw negative refl,
          on_wire,
          behind,
        )

    stops_cmd :
        {A : Type 0} (line : Bytes) (k : Bytes → Action A)
        → Answered s c line
            (err (protocol status))
            (go_on (cmd line c) (λ status. do give (expect_ok status); k status))
    stops_cmd line k =
        let (w, r, given, on_wire, behind) = cmd_lem line status s c alive clean small e in
        (
          w,
          r,
          ap (λ x. go_on x (λ status. do give (expect_ok status); k status)) given
              ∙ rw negative refl,
          on_wire,
          behind,
        )

    -- On a network that takes every write, and with a status line that does not start with "+OK":
    -- every command with a parsed or multi-line response puts exactly its line on the wire, returns
    -- the protocol error with the status line, and reads nothing behind that line, so that the next
    -- command finds its own response.
    pub negative-Answered :
        (msg lines : ℤ)
        → Refused status s c (codes "CAPA") (capa c)
          × Refused status s c (codes "STAT") (stat c)
          × Refused status s c (codes "LIST") (list c)
          × Refused status s c (codes "UIDL") (uidl c)
          × Refused status s c (codes "LIST " ++ format_int msg) (list_one msg c)
          × Refused status s c (codes "UIDL " ++ format_int msg) (uidl_one msg c)
          × Refused status s c (codes "RETR " ++ format_int msg) (retr msg c)
          × Refused status s c
              (codes "TOP " ++ (format_int msg ++ (codes " " ++ format_int lines)))
              (top msg lines c)
          × Refused status s c (codes "DELE " ++ format_int msg) (dele msg c)
    unfolding capa stat list uidl list_one uidl_one one_item multi_items retr top retrieve dele
    negative-Answered msg lines = (
      stops (codes "CAPA") (λ _. read_multi_line),
      stops_cmd (codes "STAT") _,
      stops (codes "LIST") _,
      stops (codes "UIDL") _,
      stops_cmd (codes "LIST " ++ format_int msg) _,
      stops_cmd (codes "UIDL " ++ format_int msg) _,
      stops (codes "RETR " ++ format_int msg) _,
      stops (codes "TOP " ++ (format_int msg ++ (codes " " ++ format_int lines))) _,
      (let (w, r, given, on_wire, behind) =
            cmd_expect_ok-Answered (codes "DELE " ++ format_int msg) in
          (w, r, given ∙ rw negative refl, on_wire, behind)),
    )
