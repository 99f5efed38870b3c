-- ===== src/Client/Exchange.antt =====
-- One command of pop3client/client.go and its response: what is on the wire, and what is read.
use go_pop.Prelude.{
  ℕ, suc, ◌+◌, ◌≤◌, ◌<◌, true, false, ◌&&◌, [], ◌∷◌, ◌++◌, length, leb, ◌==◌, ◌≡◌, refl, ap, sym,
  ◌∙◌, arith, All,
}
use go_pop.Text.{Bytes, codes}
use go_pop.Server.Wire.{Writer, put, flush, Reader, break_lf}
use go_pop.Server.Wire.Writing.{contents, IsAlive, flush-IsAlive, put-IsReliable}
use go_pop.Server.Wire.Stream.{stream}
use go_pop.Server.Parse.{is_crlf}
use go_pop.Server.Wire.Lines.{StartsWith-text, drop_cr-text}
use go_pop.Client.{Client, Result, done, err, Action, go_on, write_cmd, read_line, cmd}
use go_pop.Client.Response.{read_line-Reads}
use go_pop.Client.Receiver.{fits}

-- The client whose command is on the wire.
abbrev pub Commanded : Client → Bytes → Writer → Type 0
Commanded c line w =
    IsAlive w × (w.sent ≡ contents c.writer ++ (line ++ codes "\r\n")) × (w.pending ≡ [])

-- On a network that takes every write: exactly the line and a CRLF go out, behind what was written
-- before, and nothing is left in the buffer.
pub write_cmd-Commanded :
    (line : Bytes) (c : Client)
    → IsAlive c.writer
    → (w : Writer) × (write_cmd line c ≡ (done tt, record c { writer = w })) × Commanded c line w
unfolding write_cmd
write_cmd-Commanded line c alive =
    let p = line ++ codes "\r\n" in
    let w = (put p c.writer).0 in
    let (flushed, alive', sent, pending) = flush-IsAlive w (put-IsReliable.good p c.writer alive) in
    (
      (flush w).0,
      rw (put-IsReliable.fine p c.writer alive, flushed) refl,
      (alive', sent ∙ put-IsReliable.appends p c.writer alive, pending),
    )

pub fits-text :
    (max_line n : ℕ) (text s : Bytes)
    → All (λ c. is_crlf c ≡ false) text
    → fits max_line n (text ++ b'\r' ∷ b'\n' ∷ s) ≡ true
    → (n + length text < max_line) × (fits max_line 0 s ≡ true)
unfolding fits
fits-text max_line n [] s h f =
    let f' : (leb (suc n) max_line && fits max_line 0 s) ≡ true = f in (ground arith, ground arith)
fits-text max_line n (c ∷ text) s (hc, h) f =
    let k : (c == b'\n') ≡ false = ground arith in
    let (small, later) = fits-text max_line (suc n) text s h (rw (k, fits) at f) in
    (omega arith, later)

-- A command and its status line: the client returns the line, the command is on the wire, and what
-- is behind the status line is left.
pub cmd_lem :
    (line status s : Bytes) (c : Client)
    → IsAlive c.writer
    → All (λ b. is_crlf b ≡ false) status
    → length status ≤ c.max_line
    → stream c.reader ≡ status ++ b'\r' ∷ b'\n' ∷ s
    → (w : Writer) × (r : Reader) × (cmd line c
        ≡ (done status, record c { reader = r; writer = w }))
      × Commanded c line w
      × (stream r ≡ s)
unfolding cmd
cmd_lem line status s c alive clean small e =
    let (w, written, on_wire) = write_cmd-Commanded line c alive in
    let text = drop_cr-text status in
    let (r, got, behind) =
      read_line-Reads (record c { writer = w }) (status ++ b'\r' ∷ []) s
        (ap break_lf e ∙ StartsWith-text status s clean) (rw text small) in
    (w, r, rw (written, got, text) refl, on_wire, behind)

go_on_assoc :
    {A B C : Type 0} (x : Result A × Client) (f : A → Action B) (k : B → Action C)
    → go_on (go_on x f) k ≡ go_on x (λ a c. go_on (f a c) k)
go_on_assoc (done a, c) f k = refl
go_on_assoc (err e, c) f k = refl

-- What comes behind a command whose status line has been read.
pub after_cmd :
    {B : Type 0} (command status : Bytes) (c c' : Client) (k : Bytes → Action B)
    → cmd command c ≡ (done status, c')
    → go_on (write_cmd command c) (λ _ c1. go_on (read_line c1) k) ≡ k status c'
unfolding cmd
after_cmd command status c c' k h =
    sym (go_on_assoc (write_cmd command c) (λ _. read_line) k) ∙ ap (λ x. go_on x k) h
