-- ===== src/Tests/Client.antt =====
-- Examples for pop3client.
use go_pop.Prelude.{pos, Bool, true, false, Option, some, List, [], ◌∷◌, ◌++◌, ◌≡◌, refl, arith}
use go_pop.Text.{codes, equal}
use go_pop.Decimal.{format_int}
use go_pop.Server.Wire.{Segment, arrives, new_reader, new_writer, break_lf, drop_cr, read_line}
use go_pop.Server.Wire.Stream.{stream, arriving}
use go_pop.Server.Wire.Lines.{IsLineOf, read_line-stream}
use go_pop.Client.{
  Client, unstuff_line, read_multi_line, read_multi_loop, is_ok, Options, dial, capa,
}
use go_pop.Client.Commands.{stat, list, uidl, list_one, uidl_one, dele}
use go_pop.Client.Body.{new_body_reader, read, close, retr, top}
use go_pop.Client.Response.{Response, ends, more, ReadsLines, read_multi_line_lem}
use go_pop.Client.Receiver.{text_of}
use go_pop.Client.Limits.{Limited, read_multi_line-Limited}
use go_pop.Client.Body.Reads.{Holds, ReadsOff, read-ReadsOff}
use go_pop.Client.Body.Whole.{IsClosed, close-IsClosed}
use go_pop.Client.Refused.{Refused, negative-Answered}
use go_pop.Client.Secure.{Dials, dial-Dials}

-- A client with this still to read.
abbrev pub client_on : List Segment → Client
client_on incoming = record {
  reader = new_reader incoming;
  writer = new_writer [];
  max_line = 4096;
  max_resp_lines = 3;
  greeting = codes "+OK ready";
}

-- Two lines, the second one byte-stuffed, in segments that cut the lines, and the bytes behind.
abbrev two_lines : List Segment
two_lines =
    arrives (codes "one\r") ∷ arrives (codes "\n..two\r\n.\r") ∷ arrives (codes "\n+OK\r\n") ∷ []

starts :
    break_lf (stream (new_reader two_lines)) ≡ some (codes "one\r", codes "..two\r\n.\r\n+OK\r\n")
unfolding break_lf arriving
starts = refl

read_line-stream_example :
    IsLineOf 3
      (drop_cr (codes "one\r"))
      (codes "..two\r\n.\r\n+OK\r\n")
      (read_line 3 (new_reader two_lines))
read_line-stream_example =
    read_line-stream 3 (new_reader two_lines) (codes "one\r") (codes "..two\r\n.\r\n+OK\r\n") starts

response :
    Response 4096
      (stream (new_reader two_lines))
      (codes "one" ∷ codes ".two" ∷ [])
      (codes "+OK\r\n")
unfolding break_lf drop_cr arriving unstuff_line equal
response =
    more {l = codes "one\r"} {s' = codes "..two\r\n.\r\n+OK\r\n"} refl refl (omega arith) refl (
      more {l = codes "..two\r"} {s' = codes ".\r\n+OK\r\n"} refl refl (omega arith) refl
        (ends {l = codes ".\r"} refl refl (omega arith)))

read_multi_line_lem_example :
    ReadsLines
      (client_on two_lines)
      (codes "one" ∷ codes ".two" ∷ [])
      (codes "+OK\r\n")
      (read_multi_line (client_on two_lines))
read_multi_line_lem_example =
    read_multi_line_lem (client_on two_lines) (codes "+OK\r\n") (codes "one" ∷ codes ".two" ∷ [])
      response

read_multi_line-Limited_example :
    Limited 4096 3 (read_multi_line (client_on two_lines)).0
    × (read_multi_loop 9 [] (client_on two_lines) ≡ read_multi_line (client_on two_lines))
read_multi_line-Limited_example = read_multi_line-Limited (client_on two_lines) 5

two_texts : Holds (codes "one\r\n.two\r\n") (codes "+OK\r\n") (new_body_reader, client_on two_lines)
unfolding text_of
two_texts = (codes "one" ∷ codes ".two" ∷ [], refl, response)

read-ReadsOff_example :
    ReadsOff 2
      (codes "one\r\n.two\r\n")
      (codes "+OK\r\n")
      (read 2 new_body_reader (client_on two_lines))
read-ReadsOff_example =
    read-ReadsOff 2 new_body_reader (client_on two_lines) (codes "one\r\n.two\r\n")
      (codes "+OK\r\n") (omega arith) two_texts

close-IsClosed_example :
    IsClosed (codes "+OK\r\n") (client_on two_lines) (close new_body_reader (client_on two_lines))
close-IsClosed_example =
    close-IsClosed new_body_reader (client_on two_lines) (codes "one\r\n.two\r\n") (codes "+OK\r\n")
      two_texts

abbrev with_tls : Options
with_tls = record {
  tls_config = some (λ _. some (arrives (codes "+OK\r\n") ∷ [], []));
  starttls = true;
  max_line_length = pos 0;
  max_response_lines = pos 7;
}

abbrev plain_greeting : Option (List Segment × List Bool)
plain_greeting = some (arrives (codes "+OK\r\n+OK\r\n+OK fake\r\n") ∷ [], [])

dial-Dials_example : Dials with_tls (dial with_tls plain_greeting)
dial-Dials_example = dial-Dials with_tls plain_greeting

abbrev refusal : Client
refusal = client_on (arrives (codes "-ERR no\r\n+OK\r\n") ∷ [])

refused : stream refusal.reader ≡ codes "-ERR no" ++ b'\r' ∷ b'\n' ∷ codes "+OK\r\n"
unfolding arriving
refused = refl

no_ok : is_ok (codes "-ERR no") ≡ false
unfolding is_ok
no_ok = refl

negative-Answered_example :
    let status = codes "-ERR no" in
    let s = codes "+OK\r\n" in
    Refused status s refusal (codes "CAPA") (capa refusal)
    × Refused status s refusal (codes "STAT") (stat refusal)
    × Refused status s refusal (codes "LIST") (list refusal)
    × Refused status s refusal (codes "UIDL") (uidl refusal)
    × Refused status s refusal (codes "LIST " ++ format_int (pos 9)) (list_one (pos 9) refusal)
    × Refused status s refusal (codes "UIDL " ++ format_int (pos 9)) (uidl_one (pos 9) refusal)
    × Refused status s refusal (codes "RETR " ++ format_int (pos 9)) (retr (pos 9) refusal)
    × Refused status s refusal
        (codes "TOP " ++ (format_int (pos 9) ++ (codes " " ++ format_int (pos 0))))
        (top (pos 9) (pos 0) refusal)
    × Refused status s refusal (codes "DELE " ++ format_int (pos 9)) (dele (pos 9) refusal)
negative-Answered_example =
    negative-Answered (codes "-ERR no") (codes "+OK\r\n") refusal (refl, tt) (ground arith)
      (omega arith) refused no_ok (pos 9) (pos 0)
