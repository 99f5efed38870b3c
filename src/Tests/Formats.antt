-- ===== src/Tests/Formats.antt =====
-- Examples for the byte-stuffing writer and for what the server parses and prints.
use go_pop.Prelude.{◌+◌, ◌≤◌, true, false, some, [], ◌++◌, length, All, ◌≡◌, ◌↔◌, ◌≢◌, refl, arith}
use go_pop.Text.{Bytes, codes}
use go_pop.Decimal.Laws.{IsDigit, value_from}
use go_pop.Base64.RoundTrip.{IsByte}
use go_pop.DotStuff.{new_dot_stuff_writer, write, close}
use go_pop.DotStuff.Spec.{canonical, bare_lfs, unended}
use go_pop.DotStuff.Receive.{receive}
use go_pop.DotStuff.Receive.RoundTrip.{buffer, receive-write, receive-length}
use go_pop.Server.Parse.{parse_int, max_val, is_crlf, contains_ctl}
use go_pop.Server.Parse.Numbers.{parse_int_lem}
use go_pop.Server.Parse.Sasl.{payload, Lacks}
use go_pop.Server.Conn.{response_line}
use go_pop.Server.Conn.Deadline.{response_line_lem}

abbrev dotted : Bytes
dotted = codes ".a\n..b"

receive-write_example :
    receive []
      ((close buffer (write buffer dotted (new_dot_stuff_writer [])).0).0 ++ codes "+OK\r\n")
    ≡ some (canonical true 0 dotted, codes "+OK\r\n")
receive-write_example = receive-write dotted (codes "+OK\r\n")

receive-length_example :
    (text : Bytes) × (receive [] (close buffer (write buffer dotted (new_dot_stuff_writer [])).0).0
      ≡ some (text, []))
    × (length text ≡ length dotted + bare_lfs 0 dotted + unended true 0 dotted)
receive-length_example = receive-length dotted

parse_int_lem_example : (parse_int (codes "10") ≡ some 10) ↔ (
    (codes "10" ≢ [])
    × (value_from 0 (codes "10") ≡ 10)
    × All IsDigit (codes "10")
    × (10 ≤ max_val))
parse_int_lem_example = parse_int_lem 10 (codes "10")

bytes : All IsByte (payload [] (codes "ann") (codes "pw"))
bytes = ground arith

no_nul : Lacks 0 (codes "pw")
no_nul = ground arith

clean : contains_ctl (codes "ann") ≡ false
unfolding contains_ctl
clean = refl

blank : contains_ctl [] ≡ false
unfolding contains_ctl
blank = refl

response_line_lem_example :
    (text : Bytes) × (response_line (codes "+OK") (codes "a\r\n-ERR b") ≡ text ++ codes "\r\n")
    × All (λ c. is_crlf c ≡ false) text
response_line_lem_example =
    response_line_lem (codes "+OK") (codes "a\r\n-ERR b") (refl, (refl, (refl, tt)))
