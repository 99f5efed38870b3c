-- ===== src/Client.antt =====
-- pop3client/client.go: the client, from the dial to the single commands. An operation takes the
-- client and returns its result and the client behind it.
pub mod Commands
pub mod Body
pub mod Response
pub mod Receiver
pub mod Exchange
pub mod Delivery
pub mod Items
pub mod Listing
pub mod Capabilities
pub mod Offers
pub mod Sent
pub mod Served
pub mod Secure
pub mod Refused
pub mod Status
pub mod Limits
use go_pop.Prelude.{
  ℕ, zero, suc, ℤ, pos, negsuc, Bool, true, false, Option, none, some, List, [], ◌∷◌, ◌++◌, length,
  ltb, ◌==◌, if◌then◌else◌,
}
use go_pop.Text.{Bytes, codes, equal, has_prefix}
use go_pop.Base64.{encode_base64}
use go_pop.Server.Wire.{
  Reader, new_reader, Segment, ReadErr, LineResult, got, too_long, read_failed, Writer, new_writer,
  put, flush,
}
use go_pop.Server.Wire

pub record Client : Type 0 where
  pub reader : Reader
  pub writer : Writer
  pub max_line : ℕ
  pub max_resp_lines : ℕ
  pub greeting : Bytes

pub record XClientParam : Type 0 where
  pub name : Bytes
  pub value : Bytes

-- `protocol` is `ProtocolError`; `malformed` has the line that cannot be parsed.
pub data ClientErr : Type 0 where
  network : ReadErr → ClientErr
  write_failed : ClientErr
  line_too_long : ClientErr
  response_too_long : ClientErr
  handshake_failed : ClientErr
  protocol : Bytes → ClientErr
  malformed : Bytes → ClientErr

pub data Result (A : Type 0) : Type 0 where
  done : A → Result A
  err : ClientErr → Result A

abbrev pub Action : Type 0 → Type 0
Action A = Client → Result A × Client

-- The rest of an operation, unless there has been an error.
abbrev pub go_on : {A B : Type 0} → Result A × Client → (A → Action B) → Result B × Client
go_on (done a, c) k = k a c
go_on (err e, c) k = (err e, c)

infixl 5 ◌>>=◌ ◌>>◌
abbrev pub ◌>>=◌ : {A B : Type 0} → Action A → (A → Action B) → Action B
(m >>= k) c = go_on (m c) k

abbrev pub ◌>>◌ : {B : Type 0} → Action (Unit {0}) → Action B → Action B
m >> k = m >>= λ _. k

-- The result of a check.
abbrev pub give : {A : Type 0} → Result A → Action A
give r c = (r, c)

unfoldable pub is_ok : Bytes → Bool
unfolding has_prefix
is_ok line = has_prefix line (codes "+OK")

abbrev pub expect_ok : Bytes → Result (Unit {0})
expect_ok status = if is_ok status then done tt else err (protocol status)

unfoldable pub write_cmd : Bytes → Action (Unit {0})
unfolding put flush
write_cmd line c =
    let (w, fine) = put (line ++ codes "\r\n") c.writer in
    let (w', flushed) = flush w in
    if fine
    then (if flushed then done tt else err write_failed, record c { writer = w' })
    else (err write_failed, record c { writer = w })

abbrev pub line_result : LineResult → Result Bytes
line_result (got line) = done line
line_result too_long = err line_too_long
line_result (read_failed e) = err (network e)

-- The loop over `ReadLine` is the one that the server has.
unfoldable pub read_line : Action Bytes
read_line c =
    let (result, r) = Wire.read_line c.max_line c.reader in
    (line_result result, record c { reader = r })

unfoldable pub unstuff_line : Bytes → Bytes
unstuff_line [] = []
unstuff_line (c ∷ line) = if c == b'.' then line else c ∷ line

-- A line of the loop of `readMultiLine`; `next` goes on.
unfoldable pub take_line :
    List Bytes → (List Bytes → Action (List Bytes)) → Bytes → Action (List Bytes)
unfolding unstuff_line
take_line lines next line c =
    let lines' = lines ++ unstuff_line line ∷ [] in
    let more = next lines' c in
    if equal line (codes ".")
    then (done lines, c)
    else if ltb c.max_resp_lines (length lines')
    then (err response_too_long, c)
    else more

-- The loop with fuel: every round but the last adds a line.
unfoldable pub read_multi_loop : ℕ → List Bytes → Action (List Bytes)
unfolding read_line take_line
read_multi_loop zero lines c = (err response_too_long, c)
read_multi_loop (suc f) lines c = (do line ← read_line; take_line lines (read_multi_loop f) line) c

unfoldable pub read_multi_line : Action (List Bytes)
unfolding read_multi_loop
read_multi_line c = read_multi_loop (suc c.max_resp_lines) [] c

unfoldable pub cmd : Bytes → Action Bytes
unfolding write_cmd read_line
cmd line = do write_cmd line; read_line

unfoldable pub cmd_expect_ok : Bytes → Action (Unit {0})
unfolding cmd is_ok
cmd_expect_ok line = do status ← cmd line; give (expect_ok status)

unfoldable pub capa : Action (List Bytes)
unfolding cmd is_ok read_multi_line
capa = do write_cmd (codes "CAPA"); status ← read_line; give (expect_ok status); read_multi_line

-- ` name=value` for each parameter.
unfoldable pub params_text : List XClientParam → Bytes
params_text [] = []
params_text (p ∷ ps) = codes " " ++ (p.name ++ (codes "=" ++ (p.value ++ params_text ps)))

unfoldable pub x_client : List XClientParam → Action (Unit {0})
unfolding params_text write_cmd read_line is_ok
x_client params = do
  write_cmd (codes "XCLIENT" ++ params_text params)
  status ← read_line
  give (expect_ok status)

unfoldable pub auth_plain : Bytes → Bytes → Bytes → Action (Unit {0})
unfolding encode_base64 write_cmd read_line is_ok
auth_plain identity username password = do
  write_cmd (codes "AUTH PLAIN " ++ encode_base64 (identity ++ 0 ∷ (username ++ 0 ∷ password)))
  status ← read_line
  give (expect_ok status)

unfoldable pub user : Bytes → Bytes → Action (Unit {0})
unfolding cmd_expect_ok
user username password = do
  cmd_expect_ok (codes "USER " ++ username)
  cmd_expect_ok (codes "PASS " ++ password)

unfoldable pub quit : Action (Unit {0})
unfolding cmd_expect_ok
quit = cmd_expect_ok (codes "QUIT")

-- The TLS handshake, from what the network still delivers to what the decrypted connection delivers
-- and which of its writes succeed.
abbrev pub Handshake : Type 0
Handshake = List Segment → Option (List Segment × List Bool)

-- The handshake reads the network connection: what the reader has buffered is dropped.
unfoldable pub upgrade : Handshake → Action (Unit {0})
upgrade handshake c = elim (handshake c.reader.incoming) [
  | none ↦ (err handshake_failed, c)
  | some (incoming, link) ↦ (
    done tt,
    record c {
      reader = new_reader incoming;
      writer = record (new_writer link) { sent = c.writer.sent };
    },
  )
]

unfoldable pub start_tls : Handshake → Action (Unit {0})
unfolding cmd_expect_ok upgrade
start_tls handshake = do cmd_expect_ok (codes "STLS"); upgrade handshake

pub record Options : Type 0 where
  pub tls_config : Option Handshake
  pub starttls : Bool
  pub max_line_length : ℤ
  pub max_response_lines : ℤ

-- What `Dial` ends with: a client, no connection, or an error for which the connection is closed,
-- with the bytes that have been written to it.
pub data Dialed : Type 0 where
  dialed : Client → Dialed
  unreachable : Dialed
  hung_up : ClientErr → Bytes → Dialed

-- A limit that is not positive has a default.
abbrev pub limit_or : ℕ → ℤ → ℕ
limit_or default (pos zero) = default
limit_or default (pos (suc n)) = suc n
limit_or default (negsuc n) = default

-- Implicit TLS, before the greeting.
abbrev pub wrap :
    Option Handshake → Bool → List Segment × List Bool → Option (List Segment × List Bool)
wrap none starttls raw = some raw
wrap (some handshake) true raw = some raw
wrap (some handshake) false (incoming, link) = handshake incoming

abbrev pub new_client : Options → List Segment × List Bool → Client
new_client opts (incoming, link) = record {
  reader = new_reader incoming;
  writer = new_writer link;
  max_line = limit_or 4096 opts.max_line_length;
  max_resp_lines = limit_or 100000 opts.max_response_lines;
  greeting = [];
}

-- The upgrade where one is asked for.
unfoldable pub upgrade_if : Option Handshake → Bool → Action (Unit {0})
unfolding start_tls
upgrade_if none starttls c = (done tt, c)
upgrade_if (some handshake) true c = start_tls handshake c
upgrade_if (some handshake) false c = (done tt, c)

abbrev pub keep_greeting : Bytes → Action (Unit {0})
keep_greeting line c = (done tt, record c { greeting = line })

unfoldable pub greet : Options → Action (Unit {0})
unfolding read_line is_ok upgrade_if
greet opts = do
  greeting ← read_line
  give (expect_ok greeting)
  keep_greeting greeting
  upgrade_if opts.tls_config opts.starttls

abbrev pub hung_up_on_error : Result (Unit {0}) × Client → Dialed
hung_up_on_error (done _, c) = dialed c
hung_up_on_error (err e, c) = hung_up e c.writer.sent

-- The dialer gives the network connection.
unfoldable pub dial : Options → Option (List Segment × List Bool) → Dialed
unfolding greet
dial opts none = unreachable
dial opts (some raw) = elim (wrap opts.tls_config opts.starttls raw) [
  | none ↦ hung_up handshake_failed []
  | some conn ↦ hung_up_on_error (greet opts (new_client opts conn))
]
