-- ===== src/Lib.antt =====
-- go-pop3: a POP3 server library (pop3server), a maildrop in memory that implements its session interface
-- (pop3mem), a client (pop3client), and the types they share (pop3).
--
-- A client's lines go through `readLine` to the command loop of a connection, which splits them, dispatches
-- on the verb and the state (AUTHORIZATION or TRANSACTION), and runs a handler. A handler checks its
-- arguments, calls the session, and answers into a buffered writer; message bodies go through the
-- byte-stuffing writer. The loop calls the hook, enforces closure and the limit on errors, and flushes.
--
-- What models what (paths from the repository's root):
--   Protocol               pop3/pop3.go.
--   DotStuff               pop3server/dotstuff.go over any writer `Put W`; DotStuff/Spec describes the
--                          wire format by two independent passes, DotStuff/Receive is a receiver that
--                          un-stuffs, as RFC 1939 has it.
--   Server/Errors          pop3server/errors.go. An error is what `errors.As` and `errors.Is` find in it.
--   Server/Session         pop3server/session.go and body.go: the interface as a record of methods over
--                          a type of session states; the optional interfaces are options.
--   Server/Parse           splitCommand to splitNull of pop3server/conn.go.
--   Server/Wire            `readLine`, with `bufio.Reader` and `bufio.Writer` and the network behind them.
--   Server/Conn            the type `Conn`, pop3server/options.go, responses, errors, limits, deadlines.
--   Server/Maildrop        handleStat, handleList, handleUidl, handleRetr to handleQuit.
--   Server/Extensions      handleCapa, handleLang, handleUTF8.
--   Server/Login           handleUser, handlePass, handleAuth, handleSTLS.
--   Server/Dispatch        dispatch, dispatchAuth, dispatchTransaction, dispatchUnknown.
--   Server/Serve           serve and close.
--   Server/Setup           handleConn of pop3server/server.go.
--   Server/Accept          the rest of pop3server/server.go: the accept loop, Close and the handlers as a
--                          relation of steps in any order, is-it-TLS, recoverConn, the write deadline.
--   Client                 pop3client/client.go: Dial, the single commands, readLine and readMultiLine.
--   Client/Commands        pop3client/commands.go: STAT to NOOP and the parsers of their responses.
--   Client/Body            pop3client/commands.go: RETR, TOP, and the reader over the message body.
--   Mem                    pop3mem/store.go; Mem/Interface puts its session behind Server/Session.
--   Prelude, Text, Decimal, Base64   what Go's types and standard library do: numbers, strings as lists of
--                          bytes, `%d` and reading it back, base64.
-- The modules below these have the proofs. Tests has concrete data and examples.
--
-- State is passed explicitly: a handler takes a `Conn` and returns the new one. Delays and hook calls are
-- recorded in it. Go's `int` and `int64` are ℤ, with the wrap-around written out where sums or products
-- can leave the range.
--
-- The network is a list of segments that arrive or reads that fail, and a list of Booleans for the writes
-- that succeed; so timeouts may come anywhere. Both buffers have 4096 bytes. `WriteString`,
-- consecutive `WriteString`s of one response and `Fprintf` are one `Write` of the whole text: they differ
-- in the cuts between network writes only, for texts of more than 4096 bytes. `readLine` has fuel for
-- one round more than the bound on the line, since each round but the last adds a byte; the command
-- loop has fuel, of which more than the bytes and events still to be read is enough. The client's
-- `readMultiLine` has fuel for one round more than its limit on lines, and `Close` of its body reader for
-- one round more than the bytes and events still to be read.
--
-- Client and server meet in the bytes between them: the theorems of Client/Delivery, Client/Listing,
-- Client/Capabilities, Client/Offers and Client/Status take what a handler of the server adds to its output as what the client has to read, cut
-- into segments in any way, and those of Client/Sent take what the client writes as the server's input. Client/Served
-- joins the two for a whole exchange.
--
-- Parameters: the TLS handshake (a function from what the network delivers to what the decrypted
-- connection delivers, or a failure), the client's dialer, the handler for unknown commands (any function
-- on the connection), and the session. Case and white space of strings are those of ASCII.
--
-- Not modelled: ListenAndServe and ListenAndServeTLS of pop3server/server.go (they open a listener and call
-- Serve), the client's guard that makes a cancelled context a failing read, contexts and the command
-- timeout, logging, time (deadlines are computed, but the network decides what times out), and the
-- comparison of passwords in constant time, of which only the result is kept.
mod Prelude
pub mod Text
pub mod Decimal
pub mod Base64
pub mod Client
pub mod DotStuff
pub mod Protocol
pub mod Server
pub mod Mem
mod Tests
