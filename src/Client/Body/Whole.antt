-- ===== src/Client/Body/Whole.antt =====
-- The whole body: reading it to its end, and `Close` of the body reader.
use go_pop.Prelude.{
  ℕ, zero, suc, ◌+◌, ◌<◌, Bool, true, false, Option, none, some, ◌>>=◌, List, [], ◌∷◌, ◌++◌, length,
  length-append, if◌then◌else◌, ◌≡◌, ◌≢◌, refl, ap, sym, ◌∙◌, arith,
}
use mathlib.Core.Path.{subst}
use go_pop.Text.{Bytes}
use go_pop.Server.Wire.{drop_cr, Reader, break_lf, LineResult, got, too_long, read_failed}
use go_pop.Server.Wire
use go_pop.Server.Wire.Stream.{stream}
use go_pop.Server.Wire.Progress.{left, Takes, read_line-Takes}
use go_pop.Client.{Client, Result, done, err, line_result, read_line}
use go_pop.Client.Response.{Response, ends, more, reading, read_line-Reads}
use go_pop.Client.Body.{
  BodyReader, ReadResult, bytes, at_end, read_error, read, close, close_loop, drop_line,
}
use go_pop.Client.Body.Reads.{Left, Holds, ReadsOff, read-ReadsOff}

-- Text in front of what is read later.
abbrev before : Bytes → Option Bytes × BodyReader × Client → Option Bytes × BodyReader × Client
before p (o, b, c) = ((o >>= λ q. some (p ++ q)), b, c)

abbrev then_read :
    (BodyReader → Client → Option Bytes × BodyReader × Client)
    → ReadResult × BodyReader × Client
    → Option Bytes × BodyReader × Client
then_read next (at_end, b, c) = (some [], b, c)
then_read next (bytes p, b, c) = before p (next b c)
then_read next (read_error e, b, c) = (none, b, c)

-- `io.ReadAll` on the body, with the rooms of its reads, for so many reads at most.
unfoldable pub read_all : ℕ → (ℕ → ℕ) → BodyReader → Client → Option Bytes × BodyReader × Client
unfolding read
read_all zero rooms b c = (none, b, c)
read_all (suc f) rooms b c = then_read (read_all f rooms) (read (rooms f) b c)

-- All of the text, with nothing left over.
abbrev pub IsWhole : Bytes → Bytes → Option Bytes × BodyReader × Client → Type 0
IsWhole text rest (o, b, c) =
    (o ≡ some text) × (b.finished ≡ true) × (b.buf ≡ []) × (stream c.reader ≡ rest)

whole_end :
    (b : BodyReader) (c : Client) (rest : Bytes) (fin : Bool)
    → b.finished ≡ fin
    → fin ≡ true
    → Left c.max_line fin b.buf (stream c.reader) [] rest
    → (b.finished ≡ true) × (b.buf ≡ []) × (stream c.reader ≡ rest)
whole_end b c rest true e f (empty, behind) = (e, sym empty, behind)
whole_end b c rest false e f h = cc

length-≢ : (p : Bytes) → p ≢ [] → 0 < length p
length-≢ [] h = absurd (h refl)
length-≢ (c ∷ p) h = omega arith

then_read_lem :
    (f room : ℕ) (next : BodyReader → Client → Option Bytes × BodyReader × Client)
    (text rest : Bytes) (x : ReadResult) (b : BodyReader) (c : Client)
    → ReadsOff room text rest (x, b, c)
    → length text < suc f
    → ((q : Bytes) → length q < f → Holds q rest (b, c) → IsWhole q rest (next b c))
    → IsWhole text rest (then_read next (x, b, c))
then_read_lem f room next text rest at_end b c (t, fin, holds) fuel ih =
    let (e, empty, behind) = whole_end b c rest b.finished refl fin holds in
    (ap some (sym t), e, empty, behind)
then_read_lem f room next text rest (bytes p) b c (ne, small, (q, split, holds)) fuel ih =
    let l : length p + length q < suc f = omega (arith, ap length split, length-append p q) in
    let (o, fin, empty, behind) = ih q (omega (arith, length-≢ p ne)) holds in
    (ap (λ u. u >>= λ v. some (p ++ v)) o ∙ ap some (sym split), fin, empty, behind)
then_read_lem f room next text rest (read_error e) b c h fuel ih = elim h [ ]

-- Reading a body to its end, by reads that have room for a byte at least: with one read more than
-- there are bytes it ends, and gives exactly the text, with exactly the bytes behind the response
-- left on the connection.
pub read_all-IsWhole :
    (f : ℕ) (rooms : ℕ → ℕ) (b : BodyReader) (c : Client) (text rest : Bytes)
    → ((n : ℕ) → 0 < rooms n)
    → length text < f
    → Holds text rest (b, c)
    → IsWhole text rest (read_all f rooms b c)
unfolding read_all
read_all-IsWhole zero rooms b c text rest h fuel holds = absurd (omega arith)
read_all-IsWhole (suc f) rooms b c text rest h fuel holds =
    let (x, b', c') = read (rooms f) b c in
    then_read_lem f (rooms f) (read_all f rooms) text rest x b' c'
      (read-ReadsOff (rooms f) b c text rest (h f) holds) fuel
      (λ q fuel' holds'. read_all-IsWhole f rooms b' c' q rest h fuel' holds')

-- A line that is read has taken some of the input.
got_line :
    (n : ℕ) (c : Client) (x : LineResult) (r : Reader) (line : Bytes)
    → Takes n (x, r)
    → line_result x ≡ done line
    → left r < n
got_line n c (got l) r line t h = t
got_line n c too_long r line t h = absurd (ground arith)
got_line n c (read_failed e) r line t h = absurd (ground arith)

read_line-takes :
    (c : Client) (line : Bytes)
    → (read_line c).0 ≡ done line
    → left (read_line c).1.reader < left c.reader
unfolding read_line
read_line-takes c line h =
    let (x, r) = Wire.read_line c.max_line c.reader in
    got_line (left c.reader) c x r line (read_line-Takes c.max_line c.reader) h

drop_line_lem :
    (next : BodyReader → Client → Result (Unit {0}) × BodyReader × Client) (b : BodyReader)
    (x : Result Bytes) (c : Client)
    → ((line : Bytes) → x ≡ done line → (next b c).1.finished ≡ true)
    → (drop_line next b (x, c)).1.finished ≡ true
unfolding drop_line
drop_line_lem next b (err e) c h = refl
drop_line_lem next b (done line) c h = ground (arith, h line refl)

-- A body that has been read to its end is closed as it is.
unless_finished :
    (b : BodyReader) (c : Client) (x : Result (Unit {0}) × BodyReader × Client) (fin : Bool)
    → b.finished ≡ fin
    → x.1.finished ≡ true
    → (if fin then (done tt, b, c) else x).1.finished ≡ true
unless_finished b c x true e h = e
unless_finished b c x false e h = h

close_loop_lem :
    (f : ℕ) (b : BodyReader) (c : Client) → left c.reader < f → (close_loop f b c).1.finished ≡ true
unfolding close_loop
close_loop_lem zero b c fuel = absurd (omega arith)
close_loop_lem (suc f) b c fuel =
    let (x, c') = read_line c in
    unless_finished b c (drop_line (close_loop f) b (read_line c)) b.finished refl (
      drop_line_lem (close_loop f) b x c'
        (λ line e. close_loop_lem f b c' (omega (arith, read_line-takes c line e))))

-- The body is finished without an error, and what is left on the connection is `rest`.
abbrev pub IsClosed : Bytes → Client → Result (Unit {0}) × BodyReader × Client → Type 0
IsClosed rest c x =
    (x.0 ≡ done tt)
    × (x.1.finished ≡ true)
    × ((r : Reader) × (x.2 ≡ reading c r) × (stream r ≡ rest))

drain :
    (f : ℕ) (b : BodyReader) (c : Client) (s rest : Bytes) (ls : List Bytes)
    → b.finished ≡ false
    → Response c.max_line s ls rest
    → stream c.reader ≡ s
    → left c.reader < f
    → IsClosed rest c (close_loop f b c)
unfolding close_loop drop_line
drain zero b c s rest ls open' response e fuel = absurd (omega arith)
drain (suc f) b c s rest [] open' (ends {l = l} starts dot fits) e fuel =
    let (r, e', behind) = read_line-Reads c l rest (ap break_lf e ∙ starts) fits in
    rw (open', e', dot) (refl, refl, (r, refl, behind))
drain (suc f) b c s rest (text ∷ ls) open' (more {l = l} {s' = s'} starts dot fits text_e later) e
      fuel =
    let (r, e', behind) = read_line-Reads c l s' (ap break_lf e ∙ starts) fits in
    let takes = read_line-takes c (drop_cr l) (ap (λ x. x.0) e') in
    let fuel' : left r < f = omega (arith, takes, ap (λ x. left x.1.reader) e') in
    rw (open', e', dot)
      (drain f (record b { finished = false }) (reading c r) s' rest ls refl later behind fuel')

-- `Close` always ends with the body finished, whatever the connection delivers: the loop has all the
-- rounds that it wants.
pub close_ends : (b : BodyReader) (c : Client) → (close b c).1.finished ≡ true
unfolding close
close_ends b c = close_loop_lem (suc (left c.reader)) b c (omega arith)

close_finished :
    (f : ℕ) (b : BodyReader) (c : Client)
    → b.finished ≡ true
    → close_loop (suc f) b c ≡ (done tt, b, c)
unfolding close_loop
close_finished f b c e = rw e refl

-- `Close` of a body of which some text has not been handed out, or all of it has: it succeeds, the
-- body is finished, and the connection is left with exactly the bytes behind the response, so that
-- the next command reads its own response. Of the client, only the reader changes.
pub close-IsClosed :
    (b : BodyReader) (c : Client) (text rest : Bytes)
    → Holds text rest (b, c)
    → IsClosed rest c (close b c)
unfolding close
close-IsClosed b c text rest holds = from b.finished refl holds
  where
    from :
        (fin : Bool)
        → b.finished ≡ fin
        → Left c.max_line fin b.buf (stream c.reader) text rest
        → IsClosed rest c (close b c)
    from true e (t, behind) =
        subst (IsClosed rest c) (sym (close_finished (left c.reader) b c e))
          (refl, e, (c.reader, refl, behind))
    from false e (ls, t, response) =
        drain (suc (left c.reader)) b c (stream c.reader) rest ls e response refl (omega arith)
