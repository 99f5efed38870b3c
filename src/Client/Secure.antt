-- ===== src/Client/Secure.antt =====
-- `Dial` and `startTLS` of pop3client/client.go: what a client that has been dialed rests on.
use go_pop.Prelude.{
  ℕ, zero, suc, ◌<◌, pos, negsuc, ℤ, Bool, true, false, Bool-cases, Option, none, some,
  Option-cases, inl, inr, List, [], ◌≡◌, refl, ap, sym, ◌∙◌, arith,
}
use mathlib.Core.Path.{subst}
use go_pop.Text.{Bytes, codes}
use go_pop.Server.Wire.{
  Reader, new_reader, Segment, Writer, new_writer, put, flush, LineResult, got, too_long,
  read_failed,
}
use go_pop.Server.Wire
use go_pop.Client.{
  Client, Result, done, err, Action, go_on, ◌>>=◌, give, is_ok, expect_ok, write_cmd, read_line,
  cmd, cmd_expect_ok, Handshake, upgrade, start_tls, Options, Dialed, dialed, unreachable, hung_up,
  limit_or, wrap, upgrade_if, new_client, greet, hung_up_on_error, dial,
}

-- Greeting and limits, which the commands leave alone.
abbrev pub settings : Client → Bytes × ℕ × ℕ
settings c = (c.greeting, c.max_line, c.max_resp_lines)

-- An action that keeps them.
Keeps : {A : Type 0} → Action A → Type 0
Keeps m = (c : Client) → settings (m c).1 ≡ settings c

module _ {A B : Type 0} where
  >>=-Keeps :
      (m : Action A) (k : A → Action B) → Keeps m → ((a : A) → Keeps (k a)) → Keeps (m >>= k)
  unfolding Keeps
  >>=-Keeps m k hm hk c = go (m c) (hm c)
    where
      go : (x : Result A × Client) → settings x.1 ≡ settings c → settings (go_on x k).1 ≡ settings c
      go (done a, c') h = hk a c' ∙ h
      go (err e, c') h = h

write_cmd-Keeps : (line : Bytes) → Keeps (write_cmd line)
unfolding Keeps write_cmd
write_cmd-Keeps line c = ground arith

read_line-Keeps : Keeps read_line
unfolding Keeps read_line
read_line-Keeps c = refl

give-Keeps : {A : Type 0} (r : Result A) → Keeps (give r)
unfolding Keeps
give-Keeps r c = refl

cmd_expect_ok-Keeps : (line : Bytes) → Keeps (cmd_expect_ok line)
unfolding cmd_expect_ok cmd
cmd_expect_ok-Keeps line =
    >>=-Keeps (cmd line) (λ status. give (expect_ok status))
      (>>=-Keeps (write_cmd line) (λ _. read_line) (write_cmd-Keeps line) (λ _. read_line-Keeps))
      (λ status. give-Keeps (expect_ok status))

-- The client is behind a completed handshake: what it reads next, and whether its writes succeed, is
-- what the handshake has given, and nothing of what was read before.
abbrev pub IsFresh : Handshake → Client → Type 0
IsFresh handshake c =
    (net : List Segment) × (incoming : List Segment) × (link : List Bool) × (handshake net
      ≡ some (incoming, link))
    × (c.reader ≡ new_reader incoming)
    × (c.writer.pending ≡ [])
    × (c.writer.link ≡ link)

-- A property of the client behind a success.
abbrev Then : (Client → Type 0) → Result (Unit {0}) × Client → Type 0
Then P (done _, c) = P c
Then P (err e, c) = Unit

go_on-Then :
    {A : Type 0} (P : Client → Type 0) (x : Result A × Client) (k : A → Action (Unit {0}))
    → ((a : A) → x.0 ≡ done a → Then P (k a x.1))
    → Then P (go_on x k)
go_on-Then P (done a, c) k h = h a refl
go_on-Then P (err e, c) k h = tt

abbrev Set : Bytes × ℕ × ℕ → Client → Type 0
Set t c = settings c ≡ t

upgrade-IsFresh :
    (handshake : Handshake) (c : Client)
    → Then (λ d. IsFresh handshake d × Set (settings c) d) (upgrade handshake c)
unfolding upgrade
upgrade-IsFresh handshake c = elim (Option-cases (handshake c.reader.incoming)) [
  | inl e ↦ rw (e, upgrade) tt
  | inr ((incoming, link), e) ↦
      rw (e, upgrade) ((c.reader.incoming, incoming, link, e, refl, refl, refl), refl)
]

-- After STLS the client goes on only behind a completed handshake, and what the server may have sent
-- in plain text behind its "+OK" is gone.
start_tls-IsFresh :
    (handshake : Handshake) (c : Client)
    → Then (λ d. IsFresh handshake d × Set (settings c) d) (start_tls handshake c)
unfolding start_tls Keeps
start_tls-IsFresh handshake c =
    go_on-Then (λ d. IsFresh handshake d × Set (settings c) d) (cmd_expect_ok (codes "STLS") c)
      (λ _. upgrade handshake)
      (λ _ e.
        subst
          (λ t.
            Then (λ d. IsFresh handshake d × Set t d)
              (upgrade handshake (cmd_expect_ok (codes "STLS") c).1))
          (cmd_expect_ok-Keeps (codes "STLS") c)
          (upgrade-IsFresh handshake (cmd_expect_ok (codes "STLS") c).1))

-- With TLS from the start, the greeting has been read from what the handshake has given.
abbrev pub IsWrapped : Handshake → Client → Type 0
IsWrapped handshake c =
    (net : List Segment) × (incoming : List Segment) × (link : List Bool) × (handshake net
      ≡ some (incoming, link))
    × (c.reader ≡ (Wire.read_line c.max_line (new_reader incoming)).1)
    × (c.writer ≡ new_writer link)

-- What TLS as configured demands of a client.
abbrev pub Protected : Option Handshake → Bool → Client → Type 0
Protected none starttls c = Unit
Protected (some handshake) true c = IsFresh handshake c
Protected (some handshake) false c = IsWrapped handshake c

abbrev pub Dials : Options → Dialed → Type 0
Dials opts (dialed c) =
    Protected opts.tls_config opts.starttls c
    × (is_ok c.greeting ≡ true)
    × (0 < c.max_line)
    × (0 < c.max_resp_lines)
Dials opts unreachable = Unit
Dials opts (hung_up e sent) = Unit

limit_or-positive : (default : ℕ) (z : ℤ) → 0 < default → 0 < limit_or default z
limit_or-positive default (pos zero) h = h
limit_or-positive default (pos (suc n)) h = omega arith
limit_or-positive default (negsuc n) h = h

-- The upgrade of a client that has read its greeting from `incoming`.
upgrade_if-Protected :
    (config : Option Handshake) (starttls : Bool) (raw conn : List Segment × List Bool) (c : Client)
    → wrap config starttls raw ≡ some conn
    → c.reader ≡ (Wire.read_line c.max_line (new_reader conn.0)).1
    → c.writer ≡ new_writer conn.1
    → Then (λ d. Protected config starttls d × Set (settings c) d) (upgrade_if config starttls c)
unfolding upgrade_if
upgrade_if-Protected none starttls raw conn c h r w = (tt, refl)
upgrade_if-Protected (some handshake) true raw conn c h r w = start_tls-IsFresh handshake c
upgrade_if-Protected (some handshake) false raw conn c h r w =
    ((raw.0, conn.0, conn.1, h, r, w), refl)

Then-mono :
    (P Q : Client → Type 0) (x : Result (Unit {0}) × Client)
    → ((c : Client) → P c → Q c)
    → Then P x
    → Then Q x
Then-mono P Q (done _, c) f h = f c h
Then-mono P Q (err e, c) f h = tt

-- The dialed client's properties, from its greeting and its limits.
abbrev Greeted : Options → Client → Type 0
Greeted opts c =
    Protected opts.tls_config opts.starttls c
    × (is_ok c.greeting ≡ true)
    × (0 < c.max_line)
    × (0 < c.max_resp_lines)

from_settings :
    (opts : Options) (line : Bytes) (max_line max_resp_lines : ℕ) (c : Client)
    → is_ok line ≡ true
    → 0 < max_line
    → 0 < max_resp_lines
    → Protected opts.tls_config opts.starttls c × Set (line, max_line, max_resp_lines) c
    → Greeted opts c
from_settings opts line max_line max_resp_lines c positive h1 h2 (protected, e) = (
  protected,
  ap (λ t. is_ok (t.0)) e ∙ positive,
  subst (λ n. 0 < n) (sym (ap (λ t. t.1) e)) h1,
  subst (λ n. 0 < n) (sym (ap (λ t. t.2) e)) h2,
)

greet-Greeted :
    (opts : Options) (raw conn : List Segment × List Bool)
    → wrap opts.tls_config opts.starttls raw ≡ some conn
    → Then (Greeted opts) (greet opts (new_client opts conn))
unfolding greet read_line
greet-Greeted opts raw conn h =
    let c0 = new_client opts conn in
    let (x, r) = Wire.read_line c0.max_line c0.reader in
    let h1 = limit_or-positive 4096 opts.max_line_length (omega arith) in
    let h2 = limit_or-positive 100000 opts.max_response_lines (omega arith) in
    go_on-Then (Greeted opts) (read_line c0) _ λ line _. elim (Bool-cases (is_ok line)) [
      | inr n ↦ rw n tt
      | inl positive ↦ rw positive (
          Then-mono _ (Greeted opts)
            (upgrade_if opts.tls_config opts.starttls (record c0 { reader = r; greeting = line }))
            (λ d. from_settings opts line c0.max_line c0.max_resp_lines d positive h1 h2)
            (upgrade_if-Protected opts.tls_config opts.starttls raw conn
              (record c0 { reader = r; greeting = line }) h refl refl))
    ]

returned :
    (opts : Options) (x : Result (Unit {0}) × Client)
    → Then (Greeted opts) x
    → Dials opts (hung_up_on_error x)
returned opts (done _, c) h = h
returned opts (err e, c) h = tt

-- Whatever the network and the server do: a client that `Dial` returns has a greeting that starts with
-- "+OK" and limits above zero. With TLS configured, a handshake has been completed: with STARTTLS,
-- everything that the client reads from then on comes from it, and nothing that was sent in plain text
-- before is left in the buffer; without, the greeting too has been read from what it has given.
pub dial-Dials :
    (opts : Options) (conn : Option (List Segment × List Bool)) → Dials opts (dial opts conn)
unfolding dial
dial-Dials opts none = tt
dial-Dials opts (some raw) = elim (Option-cases (wrap opts.tls_config opts.starttls raw)) [
  | inl e ↦ rw (e, dial) tt
  | inr (conn, e) ↦
      rw (e, dial)
        (returned opts (greet opts (new_client opts conn)) (greet-Greeted opts raw conn e))
]
