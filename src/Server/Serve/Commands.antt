-- ===== src/Server/Serve/Commands.antt =====
-- One round of `serve` of pop3server/conn.go on a command that a client writes.
use go_pop.Prelude.{
  ℕ, suc, ◌+◌, ◌≤◌, Bool, false, ◌||◌, none, some, [], ◌∷◌, ◌++◌, length, take, drop, ltb, ◌==◌,
  ◌≡◌, ◌≢◌, refl, ap, sym, ◌∙◌, arith, All, append_assoc,
}
use mathlib.Core.Path.{subst}
use go_pop.Text.{Bytes, equal, to_upper, trim_space, fields, is_space}
use go_pop.Text.Fields.{Solid, trim_space-kept}
use go_pop.Server.Parse.{is_crlf, split_command, index_blank}
use go_pop.Server.Wire.{Reader, LineResult, got, read_line, break_lf}
use go_pop.Server.Wire.Stream.{stream}
use go_pop.Server.Wire.Lines.{IsLineOf, read_line-stream, StartsWith-text, drop_cr-text}
use go_pop.Server.Session.{Session}
use go_pop.Server.Conn.{Conn, Options, on_command}
use go_pop.Server.Dispatch.{dispatch}
use go_pop.Server.Serve.{round, round_of, run_command, settle}

index_blank-word :
    (verb raw : Bytes) → Solid verb → index_blank (verb ++ b' ' ∷ raw) ≡ some (length verb)
unfolding index_blank is_space
index_blank-word [] raw h = refl
index_blank-word (c ∷ verb) raw (hc, h) =
    let k : (c == b' ' || c == b'\t') ≡ false = ground arith in
    rw (k, index_blank-word verb raw h) refl

take-length : (a b : Bytes) → take (length a) (a ++ b) ≡ a
take-length [] b = refl
take-length (c ∷ a) b = ap (◌∷◌ c) (take-length a b)

drop-length : (a : Bytes) (c : ℕ) (b : Bytes) → drop (suc (length a)) (a ++ c ∷ b) ≡ b
drop-length [] c b = refl
drop-length (x ∷ a) c b = drop-length a c b

-- A verb with no white space, one blank, and the argument.
pub split_command-verb :
    (verb raw : Bytes) → Solid verb → split_command (verb ++ b' ' ∷ raw) ≡ (verb, raw)
unfolding split_command
split_command-verb verb raw h =
    rw (index_blank-word verb raw h, split_command)
      (let one : length verb + 1 ≡ suc (length verb) = omega arith in
        rw one (λ i. (take-length verb (b' ' ∷ raw) i, drop-length verb b' ' raw i)))

module _ {S : Type 0} (iface : Session S) (opts : Options S) where
  -- What a round does with a verb and its argument.
  abbrev pub obeyed : Bytes → Bytes → Conn S → Conn S × Bool
  obeyed verb raw c =
      let (d, quit) =
        dispatch iface opts (to_upper verb) (fields raw)
          (record c { raw_arg = raw; last_err = none }) in
      settle iface opts
        (record d { hooks = d.hooks ++ on_command (to_upper verb) d.last_err ∷ [] }, quit)

  run_command-verb :
      (verb raw : Bytes) (c : Conn S)
      → Solid verb
      → run_command iface opts (verb ++ b' ' ∷ raw) c ≡ obeyed verb raw c
  unfolding run_command
  run_command-verb verb raw c h = rw (split_command-verb verb raw h) refl

  round_got :
      (line rest : Bytes) (c : Conn S) (x : LineResult × Reader)
      → IsLineOf opts.max_line_length line rest x
      → length line ≤ opts.max_line_length
      → trim_space line ≡ line
      → equal line [] ≡ false
      → (r : Reader) × (round_of iface opts x.0 (record c { reader = x.1 })
          ≡ run_command iface opts line (record c { reader = r }))
        × (stream r ≡ rest)
  unfolding round_of
  round_got line rest c (x, r) h small trimmed ne =
      let within : ltb opts.max_line_length (length line) ≡ false = ground arith in
      let (e, behind) : (x ≡ got line) × (stream r ≡ rest) = rw within at h in
      (r, rw (e, trimmed, ne) refl, behind)

  -- A round on a line that is a verb and an argument, where white space is none in the verb and
  -- none at the end of the argument.
  pub round-obeyed :
      (first : ℕ) (verb arg last rest : Bytes) (c : Conn S)
      → let line = (first ∷ verb) ++ b' ' ∷ (arg ++ last) in
        Solid (first ∷ verb)
        → Solid last
        → last ≢ []
        → All (λ b. is_crlf b ≡ false) line
        → length line ≤ opts.max_line_length
        → stream c.reader ≡ line ++ b'\r' ∷ b'\n' ∷ rest
        → (r : Reader) × (round iface opts c
            ≡ obeyed (first ∷ verb) (arg ++ last) (record c { reader = r }))
          × (stream r ≡ rest)
  unfolding round
  round-obeyed first verb arg last rest c solid solid' ne clean small e =
      let line = (first ∷ verb) ++ b' ' ∷ (arg ++ last) in
      let same : line ≡ first ∷ ((verb ++ b' ' ∷ arg) ++ last) =
        ap (◌∷◌ first) (sym (append_assoc verb (b' ' ∷ arg) last)) in
      let text = drop_cr-text line in
      let read' =
        read_line-stream opts.max_line_length c.reader (line ++ b'\r' ∷ []) rest
          (ap break_lf e ∙ StartsWith-text line rest clean) in
      let trimmed =
        ap trim_space same
        ∙ trim_space-kept first (verb ++ b' ' ∷ arg) last solid.0 solid' ne
        ∙ sym same in
      let (r, does, behind) =
        round_got line rest c (read_line opts.max_line_length c.reader)
          (subst
            (λ l. IsLineOf opts.max_line_length l rest (read_line opts.max_line_length c.reader))
            text read')
          small trimmed (unfold equal in refl) in
      (
        r,
        does ∙ run_command-verb (first ∷ verb) (arg ++ last) (record c { reader = r }) solid,
        behind,
      )
