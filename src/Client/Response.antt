-- ===== src/Client/Response.antt =====
-- `readLine` and `readMultiLine` of pop3client/client.go on what a server sends.
use go_pop.Prelude.{
  ℕ, zero, suc, ◌+◌, ◌≤◌, ◌<◌, true, false, Bool-cases, inl, inr, List, [], ◌∷◌, ◌++◌, length,
  length-append, ltb, if◌then◌else◌, ◌≡◌, refl, ap, ◌∙◌, arith, append_assoc, append-nil,
}
use go_pop.Text.{Bytes, codes, equal}
use go_pop.Server.Wire.{break_lf, drop_cr, Reader}
use go_pop.Server.Wire
use go_pop.Server.Wire.Stream.{stream, StartsWith}
use go_pop.Server.Wire.Lines.{IsLineOf, read_line-stream}
use go_pop.Client.{
  Client, Result, done, err, response_too_long, line_result, read_line, unstuff_line, take_line,
  read_multi_loop, read_multi_line,
}

abbrev pub reading : Client → Reader → Client
reading c r = record c { reader = r }

-- The operation succeeds with `a`, has only read, and leaves the bytes `rest` to be read.
abbrev pub Reads : {A : Type 0} → Client → A → Bytes → Result A × Client → Type 0
Reads c a rest x = (r : Reader) × (x ≡ (done a, reading c r)) × (stream r ≡ rest)

read_line_found :
    (c : Client) (l rest : Bytes) (x : Wire.LineResult × Reader)
    → IsLineOf c.max_line (drop_cr l) rest x
    → length (drop_cr l) ≤ c.max_line
    → Reads c (drop_cr l) rest (line_result x.0, reading c x.1)
read_line_found c l rest (x, r) h fits =
    let within : ltb c.max_line (length (drop_cr l)) ≡ false = ground arith in
    let (e, behind) : (x ≡ Wire.got (drop_cr l)) × (stream r ≡ rest) = rw within at h in
    (r, rw e refl, behind)

-- A line within the bound is read whole, and what is behind it is left.
pub read_line-Reads :
    (c : Client) (l rest : Bytes)
    → StartsWith (stream c.reader) l rest
    → length (drop_cr l) ≤ c.max_line
    → Reads c (drop_cr l) rest (read_line c)
unfolding read_line
read_line-Reads c l rest h fits =
    let (x, r) = Wire.read_line c.max_line c.reader in
    read_line_found c l rest (x, r) (read_line-stream c.max_line c.reader l rest h) fits

-- The bytes start with a multi-line response, no line of it above the bound: its lines without
-- byte-stuffing, and the bytes behind it.
pub data Response (max_line : ℕ) : Bytes → List Bytes → Bytes → Type 0 where
  ends :
      {s l rest : Bytes}
      → StartsWith s l rest
      → equal (drop_cr l) (codes ".") ≡ true
      → length (drop_cr l) ≤ max_line
      → Response max_line s [] rest
  more :
      {s l s' text rest : Bytes} {ls : List Bytes}
      → StartsWith s l s'
      → equal (drop_cr l) (codes ".") ≡ false
      → length (drop_cr l) ≤ max_line
      → unstuff_line (drop_cr l) ≡ text
      → Response max_line s' ls rest
      → Response max_line s (text ∷ ls) rest

-- All lines, or the refusal of too many.
abbrev pub ReadsLines : Client → List Bytes → Bytes → Result (List Bytes) × Client → Type 0
ReadsLines c ls rest x =
    if ltb c.max_resp_lines (length ls) then x.0 ≡ err response_too_long else Reads c ls rest x

read_multi_loop_lem :
    (f : ℕ) (lines : List Bytes) (c : Client) (s rest : Bytes) (ls : List Bytes)
    → Response c.max_line s ls rest
    → stream c.reader ≡ s
    → length lines ≤ c.max_resp_lines
    → c.max_resp_lines < length lines + f
    → ReadsLines c (lines ++ ls) rest (read_multi_loop f lines c)
unfolding read_multi_loop take_line
read_multi_loop_lem zero lines c s rest ls h e small fuel = absurd (omega arith)
read_multi_loop_lem (suc f) lines c s rest [] (ends {l = l} h dot fits) e small fuel =
    let (r, e', behind) = read_line-Reads c l rest (ap break_lf e ∙ h) fits in
    let within : ltb c.max_resp_lines (length (lines ++ [])) ≡ false =
      ground (arith, length-append lines []) in
    rw (within, e', dot) (r, rw (append-nil lines) refl, behind)
read_multi_loop_lem (suc f) lines c s rest (text ∷ ls)
      (more {l = l} {s' = s'} h dot fits text_e later) e small fuel =
    let (r, e', behind) = read_line-Reads c l s' (ap break_lf e ∙ h) fits in
    let lines' = lines ++ text ∷ [] in
    let l1 = length-append lines (text ∷ []) in
    let l2 = length-append lines (text ∷ ls) in
    rw (e', dot, text_e)
      (elim (Bool-cases (ltb c.max_resp_lines (length lines'))) [
        | inl over ↦
            let over' : ltb c.max_resp_lines (length (lines ++ text ∷ ls)) ≡ true = ground arith in
            rw (over, over') refl
        | inr within ↦
            let ih =
              read_multi_loop_lem f lines' (reading c r) s' rest ls later behind (ground arith)
                (omega arith) in
            rw within (rw (append_assoc lines (text ∷ []) ls) at ih)
      ])

-- Of a stream that starts with a multi-line response with no line above the bound, the client
-- returns exactly its lines without byte-stuffing, and leaves exactly the bytes behind it, if there
-- are not more lines than it accepts; else it returns an error.
pub read_multi_line_lem :
    (c : Client) (rest : Bytes) (ls : List Bytes)
    → Response c.max_line (stream c.reader) ls rest
    → ReadsLines c ls rest (read_multi_line c)
unfolding read_multi_line
read_multi_line_lem c rest ls h =
    read_multi_loop_lem (suc c.max_resp_lines) [] c (stream c.reader) rest ls h refl (omega arith)
      (omega arith)
