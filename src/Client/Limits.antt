-- ===== src/Client/Limits.antt =====
-- The limits of `readMultiLine` of pop3client/client.go, whatever a server sends.
use go_pop.Prelude.{
  ℕ, zero, suc, ◌+◌, ◌≤◌, ◌<◌, Bool-cases, inl, inr, List, [], ◌∷◌, ◌++◌, length, length-append,
  ltb, ◌≡◌, refl, arith, All, All-append,
}
use go_pop.Text.{Bytes, codes, equal}
use go_pop.Server.Wire.{Reader, LineResult, got, too_long, read_failed}
use go_pop.Server.Wire
use go_pop.Server.Wire.Reading.{Bounded, read_line_lem}
use go_pop.Client.{
  Client, Result, done, err, Action, go_on, line_result, read_line, unstuff_line, take_line,
  read_multi_loop, read_multi_line,
}
use go_pop.Client.Response.{reading}

-- Lines that the client's limits allow.
abbrev pub Within : ℕ → ℕ → List Bytes → Type 0
Within max_line max_resp_lines ls = All (λ l. length l ≤ max_line) ls × (length ls ≤ max_resp_lines)

abbrev pub Limited : ℕ → ℕ → Result (List Bytes) → Type 0
Limited max_line max_resp_lines (done ls) = Within max_line max_resp_lines ls
Limited max_line max_resp_lines (err e) = Unit

unstuff_line-length : (l : Bytes) → length (unstuff_line l) ≤ length l
unfolding unstuff_line
unstuff_line-length [] = omega arith
unstuff_line-length (c ∷ l) = ground arith

take_line-Limited :
    (lines : List Bytes) (next : List Bytes → Action (List Bytes)) (line : Bytes) (c : Client)
    → Within c.max_line c.max_resp_lines lines
    → length line ≤ c.max_line
    → ((lines' : List Bytes)
        → Within c.max_line c.max_resp_lines lines'
        → Limited c.max_line c.max_resp_lines (next lines' c).0)
    → Limited c.max_line c.max_resp_lines (take_line lines next line c).0
unfolding take_line
take_line-Limited lines next line c (all, few) small ih =
    let lines' = lines ++ unstuff_line line ∷ [] in
    let all' =
      All-append (λ l. length l ≤ c.max_line) lines (unstuff_line line ∷ []) all
        (omega (arith, unstuff_line-length line), tt) in
    elim (Bool-cases (equal line (codes "."))) [
      | inl dot ↦ rw dot (all, few)
      | inr n ↦ elim (Bool-cases (ltb c.max_resp_lines (length lines'))) [
        | inl over ↦ rw (n, over) tt
        | inr fits ↦ rw (n, fits) (ih lines' (all', ground arith))
      ]
    ]

-- A line that is read is within the bound.
after_line :
    (lines : List Bytes) (next : List Bytes → Action (List Bytes)) (c : Client) (x : LineResult)
    (r : Reader)
    → Within c.max_line c.max_resp_lines lines
    → Bounded c.max_line x
    → ((lines' : List Bytes)
        → Within c.max_line c.max_resp_lines lines'
        → Limited c.max_line c.max_resp_lines (next lines' (reading c r)).0)
    → Limited c.max_line c.max_resp_lines
        (go_on (line_result x, reading c r) (take_line lines next)).0
after_line lines next c (got line) r within small ih =
    take_line-Limited lines next line (reading c r) within small ih
after_line lines next c too_long r within small ih = tt
after_line lines next c (read_failed e) r within small ih = tt

read_multi_loop-Limited :
    (f : ℕ) (lines : List Bytes) (c : Client)
    → Within c.max_line c.max_resp_lines lines
    → Limited c.max_line c.max_resp_lines (read_multi_loop f lines c).0
unfolding read_multi_loop read_line
read_multi_loop-Limited zero lines c within = tt
read_multi_loop-Limited (suc f) lines c within =
    let (x, r) = Wire.read_line c.max_line c.reader in
    after_line lines (read_multi_loop f) c x r within (read_line_lem c.max_line 0 c.reader).0
      (λ lines' h. read_multi_loop-Limited f lines' (reading c r) h)

take_line-same :
    (lines : List Bytes) (next next' : List Bytes → Action (List Bytes)) (line : Bytes) (c : Client)
    → (length lines < c.max_resp_lines
        → next (lines ++ unstuff_line line ∷ []) c ≡ next' (lines ++ unstuff_line line ∷ []) c)
    → take_line lines next line c ≡ take_line lines next' line c
unfolding take_line
take_line-same lines next next' line c h =
    let lines' = lines ++ unstuff_line line ∷ [] in
    elim (Bool-cases (ltb c.max_resp_lines (length lines'))) [
      | inl over ↦ rw over refl
      | inr fits ↦
          let e = h (ground (arith, length-append lines (unstuff_line line ∷ []))) in
          rw (fits, e) refl
    ]

same_after_line :
    (lines : List Bytes) (next next' : List Bytes → Action (List Bytes)) (c : Client)
    (x : LineResult) (r : Reader)
    → ((line : Bytes)
        → length lines < c.max_resp_lines
        → next (lines ++ unstuff_line line ∷ []) (reading c r)
          ≡ next' (lines ++ unstuff_line line ∷ []) (reading c r))
    → go_on (line_result x, reading c r) (take_line lines next)
      ≡ go_on (line_result x, reading c r) (take_line lines next')
same_after_line lines next next' c (got line) r h =
    take_line-same lines next next' line (reading c r) (h line)
same_after_line lines next next' c too_long r h = refl
same_after_line lines next next' c (read_failed e) r h = refl

read_multi_loop_fuel :
    (f g : ℕ) (lines : List Bytes) (c : Client)
    → length lines ≤ c.max_resp_lines
    → c.max_resp_lines < length lines + f
    → c.max_resp_lines < length lines + g
    → read_multi_loop f lines c ≡ read_multi_loop g lines c
unfolding read_multi_loop read_line
read_multi_loop_fuel zero g lines c h hf hg = absurd (omega arith)
read_multi_loop_fuel (suc f) zero lines c h hf hg = absurd (omega arith)
read_multi_loop_fuel (suc f) (suc g) lines c h hf hg =
    let (x, r) = Wire.read_line c.max_line c.reader in
    same_after_line lines (read_multi_loop f) (read_multi_loop g) c x r (λ line few.
      let l = length-append lines (unstuff_line line ∷ []) in
      read_multi_loop_fuel f g (lines ++ unstuff_line line ∷ []) (reading c r) (omega arith)
        (omega arith) (omega arith))

-- Whatever the server sends: a multi-line response that the client returns has no more lines than its
-- limit, and no line above the bound on one. And the loop has made all the rounds that it wants: with any
-- more fuel the result and the client left behind are the same.
pub read_multi_line-Limited :
    (c : Client) (more : ℕ)
    → Limited c.max_line c.max_resp_lines (read_multi_line c).0
      × (read_multi_loop (suc c.max_resp_lines + more) [] c ≡ read_multi_line c)
unfolding read_multi_line
read_multi_line-Limited c more = (
  read_multi_loop-Limited (suc c.max_resp_lines) [] c (tt, omega arith),
  read_multi_loop_fuel (suc c.max_resp_lines + more) (suc c.max_resp_lines) [] c (omega arith)
      (omega arith) (omega arith),
)
