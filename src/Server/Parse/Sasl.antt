-- ===== src/Server/Parse/Sasl.antt =====
-- SASL PLAIN: what the server decodes from what a client encodes.
use go_pop.Prelude.{
  ℕ, false, List, [], ◌∷◌, ◌++◌, ◌==◌, ◌≡◌, refl, ap, sym, ◌∙◌, arith, All, append_assoc,
  append-nil,
}
use go_pop.Text.{Bytes}
use go_pop.Base64.{encode_base64}
use go_pop.Base64.RoundTrip.{IsByte, decode-encode}
use go_pop.Server.Parse.{
  split_null_loop, split_null, contains_ctl, plain_login, sasl_parts, decode_sasl_plain,
}

abbrev pub Lacks : ℕ → Bytes → Type 0
Lacks b = All (λ c. (c == b) ≡ false)

-- A piece with no NUL joins the current part.
loop-append :
    (p rest : Bytes) (parts : List Bytes) (cur : Bytes)
    → Lacks 0 p
    → split_null_loop parts cur (p ++ rest) ≡ split_null_loop parts (cur ++ p) rest
unfolding split_null_loop
loop-append [] rest parts cur h = rw append-nil
loop-append (c ∷ p) rest parts cur (hc, h) =
    rw (hc, split_null_loop) (loop-append p rest parts (cur ++ c ∷ []) h ∙ rw append_assoc)

split_end :
    (p : Bytes) (parts : List Bytes) → Lacks 0 p → split_null_loop parts [] p ≡ parts ++ p ∷ []
split_end p parts h =
    ap (split_null_loop parts []) (sym (append-nil p))
    ∙ loop-append p [] parts [] h
    ∙ (unfold split_null_loop in refl)

no_nul : (s : Bytes) → contains_ctl s ≡ false → Lacks 0 s
unfolding contains_ctl
no_nul [] h = tt
no_nul (c ∷ s) h = ground (arith, no_nul s)

-- The payload of `AuthPlain` in pop3client/client.go.
abbrev pub payload : Bytes → Bytes → Bytes → Bytes
payload identity username password = identity ++ 0 ∷ (username ++ 0 ∷ password)

split_null-payload :
    (i u p : Bytes)
    → Lacks 0 i
    → Lacks 0 u
    → Lacks 0 p
    → split_null (payload i u p) ≡ i ∷ u ∷ p ∷ []
unfolding split_null
split_null-payload i u p hi hu hp =
    loop-append i (0 ∷ (u ++ 0 ∷ p)) [] [] hi
    ∙ (unfold split_null_loop in loop-append u (0 ∷ p) (i ∷ []) [] hu)
    ∙ (unfold split_null_loop in split_end p (i ∷ u ∷ []) hp)

-- The credentials that a client sends by AUTH PLAIN are those that the server decodes, if no part
-- has a NUL in it and neither identity has a control character.
pub decode_sasl_plain-payload :
    (i u p : Bytes)
    → All IsByte (payload i u p)
    → Lacks 0 p
    → contains_ctl i ≡ false
    → contains_ctl u ≡ false
    → decode_sasl_plain (encode_base64 (payload i u p)) ≡ plain_login i u p
unfolding decode_sasl_plain
decode_sasl_plain-payload i u p bytes hp hi hu =
    rw (decode-encode (payload i u p) bytes, decode_sasl_plain)
      (rw (split_null-payload i u p (no_nul i hi) (no_nul u hu) hp)
        (unfold sasl_parts in rw (hi, hu)))
