-- ===== src/Client/Items.antt =====
-- parseNumSize and parseNumUID of pop3client/commands.go on the lines that the server sends.
use go_pop.Prelude.{
  suc, ℤ, pos, negsuc, some, [], ◌∷◌, ◌++◌, ◌≡◌, ◌≢◌, refl, ap, sym, ◌∙◌, arith, All, append_assoc,
}
use go_pop.Text.{Bytes, is_space}
use go_pop.Text.Fields.{Solid, fields-two}
use go_pop.Decimal.{format, format_int, parse_int64}
use go_pop.Decimal.Laws.{IsDigit, format_lem}
use go_pop.Decimal.RoundTrip.{IsInt64, parse_int64-format_int}
use go_pop.Protocol.{MessageInfo, MessageUidl}
use go_pop.Server.Parse.{sanitize_response, strip_crlf}
use go_pop.Server.Parse.Commands.{sanitize_response_lem}
use go_pop.Server.Maildrop.{crlf, info_line, uidl_line}
use go_pop.Client.Commands.{two_numbers, parse_num_size, number_and_uid, parse_num_uid}

abbrev pub IsWord : Bytes → Type 0
IsWord w = Solid w × (w ≢ [])

digits-Solid : (s : Bytes) → All IsDigit s → Solid s
unfolding is_space
digits-Solid [] h = tt
digits-Solid (c ∷ s) (d, h) = (ground arith, digits-Solid s h)

pub format_int-IsWord : (z : ℤ) → IsWord (format_int z)
unfolding format_int
format_int-IsWord (pos n) = let (all, _, ne) = format_lem n in (digits-Solid (format n) all, ne)
format_int-IsWord (negsuc n) =
    let (all, _, ne) = format_lem (suc n) in
    ((unfold is_space in refl, digits-Solid (format (suc n)) all), λ e. cc)

-- The lines of LIST and UIDL without their CRLF.
unfoldable pub info_text : MessageInfo → Bytes
info_text i = format_int i.num ++ b' ' ∷ format_int i.size

unfoldable pub uidl_text : MessageUidl → Bytes
uidl_text u = format_int u.num ++ b' ' ∷ u.unique_id

pub info_line-text : (i : MessageInfo) → info_line i ≡ info_text i ++ crlf
unfolding info_line info_text
info_line-text i = sym (append_assoc (format_int i.num) (b' ' ∷ format_int i.size) crlf)

-- What is a unique-id for RFC 1939: no white space, and not empty.
abbrev pub IsUid : MessageUidl → Type 0
IsUid u = Solid u.unique_id × (u.unique_id ≢ [])

strip_crlf-Solid : (s : Bytes) → Solid s → strip_crlf s ≡ s
unfolding strip_crlf is_space
strip_crlf-Solid [] h = refl
strip_crlf-Solid (c ∷ s) (hc, h) = ground (arith, strip_crlf-Solid s h)

sanitize-Solid : (s : Bytes) → Solid s → sanitize_response s ≡ s
sanitize-Solid s h = (sanitize_response_lem s).1 ∙ strip_crlf-Solid s h

pub uidl_line-text : (u : MessageUidl) → IsUid u → uidl_line u ≡ uidl_text u ++ crlf
unfolding uidl_line uidl_text
uidl_line-text u (h, _) =
    ap (λ t. format_int u.num ++ b' ' ∷ (t ++ crlf)) (sanitize-Solid u.unique_id h)
    ∙ sym (append_assoc (format_int u.num) (b' ' ∷ u.unique_id) crlf)

pub two_numbers_lem :
    (a b : Bytes) (x y : ℤ)
    → parse_int64 a ≡ some x
    → parse_int64 b ≡ some y
    → two_numbers (a ∷ b ∷ []) ≡ some (x, y)
unfolding two_numbers
two_numbers_lem a b x y ha hb = rw (ha, two_numbers, hb) refl

-- A LIST line for int64 numbers is read back by the client.
pub parse_num_size-info_text :
    (i : MessageInfo) → IsInt64 i.num → IsInt64 i.size → parse_num_size (info_text i) ≡ some i
unfolding parse_num_size info_text
parse_num_size-info_text i hn hs =
    let (sn, nn) = format_int-IsWord i.num in
    let (ss, ns) = format_int-IsWord i.size in
    let e =
      ap two_numbers (fields-two (format_int i.num) (format_int i.size) sn nn ss ns)
      ∙ two_numbers_lem (format_int i.num) (format_int i.size) i.num i.size
          (parse_int64-format_int i.num hn) (parse_int64-format_int i.size hs) in
    rw (e, parse_num_size) refl

number_and_uid_lem :
    (a uid : Bytes) (x : ℤ)
    → parse_int64 a ≡ some x
    → number_and_uid (a ∷ uid ∷ []) ≡ some (record { num = x; unique_id = uid })
unfolding number_and_uid
number_and_uid_lem a uid x ha = rw (ha, number_and_uid) refl

-- A UIDL line for an int64 number and a unique-id without white space is read back by the client.
pub parse_num_uid-uidl_text :
    (u : MessageUidl) → IsInt64 u.num → IsUid u → parse_num_uid (uidl_text u) ≡ some u
unfolding parse_num_uid uidl_text
parse_num_uid-uidl_text u hn (h, ne) =
    let (sn, nn) = format_int-IsWord u.num in
    ap number_and_uid (fields-two (format_int u.num) u.unique_id sn nn h ne)
    ∙ number_and_uid_lem (format_int u.num) u.unique_id u.num (parse_int64-format_int u.num hn)
