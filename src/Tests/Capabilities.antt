-- ===== src/Tests/Capabilities.antt =====
-- Examples for CAPA.
use go_pop.Prelude.{
  some, if◌then◌else◌, true, false, [], ◌∷◌, ◌++◌, map, length, ◌≤◌, ◌≡◌, refl, arith,
}
use go_pop.Text.{Bytes, codes, join}
use go_pop.DotStuff.Spec.{terminator}
use go_pop.Server.Wire.{arrives}
use go_pop.Server.Wire.Stream.{arriving}
use go_pop.Server.Conn.{Conn, authorization, auth_allowed}
use go_pop.Server.Maildrop.{crlf}
use go_pop.Server.Maildrop.Listing.{lines_of}
use go_pop.Server.Extensions.{suppressed_in, cap_suppressed, handle_capa}
use go_pop.Server.Extensions.Capabilities.{cap_text, advertised, select, visible, capa-contents}
use go_pop.Server.Dispatch.{user, dispatch_auth}
use go_pop.Server.Dispatch.States.{IsRefused}
use go_pop.Server.Dispatch.Offered.{relies_on}
use go_pop.Server.Dispatch.Taken.{Taken}
use go_pop.Server.Parse.{contains_ctl}
use go_pop.Client.Offers.{lists, capa-IsHonest}
use go_pop.Mem.Interface.{State, mem_session}
use go_pop.Client.{Client, done, capa}
use go_pop.Client.Receiver.{fits}
use go_pop.Client.Listing.{IsGiven}
use go_pop.Client.Capabilities.{capa-handle_capa}
use go_pop.Tests.{logged_in, test_options, connection}
use go_pop.Tests.Client.{client_on}

abbrev secure : Conn State
secure = connection authorization true logged_in

abbrev sent_capa : Bytes
sent_capa =
    codes "+OK Capability list follows\r\n"
    ++ (lines_of (λ k. cap_text k ++ crlf) (advertised mem_session test_options secure)
        ++ terminator)

abbrev capa_reader : Client
capa_reader = record (client_on (arrives sent_capa ∷ [])) { max_resp_lines = 9 }

test_capa :
    map cap_text (advertised mem_session test_options secure)
    ≡ codes "TOP"
      ∷ codes "UIDL"
      ∷ codes "USER"
      ∷ codes "RESP-CODES"
      ∷ codes "PIPELINING"
      ∷ codes "SASL PLAIN"
      ∷ []
unfolding visible select cap_text auth_allowed suppressed_in cap_suppressed join
test_capa = refl

capa_short : fits 4096 0 sent_capa ≡ true
unfolding fits visible select cap_text auth_allowed suppressed_in cap_suppressed join
capa_short = refl

few_capa : length (advertised mem_session test_options secure) ≤ 9
unfolding visible select auth_allowed suppressed_in cap_suppressed
few_capa = omega arith

capa-handle_capa_example :
    IsGiven
      (codes "CAPA")
      (map cap_text (advertised mem_session test_options secure))
      []
      capa_reader
      (capa capa_reader)
unfolding arriving
capa-handle_capa_example =
    capa-handle_capa mem_session test_options secure capa_reader sent_capa [] (refl, tt) (refl, tt)
      (capa-contents mem_session test_options secure (refl, tt)) refl
      ((refl, (refl, (refl, (refl, (refl, tt))))), tt) tt capa_short few_capa

capa_got : (capa capa_reader).0 ≡ done (map cap_text (advertised mem_session test_options secure))
unfolding arriving
capa_got =
    (capa-handle_capa mem_session test_options secure capa_reader sent_capa [] (refl, tt) (refl, tt)
      (capa-contents mem_session test_options secure (refl, tt)) refl
      ((refl, (refl, (refl, (refl, (refl, tt))))), tt) tt capa_short few_capa).0

relies : relies_on user (codes "ann" ∷ []) ≡ some (codes "USER")
unfolding contains_ctl
relies = refl

free : cap_suppressed mem_session test_options (codes "USER") ≡ false
unfolding cap_suppressed suppressed_in
free = refl

no_own : lists (codes "USER") (map cap_text test_options.caps) ≡ false
unfolding lists
no_own = refl

capa-IsHonest_example :
    let c = handle_capa mem_session test_options secure in
    let d = dispatch_auth mem_session test_options user (codes "USER") (codes "ann" ∷ []) c in
    if lists (codes "USER") (map cap_text (advertised mem_session test_options secure))
    then Taken mem_session test_options user c d.0
    else IsRefused mem_session test_options c d
unfolding arriving
capa-IsHonest_example =
    capa-IsHonest mem_session test_options user (codes "USER") (codes "USER") (codes "ann" ∷ [])
      secure capa_reader sent_capa [] (map cap_text (advertised mem_session test_options secure))
      (refl, tt) (refl, tt) (capa-contents mem_session test_options secure (refl, tt)) refl
      ((refl, (refl, (refl, (refl, (refl, tt))))), tt) tt capa_short few_capa capa_got refl refl
      relies free no_own
