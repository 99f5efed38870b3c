-- ===== src/Server/Setup/Outcomes.antt =====
-- How a connection ends that `handleConn` of pop3server/server.go handles.
use go_pop.Prelude.{ℕ, ◌<◌, Bool, true, false, none, List, [], ◌≡◌, refl, ◌∙◌, arith, All}
use go_pop.Text.{codes}
use go_pop.Server.Wire.{Segment, new_writer, put}
use go_pop.Server.Wire.Writing.{flush-IsAlive, put-IsReliable}
use go_pop.Server.Wire.Progress.{to_come}
use go_pop.Server.Session.{Session}
use go_pop.Server.Conn.{Options, response_line}
use go_pop.Server.Dispatch.Input.{IsShrinking}
use go_pop.Server.Serve.Ends.{IsTornDown, serve-ends}
use go_pop.Server.Setup.{
  Created, created, silent_reject, rejected, Handled, turned_away, served, new_conn, reject_text,
  handle_conn,
}

module _ {S : Type 0} (iface : Session S) (opts : Options S) where
  -- What each result of `NewSession` leads to.
  abbrev pub EndsAs : Created S → Handled S → Type 0
  EndsAs silent_reject (turned_away w) = w.sent ≡ []
  EndsAs (rejected e) (turned_away w) =
      w.sent ≡ response_line (codes "-ERR") (reject_text iface opts e)
  EndsAs (created s tls) (served c ended) = (ended ≡ true) × IsTornDown iface opts c
  EndsAs _ _ = ⊥

  handled :
      (fuel : ℕ) (result : Created S) (incoming : List Segment) (link : List Bool)
      → opts.unknown_command_handler ≡ none
      → IsShrinking iface opts
      → to_come incoming < fuel
      → All (λ up. up ≡ true) link
      → EndsAs result (handle_conn iface opts fuel (λ _. result) false incoming link)
  unfolding handle_conn
  handled fuel silent_reject incoming link h shrinks enough up = refl
  handled fuel (rejected e) incoming link h shrinks enough up =
      let line = response_line (codes "-ERR") (reject_text iface opts e) in
      let w = new_writer link in
      let alive = put-IsReliable.good line w (refl, up) in
      let (_, _, sent, _) = flush-IsAlive (put line w).0 alive in
      sent ∙ put-IsReliable.appends line w (refl, up)
  handled fuel (created s tls) incoming link h shrinks enough up =
      serve-ends iface opts fuel (new_conn s tls incoming link) h shrinks (omega arith)

  -- The same, for any callback.
  pub handle_conn-EndsAs :
      (fuel : ℕ) (new_session : Bool → Created S) (is_tls : Bool) (incoming : List Segment)
      (link : List Bool)
      → opts.unknown_command_handler ≡ none
      → IsShrinking iface opts
      → to_come incoming < fuel
      → All (λ up. up ≡ true) link
      → EndsAs (new_session is_tls) (handle_conn iface opts fuel new_session is_tls incoming link)
  unfolding handle_conn
  handle_conn-EndsAs fuel new_session is_tls incoming link h shrinks enough up =
      handled fuel (new_session is_tls) incoming link h shrinks enough up
