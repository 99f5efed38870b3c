-- ===== src/Server/Maildrop/Frame.antt =====
-- What the maildrop handlers of pop3server/conn.go leave alone.
use go_pop.Prelude.{
  ℕ, zero, suc, ◌+◌, ◌≤◌, ℤ, Bool-cases, inl, inr, Option, none, some, List, [], ◌∷◌, ◌++◌, length,
  if◌then◌else◌, ◌≡◌, refl, arith,
}
use go_pop.Text.{Bytes, codes}
use go_pop.Decimal.{format, format_int}
use go_pop.DotStuff.{copy, new_dot_stuff_writer}
use go_pop.Server.Errors.{SessionError, Outcome, ok, fail}
use go_pop.Server.Parse.{MsgNum, number, bad, parse_msg_num, parse_optional_msg_num, parse_int}
use go_pop.Server.Wire.{put}
use go_pop.Server.Session.{Session, Body}
use go_pop.Server.Conn.{
  Conn, Options, write_string, send_ok, flush_conn, is_positive, client_error, session_error,
}
use go_pop.Server.Conn.Frame.{frame, client_error-Same, session_error-Same}
use go_pop.Server.Maildrop.{
  with_result, no_such_message, info_line, uidl_line, retr_status, write_lines, reply_items,
  send_body, handle_stat, handle_list, handle_uidl, handle_retr, handle_top, handle_dele,
  handle_rset, handle_noop, handle_quit,
}

-- What holds of both ends of a branch holds of the branch.
pub msg_num-case :
    {A : Type 0} (P : A → Type 0) (m : MsgNum) (k : Bytes → A) (h : ℕ → A)
    → ((e : Bytes) → P (k e))
    → ((n : ℕ) → P (h n))
    → P (elim m [ bad e ↦ k e | number n ↦ h n ])
msg_num-case P (bad e) k h p q = p e
msg_num-case P (number n) k h p q = q n

pub option-case :
    {A B : Type 0} (P : A → Type 0) (m : Option B) (k : A) (h : B → A)
    → P k
    → ((b : B) → P (h b))
    → P (elim m [ none ↦ k | some b ↦ h b ])
option-case P none k h p q = p
option-case P (some b) k h p q = q b

-- The state, the name, TLS, hijacking and the input are as before, and one error more at most is
-- counted.
unfoldable pub Calm : {S : Type 0} → Conn S → Conn S → Type 0
Calm c d = (frame d ≡ frame c) × (d.error_count ≤ c.error_count + 1)

-- A reply changes neither, nor the session.
unfoldable pub Quiet : {S : Type 0} → Conn S → Conn S → Type 0
Quiet c d = (frame d ≡ frame c) × (d.error_count ≡ c.error_count) × (d.session ≡ c.session)

pub write_lines-Quiet :
    {S A : Type 0} (item : A → Bytes) (as' : List A) (c : Conn S) → Quiet c (write_lines item as' c)
unfolding Quiet write_string
write_lines-Quiet item [] c = (refl, refl, refl)
write_lines-Quiet item (a ∷ as') c = write_lines-Quiet item as' (write_string (item a) c)

module _ {S : Type 0} (iface : Session S) (opts : Options S) where
  pub client_error-Calm : (msg : Bytes) (c : Conn S) → Calm c (client_error opts msg c)
  unfolding Calm
  client_error-Calm msg c =
      let (same, counted, _) = client_error-Same opts msg c in (same.1, omega (arith, counted))

  pub with_result-Calm :
      {A : Type 0} (c : Conn S) (r : S × Outcome A) (k : A → Conn S → Conn S)
      → ((a : A) (d : Conn S) → Quiet d (k a d))
      → Calm c (with_result iface opts c r k)
  unfolding Calm Quiet
  with_result-Calm c (s, fail e) k q =
      let (same, counted, _, _) = session_error-Same opts e (record c { session = s }) in
      (same.1, omega (arith, counted))
  with_result-Calm c (s, ok a) k q =
      let (same, counted, _) = q a (record c { session = s }) in (same, omega (arith, counted))

  pub send_body-Quiet :
      (status : Bytes) (body : Body) (c : Conn S) → Quiet c (send_body iface opts status body c)
  unfolding Quiet send_body flush_conn send_ok write_string
  send_body-Quiet status body c =
      elim (Bool-cases
        (copy put body.chunks (new_dot_stuff_writer (flush_conn (send_ok status c)).0.writer)).1) [
          | inl e ↦ elim (Bool-cases body.read_fails) [
            | inl f ↦ rw (e, f) (refl, refl, refl)
            | inr f ↦ rw (e, f) (refl, refl, refl)
          ]
          | inr e ↦ rw e (refl, refl, refl)
        ]

  session_error-Quiet : (e : SessionError) (c : Conn S) → Quiet c (session_error opts e c)
  unfolding Quiet
  session_error-Quiet e c =
      let (same, counted, _, _) = session_error-Same opts e c in (same.1, counted, same.0)

  pub reply_items-Quiet :
      {A : Type 0} (item : A → Bytes) (msg : ℕ) (items : List A) (c : Conn S)
      → Quiet c (reply_items iface opts item msg items c)
  unfolding Quiet reply_items write_string
  reply_items-Quiet item zero items c =
      write_lines-Quiet item items
        (write_string (codes "+OK " ++ (format (length items) ++ codes " messages\r\n")) c)
  reply_items-Quiet item (suc msg) (a ∷ []) c = (refl, refl, refl)
  reply_items-Quiet item (suc msg) [] c = session_error-Quiet no_such_message c
  reply_items-Quiet item (suc msg) (a ∷ b ∷ items) c = session_error-Quiet no_such_message c

  pub handle_stat-Calm : (c : Conn S) → Calm c (handle_stat iface opts c)
  unfolding Quiet handle_stat write_string
  handle_stat-Calm c = with_result-Calm c (iface.stat c.session) _ (λ _ _. (refl, refl, refl))

  pub handle_list-Calm : (args : List Bytes) (c : Conn S) → Calm c (handle_list iface opts args c)
  unfolding handle_list
  handle_list-Calm args c =
      msg_num-case (Calm c) (parse_optional_msg_num args) _ _ (λ e. client_error-Calm e c)
        (λ msg. with_result-Calm c (iface.list msg c.session) _ (reply_items-Quiet info_line msg))

  pub handle_uidl-Calm : (args : List Bytes) (c : Conn S) → Calm c (handle_uidl iface opts args c)
  unfolding handle_uidl
  handle_uidl-Calm args c =
      msg_num-case (Calm c) (parse_optional_msg_num args) _ _ (λ e. client_error-Calm e c)
        (λ msg. with_result-Calm c (iface.uidl msg c.session) _ (reply_items-Quiet uidl_line msg))

  pub handle_retr-Calm : (args : List Bytes) (c : Conn S) → Calm c (handle_retr iface opts args c)
  unfolding handle_retr send_body
  handle_retr-Calm args c =
      msg_num-case (Calm c) (parse_msg_num args) _ _ (λ e. client_error-Calm e c)
        (λ msg.
          with_result-Calm c (iface.retr msg c.session) _
            (λ body. send_body-Quiet (retr_status iface opts body) body))

  pub handle_dele-Calm : (args : List Bytes) (c : Conn S) → Calm c (handle_dele iface opts args c)
  unfolding Quiet handle_dele send_ok write_string
  handle_dele-Calm args c =
      msg_num-case (Calm c) (parse_msg_num args) _ _ (λ e. client_error-Calm e c)
        (λ msg. with_result-Calm c (iface.dele msg c.session) _ (λ _ _. (refl, refl, refl)))

  pub handle_top-Calm : (args : List Bytes) (c : Conn S) → Calm c (handle_top iface opts args c)
  unfolding handle_top
  handle_top-Calm [] c = client_error-Calm _ c
  handle_top-Calm (a ∷ []) c = client_error-Calm _ c
  handle_top-Calm (a ∷ l ∷ args) c =
      msg_num-case (Calm c) (parse_msg_num (a ∷ [])) _ _ (λ e. client_error-Calm e c)
        (λ msg. option-case (Calm c) (parse_int l) _ _ (client_error-Calm _ c) (λ lines.
          with_result-Calm c (iface.top msg lines c.session) _
            (λ body. send_body-Quiet (codes "Top of message follows") body)))

  pub handle_rset-Calm : (c : Conn S) → Calm c (handle_rset iface opts c)
  unfolding Quiet handle_rset send_ok write_string
  handle_rset-Calm c = with_result-Calm c (iface.rset c.session) _ (λ _ _. (refl, refl, refl))

  pub handle_noop-Calm : (c : Conn S) → Calm c (handle_noop iface opts c)
  unfolding Quiet handle_noop send_ok write_string
  handle_noop-Calm c = with_result-Calm c (iface.noop c.session) _ (λ _ _. (refl, refl, refl))

  quit_reply-Quiet :
      (n : ℤ) (d : Conn S)
      → Quiet d (
          if is_positive n
          then write_string (codes "+OK " ++ (format_int n ++ codes " messages expunged\r\n")) d
          else send_ok (codes "Goodbye") d)
  unfolding Quiet send_ok write_string
  quit_reply-Quiet n d = elim (Bool-cases (is_positive n)) [
    | inl e ↦ rw e (refl, refl, refl)
    | inr e ↦ rw e (refl, refl, refl)
  ]

  pub handle_quit-Calm : (c : Conn S) → Calm c (handle_quit iface opts c)
  unfolding handle_quit
  handle_quit-Calm c = with_result-Calm c (iface.quit c.session) _ quit_reply-Quiet
