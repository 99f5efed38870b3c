-- ===== src/Tests/Loop.antt =====
-- Examples for a hijacked connection.
use go_pop.Prelude.{[], true, ◌≡◌, refl}
use go_pop.Server.Errors.{ok}
use go_pop.Server.Wire.{flush, new_writer}
use go_pop.Server.Conn.{authorization}
use go_pop.Server.Login.{finish_login}
use go_pop.Server.Serve.Hijack.{IsHandedOver, finish_login-IsHandedOver}
use go_pop.Mem.Interface.{mem_session}
use go_pop.Tests.{logged_in, one_user, test_options, connection}

flushed : (flush (new_writer [])).1 ≡ true
unfolding flush
flushed = refl

finish_login-IsHandedOver_example :
    IsHandedOver mem_session test_options
      (one_user, logged_in)
      (connection authorization true logged_in)
      (finish_login mem_session test_options
        ((one_user, logged_in), record { result = ok tt; calls_hijack = true })
        (connection authorization true logged_in))
finish_login-IsHandedOver_example =
    finish_login-IsHandedOver mem_session test_options (one_user, logged_in)
      (connection authorization true logged_in) refl refl flushed
