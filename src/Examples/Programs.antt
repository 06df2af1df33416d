-- ===== src/Examples/Programs.antt =====
-- Programs over connections and servers whose slots do nothing, for the examples.
use lnetlib.Base.{◌≡◌, refl, some, arith}
use lnetlib.Bytes.{little}
use lnetlib.Streambuf.{list_streambuf}
use lnetlib.Connection.State
use lnetlib.Connection.State.{Connection}
use lnetlib.Connection.Writes.{SameWrites, IsQuiet}
use lnetlib.Connection.Frames.{IsCalm}
use lnetlib.Server.State.{Program}
use lnetlib.Connection.Ending.{IsDeaf}
use lnetlib.Server.Hosting.{IsIdle}

module _ {K : Type 0} where
  abbrev pub silent : State.Program list_streambuf K
  silent = record {
    on_closed = λ c. some c;
    on_error = λ code c. some c;
    on_received = λ s c. some c;
    on_callback = λ cb s c. some c;
    operation_aborted = 125;
  }

  pub silent-IsQuiet : IsQuiet silent
  silent-IsQuiet =
      let same : (c c' : Connection list_streambuf K) → some c ≡ some c' → SameWrites c c' =
        λ c c' h.
          let e : c ≡ c' = ground arith in
          rw (← e) (record { locked = refl; packages = refl; written = refl }) in
      record { closed_quiet = same; error_quiet = λ code. same }

  pub silent-IsCalm : IsCalm list_streambuf little silent
  silent-IsCalm = record {
    received_calm =
        λ s c from. (c, refl, record { callbacks = refl; asked = refl; delivered = refl });
    callback_calm =
        λ cb s c from. (c, refl, record { callbacks = refl; asked = refl; delivered = refl });
  }

  pub silent-IsDeaf : IsDeaf silent
  silent-IsDeaf = record { closed_deaf = λ c. refl; error_deaf = λ code c. refl }

abbrev pub idle : Program
idle = record {
  on_connected = λ conn s. some s;
  on_disconnected = λ conn s. some s;
  on_error = λ conn code s. some s;
  on_received = λ conn s. some s;
}

pub idle-IsIdle : IsIdle idle
idle-IsIdle = record {
  disconnected_idle = λ conn s. refl;
  error_idle = λ conn code s. refl;
  received_idle = λ conn s. refl;
}
