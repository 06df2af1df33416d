-- ===== src/Connection/Awaiting.antt =====
-- Which callbacks of connection.h and connection.cpp still wait after messages have come in.
use mathlib.Core.Quot
use mathlib.Core.Quot.{Quot, Quot-set}
use lnetlib.Base.{List, [], ◌∷◌}
use lnetlib.Streambuf.{Streambuf}
use lnetlib.Connection.Frames.{Message}
use lnetlib.Connection.Table.{Table, forget}

module _ {K : Type 0} where
  abbrev pub forget_all : List Message → Table K → Table K
  forget_all [] t = t
  forget_all (m ∷ ms) t = forget_all ms (forget m.uid t)
