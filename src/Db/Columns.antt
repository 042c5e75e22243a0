-- ===== src/Db/Columns.antt =====
-- The data of an update: `undefined` leaves a column alone, `null` empties it.
use uza_mobility_bn.Base.{Option, none, some}

-- An update leaves a column alone for which it gives nothing.
abbrev pub given : {A : Type 0} → Option A → A → A
given none old = old
given (some new) old = new

abbrev pub given_option : {A : Type 0} → Option A → Option A → Option A
given_option none old = old
given_option (some new) old = some new
