-- ===== src/Examples/Comms.antt =====
-- Communities on concrete values.

use cbgp.Base.{ℕ, ◌≡◌, ◌↔◌, true, some, List, [], ◌∷◌}
use cbgp.Attr.Comm.{comms_contains}
use cbgp.Attr.Comm.Laws.{values, comms_contains_iff}
use cbgp.Base.{In}

abbrev tags : List ℕ
tags = 7 ∷ 9 ∷ 7 ∷ []

comms_contains_iff_example : (comms_contains (some tags) 9 ≡ true) ↔ In 9 (values (some tags))
comms_contains_iff_example = comms_contains_iff (some tags) 9
