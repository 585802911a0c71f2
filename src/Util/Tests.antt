-- ===== src/Util/Tests.antt =====
-- The padding on concrete buffers, and its theorems applied to them.
use moola_fix.Common.{ℕ, ◌∷◌, [], List}

abbrev two_bytes : List ℕ
two_bytes = 9 ∷ 8 ∷ []
