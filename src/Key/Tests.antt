-- ===== src/Key/Tests.antt =====
-- The theorems about secret keys at concrete bytes.
use zipologger.Base.{ℕ, List, ◌++◌, [], ◌∷◌, replicate}

abbrev seven : List ℕ
seven = replicate 31 0 ++ 7 ∷ []

abbrev full : List ℕ
full = replicate 32 255
