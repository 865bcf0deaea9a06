-- ===== src/Position/Tests.antt =====
-- The positions of a small stack: the frames 3 and 4 are in "/x/a.go", at the lines 12 and 7, and
-- the frame 5 is in "b", at the line 40.
use zipologger.Base.{
  ℕ, ◌⊎◌, ◌<◌, length, ◌≡◌, refl, arith, ◌==◌, if◌then◌else◌, List, [], ◌∷◌, ◌++◌, Option, none,
  some,
}
use zipologger.Position.{Frame, walk, downwards, settle, unknown, format_caller}
use zipologger.Position.Chain.{shown, links, joined, walk_lem, format_caller_deep}

abbrev a_go : List ℕ
a_go = 47 ∷ 120 ∷ 47 ∷ 97 ∷ 46 ∷ 103 ∷ 111 ∷ []

abbrev stack : ℕ → Option Frame
stack i =
    if i == 3
    then some (record { file = a_go; line = 12 })
    else if i == 4
    then some (record { file = a_go; line = 7 })
    else if i == 5
    then some (record { file = 98 ∷ []; line = 40 })
    else none

-- "b:40=>a.go:7=>:12: \n"
here :
    format_caller stack 7 0
    ≡ 98 ∷ 58 ∷ 52 ∷ 48 ∷ 61 ∷ 62 ∷ 97 ∷ 46 ∷ 103 ∷ 111 ∷ 58 ∷ 55 ∷ 61 ∷ 62 ∷ 58 ∷ 49 ∷ 50 ∷ 58 ∷ 32
      ∷ 10 ∷ []
unfolding format_caller walk settle
here = refl

walk_lem_example :
    walk (downwards stack 7 5) [] [] ≡ joined (links [] (shown (downwards stack 7 5)))
walk_lem_example = walk_lem (downwards stack 7 5)

-- From the depth 20 there is nothing to show.
abbrev near : List ℕ
near = joined (links [] (shown (downwards stack 6 5)))

format_caller_deep_example :
    let position = format_caller stack 7 20 in
    ((3 < length near) × (position ≡ near ++ 58 ∷ 32 ∷ 10 ∷ 10 ∷ []))
    ⊎ (((length near ≡ 3) × (position ≡ near ++ 58 ∷ 32 ∷ []))
        ⊎ ((length near < 3) × (position ≡ unknown ++ 10 ∷ 10 ∷ [])))
format_caller_deep_example = format_caller_deep stack 7 20 (omega arith) (omega arith)
