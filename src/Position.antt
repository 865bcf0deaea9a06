-- ===== src/Position.antt =====
-- logger.go: `formatCaller`, the position of the caller of a print as a chain of stack frames.
pub mod Chain
mod Tests
use zipologger.Base.{
  ℕ, zero, suc, ◌+◌, ◌-◌, ◌/◌, ◌%◌, Bool, true, false, not, ◌&&◌, ◌||◌, ◌==◌, ltb, if◌then◌else◌,
  List, [], ◌∷◌, ◌++◌, length, drop, Option, none, some,
}

-- A frame of runtime.Caller: the file, as bytes, and the line.
pub record Frame : Type 0 where
  pub file : List ℕ
  pub line : ℕ

abbrev pub same : List ℕ → List ℕ → Bool
same [] [] = true
same (c ∷ cs) (d ∷ ds) = let rest = same cs ds in c == d && rest
same cs ds = false

-- strings.HasSuffix
abbrev pub has_suffix : List ℕ → List ℕ → Bool
has_suffix s suffix =
    not (ltb (length s) (length suffix)) && same (drop (length s - length suffix) s) suffix

-- strings.LastIndex of "/".
abbrev pub last_slash : List ℕ → Option ℕ
last_slash [] = none
last_slash (c ∷ cs) = elim (last_slash cs) [
  | some i ↦ some (suc i)
  | none ↦ if c == 47 then some 0 else none
]

-- A number in decimal. A number has at most as many digits as its fuel, one more than the number.
abbrev pub digits : ℕ → ℕ → List ℕ
digits zero n = []
digits (suc fuel) n =
    let more = digits fuel (n / 10) in (if ltb n 10 then [] else more) ++ (48 + n % 10) ∷ []

abbrev pub decimal : ℕ → List ℕ
decimal n = digits (suc n) n

-- The file without its directories.
abbrev pub short_name : List ℕ → List ℕ
short_name file = elim (last_slash file) [
  | none ↦ file
  | some zero ↦ file
  | some (suc t) ↦ drop (suc (suc t)) file
]

-- "src/testing/testing.go", "runtime/asm_amd64.s" and "runtime/proc.go".
abbrev pub testing_go : List ℕ
testing_go =
    115 ∷ 114 ∷ 99 ∷ 47 ∷ 116 ∷ 101 ∷ 115 ∷ 116 ∷ 105 ∷ 110 ∷ 103 ∷ 47 ∷ 116 ∷ 101 ∷ 115 ∷ 116 ∷ 105
    ∷ 110 ∷ 103 ∷ 46 ∷ 103 ∷ 111 ∷ []

abbrev pub asm_amd64_s : List ℕ
asm_amd64_s =
    114 ∷ 117 ∷ 110 ∷ 116 ∷ 105 ∷ 109 ∷ 101 ∷ 47 ∷ 97 ∷ 115 ∷ 109 ∷ 95 ∷ 97 ∷ 109 ∷ 100 ∷ 54 ∷ 52
    ∷ 46 ∷ 115 ∷ []

abbrev pub proc_go : List ℕ
proc_go = 114 ∷ 117 ∷ 110 ∷ 116 ∷ 105 ∷ 109 ∷ 101 ∷ 47 ∷ 112 ∷ 114 ∷ 111 ∷ 99 ∷ 46 ∷ 103 ∷ 111 ∷ []

abbrev pub hidden : List ℕ → Bool
hidden file = has_suffix file testing_go || (has_suffix file asm_amd64_s || has_suffix file proc_go)

-- The loop, after `ret` and with the file of the frame before. A frame that runtime.Caller does not
-- have, or of the runtime or of the tests, is left out. 61 and 62 are "=>", and 58 is ":".
pub walk : List (Option Frame) → List ℕ → List ℕ → List ℕ
walk [] ret previous = ret
walk (none ∷ frames) ret previous = walk frames ret previous
walk (some f ∷ frames) ret previous =
    let file = short_name f.file in
    let joined = if ltb 0 (length ret) then ret ++ 61 ∷ 62 ∷ [] else ret in
    let name = if same previous file then [] else file in
    let skipped = walk frames ret previous in
    let taken = walk frames (joined ++ (name ++ 58 ∷ decimal f.line)) file in
    if hidden f.file then skipped else taken

-- The frames from `first` down, `n` of them.
abbrev pub downwards : (ℕ → Option Frame) → ℕ → ℕ → List (Option Frame)
downwards caller first zero = []
downwards caller first (suc n) = caller first ∷ downwards caller (first - 1) n

-- "unknown: "
abbrev pub unknown : List ℕ
unknown = 117 ∷ 110 ∷ 107 ∷ 110 ∷ 111 ∷ 119 ∷ 110 ∷ 58 ∷ 32 ∷ []

-- The end of `formatCaller`: `other` in the place of a text that is too short, or else a colon and a
-- space, and then a newline behind a text that is long enough.
pub settle : List ℕ → List ℕ → List ℕ
settle ret other =
    let text = if ltb (length ret) 3 then other else ret ++ 58 ∷ 32 ∷ [] in
    if ltb 5 (length text) then text ++ 10 ∷ [] else text

-- The frames that a call of `formatCaller` from `formatCaller` itself sees: each is one number
-- further away. The loop does not look at the frames below 3.
abbrev pub one_deeper : (ℕ → Option Frame) → ℕ → Option Frame
one_deeper caller i = caller (i - 1)

-- `formatCaller`: the frames from `max + add` to `3 + add`, or, if there is too little text and `add`
-- is above 0, what a call of it with 0 gives from there.
pub format_caller : (ℕ → Option Frame) → ℕ → ℕ → List ℕ
format_caller caller max add =
    let here = walk (downwards caller (max + add) (max - 2)) [] [] in
    let inner = walk (downwards (one_deeper caller) (max + 0) (max - 2)) [] [] in
    settle here (if ltb 0 add then settle inner unknown else unknown)
