-- ===== src/Text/Lines.antt =====
-- bufio.Scanner with ScanLines, and the functions of strings on the ends of a text.
use zipologger.Base.{ℕ, zero, suc, ◌-◌, ◌^◌, ◌≤◌, ◌<◌, ◌≡◌, ◌≢◌, refl, sym, ap, ◌∙◌, arith}
use zipologger.Base.{true, false, if◌then◌else◌, leb, ◌==◌}
use zipologger.Base.{
  List, [], ◌∷◌, ◌++◌, append_assoc, append-nil, length, length-append, Option, none, some, All,
}

-- bufio.MaxScanTokenSize
abbrev pub max_scan_token_size : ℕ
max_scan_token_size = 2 ^ 16

-- The line up to the next newline, and what is behind it, if there is a newline.
unfoldable pub cut_line : List ℕ → List ℕ × Option (List ℕ)
cut_line [] = ([], none)
cut_line (c ∷ cs) = let (l, rest) = cut_line cs in if c == 10 then ([], some cs) else (c ∷ l, rest)

-- A `\r` at the end of a line is dropped.
unfoldable pub drop_cr : List ℕ → List ℕ
drop_cr [] = []
drop_cr (c ∷ []) = if c == 13 then [] else c ∷ []
drop_cr (c ∷ d ∷ cs) = c ∷ drop_cr (d ∷ cs)

-- The text of a line, and then what `next` makes of the rest. A line that does not fit the buffer
-- with its newline ends the scan.
unfoldable pub token : List ℕ × Option (List ℕ) → (List ℕ → List (List ℕ)) → List (List ℕ)
token (l, rest) next = elim (leb max_scan_token_size (length l)) [
  | true ↦ []
  | false ↦ elim rest [ none ↦ drop_cr l ∷ [] | some more ↦ drop_cr l ∷ next more ]
]

-- The texts that a loop over `Scan` sees. Each line takes one unit of fuel.
unfoldable pub scan_lines : ℕ → List ℕ → List (List ℕ)
scan_lines zero s = []
scan_lines (suc fuel) [] = []
scan_lines (suc fuel) (c ∷ cs) = token (cut_line (c ∷ cs)) (λ more. scan_lines fuel more)

-- Every line takes at least one byte.
unfoldable pub scan : List ℕ → List (List ℕ)
scan s = scan_lines (length s) s

-- A line as it is written: no newline, no `\r` at its end, and within the buffer.
pub record IsLine (l : List ℕ) : Type 0 where
  pub one_line : All (λ c. c ≢ 10) l
  pub no_cr : drop_cr l ≡ l
  pub short : length l < max_scan_token_size

cut_line-append :
    (l rest : List ℕ) → All (λ c. c ≢ 10) l → cut_line (l ++ 10 ∷ rest) ≡ (l, some rest)
unfolding cut_line
cut_line-append [] rest h = refl
cut_line-append (c ∷ cs) rest h =
    let e : (c == 10) ≡ false = ground arith in rw (e, cut_line-append cs rest h.1) refl

-- The lines, each with a newline behind it.
abbrev pub unlines : List (List ℕ) → List ℕ
unlines [] = []
unlines (l ∷ ls) = l ++ 10 ∷ unlines ls

fits : (n : ℕ) → n < max_scan_token_size → leb max_scan_token_size n ≡ false
fits n h = ground arith

too_long : (n : ℕ) → max_scan_token_size ≤ n → leb max_scan_token_size n ≡ true
too_long n h = ground arith

token_short :
    (l rest : List ℕ) (next : List ℕ → List (List ℕ))
    → IsLine l
    → token (l, some rest) next ≡ l ∷ next rest
unfolding token
token_short l rest next v = rw (token, fits (length l) v.short, v.no_cr) refl

token_long :
    (l : List ℕ) (rest : Option (List ℕ)) (next : List ℕ → List (List ℕ))
    → max_scan_token_size ≤ length l
    → token (l, rest) next ≡ []
unfolding token
token_long l rest next h = rw (token, too_long (length l) h) refl

scan_step :
    (fuel : ℕ) (l rest : List ℕ)
    → IsLine l
    → scan_lines (suc fuel) (l ++ 10 ∷ rest) ≡ l ∷ scan_lines fuel rest
unfolding scan_lines cut_line
scan_step fuel [] rest v = token_short [] rest (scan_lines fuel) v
scan_step fuel (c ∷ cs) rest v =
    ap (λ (p : List ℕ × Option (List ℕ)). token p (scan_lines fuel))
      (cut_line-append (c ∷ cs) rest v.one_line)
    ∙ token_short (c ∷ cs) rest (scan_lines fuel) v

scan_lines_fuel :
    (fuel : ℕ) (ls : List (List ℕ)) (rest : List ℕ)
    → length ls ≤ fuel
    → All IsLine ls
    → scan_lines fuel (unlines ls ++ rest) ≡ ls ++ scan_lines (fuel - length ls) rest
scan_lines_fuel fuel [] rest h v = ap (λ (n : ℕ). scan_lines n rest) (omega arith)
scan_lines_fuel zero (l ∷ ls) rest h v = absurd (omega arith)
scan_lines_fuel (suc fuel) (l ∷ ls) rest h v =
    let e : (l ++ 10 ∷ unlines ls) ++ rest ≡ l ++ 10 ∷ (unlines ls ++ rest) =
      append_assoc l (10 ∷ unlines ls) rest in
    let n : suc fuel - length (l ∷ ls) ≡ fuel - length ls = omega arith in
    rw (e, n)
      (scan_step fuel l (unlines ls ++ rest) v.0
        ∙ ap (◌∷◌ l) (scan_lines_fuel fuel ls rest (omega arith) v.1))

scan_nothing : (fuel : ℕ) → scan_lines fuel [] ≡ []
unfolding scan_lines
scan_nothing zero = refl
scan_nothing (suc fuel) = refl

length-unlines : (ls : List (List ℕ)) → length ls ≤ length (unlines ls)
length-unlines [] = omega arith
length-unlines (l ∷ ls) = omega (arith, length-append l (10 ∷ unlines ls), length-unlines ls)

-- The lines that were written are seen again.
pub scan-unlines : (ls : List (List ℕ)) → All IsLine ls → scan (unlines ls) ≡ ls
unfolding scan
scan-unlines ls v =
    let n = length (unlines ls) in
    ap (scan_lines n) (sym (append-nil (unlines ls)))
    ∙ scan_lines_fuel n ls [] (length-unlines ls) v
    ∙ ap (λ (x : List (List ℕ)). ls ++ x) (scan_nothing (n - length ls))
    ∙ append-nil ls

stops :
    (fuel : ℕ) (long rest : List ℕ)
    → All (λ c. c ≢ 10) long
    → max_scan_token_size ≤ length long
    → scan_lines fuel (long ++ 10 ∷ rest) ≡ []
unfolding scan_lines
stops zero long rest h k = refl
stops (suc fuel) [] rest h k = absurd (omega arith)
stops (suc fuel) (c ∷ cs) rest h k =
    ap (λ (p : List ℕ × Option (List ℕ)). token p (scan_lines fuel))
      (cut_line-append (c ∷ cs) rest h)
    ∙ token_long (c ∷ cs) (some rest) (scan_lines fuel) k

-- A line that does not fit the buffer ends the scan, whatever stands behind it.
pub scan_cut :
    (ls : List (List ℕ)) (long rest : List ℕ)
    → All IsLine ls
    → All (λ c. c ≢ 10) long
    → max_scan_token_size ≤ length long
    → scan (unlines ls ++ (long ++ 10 ∷ rest)) ≡ ls
unfolding scan
scan_cut ls long rest v h k =
    let s = unlines ls ++ (long ++ 10 ∷ rest) in
    let n = length-append (unlines ls) (long ++ 10 ∷ rest) in
    scan_lines_fuel (length s) ls (long ++ 10 ∷ rest) (omega (arith, n, length-unlines ls)) v
    ∙ ap (λ (x : List (List ℕ)). ls ++ x) (stops (length s - length ls) long rest h k)
    ∙ append-nil ls

-- A text of visible characters is one line.
pub drop_cr_lem : (s : List ℕ) → All (λ c. 43 ≤ c) s → All (λ c. c ≢ 10) s × (drop_cr s ≡ s)
unfolding drop_cr
drop_cr_lem [] h = (tt, refl)
drop_cr_lem (c ∷ []) h =
    let e : (c == 13) ≡ false = ground arith in
    ((λ (x : c ≡ 10). absurd (omega arith), tt), rw e refl)
drop_cr_lem (c ∷ d ∷ cs) h =
    let there = drop_cr_lem (d ∷ cs) h.1 in
    ((λ (x : c ≡ 10). absurd (omega arith), there.0), ap (◌∷◌ c) there.1)
