-- ===== src/Position/Chain.antt =====
-- What the chain of frames looks like.
use zipologger.Base.{
  ℕ, zero, suc, ap, false, ◌+◌, ◌-◌, ◌<◌, ◌≡◌, refl, sym, ◌∙◌, arith, inl, inr, true, Bool-cases,
  ltb, ltb→ge, ltb→lt, ◌⊎◌, if◌then◌else◌, List, [], ◌∷◌, ◌++◌, length, length-append, append_assoc,
  append-nil, Option, none, some,
}
use zipologger.Position.{
  Frame, same, short_name, decimal, hidden, walk, downwards, settle, unknown, one_deeper,
  format_caller,
}

-- The frames that are shown, with the short names of their files.
abbrev pub shown : List (Option Frame) → List (List ℕ × ℕ)
shown [] = []
shown (none ∷ frames) = shown frames
shown (some f ∷ frames) =
    let rest = shown frames in if hidden f.file then rest else (short_name f.file, f.line) ∷ rest

-- The text of each: its line behind a colon, with its file before it unless that is the file of the
-- one before.
abbrev pub links : List ℕ → List (List ℕ × ℕ) → List (List ℕ)
links previous [] = []
links previous ((file, line) ∷ rest) =
    ((if same previous file then [] else file) ++ 58 ∷ decimal line) ∷ links file rest

-- Texts with "=>" before each.
abbrev pub arrows : List (List ℕ) → List ℕ
arrows [] = []
arrows (t ∷ ts) = 61 ∷ 62 ∷ (t ++ arrows ts)

-- Texts with "=>" between them.
abbrev pub joined : List (List ℕ) → List ℕ
joined [] = []
joined (t ∷ ts) = t ++ arrows ts

less : (m n : ℕ) → m < n → ltb m n ≡ true
less m n h = ground arith

some_text : (a name tail : List ℕ) (c : ℕ) → ltb 0 (length (a ++ (name ++ c ∷ tail))) ≡ true
some_text a name tail c =
    less 0 (length (a ++ (name ++ c ∷ tail)))
      (omega (arith, length-append a (name ++ c ∷ tail), length-append name (c ∷ tail)))

linked :
    (frames : List (Option Frame)) (ret previous : List ℕ)
    → ltb 0 (length ret) ≡ true
    → walk frames ret previous ≡ ret ++ arrows (links previous (shown frames))
unfolding walk
linked [] ret previous h = sym (append-nil ret)
linked (none ∷ frames) ret previous h = linked frames ret previous h
linked (some f ∷ frames) ret previous h = elim (Bool-cases (hidden f.file)) [
  | inl e ↦ rw e (linked frames ret previous h)
  | inr e ↦
      let file = short_name f.file in
      let text = (if same previous file then [] else file) ++ 58 ∷ decimal f.line in
      let more = (ret ++ 61 ∷ 62 ∷ []) ++ text in
      let long : ltb 0 (length more) ≡ true =
        some_text (ret ++ 61 ∷ 62 ∷ []) (if same previous file then [] else file) (decimal f.line)
          58 in
      rw (e, h)
        (linked frames more file long
          ∙ append_assoc (ret ++ 61 ∷ 62 ∷ []) text (arrows (links file (shown frames)))
          ∙ append_assoc ret (61 ∷ 62 ∷ []) (text ++ arrows (links file (shown frames))))
]

-- The loop of `formatCaller` writes the shown frames from the outermost on, with "=>" between them,
-- each as its file and line, but only the line if the file is that of the frame before.
pub walk_lem : (frames : List (Option Frame)) → walk frames [] [] ≡ joined (links [] (shown frames))
unfolding walk
walk_lem [] = refl
walk_lem (none ∷ frames) = walk_lem frames
walk_lem (some f ∷ frames) = elim (Bool-cases (hidden f.file)) [
  | inl e ↦ rw e (walk_lem frames)
  | inr e ↦
      let file = short_name f.file in
      let text = (if same [] file then [] else file) ++ 58 ∷ decimal f.line in
      let long : ltb 0 (length text) ≡ true =
        some_text [] (if same [] file then [] else file) (decimal f.line) 58 in
      rw e (linked frames text file long)
]

-- The text of the innermost call, and the one around it, which is too short.
settle_long :
    (a b : List ℕ)
    → length a < 3
    → 3 < length b
    → settle a (settle b unknown) ≡ b ++ 58 ∷ 32 ∷ 10 ∷ 10 ∷ []
unfolding settle
settle_long a b few n =
    let short : ltb (length a) 3 ≡ true = less (length a) 3 few in
    let enough : ltb (length b) 3 ≡ false = ground arith in
    let long : ltb 5 (length (b ++ 58 ∷ 32 ∷ [])) ≡ true =
      less 5 (length (b ++ 58 ∷ 32 ∷ [])) (omega (arith, length-append b (58 ∷ 32 ∷ []))) in
    let longer : ltb 5 (length ((b ++ 58 ∷ 32 ∷ []) ++ 10 ∷ [])) ≡ true =
      less 5 (length ((b ++ 58 ∷ 32 ∷ []) ++ 10 ∷ [])) (
        omega
          (arith, length-append (b ++ 58 ∷ 32 ∷ []) (10 ∷ []), length-append b (58 ∷ 32 ∷ []))) in
    rw (short, enough, long, longer)
      (append_assoc (b ++ 58 ∷ 32 ∷ []) (10 ∷ []) (10 ∷ [])
        ∙ append_assoc b (58 ∷ 32 ∷ []) (10 ∷ 10 ∷ []))

settle_three :
    (a b : List ℕ) → length a < 3 → length b ≡ 3 → settle a (settle b unknown) ≡ b ++ 58 ∷ 32 ∷ []
unfolding settle
settle_three a b few n =
    let short : ltb (length a) 3 ≡ true = less (length a) 3 few in
    let enough : ltb (length b) 3 ≡ false = ground arith in
    let size : length (b ++ 58 ∷ 32 ∷ []) ≡ 5 = omega (arith, length-append b (58 ∷ 32 ∷ [])) in
    let five : ltb 5 (length (b ++ 58 ∷ 32 ∷ [])) ≡ false = rw size refl in
    rw (short, enough, five, five) refl

settle_short :
    (a b : List ℕ)
    → length a < 3
    → length b < 3
    → settle a (settle b unknown) ≡ unknown ++ 10 ∷ 10 ∷ []
unfolding settle
settle_short a b few n =
    let short : ltb (length a) 3 ≡ true = less (length a) 3 few in
    let shorter : ltb (length b) 3 ≡ true = less (length b) 3 n in rw (short, shorter) refl

downwards-one_deeper :
    (caller : ℕ → Option Frame) (first n : ℕ)
    → downwards (one_deeper caller) first n ≡ downwards caller (first - 1) n
downwards-one_deeper caller first zero = refl
downwards-one_deeper caller first (suc n) =
    ap (◌∷◌ (caller (first - 1))) (downwards-one_deeper caller (first - 1) n)

-- Where the frames of a depth above 0 have less than three characters to show: `formatCaller` falls
-- back to the frames from `max - 1` to 2, that is, to one frame nearer than a call with the depth 0
-- shows. If these have more than three characters, they are shown with a colon, a space and two
-- newlines behind them, if they have just three, with a colon and a space, and if they have less, the
-- position is "unknown: " with two newlines.
pub format_caller_deep :
    (caller : ℕ → Option Frame) (max add : ℕ)
    → 0 < add
    → length (joined (links [] (shown (downwards caller (max + add) (max - 2))))) < 3
    → let near = joined (links [] (shown (downwards caller (max - 1) (max - 2)))) in
      let position = format_caller caller max add in
      ((3 < length near) × (position ≡ near ++ 58 ∷ 32 ∷ 10 ∷ 10 ∷ []))
      ⊎ (((length near ≡ 3) × (position ≡ near ++ 58 ∷ 32 ∷ []))
          ⊎ ((length near < 3) × (position ≡ unknown ++ 10 ∷ 10 ∷ [])))
unfolding format_caller
format_caller_deep caller max add deep few =
    let above : ltb 0 add ≡ true = less 0 add deep in
    let here = downwards caller (max + add) (max - 2) in
    let near = joined (links [] (shown (downwards caller (max - 1) (max - 2)))) in
    let innermost : max + 0 - 1 ≡ max - 1 = omega arith in
    let inner : walk (downwards (one_deeper caller) (max + 0) (max - 2)) [] [] ≡ near =
      ap (λ (frames : List (Option Frame)). walk frames [] [])
        (downwards-one_deeper caller (max + 0) (max - 2))
      ∙ ap (λ (first : ℕ). walk (downwards caller first (max - 2)) [] []) innermost
      ∙ walk_lem (downwards caller (max - 1) (max - 2)) in
    let shorter : length (walk here [] []) < 3 = rw (walk_lem here) few in
    elim (Bool-cases (ltb 3 (length near))) [
      | inl e ↦
          let n = ltb→lt 3 (length near) e in
          inl (n, rw (above, inner) (settle_long (walk here [] []) near shorter n))
      | inr e ↦
          let m = ltb→ge 3 (length near) e in
          elim (Bool-cases (ltb (length near) 3)) [
            | inl f ↦
                let n = ltb→lt (length near) 3 f in
                inr (inr (n, rw (above, inner) (settle_short (walk here [] []) near shorter n)))
            | inr f ↦
                let k = ltb→ge (length near) 3 f in
                let three : length near ≡ 3 = omega arith in
                inr (
                  inl
                    (three, rw (above, inner) (settle_three (walk here [] []) near shorter three)))
          ]
    ]
