-- ===== src/Panic/Saved.antt =====
-- What is left of the logs of panics.
use zipologger.Base.{
  ℕ, ◌/◌, Bool, true, false, false≢true, ◌≡◌, ◌↔◌, ◌⊎◌, inl, inr, refl, sym, ap, ◌∙◌, ==_iff,
  and_true, ◌==◌, ◌&&◌, Bool-cases, if◌then◌else◌, List, [], ◌∷◌, some,
}
use zipologger.Panic.{
  PanicFile, Disk, Files, panic_file, same_file, created, write_string, save_in, save_panic_to_file,
  panic_text,
}

-- At the time `now`, the directory takes the log.
abbrev pub takes : Disk → ℕ → ℕ → Bool
takes disk now d = disk.mkdir_all d && disk.create (panic_file d now)

same_file_refl : (f : PanicFile) → same_file f f ≡ true
same_file_refl f =
    rw ((==_iff f.target_dir f.target_dir).1 refl, (==_iff f.hour f.hour).1 refl) refl

-- A created and written file has the text, and the others are as before.
written_own :
    (fn f : PanicFile) (str : List ℕ) (files : Files)
    → same_file f fn ≡ true
    → write_string fn str (created fn files) f ≡ some str
written_own fn f str files h = rw h refl

written_other :
    (fn f : PanicFile) (str : List ℕ) (files : Files)
    → same_file f fn ≡ false
    → write_string fn str (created fn files) f ≡ files f
written_other fn f str files h = rw h refl

takes_both :
    (disk : Disk) (now dir : ℕ)
    → takes disk now dir ≡ true
    → (disk.mkdir_all dir ≡ true) × (disk.create (panic_file dir now) ≡ true)
takes_both disk now dir h = and_true (disk.mkdir_all dir) (disk.create (panic_file dir now)) h

-- The first candidate that takes the log gets it.
save_in_first :
    (disk : Disk) (now : ℕ) (str : List ℕ) (dir : ℕ) (dirs : List ℕ) (files : Files)
    → takes disk now dir ≡ true
    → let fn = panic_file dir now in
      save_in disk now str (dir ∷ dirs) files ≡ (str, write_string fn str (created fn files))
unfolding save_in
save_in_first disk now str dir dirs files h =
    let (made, opened) = takes_both disk now dir h in rw (made, opened) refl

save_in_next :
    (disk : Disk) (now : ℕ) (str : List ℕ) (dir : ℕ) (dirs : List ℕ) (files : Files)
    → takes disk now dir ≡ false
    → save_in disk now str (dir ∷ dirs) files ≡ save_in disk now str dirs files
unfolding save_in
save_in_next disk now str dir dirs files h = elim (Bool-cases (disk.mkdir_all dir)) [
  | inr e ↦ rw e refl
  | inl e ↦
      let g : disk.create (panic_file dir now) ≡ false = let h = rw e at h in h in rw (e, g) refl
]

module _ (disk : Disk) (beside working now : ℕ) (str : List ℕ) (files : Files) where
  -- Nothing is written if neither directory takes the log.
  pub save_panic_to_file_refused :
      takes disk now beside ≡ false
      → takes disk now working ≡ false
      → save_panic_to_file disk beside working now str files ≡ ([], files)
  unfolding save_panic_to_file save_in
  save_panic_to_file_refused a b =
      save_in_next disk now str beside (working ∷ []) files a
      ∙ save_in_next disk now str working [] files b

  pub save_panic_to_file_beside :
      takes disk now beside ≡ true
      → let fn = panic_file beside now in
        save_panic_to_file disk beside working now str files
        ≡ (str, write_string fn str (created fn files))
  unfolding save_panic_to_file
  save_panic_to_file_beside a = save_in_first disk now str beside (working ∷ []) files a

  pub save_panic_to_file_working :
      takes disk now beside ≡ false
      → takes disk now working ≡ true
      → let fn = panic_file working now in
        save_panic_to_file disk beside working now str files
        ≡ (str, write_string fn str (created fn files))
  unfolding save_panic_to_file
  save_panic_to_file_working a b =
      save_in_next disk now str beside (working ∷ []) files a
      ∙ save_in_first disk now str working [] files b

-- Of the directory beside the executable and the working directory, in this order, the first that
-- takes the log of a panic has the whole text of it in its file of the hour, and the call returns the
-- text; if neither takes it, the call returns the empty text and leaves every file as it was. The
-- text is never empty, so that the result is empty exactly in this case.
pub save_panic_to_file_iff :
    (disk : Disk) (beside working now : ℕ) (at pdesc stack : List ℕ) (files : Files)
    → let str = panic_text at pdesc stack in
      let (ret, after) = save_panic_to_file disk beside working now str files in
      ((ret ≡ []) ↔ ((takes disk now beside ≡ false) × (takes disk now working ≡ false)))
      × (((takes disk now beside ≡ true) × (ret ≡ str) × (after (panic_file beside now) ≡ some str))
          ⊎ (((takes disk now beside ≡ false)
                × (takes disk now working ≡ true)
                × (ret ≡ str)
                × (after (panic_file working now) ≡ some str))
              ⊎ ((takes disk now beside ≡ false)
                  × (takes disk now working ≡ false)
                  × (ret ≡ [])
                  × (after ≡ files))))
save_panic_to_file_iff disk beside working now at pdesc stack files =
    let str = panic_text at pdesc stack in
    let saved = save_panic_to_file disk beside working now str files in
    let written = λ (d : ℕ).
      written_own (panic_file d now) (panic_file d now) str files
        (same_file_refl (panic_file d now)) in
    elim (Bool-cases (takes disk now beside)) [
      | inl a ↦
          let e = save_panic_to_file_beside disk beside working now str files a in
          (
            (λ h. absurd (filled saved str e h), λ h. absurd (false≢true (sym h.0 ∙ a))),
            inl (
              a,
              ap (λ (r : List ℕ × Files). r.0) e,
              ap (λ (r : List ℕ × Files). r.1 (panic_file beside now)) e ∙ written beside,
            ),
          )
      | inr a ↦ elim (Bool-cases (takes disk now working)) [
        | inl b ↦
            let e = save_panic_to_file_working disk beside working now str files a b in
            (
              (λ h. absurd (filled saved str e h), λ h. absurd (false≢true (sym h.1 ∙ b))),
              inr (
                  inl (
                    a,
                    b,
                    ap (λ (r : List ℕ × Files). r.0) e,
                    ap (λ (r : List ℕ × Files). r.1 (panic_file working now)) e ∙ written working,
                  )),
            )
        | inr b ↦
            let e = save_panic_to_file_refused disk beside working now str files a b in
            let gone = ap (λ (r : List ℕ × Files). r.0) e in
            ((λ h. (a, b), λ h. gone), inr (inr (a, b, gone, ap (λ (r : List ℕ × Files). r.1) e)))
      ]
    ]
  where
    filled :
        (saved : List ℕ × Files) (str : List ℕ) {after : Files}
        → saved ≡ (panic_text at pdesc stack, after)
        → saved.0 ≡ []
        → ⊥
    filled saved str e h = let same = ap (λ (r : List ℕ × Files). r.0) e in cc

-- Two panics at the times `before` and `now`, whose logs the directory beside the executable takes:
-- the file of the second has its whole text, and the file of the first still has the text of the
-- first only if the two are of different hours; in the same hour it has that of the second, and the
-- log of the first is gone.
pub save_panic_to_file_twice :
    (disk disk' : Disk) (beside working before now : ℕ) (first second : List ℕ) (files : Files)
    → takes disk before beside ≡ true
    → takes disk' now beside ≡ true
    → let saved = (save_panic_to_file disk beside working before first files).1 in
      let after = (save_panic_to_file disk' beside working now second saved).1 in
      (after (panic_file beside now) ≡ some second)
      × (after (panic_file beside before)
          ≡ (if before / 3600 == now / 3600 then some second else some first))
save_panic_to_file_twice disk disk' beside working before now first second files a b =
    let f = panic_file beside before in
    let g = panic_file beside now in
    let saved = (save_panic_to_file disk beside working before first files).1 in
    let e = save_panic_to_file_beside disk beside working before first files a in
    let e' = save_panic_to_file_beside disk' beside working now second saved b in
    let choice = λ (b : Bool). if b then some second else some first in
    let here : (beside == beside) ≡ true = (==_iff beside beside).1 refl in
    let kept : saved f ≡ some first =
      ap (λ (r : List ℕ × Files). r.1 f) e ∙ written_own f f first files (same_file_refl f) in
    (
      ap (λ (r : List ℕ × Files). r.1 g) e' ∙ written_own g g second saved (same_file_refl g),
      ap (λ (r : List ℕ × Files). r.1 f) e' ∙ elim (Bool-cases (before / 3600 == now / 3600)) [
        | inl same ↦
            let over : same_file f g ≡ true = rw (here, same) refl in
            written_own g f second saved over ∙ sym (ap choice same)
        | inr other ↦
            let apart : same_file f g ≡ false = rw (here, other) refl in
            written_other g f second saved apart ∙ kept ∙ sym (ap choice other)
      ],
    )
