-- ===== src/Panic/Tests.antt =====
-- Panics on a disk whose directory 1, beside the executable, cannot be written, and on one whose can.
use zipologger.Base.{
  ◌/◌, ◌==◌, ◌≡◌, ◌↔◌, ◌⊎◌, refl, true, false, not, if◌then◌else◌, [], ◌∷◌, none, some,
}
use zipologger.Panic.{Disk, Files, panic_file, save_in, save_panic_to_file, panic_text}
use zipologger.Panic.Saved.{takes, save_panic_to_file_twice, save_panic_to_file_iff}

abbrev disk : Disk
disk = record { mkdir_all = λ d. true; create = λ f. not (f.target_dir == 1) }

abbrev free : Disk
free = record { mkdir_all = λ d. true; create = λ f. true }

abbrev nothing : Files
nothing = λ f. none

-- The log is in the directory 2.
falls_back :
    (save_panic_to_file disk 1 2 7200 (65 ∷ []) nothing).1 (panic_file 2 10000) ≡ some (65 ∷ [])
unfolding save_panic_to_file save_in
falls_back = refl

-- At the end of the third hour, and in the fourth.
save_panic_to_file_twice_example :
    let saved = (save_panic_to_file free 1 2 10799 (65 ∷ []) nothing).1 in
    let after = (save_panic_to_file free 1 2 10800 (66 ∷ []) saved).1 in
    (after (panic_file 1 10800) ≡ some (66 ∷ []))
    × (after (panic_file 1 10799)
        ≡ (if 10799 / 3600 == 10800 / 3600 then some (66 ∷ []) else some (65 ∷ [])))
save_panic_to_file_twice_example =
    save_panic_to_file_twice free free 1 2 10799 10800 (65 ∷ []) (66 ∷ []) nothing refl refl

save_panic_to_file_iff_example :
    let str = panic_text (97 ∷ []) (98 ∷ []) [] in
    let (ret, after) = save_panic_to_file disk 1 2 7200 str nothing in
    ((ret ≡ []) ↔ ((takes disk 7200 1 ≡ false) × (takes disk 7200 2 ≡ false)))
    × (((takes disk 7200 1 ≡ true) × (ret ≡ str) × (after (panic_file 1 7200) ≡ some str))
        ⊎ (((takes disk 7200 1 ≡ false)
              × (takes disk 7200 2 ≡ true)
              × (ret ≡ str)
              × (after (panic_file 2 7200) ≡ some str))
            ⊎ ((takes disk 7200 1 ≡ false)
                × (takes disk 7200 2 ≡ false)
                × (ret ≡ [])
                × (after ≡ nothing))))
save_panic_to_file_iff_example = save_panic_to_file_iff disk 1 2 7200 (97 ∷ []) (98 ∷ []) [] nothing
