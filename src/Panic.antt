-- ===== src/Panic.antt =====
-- logger.go: `savePanicToFile`, which writes the log of a panic into the first of its candidate
-- directories that takes it. Directories are numbers, and a time is a number of seconds of the local
-- clock.
pub mod Saved
mod Tests
use zipologger.Base.{
  ℕ, ◌/◌, Bool, true, false, ◌==◌, ◌&&◌, if◌then◌else◌, List, [], ◌∷◌, ◌++◌, Option, none, some,
}

-- A log of a panic: its directory, and the hour in its name, which else only has the program.
pub record PanicFile : Type 0 where
  pub target_dir : ℕ
  pub hour : ℕ

-- The name at a time: the format "_2006-Jan-02_15" of it has the day and the hour.
abbrev pub panic_file : ℕ → ℕ → PanicFile
panic_file target_dir now = record { target_dir = target_dir; hour = now / 3600 }

abbrev pub same_file : PanicFile → PanicFile → Bool
same_file f g = f.target_dir == g.target_dir && f.hour == g.hour

-- What the file system does in a call: whether os.MkdirAll and os.Create succeed.
pub record Disk : Type 0 where
  pub mkdir_all : ℕ → Bool
  pub create : PanicFile → Bool

-- The contents of the files.
abbrev pub Files : Type 0
Files = PanicFile → Option (List ℕ)

-- "Panic in [" and "] :\n", and "\nSTACK:\n".
abbrev pub panic_in : List ℕ
panic_in = 80 ∷ 97 ∷ 110 ∷ 105 ∷ 99 ∷ 32 ∷ 105 ∷ 110 ∷ 32 ∷ 91 ∷ []

abbrev pub stack_of : List ℕ
stack_of = 10 ∷ 83 ∷ 84 ∷ 65 ∷ 67 ∷ 75 ∷ 58 ∷ 10 ∷ []

-- The text of the log: `at` is the position of the caller, a file and a line with a colon between.
abbrev pub panic_text : List ℕ → List ℕ → List ℕ → List ℕ
panic_text at pdesc stack = panic_in ++ (at ++ (93 ∷ 32 ∷ 58 ∷ 10 ∷ (pdesc ++ (stack_of ++ stack))))

-- os.Create truncates the file, whatever it held.
abbrev pub created : PanicFile → Files → Files
created fn files f = if same_file f fn then some [] else files f

-- f.WriteString writes behind what the file holds.
abbrev pub write_string : PanicFile → List ℕ → Files → Files
write_string fn str files f =
    if same_file f fn
    then (elim (files f) [ none ↦ none | some held ↦ some (held ++ str) ])
    else files f

-- The loop over the candidates at the time `now`: what it returns, and the files.
pub save_in : Disk → ℕ → List ℕ → List ℕ → Files → List ℕ × Files
save_in disk now str [] files = ([], files)
save_in disk now str (target_dir ∷ candidates) files =
    let rest = save_in disk now str candidates files in
    let fn = panic_file target_dir now in
    if disk.mkdir_all target_dir
    then (if disk.create fn then (str, write_string fn str (created fn files)) else rest)
    else rest

-- `logs` beside the executable, and `logs` in the working directory.
pub save_panic_to_file : Disk → ℕ → ℕ → ℕ → List ℕ → Files → List ℕ × Files
save_panic_to_file disk beside working now str files =
    save_in disk now str (beside ∷ working ∷ []) files
