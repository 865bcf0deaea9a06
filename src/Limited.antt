-- ===== src/Limited.antt =====
-- logger.go: `LimitedPrintf`, which prints a message of an id only if the last one of this id that
-- it printed is old enough. Ids are numbers, and times are nanoseconds of a clock that does not go
-- back.
pub mod Spacing
pub mod Bound
mod Tests
use zipologger.Base.{
  ℕ, suc, ◌+◌, ◌-◌, ◌*◌, ◌^◌, ◌<◌, ◌≡◌, Bool, true, false, ◌==◌, ltb, if◌then◌else◌, List, [], ◌∷◌,
  Option, none, some,
}

-- 24 hours, after which the cache forgets an entry, and how many entries it has.
abbrev pub lifetime : ℕ
lifetime = 24 * 3600 * 10 ^ 9

abbrev pub size : ℕ
size = 1000

-- The cache `limitedPrint`, of lru.NewWithExpire: `get` and `add` with the time of the call.
pub record Cache : Type 1 where
  pub State : Type 0
  pub get : ℕ → ℕ → State → Option ℕ × State
  pub add : ℕ → ℕ → ℕ → State → State

-- Its documented behaviour, for as many ids as it has entries: `add` stores a value in the place of
-- the former one of its id, with its time; `get` finds a stored value as long as it is younger than
-- the lifetime, finds nothing else, and changes no value.
pub record IsCache (cache : Cache) : Type 0 where
  pub read : cache.State → ℕ → Option (ℕ × ℕ)
  pub get_found :
      (now id v : ℕ) (s : cache.State)
      → (cache.get now id s).0 ≡ some v
      → (t : ℕ) × (read s id ≡ some (v, t))
  pub get_young :
      (now id v t : ℕ) (s : cache.State)
      → read s id ≡ some (v, t)
      → now < t + lifetime
      → (cache.get now id s).0 ≡ some v
  pub read-get : (now id i : ℕ) (s : cache.State) → read (cache.get now id s).1 i ≡ read s i
  pub read-add :
      (now id v i : ℕ) (s : cache.State)
      → id < size
      → i < size
      → read (cache.add now id v s) i ≡ (if i == id then some (v, now) else read s i)

-- A call, with the clock at its look into the cache, in `time.Since`, in `time.Now`, and at the
-- change of the cache.
pub record LimitedCall : Type 0 where
  pub id : ℕ
  pub duration : ℕ
  pub got : ℕ
  pub since : ℕ
  pub now : ℕ
  pub added : ℕ

module _ (cache : Cache) where
  -- The cache after the call, and whether the call prints.
  pub limited_printf : LimitedCall → cache.State → cache.State × Bool
  limited_printf c s =
      let (old, s) = cache.get c.got c.id s in
      elim old [
        | some v ↦
            if ltb (c.since - v) c.duration
            then (s, false)
            else (cache.add c.added c.id c.now s, true)
        | none ↦ (cache.add c.added c.id c.now s, true)
      ]

  -- The times of the calls of `id` that print.
  abbrev pub prints : ℕ → List LimitedCall → cache.State → List ℕ
  prints id [] s = []
  prints id (c ∷ cs) s =
      let (s, printed) = limited_printf c s in
      let rest = prints id cs s in
      if printed then (if id == c.id then c.now ∷ rest else rest) else rest
