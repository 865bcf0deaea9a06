-- ===== src/Limited/Spacing.antt =====
-- How often `LimitedPrintf` prints.
use zipologger.Base.{
  ℕ, ◌+◌, ◌-◌, ◌<◌, ◌≤◌, ◌≡◌, ◌⊎◌, refl, sym, ap, ◌∙◌, arith, inl, inr, true, false, Bool-cases,
  ◌==◌, ==_iff, ltb, ltb→ge, ltb→lt, List, [], ◌∷◌, Option, none, some, Option-cases,
  some-injective,
}
use zipologger.Limited.{Cache, IsCache, LimitedCall, lifetime, size, limited_printf, prints}

-- Calls one after the other from a time on, of ids that fit the cache, with a duration of at least
-- `d` for `id`.
abbrev pub IsSequence : ℕ → ℕ → ℕ → List LimitedCall → Type 0
IsSequence d id start [] = Unit {0}
IsSequence d id start (c ∷ cs) =
    (start ≤ c.got)
    × (c.got ≤ c.since)
    × (c.since ≤ c.now)
    × (c.now ≤ c.added)
    × (c.id < size)
    × (id ≡ c.id → d ≤ c.duration)
    × IsSequence d id c.added cs

-- Each time is at least `d` after the one before it, and the first at least `d` after `last`.
abbrev pub IsSpaced : ℕ → Option ℕ → List ℕ → Type 0
IsSpaced d last [] = Unit {0}
IsSpaced d none (t ∷ ts) = IsSpaced d (some t) ts
IsSpaced d (some last) (t ∷ ts) = (last + d ≤ t) × IsSpaced d (some t) ts

-- The time `now` is at least `d` after `last`.
abbrev IsDue : ℕ → Option ℕ → ℕ → Type 0
IsDue d none now = Unit {0}
IsDue d (some last) now = last + d ≤ now

abbrev IsPast : Option ℕ → ℕ → Type 0
IsPast none start = Unit {0}
IsPast (some last) start = last ≤ start

spaced :
    (d : ℕ) (last : Option ℕ) (t : ℕ) (ts : List ℕ)
    → IsDue d last t
    → IsSpaced d (some t) ts
    → IsSpaced d last (t ∷ ts)
spaced d none t ts h g = g
spaced d (some last) t ts h g = (h, g)

later : (last : Option ℕ) (a b : ℕ) → a ≤ b → IsPast last a → IsPast last b
later none a b h g = tt
later (some last) a b h g = omega arith

module _ (cache : Cache) (v : IsCache cache) (d id : ℕ) (small : d ≤ lifetime)
    (fits : id < size) where
  -- What the cache holds of `id` is the time of its last print.
  abbrev Holds : Option ℕ → cache.State → Type 0
  Holds none s = v.read s id ≡ none
  Holds (some u) s = (t : ℕ) × (u ≤ t) × (v.read s id ≡ some (u, t))

  same_read :
      (last : Option ℕ) (s s' : cache.State)
      → v.read s' id ≡ v.read s id
      → Holds last s
      → Holds last s'
  same_read none s s' e h = e ∙ h
  same_read (some u) s s' e h = (h.0, h.1, e ∙ h.2)

  -- What a call does: it prints if nothing is found or what is found is old enough.
  call_cases :
      (c : LimitedCall) (s : cache.State)
      → let (old, after) = cache.get c.got c.id s in
        (((old ≡ none) ⊎ ((u : ℕ) × (old ≡ some u) × (c.duration ≤ c.since - u)))
          × (limited_printf cache c s ≡ (cache.add c.added c.id c.now after, true)))
        ⊎ (limited_printf cache c s ≡ (after, false))
  unfolding limited_printf
  call_cases c s = elim (Option-cases (cache.get c.got c.id s).0) [
    | inl e ↦ inl (inl e, rw (limited_printf, e) refl)
    | inr (u, e) ↦ elim (Bool-cases (ltb (c.since - u) c.duration)) [
      | inl young ↦ inr (rw (limited_printf, e, young) refl)
      | inr old ↦
          inl (inr (u, e, ltb→ge (c.since - u) c.duration old), rw (limited_printf, e, old) refl)
    ]
  ]

  -- A print of `id` is due.
  due :
      (last : Option ℕ) (start : ℕ) (c : LimitedCall) (cs : List LimitedCall) (s : cache.State)
      → Holds last s
      → IsPast last start
      → IsSequence d id start (c ∷ cs)
      → id ≡ c.id
      → ((cache.get c.got c.id s).0 ≡ none)
        ⊎ ((u : ℕ) × ((cache.get c.got c.id s).0 ≡ some u) × (c.duration ≤ c.since - u))
      → IsDue d last c.now
  due none start c cs s h past q e found = tt
  due (some u) start c cs s h past q e (inl nothing) =
      elim (Bool-cases (ltb c.got (h.0 + lifetime))) [
        | inl young ↦
            let before = ltb→lt c.got (h.0 + lifetime) young in
            let there = v.get_young c.got c.id u h.0 s (ap (v.read s) (sym e) ∙ h.2) before in cc
        | inr old ↦ let after = ltb→ge c.got (h.0 + lifetime) old in omega (arith, h.1)
      ]
  due (some u) start c cs s h past q e (inr (w, found, old)) =
      let (t, there) = v.get_found c.got c.id w s found in
      let same = some-injective (w, t) (u, h.0) (sym there ∙ ap (v.read s) (sym e) ∙ h.2) in
      let wu : w ≡ u = ap (λ (x : ℕ × ℕ). x.0) same in let longer = q.5 e in omega arith

  -- The times of the prints of `id`, after one at `last`.
  prints-IsSpaced_from :
      (cs : List LimitedCall) (last : Option ℕ) (start : ℕ) (s : cache.State)
      → Holds last s
      → IsPast last start
      → IsSequence d id start cs
      → IsSpaced d last (prints cache id cs s)
  prints-IsSpaced_from [] last start s h past q = tt
  prints-IsSpaced_from (c ∷ cs) last start s h past q =
      let after = (cache.get c.got c.id s).1 in
      let kept : Holds last after = same_read last s after (v.read-get c.got c.id id s) h in
      let still : IsPast last c.added = later last start c.added (omega arith) past in
      elim (call_cases c s) [
        | inr e ↦ rw e (prints-IsSpaced_from cs last c.added after kept still q.6)
        | inl (found, e) ↦
            let stored = v.read-add c.added c.id c.now id after q.4 fits in
            let s' = cache.add c.added c.id c.now after in
            elim (Bool-cases (id == c.id)) [
              | inr other ↦
                  let stored = rw other at stored in
                  rw (e, other)
                    (prints-IsSpaced_from cs last c.added s' (same_read last after s' stored kept)
                      still q.6)
              | inl own ↦
                  let stored = rw own at stored in
                  let there =
                    prints-IsSpaced_from cs (some c.now) c.added s' (c.added, q.3, stored) q.3
                      q.6 in
                  rw (e, own)
                    (spaced d last c.now (prints cache id cs s')
                      (due last start c cs s h past q ((==_iff id c.id).0 own) found) there)
            ]
      ]

  -- Of calls one after the other, with at most as many ids as the cache has entries, each of which
  -- asks for a duration of at least `d` for the id, where `d` is at most 24 hours, and nothing of
  -- the id in the cache before: the prints of the id are at least `d` apart.
  pub prints-IsSpaced :
      (cs : List LimitedCall) (start : ℕ) (s : cache.State)
      → v.read s id ≡ none
      → IsSequence d id start cs
      → IsSpaced d none (prints cache id cs s)
  prints-IsSpaced cs start s h q = prints-IsSpaced_from cs none start s h tt q
