-- ===== src/Logger/Count.antt =====
-- How many messages of a logger are in a part of the system.
use zipologger.Base.{
  ℕ, zero, suc, ◌+◌, ◌-◌, ◌≡◌, sym, ap, arith, some, none, Option, some-injective,
}
use zipologger.Base.{Bool-cases, inl, inr, ◌==◌, ==_iff, flag}
use zipologger.Base.{List, [], ◌∷◌, ◌++◌, >>=-eq-some}
use zipologger.Logger.{Message, update, take_out}

-- How many messages of logger `l` are in a list.
abbrev pub count : ℕ → List Message → ℕ
count l [] = 0
count l (m ∷ ms) = flag (l == m.logger) + count l ms

pub count-append : (l : ℕ) (ms ns : List Message) → count l (ms ++ ns) ≡ count l ms + count l ns
count-append l [] ns = omega arith
count-append l (m ∷ ms) ns = omega (arith, count-append l ms ns)

pub take_out-count :
    (i : ℕ) (ms : List Message) (m : Message) (rest : List Message)
    → take_out i ms ≡ some (m, rest)
    → (l : ℕ) → count l ms ≡ flag (l == m.logger) + count l rest
take_out-count i [] m rest h l = cc
take_out-count zero (x ∷ ms) m rest h l =
    let e = some-injective (x, ms) (m, rest) h in
    ap (λ (p : Message × List Message). flag (l == p.0.logger) + count l p.1) e
take_out-count (suc i) (x ∷ ms) m rest h l =
    let p = >>=-eq-some (take_out i ms) (λ q. some (q.0, x ∷ q.1)) {b = (m, rest)} h in
    let e = some-injective (p.0.0, x ∷ p.0.1) (m, rest) p.2 in
    let there = take_out-count i ms p.0.0 p.0.1 p.1 l in
    let here : flag (l == p.0.0.logger) + count l (x ∷ p.0.1)
        ≡ flag (l == m.logger) + count l rest =
      ap (λ (q : Message × List Message). flag (l == q.0.logger) + count l q.1) e in
    omega arith

pub raised :
    (f : ℕ → ℕ) (k l n p : ℕ) → f l ≡ n + p → update f k (f k + 1) l ≡ flag (l == k) + n + p
raised f k l n p h = elim (Bool-cases (l == k)) [
  | inl e ↦ let same : f k ≡ f l = ap f (sym ((==_iff l k).0 e)) in rw e (omega arith)
  | inr e ↦ rw e (omega arith)
]

pub lowered : (f : ℕ → ℕ) (k l n : ℕ) → f l ≡ flag (l == k) + n → update f k (f k - 1) l ≡ n
lowered f k l n h = elim (Bool-cases (l == k)) [
  | inl e ↦
      let same : f k ≡ f l = ap f (sym ((==_iff l k).0 e)) in
      let h' = rw e at h in rw e (omega arith)
  | inr e ↦ let h' = rw e at h in rw e (omega arith)
]

-- The message that the goroutine has taken, if it is one of logger `l`.
abbrev pub held : ℕ → Option Message → ℕ
held l none = 0
held l (some m) = flag (l == m.logger)
