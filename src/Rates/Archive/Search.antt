-- ===== src/Rates/Archive/Search.antt =====
-- The binary search of `asOf` of historical-rates.ts.
use infra_billing.Base.{
  Bool-cases, List, Option, [], arith, get_elem?, inl, inr, leb, leb→le, length, ltb, ltb→lt, none,
  refl, some, suc, zero, ℕ, ◌+◌, ◌-◌, ◌/◌, ◌<◌, ◌∷◌, ◌≡◌, ◌≤◌,
}
use infra_billing.Rates.Archive.{CodeSeries, search_days, as_of}

-- The days are in order: what stands later is not older.
abbrev pub InOrder : List ℕ → Type 0
InOrder days = (i j d e : ℕ) → i ≤ j → get_elem? days i ≡ some d → get_elem? days j ≡ some e → d ≤ e

-- `i` is the last position whose day is not after `day`.
pub record IsNewest (days : List ℕ) (day i : ℕ) : Type 0 where
  pub date : ℕ
  pub found : get_elem? days i ≡ some date
  pub not_after : date ≤ day
  pub later : (j e : ℕ) → i < j → get_elem? days j ≡ some e → day < e

get_elem?-some : (days : List ℕ) (i : ℕ) → i < length days → (d : ℕ) × (get_elem? days i ≡ some d)
get_elem?-some [] i h = elim h [ ]
get_elem?-some (x ∷ xs) zero h = (x, refl)
get_elem?-some (x ∷ xs) (suc i) h = get_elem?-some xs i (omega arith)

get_elem?-lt : (days : List ℕ) (i d : ℕ) → get_elem? days i ≡ some d → i < length days
get_elem?-lt [] i d e = cc
get_elem?-lt (x ∷ xs) zero d e = omega arith
get_elem?-lt (x ∷ xs) (suc i) d e = omega (arith, get_elem?-lt xs i d e)

module _ (days : List ℕ) (day : ℕ) (ordered : InOrder days) where
  -- What holds at the head of the loop: the day of `found` is not after `day`, the days from `stop`
  -- on are, and only days behind `found` are left to look at.
  record Narrows (lo stop found : ℕ) : Type 0 where
    bound : stop ≤ length days
    date : ℕ
    has : get_elem? days found ≡ some date
    not_after : date ≤ day
    next : lo ≤ found + 1
    below : found < stop
    after : (j e : ℕ) → stop ≤ j → get_elem? days j ≡ some e → day < e

  done : (lo stop found : ℕ) → Narrows lo stop found → stop ≤ lo → IsNewest days day found
  done lo stop found n h = record {
    date = n.date;
    found = n.has;
    not_after = n.not_after;
    later = λ j e lt eq. n.after j e (omega arith) eq;
  }

  go_up :
      (lo stop found mid d : ℕ)
      → Narrows lo stop found
      → mid < stop
      → get_elem? days mid ≡ some d
      → d ≤ day
      → Narrows (mid + 1) stop mid
  go_up lo stop found mid d n lt e le = record {
    bound = n.bound;
    date = d;
    has = e;
    not_after = le;
    next = omega arith;
    below = lt;
    after = n.after;
  }

  go_down :
      (lo stop found mid d : ℕ)
      → Narrows lo stop found
      → mid < stop
      → get_elem? days mid ≡ some d
      → day < d
      → Narrows lo mid found
  go_down lo stop found mid d n lt e gt = record {
    bound = omega arith;
    date = n.date;
    has = n.has;
    not_after = n.not_after;
    next = n.next;
    below = elim (Bool-cases (ltb found mid)) [
      | inl p ↦ ltb→lt _ _ p
      | inr p ↦ absurd (omega (arith, ordered mid found d n.date (ground arith) e n.has))
    ];
    after = λ j x le eq. omega (arith, ordered mid j d x le e eq);
  }

  search_days-IsNewest :
      (fuel lo stop found : ℕ)
      → stop - lo ≤ fuel
      → Narrows lo stop found
      → IsNewest days day (search_days fuel days day lo stop found)
  unfolding search_days
  search_days-IsNewest zero lo stop found h n = done lo stop found n (omega arith)
  search_days-IsNewest (suc fuel) lo stop found h n = elim (Bool-cases (ltb lo stop)) [
    | inr e ↦ rw e (done lo stop found n (ground arith))
    | inl e ↦
        let lt = ltb→lt _ _ e in
        let (d, eq) = get_elem?-some days mid (omega (arith, n.bound)) in
        elim (Bool-cases (leb d day)) [
          | inl p ↦
              rw (e, eq, p)
                (search_days-IsNewest fuel (mid + 1) stop mid (omega arith)
                  (go_up lo stop found mid d n (omega arith) eq (leb→le _ _ p)))
          | inr p ↦
              rw (e, eq, p)
                (search_days-IsNewest fuel lo mid found (omega arith)
                  (go_down lo stop found mid d n (omega arith) eq (ground arith)))
        ]
  ]
    where
      mid : ℕ
      mid = (lo + (stop - 1)) / 2

  start : (d : ℕ) → get_elem? days 0 ≡ some d → d ≤ day → Narrows 0 (length days) 0
  start d e h = record {
    bound = omega arith;
    date = d;
    has = e;
    not_after = h;
    next = omega arith;
    below = get_elem?-lt days 0 d e;
    after = λ j x le eq. absurd (omega (arith, get_elem?-lt days j x eq));
  }

-- What `asOf` answers on a series: nothing if it is empty; the oldest rate for a day before the
-- first; and else the rate at the last position whose day is not after the one asked for.
pub data AsOf {D : Type 0} (s : CodeSeries D) (day : ℕ) (r : Option D) : Type 0 where
  no_days : s.days ≡ [] → r ≡ none → AsOf s day r
  before_all :
      (first : ℕ)
      → get_elem? s.days 0 ≡ some first
      → day < first
      → r ≡ get_elem? s.rates 0
      → AsOf s day r
  newest : (i : ℕ) → IsNewest s.days day i → r ≡ get_elem? s.rates i → AsOf s day r

module _ {D : Type 0} where
  -- On a series in order of date, `asOf` answers the newest rate on or before the day, the oldest
  -- rate for an earlier day, and nothing only on an empty series.
  pub as_of-AsOf : (s : CodeSeries D) (day : ℕ) → InOrder s.days → AsOf s day (as_of s day)
  unfolding as_of
  as_of-AsOf s day ordered = go s.days refl
    where
      go : (days : List ℕ) → s.days ≡ days → AsOf s day (as_of s day)
      go [] e = no_days e (rw e refl)
      go (d ∷ ds) e =
          let first : get_elem? s.days 0 ≡ some d = rw e refl in
          let n = length s.days in
          let i = search_days n s.days day 0 n 0 in
          elim (Bool-cases (ltb day d)) [
            | inl p ↦ before_all d first (ltb→lt _ _ p) (rw (e, p) refl)
            | inr p ↦
                newest i
                  (search_days-IsNewest s.days day ordered n 0 n 0 (omega arith)
                    (start s.days day ordered d first (ground arith)))
                  (rw (e, p) refl)
          ]
