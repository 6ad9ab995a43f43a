-- ===== src/Auth/Challenge.antt =====
-- challenge.store.ts: WebAuthn challenges, one for each kind of ceremony.
use infra_billing.Base.{
  Bool, List, Option, Str, [], arith, false, if◌then◌else◌, ltb, none, not, refl, some, true, ℕ,
  ◌&&◌, ◌+◌, ◌<◌, ◌∷◌, ◌≡◌, ◌≤◌,
}

pub data Kind : Type 0 where
  register login : Kind

pub record Entry : Type 0 where
  pub challenge : Str
  pub expires : ℕ

-- `store`, a map from the kinds.
pub record ChallengeStore : Type 0 where
  pub on_register : Option Entry
  pub on_login : Option Entry

abbrev pub ttl_ms : ℕ
ttl_ms = 60000

abbrev pub entry_of : Kind → ChallengeStore → Option Entry
entry_of register s = s.on_register
entry_of login s = s.on_login

abbrev pub set_entry : Kind → Option Entry → ChallengeStore → ChallengeStore
set_entry register e s = record s { on_register = e }
set_entry login e s = record s { on_login = e }

-- `put`, at the time `now`.
unfoldable pub put : Kind → Str → ℕ → ChallengeStore → ChallengeStore
put kind challenge now =
    set_entry kind (some (record { challenge = challenge; expires = now + ttl_ms }))

abbrev pub live : ℕ → Option Entry → Option Str
live now none = none
live now (some e) = if ltb e.expires now then none else some e.challenge

-- `take`, at the time `now`.
unfoldable pub take : Kind → ℕ → ChallengeStore → Option Str × ChallengeStore
take kind now s = (live now (entry_of kind s), set_entry kind none s)

-- The calls of the two ceremonies, each with its time.
pub data Call : Type 0 where
  putting : Kind → Str → ℕ → Call
  taking : Kind → ℕ → Call

-- What the calls answer, and the store after them.
unfoldable pub run : List Call → ChallengeStore → List (Option Str) × ChallengeStore
unfolding put take
run [] s = ([], s)
run (putting k c t ∷ cs) s = run cs (put k c t s)
run (taking k t ∷ cs) s = let (r, s') = take k t s in let (rs, s'') = run cs s' in (r ∷ rs, s'')

abbrev pub same_kind : Kind → Kind → Bool
same_kind register register = true
same_kind login login = true
same_kind _ _ = false

-- No call of the list puts a challenge of that kind.
abbrev pub puts_none : Kind → List Call → Bool
puts_none k [] = true
puts_none k (putting j c t ∷ cs) = not (same_kind j k) && puts_none k cs
puts_none k (taking j t ∷ cs) = puts_none k cs

-- Until the next challenge of its kind is put, a kind without one has none.
stays_empty :
    (k : Kind) (cs : List Call) (s : ChallengeStore)
    → puts_none k cs ≡ true
    → entry_of k s ≡ none
    → entry_of k (run cs s).1 ≡ none
unfolding run
stays_empty k [] s h e = e
stays_empty register (putting register c t ∷ cs) s h e = cc
stays_empty register (putting login c t ∷ cs) s h e = stays_empty register cs _ h e
stays_empty login (putting register c t ∷ cs) s h e = stays_empty login cs _ h e
stays_empty login (putting login c t ∷ cs) s h e = cc
stays_empty register (taking register t ∷ cs) s h e = stays_empty register cs _ h refl
stays_empty register (taking login t ∷ cs) s h e = stays_empty register cs _ h e
stays_empty login (taking register t ∷ cs) s h e = stays_empty login cs _ h e
stays_empty login (taking login t ∷ cs) s h e = stays_empty login cs _ h refl

-- A challenge is taken at most once: whatever calls come between, a second `take` of its kind finds
-- nothing, unless another challenge of that kind has been put meanwhile.
pub take-once :
    (k : Kind) (s : ChallengeStore) (first second : ℕ) (between : List Call)
    → puts_none k between ≡ true
    → (take k second (run between (take k first s).1).1).0 ≡ none
unfolding take
take-once k s first second between h =
    rw (stays_empty k between (set_entry k none s) h (emptied k)) refl
  where
    emptied : (k : Kind) → entry_of k (set_entry k none s) ≡ none
    emptied register = refl
    emptied login = refl

-- Every call of the list is of the other kind.
abbrev pub leaves : Kind → List Call → Bool
leaves k [] = true
leaves k (putting j c t ∷ cs) = not (same_kind j k) && leaves k cs
leaves k (taking j t ∷ cs) = not (same_kind j k) && leaves k cs

-- The calls of one kind do not touch the challenge of the other.
entry_of-run :
    (k : Kind) (cs : List Call) (s : ChallengeStore)
    → leaves k cs ≡ true
    → entry_of k (run cs s).1 ≡ entry_of k s
unfolding run
entry_of-run k [] s h = refl
entry_of-run register (putting register c t ∷ cs) s h = cc
entry_of-run register (putting login c t ∷ cs) s h = entry_of-run register cs _ h
entry_of-run login (putting register c t ∷ cs) s h = entry_of-run login cs _ h
entry_of-run login (putting login c t ∷ cs) s h = cc
entry_of-run register (taking register t ∷ cs) s h = cc
entry_of-run register (taking login t ∷ cs) s h = entry_of-run register cs _ h
entry_of-run login (taking register t ∷ cs) s h = entry_of-run login cs _ h
entry_of-run login (taking login t ∷ cs) s h = cc

-- A challenge that was put is found up to 60000 milliseconds later and not after that, whatever was
-- in the store before and whatever calls of the other kind come between, whatever their times.
pub take-put :
    (k : Kind) (c : Str) (s : ChallengeStore) (now later : ℕ) (between : List Call)
    → leaves k between ≡ true
    → (later ≤ now + 60000 → (take k later (run between (put k c now s)).1).0 ≡ some c)
      × (now + 60000 < later → (take k later (run between (put k c now s)).1).0 ≡ none)
unfolding take put
take-put register c s now later between h =
    rw (entry_of-run register between (put register c now s) h) (ground arith, ground arith)
take-put login c s now later between h =
    rw (entry_of-run login between (put login c now s) h) (ground arith, ground arith)
