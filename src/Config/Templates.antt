-- ===== src/Config/Templates.antt =====
-- The scan ends, and a configuration that was validated fails only for want of a variable.
use Prim.Native.Char.{Char}
use Prim.Native.String as Text
use vkit_orbit.Base.{
  ℕ, zero, suc, ◌<◌, String, ◌≡◌, ◌≢◌, refl, Option, none, some, List, inl, inr, arith,
  Option-cases,
}
use vkit_orbit.Config.Scan.{
  Outcome, done, refused, stuck, Environment, after_escape, after_open, split_close, closed, opened,
  unescaped, variable, resolve, replaced, Piece, finished, escaped, plain, unclosed, template,
  piece, both, made, read, scan, size, scan_all,
}

size-after_escape : (value rest : String) → after_escape value ≡ some rest → size rest < size value
size-after_escape Text.[] rest h = absurd (cc h)
size-after_escape (Text.◌∷◌ a Text.[]) rest h = absurd (cc h)
size-after_escape (Text.◌∷◌ a (Text.◌∷◌ b Text.[])) rest h = absurd (cc h)
size-after_escape (Text.◌∷◌ a (Text.◌∷◌ b (Text.◌∷◌ c s))) rest h = ground arith

size-after_open : (value rest : String) → after_open value ≡ some rest → size rest < size value
size-after_open Text.[] rest h = absurd (cc h)
size-after_open (Text.◌∷◌ a Text.[]) rest h = absurd (cc h)
size-after_open (Text.◌∷◌ a (Text.◌∷◌ b s)) rest h = ground arith

size-split_close :
    (value body rest : String) → split_close value ≡ some (body, rest) → size rest < size value
size-split_close Text.[] body rest h = absurd (cc h)
size-split_close (Text.◌∷◌ c s) body rest h = elim (Option-cases (split_close s)) [
  | inl e ↦ ground arith
  | inr ((b, r), e) ↦ ground (arith, size-split_close s b r e)
]

-- Every piece leaves less to read.
abbrev IsSmaller : ℕ → Piece → Type 0
IsSmaller n finished = Unit
IsSmaller n (escaped rest) = size rest < n
IsSmaller n (plain c rest) = size rest < n
IsSmaller n unclosed = Unit
IsSmaller n (template body rest) = size rest < n

closed-IsSmaller :
    (n : ℕ) (value : String) (o : Option (String × String))
    → split_close value ≡ o
    → size value < n
    → IsSmaller n (closed o)
closed-IsSmaller n value none e h = tt
closed-IsSmaller n value (some (body, rest)) e h = omega (arith, size-split_close value body rest e)

opened-IsSmaller :
    (c : Char) (s : String) (o : Option String)
    → after_open (Text.◌∷◌ c s) ≡ o
    → IsSmaller (suc (size s)) (opened c s o)
opened-IsSmaller c s none e = omega arith
opened-IsSmaller c s (some inner) e =
    closed-IsSmaller (suc (size s)) inner (split_close inner) refl
      (size-after_open (Text.◌∷◌ c s) inner e)

unescaped-IsSmaller :
    (c : Char) (s : String) (o : Option String)
    → after_escape (Text.◌∷◌ c s) ≡ o
    → IsSmaller (suc (size s)) (unescaped c s o)
unescaped-IsSmaller c s (some rest) e = size-after_escape (Text.◌∷◌ c s) rest e
unescaped-IsSmaller c s none e = opened-IsSmaller c s (after_open (Text.◌∷◌ c s)) refl

piece-IsSmaller : (value : String) → IsSmaller (size value) (piece value)
unfolding piece
piece-IsSmaller Text.[] = tt
piece-IsSmaller (Text.◌∷◌ c s) = unescaped-IsSmaller c s (after_escape (Text.◌∷◌ c s)) refl

both-ended :
    {A B C : Type 0} (f : A → B → C) (a : Outcome A) (b : Outcome B)
    → a ≢ stuck
    → b ≢ stuck
    → both f a b ≢ stuck
unfolding both
both-ended f (done a) (done b) h k = λ e. cc e
both-ended f (done a) (refused at reason) h k = λ e. cc e
both-ended f (done a) stuck h k = λ _. k refl
both-ended f (refused at reason) b h k = λ e. cc e
both-ended f stuck b h k = λ _. h refl

made-ended : {A B : Type 0} (f : A → B) (a : Outcome A) → a ≢ stuck → made f a ≢ stuck
unfolding made
made-ended f (done a) h = λ e. cc e
made-ended f (refused at reason) h = λ e. cc e
made-ended f stuck h = λ _. h refl

done-ended : {A : Type 0} (a : A) → done a ≢ stuck
done-ended a = λ e. cc e

module _ (environment : Option Environment) (path : List String) where
  read-same :
      (j k : String → Outcome String) (n : ℕ) (p : Piece)
      → IsSmaller n p
      → ((rest : String) → size rest < n → j rest ≡ k rest)
      → read environment path j p ≡ read environment path k p
  unfolding read
  read-same j k n finished h same = refl
  read-same j k n (escaped rest) h same = rw (same rest h) refl
  read-same j k n (plain c rest) h same = rw (same rest h) refl
  read-same j k n unclosed h same = refl
  read-same j k n (template body rest) h same = rw (same rest h) refl

  scan-same :
      (m n : ℕ) (value : String)
      → size value < m
      → size value < n
      → scan environment path m value ≡ scan environment path n value
  unfolding scan
  scan-same zero n value h k = absurd (omega arith)
  scan-same (suc m) zero value h k = absurd (omega arith)
  scan-same (suc m) (suc n) value h k =
      read-same _ _ (size value) (piece value) (piece-IsSmaller value)
        λ rest less. scan-same m n rest (omega arith) (omega arith)

  resolve-ended :
      (name : String) (default : Option String) → resolve environment path name default ≢ stuck
  resolve-ended name default = ground (arith, Option-cases environment)

  replaced-ended :
      (found : Option (String × Option String)) → replaced environment path found ≢ stuck
  replaced-ended none = λ e. cc e
  replaced-ended (some (name, default)) = resolve-ended name default

  read-ended :
      (k : String → Outcome String) (n : ℕ) (p : Piece)
      → IsSmaller n p
      → ((rest : String) → size rest < n → k rest ≢ stuck)
      → read environment path k p ≢ stuck
  unfolding read
  read-ended k n finished h ended = done-ended ""
  read-ended k n (escaped rest) h ended = both-ended _ _ _ (done-ended "${") (ended rest h)
  read-ended k n (plain c rest) h ended = both-ended _ _ _ (done-ended _) (ended rest h)
  read-ended k n unclosed h ended = λ e. cc e
  read-ended k n (template body rest) h ended =
      both-ended _ _ _ (replaced-ended (variable body)) (ended rest h)

  scan-ended : (n : ℕ) (value : String) → size value < n → scan environment path n value ≢ stuck
  unfolding scan
  scan-ended zero value h = absurd (omega arith)
  scan-ended (suc n) value h =
      read-ended _ (size value) (piece value) (piece-IsSmaller value)
        λ rest less. scan-ended n rest (omega arith)

  -- The loop of `scan` ends: in as many rounds as the value has characters and one more, it returns a
  -- text or throws, and further rounds give the same.
  pub scan_ends :
      (n : ℕ) (value : String)
      → size value < n
      → (scan environment path n value ≡ scan_all environment path value)
        × (scan environment path n value ≢ stuck)
  unfolding scan_all
  scan_ends n value h = (scan-same n (suc (size value)) value h (omega arith), scan-ended n value h)
